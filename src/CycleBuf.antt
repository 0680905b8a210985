-- ===== src/CycleBuf.antt =====
-- src/lib/impl/cyclebuf.c, the byte ring behind pipes, named FIFOs and terminals.
-- The state is `struct _cy_buf`; an operation returns the new state. The two condition
-- variables are kept as their lock words (0 fired, 1 armed, src/lib/impl/lock.c), and every
-- wakeup that the code publishes is written to `wakes`, newest first. Spinlocks make each
-- operation one step, so they have no state here.
pub mod Inv
pub mod Window
pub mod Copy
pub mod Ops
pub mod Transfer
pub mod Sleep
pub mod Blocking
pub mod Lifetime
mod Tests
use mos.Base.{
  ℕ, ◌+◌, ◌-◌, ◌*◌, ◌%◌, Bool, true, false, List, [], ◌∷◌, ◌++◌, ltb, leb, ◌==◌, if◌then◌else◌,
  length, take, drop, set, get_or, tabulate, add32, sub32, u32_mod,
}

abbrev pub page_size : ℕ
page_size = 4096

abbrev pub default_buf_pages : ℕ
default_buf_pages = 1

pub data Wake : Type 0 where
  one_reader one_writer poll_readers poll_writers : Wake

pub record CycleBuf : Type 0 where
  pub len : ℕ
  pub write_idx : ℕ
  pub read_idx : ℕ
  pub read_event : ℕ
  pub write_event : ℕ
  pub reader_sequence : ℕ
  pub writer_sequence : ℕ
  pub writer_count : ℕ
  pub reader_count : ℕ
  pub ref_count : ℕ
  pub buf : List ℕ
  pub buf_size : ℕ
  pub freed : Bool
  pub wakes : List Wake

-- The storage is what `vm_alloc` returned.
abbrev pub create_with : ℕ → ℕ → List ℕ → ℕ → CycleBuf
create_with ends refs storage pages = record {
  len = 0;
  write_idx = 0;
  read_idx = 0;
  read_event = 1;
  write_event = 0;
  reader_sequence = 0;
  writer_sequence = 0;
  writer_count = ends;
  reader_count = ends;
  ref_count = refs;
  buf = storage;
  buf_size = (if pages == 0 then default_buf_pages else pages) * page_size % u32_mod;
  freed = false;
  wakes = [];
}

unfoldable pub create : List ℕ → ℕ → CycleBuf
create storage pages = create_with 1 2 storage pages

unfoldable pub create_named : List ℕ → ℕ → CycleBuf
create_named storage pages = create_with 0 1 storage pages

unfoldable pub destroy : CycleBuf → CycleBuf
destroy b =
    let refs = sub32 b.ref_count 1 in
    if refs == 0 then record b { ref_count = refs; freed = true } else record b { ref_count = refs }

-- `cond_notify` on the event of the readers or of the writers, and `cyb_notify_poll`.
abbrev pub notify_readers : CycleBuf → CycleBuf
notify_readers b = record b { read_event = 0; wakes = one_reader ∷ b.wakes }

abbrev pub notify_writers : CycleBuf → CycleBuf
notify_writers b = record b { write_event = 0; wakes = one_writer ∷ b.wakes }

abbrev pub notify_poll : CycleBuf → Wake → CycleBuf
notify_poll b w = record b { wakes = w ∷ b.wakes }

-- `memcpy(buf + off, src, |src|)` and `memcpy(dst, buf + off, n)`.
pub blit : List ℕ → ℕ → List ℕ → List ℕ
blit buf off [] = buf
blit buf off (x ∷ xs) = blit (set buf off x) (off + 1) xs

abbrev pub slice : List ℕ → ℕ → ℕ → List ℕ
slice buf off n = tabulate n (λ k. get_or buf (off + k) 0)

-- The first of the two contiguous transfers.
abbrev pub first_span : ℕ → ℕ → ℕ → ℕ
first_span size idx n = let first = sub32 size idx in if ltb n first then n else first

abbrev pub advance : ℕ → ℕ → ℕ → ℕ
advance size idx n = let next = add32 idx n in if leb size next then sub32 next size else next

unfoldable pub copy_in : CycleBuf → List ℕ → CycleBuf
copy_in b src =
    let first = first_span b.buf_size b.write_idx (length src) in
    let head = blit b.buf b.write_idx (take first src) in
    record b {
      buf = if ltb first (length src) then blit head 0 (drop first src) else head;
      write_idx = advance b.buf_size b.write_idx (length src);
      len = add32 b.len (length src);
    }

unfoldable pub copy_out : CycleBuf → ℕ → List ℕ × CycleBuf
copy_out b n =
    let first = first_span b.buf_size b.read_idx n in
    let head = slice b.buf b.read_idx first in
    (
      if ltb first n then head ++ slice b.buf 0 (n - first) else head,
      record b { read_idx = advance b.buf_size b.read_idx n; len = sub32 b.len n },
    )
