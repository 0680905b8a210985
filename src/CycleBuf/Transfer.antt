-- ===== src/CycleBuf/Transfer.antt =====
-- Reads and writes of the ring as a first-in-first-out queue, also when the caller sleeps and
-- other tasks run in between.
use mathlib.Core.List.{append-nil}
use mos.Base.{
  ℕ, ◌+◌, ◌-◌, ◌*◌, ◌^◌, [], ◌≤◌, ◌<◌, ◌≡◌, refl, ap, ◌∙◌, sym, ◌⊎◌, inl, inr, List, ◌++◌, ltb,
  ◌==◌, if◌then◌else◌, arith, length, take, length-take, Bool-cases, Bool, true, min, count, sub32,
}
use mos.CycleBuf.{CycleBuf, copy_in, copy_out, create, create_named, page_size, create_with, Wake}
use mos.CycleBuf.Inv.{IsValid, contents}
use mos.CycleBuf.Copy.{copy_in_lem, copy_out_lem}
use mos.CycleBuf.Ops.{announce, put_round, put_record, get_round, flush}

-- A new buffer, anonymous or named, of at most 2^31 bytes keeps the invariant and is empty; 0 pages
-- stand for one.
pub create-IsValid :
    (storage : List ℕ) (pages : ℕ)
    → pages ≤ 2 ^ 19
    → length storage ≡ (if pages == 0 then 1 else pages) * page_size
    → IsValid (create storage pages)
      × IsValid (create_named storage pages)
      × (contents (create storage pages) ≡ [])
      × (contents (create_named storage pages) ≡ [])
unfolding create create_named
create-IsValid storage pages few size = (fresh 1 2, fresh 0 1, refl, refl)
  where
    fresh : (ends refs : ℕ) → IsValid (create_with ends refs storage pages)
    fresh ends refs = record {
      storage = ground arith;
      small = ground arith;
      write_in = ground arith;
      read_in = ground arith;
      fits = ground arith;
      ends = ground arith;
    }

-- `cyb_flush` empties the buffer, keeps the invariant and arms the event of the readers.
pub flush_lem :
    {b : CycleBuf}
    → IsValid b
    → IsValid (flush b) × (contents (flush b) ≡ []) × ((flush b).read_event ≡ 1)
unfolding flush
flush_lem {b} v = elim (Bool-cases (b.len == b.buf_size)) [
  | inl full ↦ rw full (emptied v, refl, refl)
  | inr room ↦ rw room (emptied v, refl, refl)
]
  where
    emptied :
        {ws : List Wake} {w : ℕ}
        → IsValid b
        → IsValid (record b {
          read_idx = b.write_idx;
          len = 0;
          read_event = 1;
          write_event = w;
          wakes = ws;
        })
    emptied v = record {
      storage = v.storage;
      small = v.small;
      write_in = v.write_in;
      read_in = v.write_in;
      fits = omega arith;
      ends = ground (arith, v.write_in);
    }

announce_lem :
    (was_empty any : Bool) {b : CycleBuf}
    → IsValid b
    → IsValid (announce was_empty any b) × (contents (announce was_empty any b) ≡ contents b)
unfolding announce
announce_lem was_empty any v = ground arith

-- A round of `cyb_putbuf` takes as many bytes as fit, appends them in order, and keeps the invariant.
pub put_round_lem :
    {b : CycleBuf} (src : List ℕ)
    → IsValid b
    → let (i, b') = put_round b src in
      IsValid b'
      × (i ≡ min (length src) (b.buf_size - b.len))
      × (contents b' ≡ contents b ++ take i src)
unfolding put_round
put_round_lem {b} src v = (announced.0, amount, announced.1 ∙ filled.1)
  where
    i : ℕ
    i = (put_round b src).0

    amount : i ≡ min (length src) (b.buf_size - b.len)
    amount = ground arith

    into : CycleBuf
    into = if i == 0 then b else copy_in b (take i src)

    filled : IsValid into × (contents into ≡ contents b ++ take i src)
    filled = elim (Bool-cases (i == 0)) [
      | inl none_fit ↦
          let e : i ≡ 0 = ground arith in rw none_fit (v, sym (rw e (append-nil (contents b))))
      | inr fits ↦
          let c = copy_in_lem (take i src) v (omega (arith, length-take i src, amount)) in
          rw fits (c.0, c.1)
    ]

    announced : IsValid (put_round b src).1 × (contents (put_round b src).1 ≡ contents into)
    announced = announce_lem (b.len == 0) (ltb 0 i) filled.0

-- `cyb_put_record` never splits a record: it appends all of it and returns its length, or changes
-- nothing and returns 0 because the record is empty or does not fit.
pub put_record_lem :
    {b : CycleBuf} (src : List ℕ)
    → IsValid b
    → let (r, b') = put_record b src in
      (((0 < length src) × (b.len + length src ≤ b.buf_size))
        × (r ≡ count (length src))
        × (contents b' ≡ contents b ++ src)
        × IsValid b')
      ⊎ (((length src ≡ 0) ⊎ (b.buf_size < b.len + length src)) × (r ≡ count 0) × (b' ≡ b))
unfolding put_record
put_record_lem {b} src v = elim (Bool-cases (length src == 0)) [
  | inl none_given ↦ rw none_given (inr (inl (ground arith), refl, refl))
  | inr given ↦ elim (Bool-cases (ltb (sub32 b.buf_size b.len) (length src))) [
    | inl full ↦ rw (given, full) (inr (inr (ground arith), refl, refl))
    | inr fits ↦
        let room : b.len + length src ≤ b.buf_size = ground arith in
        let c = copy_in_lem src v room in
        let a = announce_lem (b.len == 0) true c.0 in
        rw (given, fits) (inl ((ground arith, room), refl, a.1 ∙ c.1, a.0))
  ]
]

-- The part of `cyb_getbuf` behind its wait delivers the oldest bytes, as many as are there up to the
-- number asked for, and keeps the invariant.
pub get_round_lem :
    {b : CycleBuf} (n : ℕ)
    → IsValid b
    → let (out, b') = get_round b n in
      IsValid b' × (length out ≡ min n b.len) × (contents b ≡ out ++ contents b')
unfolding get_round
get_round_lem {b} n v =
    (kept.0, taken.2 ∙ amount, taken.1 ∙ ap (λ l. (get_round b n).0 ++ l) (sym kept.1))
  where
    k : ℕ
    k = if ltb b.len n then b.len else n

    amount : k ≡ min n b.len
    amount = ground arith

    mid : CycleBuf
    mid = (copy_out b k).1

    all :
        IsValid mid
        × (contents b ≡ (copy_out b k).0 ++ contents mid)
        × (length (copy_out b k).0 ≡ k)
        × (mid.len ≡ b.len - k)
    all = copy_out_lem k v (ground arith)

    taken :
        IsValid mid
        × (contents b ≡ (get_round b n).0 ++ contents mid)
        × (length (get_round b n).0 ≡ k)
    taken = (all.0, all.1, all.2)

    kept : IsValid (get_round b n).1 × (contents (get_round b n).1 ≡ contents mid)
    kept = let m = all.0 in ground arith
