-- ===== src/CycleBuf/Lifetime.antt =====
-- When the buffer is freed: the counts of src/lib/impl/cyclebuf.c over any history of opens and
-- closes. `held` is the number of references of a device that has registered a named FIFO.
use mos.Base.{ℕ, ◌+◌, ◌-◌, ◌<◌, ◌≡◌, List, ◌==◌, arith, u32_mod}
use mos.CycleBuf.{CycleBuf, create, create_named, destroy}
use mos.CycleBuf.Ops.{writer_open, reader_open, writer_close, reader_close}

pub record Held : Type 0 where
  pub device : ℕ
  pub ring : CycleBuf

-- A caller opens an end only of a live buffer, and closes only what it holds.
pub data Step : Held → Held → Type 0 where
  opens_writer :
      (h : Held)
      → 0 < h.ring.ref_count
      → h.ring.ref_count + 1 < u32_mod
      → Step h (record h { ring = writer_open h.ring })
  opens_reader :
      (h : Held)
      → 0 < h.ring.ref_count
      → h.ring.ref_count + 1 < u32_mod
      → Step h (record h { ring = reader_open h.ring })
  closes_writer :
      (h : Held) → 0 < h.ring.writer_count → Step h (record h { ring = writer_close h.ring })
  closes_reader :
      (h : Held) → 0 < h.ring.reader_count → Step h (record h { ring = reader_close h.ring })
  unregisters :
      (h : Held) → 0 < h.device → Step h (record h { device = h.device - 1; ring = destroy h.ring })

pub data Reach (h : Held) : Held → Type 0 where
  here : Reach h h
  next : {i j : Held} → Reach h i → Step i j → Reach h j

-- Each open end and each device reference is counted once, and no count left means freed.
pub record IsCounted (h : Held) : Type 0 where
  pub refs : h.ring.ref_count ≡ h.ring.writer_count + h.ring.reader_count + h.device
  pub small : h.ring.ref_count < u32_mod
  pub gone : h.ring.freed ≡ (h.ring.ref_count == 0)

Step-IsCounted : {h i : Held} → Step h i → IsCounted h → IsCounted i
unfolding writer_open reader_open writer_close reader_close destroy
Step-IsCounted (opens_writer h live room) c = ground arith
Step-IsCounted (opens_reader h live room) c = ground arith
Step-IsCounted (closes_writer h some_open) c = ground arith
Step-IsCounted (closes_reader h some_open) c = ground arith
Step-IsCounted (unregisters h some_held) c = ground arith

Reach-IsCounted : {h i : Held} → Reach h i → IsCounted h → IsCounted i
Reach-IsCounted here c = c
Reach-IsCounted (next r s) c = Step-IsCounted s (Reach-IsCounted r c)

abbrev pub anonymous : List ℕ → ℕ → Held
anonymous storage pages = record { device = 0; ring = create storage pages }

abbrev pub named : List ℕ → ℕ → Held
named storage pages = record { device = 1; ring = create_named storage pages }

-- After any history of opens and closes of an anonymous pipe's buffer, it has been freed exactly if
-- no reader and no writer is left.
pub freed_anonymous :
    (storage : List ℕ) (pages : ℕ) {h : Held}
    → Reach (anonymous storage pages) h
    → h.ring.freed ≡ ((h.ring.writer_count + h.ring.reader_count + h.device) == 0)
unfolding create
freed_anonymous storage pages r = let c = Reach-IsCounted r (ground arith) in ground arith

-- A named FIFO's buffer has been freed exactly if no reader, no writer and no device is left.
pub freed_named :
    (storage : List ℕ) (pages : ℕ) {h : Held}
    → Reach (named storage pages) h
    → h.ring.freed ≡ ((h.ring.writer_count + h.ring.reader_count + h.device) == 0)
unfolding create_named
freed_named storage pages r = let c = Reach-IsCounted r (ground arith) in ground arith
