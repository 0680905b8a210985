-- ===== src/CycleBuf/Sleep.antt =====
-- Blocking transfers: whatever readers do while a writer sleeps, and whatever writers do while a
-- reader sleeps, the bytes keep their order and none is lost or made up.
use mathlib.Core.List.{append_assoc, append-nil}
use mos.Base.{
  ℕ, ◌≤◌, ◌<◌, ◌≡◌, refl, ap, ◌∙◌, sym, ◌⊎◌, inl, inr, List, [], ◌∷◌, ◌++◌, ltb, ◌==◌, ◌&&◌,
  if◌then◌else◌, arith, length, Bool-cases, Bool, true, false,
}
use mos.CycleBuf.{CycleBuf, Wake, notify_writers, notify_readers}
use mos.CycleBuf.Inv.{IsValid, contents}
use mos.CycleBuf.Ops.{
  Pause, Woken, fired, interrupted, still, wait_read, wait_write, get_round, GetResult, got,
  get_interrupted, get_asleep, getbuf_loop,
}
use mos.CycleBuf.Transfer.{get_round_lem}

-- The second state has lost bytes at the front only, or gained bytes at the back only.
abbrev pub Drains : CycleBuf → CycleBuf → Type 0
Drains b b' = (IsValid b') × (out : List ℕ) × (contents b ≡ out ++ contents b')

abbrev pub Feeds : CycleBuf → CycleBuf → Type 0
Feeds b b' = (IsValid b') × (new : List ℕ) × (contents b' ≡ contents b ++ new)

-- The other tasks of a pause, or of all pauses, are related to the state that they find by `R`.
abbrev pub Others : (CycleBuf → CycleBuf → Type 0) → Pause → Type 0
Others R p = (b : CycleBuf) → IsValid b → R b (p.before b) × R b (p.during b)

abbrev pub AllOthers : (CycleBuf → CycleBuf → Type 0) → List Pause → Type 0
AllOthers R [] = Unit {0}
AllOthers R (p ∷ ps) = Others R p × AllOthers R ps

abbrev pub After : (CycleBuf → Type 0) → Woken → Type 0
After P (fired b) = P b
After P (interrupted b) = P b
After P (still b) = P b

pub Drains-refl : {b : CycleBuf} → IsValid b → Drains b b
Drains-refl v = (v, [], refl)

pub Feeds-refl : {b : CycleBuf} → IsValid b → Feeds b b
Feeds-refl {b} v = (v, [], sym (append-nil (contents b)))

pub Drains-trans : (a b : CycleBuf) {c : CycleBuf} → Drains a b → Drains b c → Drains a c
Drains-trans a b {c} d e =
    (e.0, d.1 ++ e.1, d.2 ∙ ap (λ l. d.1 ++ l) e.2 ∙ sym (append_assoc d.1 e.1 (contents c)))

Feeds-trans : (a b : CycleBuf) {c : CycleBuf} → Feeds a b → Feeds b c → Feeds a c
Feeds-trans a b d e =
    (e.0, d.1 ++ e.1, e.2 ∙ ap (λ l. l ++ e.1) d.2 ∙ append_assoc (contents a) d.1 e.1)

-- Events and wakeups are no part of the invariant.
IsValid-events :
    {b : CycleBuf} (r w : ℕ) (ws : List Wake)
    → IsValid b
    → IsValid (record b { read_event = r; write_event = w; wakes = ws })
IsValid-events r w ws v = record {
  storage = v.storage;
  small = v.small;
  write_in = v.write_in;
  read_in = v.read_in;
  fits = v.fits;
  ends = v.ends;
}

pub wait_write-Drains :
    (interruptible : Bool) (p : Pause) {b : CycleBuf}
    → Others Drains p
    → IsValid b
    → After (Drains b) (wait_write interruptible p b)
unfolding wait_write
wait_write-Drains interruptible p {b} o v =
    go (b.write_event == 0) (p.signalled && interruptible) ((p.during b).write_event == 0)
  where
    d : Drains b (p.during b)
    d = (o b v).1

    go :
        (x y z : Bool)
        → After (Drains b) (
            if x
            then fired (record b { write_event = 1 })
            else if y
            then interrupted (if z then notify_writers (p.during b) else p.during b)
            else if z
            then fired (record (p.during b) { write_event = 1 })
            else still (p.during b))
    go true y z = (IsValid-events _ 1 _ v, [], refl)
    go false true true = (IsValid-events _ 0 _ d.0, d.1, d.2)
    go false true false = d
    go false false true = (IsValid-events _ 1 _ d.0, d.1, d.2)
    go false false false = d

wait_read-Feeds :
    (interruptible : Bool) (p : Pause) {b : CycleBuf}
    → Others Feeds p
    → IsValid b
    → After (Feeds b) (wait_read interruptible p b)
unfolding wait_read
wait_read-Feeds interruptible p {b} o v =
    go (b.read_event == 0) (p.signalled && interruptible) ((p.during b).read_event == 0)
  where
    d : Feeds b (p.during b)
    d = (o b v).1

    go :
        (x y z : Bool)
        → After (Feeds b) (
            if x
            then fired (record b { read_event = 1 })
            else if y
            then interrupted (if z then notify_readers (p.during b) else p.during b)
            else if z
            then fired (record (p.during b) { read_event = 1 })
            else still (p.during b))
    go true y z = (IsValid-events 1 _ _ v, [], sym (append-nil (contents b)))
    go false true true = (IsValid-events 0 _ _ d.0, d.1, d.2)
    go false true false = d
    go false false true = (IsValid-events 1 _ _ d.0, d.1, d.2)
    go false false false = d

-- What a blocking read of up to `n` bytes may come to. `new` is what writers appended meanwhile.
-- Bytes delivered are the oldest, and their absence means that no writer is left.
abbrev pub ReadsFifo : CycleBuf → ℕ → GetResult → Type 0
ReadsFifo b n (got out b') =
    (IsValid b')
    × (new : List ℕ) × (contents b ++ new ≡ out ++ contents b')
    × (length out ≤ n)
    × ((0 < length out) ⊎ (b'.writer_count ≡ 0))
ReadsFifo b n (get_interrupted b') = Feeds b b'
ReadsFifo b n (get_asleep b') = Feeds b b'

ReadsFifo-Feeds :
    (b c : CycleBuf) (n : ℕ) (r : GetResult) → Feeds b c → ReadsFifo c n r → ReadsFifo b n r
ReadsFifo-Feeds b c n (got out b') f (v, new, e, small, why) = (
  v,
  f.1 ++ new,
  sym (append_assoc (contents b) f.1 new) ∙ ap (λ l. l ++ new) (sym f.2) ∙ e,
  small,
  why,
)
ReadsFifo-Feeds b c n (get_interrupted b') f g = Feeds-trans b c f g
ReadsFifo-Feeds b c n (get_asleep b') f g = Feeds-trans b c f g

get_round-ReadsFifo :
    {b : CycleBuf} (n : ℕ)
    → IsValid b
    → 0 < n
    → 0 < b.len
    → let (out, b') = get_round b n in ReadsFifo b n (got out b')
get_round-ReadsFifo {b} n v pos more =
    let g = get_round_lem n v in
    (g.0, [], append-nil (contents b) ∙ g.2, omega (arith, g.1), inl (omega (arith, g.1)))

-- One pass of the read loop, given what happens after its wait.
pub getbuf_loop-ReadsFifo :
    (interruptible : Bool) (ps : List Pause) {b : CycleBuf} (n : ℕ)
    → IsValid b
    → 0 < n
    → AllOthers Feeds ps
    → ReadsFifo b n (getbuf_loop true interruptible ps b n)
unfolding getbuf_loop
getbuf_loop-ReadsFifo interruptible [] {b} n v pos o = elim (Bool-cases (ltb 0 b.len)) [
  | inl some_there ↦ rw some_there (get_round-ReadsFifo n v pos (ground arith))
  | inr empty ↦ elim (Bool-cases (b.writer_count == 0)) [
    | inl closed ↦
        rw (empty, closed) (v, [], append-nil (contents b), omega arith, inr (ground arith))
    | inr writers ↦ rw (empty, writers) (Feeds-refl v)
  ]
]
getbuf_loop-ReadsFifo interruptible (p ∷ ps) {b} n v pos o = elim (Bool-cases (ltb 0 b.len)) [
  | inl some_there ↦ rw some_there (get_round-ReadsFifo n v pos (ground arith))
  | inr empty ↦ elim (Bool-cases (b.writer_count == 0)) [
    | inl closed ↦
        rw (empty, closed) (v, [], append-nil (contents b), omega arith, inr (ground arith))
    | inr writers ↦
        rw (empty, writers)
          (woken (wait_read interruptible p (p.before b))
            (wait_read-Feeds interruptible p o.0 before.0)
            (λ c u. getbuf_loop-ReadsFifo interruptible ps {b = c} n u pos o.1))
  ]
]
  where
    before : Feeds b (p.before b)
    before = (o.0 b v).0

    later :
        (c : CycleBuf)
        → Feeds (p.before b) c
        → ((c' : CycleBuf) → IsValid c' → ReadsFifo c' n (getbuf_loop true interruptible ps c' n))
        → ReadsFifo b n (getbuf_loop true interruptible ps c n)
    later c f ih = ReadsFifo-Feeds b c n _ (Feeds-trans b (p.before b) before f) (ih c f.0)

    woken :
        (w : Woken)
        → After (Feeds (p.before b)) w
        → ((c : CycleBuf) → IsValid c → ReadsFifo c n (getbuf_loop true interruptible ps c n))
        → ReadsFifo b n (elim w [
          | fired c ↦ getbuf_loop true interruptible ps c n
          | interrupted c ↦
              if c.writer_count == 0
              then getbuf_loop true interruptible ps c n
              else get_interrupted c
          | still c ↦ get_asleep c
        ])
    woken (fired c) f ih = later c f ih
    woken (interrupted c) f ih = elim (Bool-cases (c.writer_count == 0)) [
      | inl closed ↦ rw closed (later c f ih)
      | inr writers ↦ rw writers (Feeds-trans b (p.before b) before f)
    ]
    woken (still c) f ih = Feeds-trans b (p.before b) before f
