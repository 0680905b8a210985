-- ===== src/CycleBuf/Blocking.antt =====
-- The two blocking transfers as a whole: `cyb_getbuf` and `cyb_putbuf` against first-in-first-out.
use mathlib.Core.List.{append_assoc, append-nil}
use mos.Base.{
  ℕ, suc, ◌+◌, ◌-◌, ◌≤◌, ◌<◌, ◌≡◌, refl, ap, ◌∙◌, sym, subst, ◌⊎◌, inl, inr, List, [], ◌∷◌, ◌++◌,
  ltb, ◌==◌, if◌then◌else◌, arith, length, take, drop, length-drop, Bool-cases, ==_iff, Bool, true,
  false, min, Errno, count, fails, epipe, eintr, is_positive32, ◌^◌, take-add,
}
use mos.CycleBuf.{CycleBuf}
use mos.CycleBuf.Inv.{IsValid, contents}
use mos.CycleBuf.Ops.{
  Pause, Woken, fired, interrupted, still, wait_write, put_round, PutResult, put, put_asleep,
  partial, putbuf_loop, putbuf, getbuf,
}
use mos.CycleBuf.Transfer.{put_round_lem}
use mos.CycleBuf.Sleep.{
  Drains, Feeds, AllOthers, After, ReadsFifo, getbuf_loop-ReadsFifo, Drains-trans, Drains-refl,
  wait_write-Drains,
}

-- A blocking `cyb_getbuf` of a positive length, whatever writers do while it sleeps: the bytes that
-- it returns are the oldest of those held and appended, at most the number asked for, the others
-- stay in order, and it returns no bytes only if no writer is left.
pub getbuf-ReadsFifo :
    (interruptible : Bool) (ps : List Pause) {b : CycleBuf} (n : ℕ)
    → IsValid b
    → 0 < n
    → n < 2 ^ 31
    → AllOthers Feeds ps
    → ReadsFifo b n (getbuf b n true interruptible ps)
unfolding getbuf
getbuf-ReadsFifo interruptible ps {b} n v pos small o =
    let e : is_positive32 n ≡ true = ground arith in
    rw e (getbuf_loop-ReadsFifo interruptible ps n v pos o)

-- How many bytes a `cyb_putbuf` reports as written, and the buffer that it leaves.
abbrev pub accepted : PutResult → ℕ
accepted (put (count n) b) = n
accepted (put (fails e) b) = 0
accepted (put_asleep n b) = n

abbrev pub final : PutResult → CycleBuf
final (put r b) = b
final (put_asleep n b) = b

-- From the contents `c`, the first `n` bytes of `src` went in behind, and `out` was read in front.
abbrev pub Wrote : List ℕ → List ℕ → ℕ → CycleBuf → Type 0
Wrote c src n b' =
    (IsValid b') × (n ≤ length src) × (out : List ℕ) × (c ++ take n src ≡ out ++ contents b')

Wrote-more :
    (c d out src : List ℕ) (i m : ℕ) (b' : CycleBuf)
    → i ≤ length src
    → c ++ take i src ≡ out ++ d
    → Wrote d (drop i src) m b'
    → Wrote c src (i + m) b'
Wrote-more c d out src i m b' le e (v, few, out', e') = (
  v,
  omega (arith, length-drop i src),
  out ++ out',
  ap (λ l. c ++ l) (take-add i m src)
      ∙ sym (append_assoc c (take i src) (take m (drop i src)))
      ∙ ap (λ l. l ++ take m (drop i src)) e
      ∙ append_assoc out d (take m (drop i src))
      ∙ ap (λ l. out ++ l) e'
      ∙ sym (append_assoc out out' (contents b')),
)

-- Why a call that was to write `total` bytes came to its end.
abbrev pub Ended : Bool → ℕ → PutResult → Type 0
Ended interruptible total (put (count n) b) =
    (n ≡ total) ⊎ (b.reader_count ≡ 0) ⊎ (interruptible ≡ true)
Ended interruptible total (put (fails e) b) =
    ((e ≡ epipe) × (b.reader_count ≡ 0)) ⊎ ((e ≡ eintr) × (interruptible ≡ true))
Ended interruptible total (put_asleep n b) = Unit {0}

-- What holds of a write loop that starts at `b` with `src` left and `written` bytes done.
abbrev WritesFifo : Bool → CycleBuf → List ℕ → ℕ → PutResult → Type 0
WritesFifo interruptible b src written r =
    (written ≤ accepted r)
    × Wrote (contents b) src (accepted r - written) (final r)
    × Ended interruptible (written + length src) r

module _ (interruptible : Bool) {b : CycleBuf} (src : List ℕ) (written : ℕ) (v : IsValid b) where
  abbrev i : ℕ
  i = (put_round b src).0

  abbrev b1 : CycleBuf
  b1 = (put_round b src).1

  i_le : i ≤ length src
  i_le = omega (arith, (put_round_lem src v).1)

  -- The loop ends after this round, and `b'` is `b1` as its readers have left it.
  ends_here :
      (r : PutResult)
      → Drains b1 (final r)
      → accepted r ≡ written + i
      → Ended interruptible (written + length src) r
      → WritesFifo interruptible b src written r
  ends_here r d e why =
      let n : accepted r - written ≡ i = omega arith in
      (omega arith, rw n (d.0, i_le, d.1, sym (put_round_lem src v).2 ∙ d.2), why)

  accepted-partial :
      (e : Errno) (c : CycleBuf) → accepted (put (partial (written + i) (fails e)) c) ≡ written + i
  accepted-partial e c = ground arith

  Ended-partial :
      (e : Errno) (c : CycleBuf)
      → ((e ≡ epipe) × (c.reader_count ≡ 0)) ⊎ ((e ≡ eintr) × (interruptible ≡ true))
      → Ended interruptible (written + length src) (put (partial (written + i) (fails e)) c)
  Ended-partial e c why = elim (Bool-cases (ltb 0 (written + i))) [
    | inl some_done ↦ rw some_done (elim why [ inl h ↦ inr (inl h.1) | inr h ↦ inr (inr h.1) ])
    | inr nothing ↦ rw nothing why
  ]

  -- The wait is over, and `rest` is what the loop does when it goes on.
  woken_ends :
      (w : Woken)
      → After (Drains b1) w
      → (rest : CycleBuf → PutResult)
      → ((c : CycleBuf)
          → IsValid c
          → WritesFifo interruptible c (drop i src) (written + i) (rest c))
      → ((c : CycleBuf) → w ≡ interrupted c → interruptible ≡ true)
      → WritesFifo interruptible b src written (elim w [
        | fired c ↦ rest c
        | interrupted c ↦ put (partial (written + i) (fails eintr)) c
        | still c ↦ put_asleep (written + i) c
      ])
  woken_ends (fired c) d rest ih intr =
      let h = ih c d.0 in
      let n : accepted (rest c) - written ≡ i + (accepted (rest c) - (written + i)) =
        omega (arith, h.0) in
      let total : written + i + length (drop i src) ≡ written + length src =
        omega (arith, length-drop i src, i_le) in
      (
        omega (arith, h.0),
        rw n (
            Wrote-more (contents b) (contents c) d.1 src i (accepted (rest c) - (written + i))
              (final (rest c)) i_le (sym (put_round_lem src v).2 ∙ d.2) h.1),
        subst (λ t. Ended interruptible t (rest c)) total h.2,
      )
  woken_ends (interrupted c) d rest ih intr =
      ends_here (put (partial (written + i) (fails eintr)) c) d (accepted-partial eintr c)
        (Ended-partial eintr c (inr (refl, intr c refl)))
  woken_ends (still c) d rest ih intr = ends_here (put_asleep (written + i) c) d refl tt

  -- A round that ends the call, or goes on to `more`.
  round_ends :
      (more : PutResult) (x y : Bool)
      → (x ≡ true → i ≡ length src)
      → (y ≡ true → b1.reader_count ≡ 0)
      → WritesFifo interruptible b src written more
      → WritesFifo interruptible b src written (
          if x
          then put (count (written + i)) b1
          else if y
          then put (partial (written + i) (fails epipe)) b1
          else more)
  round_ends more true y hx hy w =
      let e : written + i ≡ written + length src = ap (λ (n : ℕ). written + n) (hx refl) in
      ends_here (put (count (written + i)) b1) (Drains-refl (put_round_lem src v).0) refl (inl e)
  round_ends more false true hx hy w =
      ends_here (put (partial (written + i) (fails epipe)) b1) (Drains-refl (put_round_lem src v).0)
        (accepted-partial epipe b1) (Ended-partial epipe b1 (inl (refl, hy refl)))
  round_ends more false false hx hy w = w

wait_write-interrupted :
    (interruptible : Bool) (p : Pause) (b c : CycleBuf)
    → wait_write interruptible p b ≡ interrupted c
    → interruptible ≡ true
unfolding wait_write
wait_write-interrupted interruptible p b c e = ground arith

putbuf_loop-WritesFifo :
    (interruptible : Bool) (ps : List Pause) {b : CycleBuf} (src : List ℕ) (written : ℕ)
    → IsValid b
    → AllOthers Drains ps
    → WritesFifo interruptible b src written (putbuf_loop interruptible ps b src written)
unfolding putbuf_loop
putbuf_loop-WritesFifo interruptible [] {b} src written v o =
    round_ends interruptible src written v _ _ _ (==_iff _ _).0 (==_iff _ _).0 (
      ends_here interruptible src written v
        (put_asleep (written + (put_round b src).0) (put_round b src).1)
        (Drains-refl (put_round_lem src v).0) refl tt)
putbuf_loop-WritesFifo interruptible (p ∷ ps) {b} src written v o =
    round_ends interruptible src written v _ _ _ (==_iff _ _).0 (==_iff _ _).0 (
      woken_ends interruptible src written v (wait_write interruptible p (p.before b1'))
        (After-trans (wait_write interruptible p (p.before b1'))
          (wait_write-Drains interruptible p o.0 before.0))
        (λ c.
          putbuf_loop interruptible ps c (drop (put_round b src).0 src)
            (written + (put_round b src).0))
        (λ c u.
          putbuf_loop-WritesFifo interruptible ps (drop (put_round b src).0 src)
            (written + (put_round b src).0) u o.1)
        (λ c e. wait_write-interrupted interruptible p (p.before b1') c e))
  where
    b1' : CycleBuf
    b1' = (put_round b src).1

    before : Drains b1' (p.before b1')
    before = (o.0 _ (put_round_lem src v).0).0

    After-trans : (w : Woken) → After (Drains (p.before b1')) w → After (Drains b1') w
    After-trans (fired c) d = Drains-trans b1' (p.before b1') before d
    After-trans (interrupted c) d = Drains-trans b1' (p.before b1') before d
    After-trans (still c) d = Drains-trans b1' (p.before b1') before d

-- A blocking `cyb_putbuf` of fewer than 2^31 bytes, whatever readers do while it sleeps: the bytes that it reports as
-- written are a prefix of `src`, and stand in order behind those that were held, of which readers
-- took a prefix. It reports fewer than all only if no reader is left or a signal may interrupt it,
-- fails with EPIPE only in the first case and with EINTR only in the second, and with no other error.
pub putbuf-WritesFifo :
    (interruptible : Bool) (ps : List Pause) {b : CycleBuf} (src : List ℕ)
    → IsValid b
    → 0 < length src
    → length src < 2 ^ 31
    → AllOthers Drains ps
    → let r = putbuf b src true interruptible ps in
      Wrote (contents b) src (accepted r) (final r) × Ended interruptible (length src) r
unfolding putbuf
putbuf-WritesFifo interruptible ps {b} src v pos small o =
    let e : (length src == 0) ≡ false = ground arith in
    let h = putbuf_loop-WritesFifo interruptible ps src 0 v o in
    let n : accepted (putbuf_loop interruptible ps b src 0) - 0
        ≡ accepted (putbuf_loop interruptible ps b src 0) =
      omega arith in
    let m : 0 + length src ≡ length src = omega arith in rw e (rw n at h.1, rw m at h.2)

-- A `cyb_putbuf` of fewer than 2^31 bytes that does not block writes as many bytes as fit, in order, and returns their number.
pub putbuf_nonblocking :
    (interruptible : Bool) (ps : List Pause) {b : CycleBuf} (src : List ℕ)
    → IsValid b
    → length src < 2 ^ 31
    → let n = min (length src) (b.buf_size - b.len) in
      (b' : CycleBuf) × (putbuf b src false interruptible ps ≡ put (count n) b')
      × (IsValid b')
      × (contents b' ≡ contents b ++ take n src)
unfolding putbuf
putbuf_nonblocking interruptible ps {b} [] v small =
    let e : min 0 (b.buf_size - b.len) ≡ 0 = omega arith in
    (b, rw e, v, rw e (sym (append-nil (contents b))))
putbuf_nonblocking interruptible ps {b} (x ∷ xs) v small =
    let r = put_round_lem (x ∷ xs) v in
    let given : (suc (length xs) == 0) ≡ false = ground arith in
    (
      (put_round b (x ∷ xs)).1,
      rw given (ap (λ n. put (count n) (put_round b (x ∷ xs)).1) r.1),
      r.0,
      rw (← r.1) r.2,
    )
