-- ===== src/Pipe/Ends.antt =====
-- What the readiness of a pipe's end means for the next call, and the counts of its ends.
use mos.Base.{
  ℕ, ◌+◌, ◌%◌, ◌≤◌, ◌<◌, ◌≡◌, ◌^◌, refl, ap, ◌∙◌, ◌⊎◌, inl, inr, Bool, true, false, not, ◌&&◌, List,
  [], ◌∷◌, ltb, ◌==◌, if◌then◌else◌, arith, length, Bool-cases, count, fails, eagain, epipe,
  u32_mod, some, take-length,
}
use mos.CycleBuf.{CycleBuf}
use mos.CycleBuf.Inv.{IsValid}
use mos.CycleBuf.Ops.{
  Pause, put_round, announce, got, getbuf, getbuf_loop, got_round, get_round, putbuf, isempty,
  isfull, writer_open, reader_open, writer_close, reader_close,
}
use mos.CycleBuf.{destroy, copy_in}
use mos.CycleBuf.Transfer.{put_round_lem, get_round_lem}
use mos.Pipe.{
  Mode, rdonly, wronly, rdwr, End, Events, reads, writes, Result, delivers, done, sigpipe, read,
  read_result, write, finish, poll, poll_common, release, reopen,
}

abbrev pub all_events : Events
all_events = record { readable = true; writable = true; err = true; hup = true }

-- A `cyb_getbuf` that does not block makes one pass.
getbuf_pass :
    (ps : List Pause) (b : CycleBuf) (n : ℕ)
    → 0 < n
    → n < 2 ^ 31
    → getbuf b n false true ps ≡ (if ltb 0 b.len then got_round b n else got [] b)
unfolding getbuf getbuf_loop
getbuf_pass [] b n pos small = ground arith
getbuf_pass (p ∷ ps) b n pos small = ground arith

poll_readable :
    (n : End) (b : CycleBuf)
    → reads n.mode ≡ true
    → ((poll n all_events b).readable ≡ ltb 0 b.len)
      × ((poll n all_events b).hup ≡ (b.writer_count == 0))
unfolding poll poll_common isempty
poll_readable n b r = ground arith

poll_writable :
    (n : End) (b : CycleBuf)
    → writes n.mode ≡ true
    → ((poll n all_events b).writable ≡ (ltb 0 b.reader_count && not (b.len == b.buf_size)))
      × ((poll n all_events b).err ≡ (b.reader_count == 0))
unfolding poll poll_common isfull
poll_writable n b w = ground arith

-- A read that does not block, of a positive length, from an end that can be read: it delivers
-- bytes if `poll` reports the end readable; the end of the file if it reports a hang-up only; and EAGAIN,
-- which changes nothing, if it reports neither.
pub poll-read :
    (n : End) (b : CycleBuf) (len : ℕ) (ps : List Pause)
    → IsValid b
    → reads n.mode ≡ true
    → n.nonblock ≡ true
    → 0 < len
    → len < 2 ^ 31
    → let e = poll n all_events b in
      ((e.readable ≡ true)
        × (x : ℕ) × (xs : List ℕ) × (b' : CycleBuf) × (read n b len ps ≡ (delivers (x ∷ xs), b')))
      ⊎ ((e.readable ≡ false) × (e.hup ≡ true) × (read n b len ps ≡ (delivers [], b)))
      ⊎ ((e.readable ≡ false) × (e.hup ≡ false) × (read n b len ps ≡ (done (fails eagain), b)))
unfolding read read_result
poll-read n b len ps v r nb pos small =
    let p = poll_readable n b r in
    let g = getbuf_pass ps b len pos small in
    let e : len % u32_mod ≡ len = omega arith in
    let given : (len == 0) ≡ false = ground arith in
    elim (Bool-cases (ltb 0 b.len)) [
      | inl some_there ↦
          let d =
            delivered (get_round b len).0 (get_round b len).1
              (ground (arith, (get_round_lem len v).1)) in
          inl (p.0 ∙ some_there, d.0, d.1, d.2, rw (r, nb, given, e, g, some_there) d.3)
      | inr empty ↦ elim (Bool-cases (b.writer_count == 0)) [
        | inl closed ↦
            let none_left : ltb 0 b.writer_count ≡ false = ground arith in
            inr (inl (p.0 ∙ empty, p.1 ∙ closed, rw (r, nb, given, e, g, empty, none_left) refl))
        | inr open_end ↦
            let some_left : ltb 0 b.writer_count ≡ true = ground arith in
            inr (inr (p.0 ∙ empty, p.1 ∙ open_end, rw (r, nb, given, e, g, empty, some_left) refl))
      ]
    ]
  where
    delivered :
        (out : List ℕ) (b' : CycleBuf)
        → 0 < length out
        → (x : ℕ) × (xs : List ℕ) × (b'' : CycleBuf) × (read_result true (got out b')
            ≡ (delivers (x ∷ xs), b''))
    delivered [] b' h = absurd (omega arith)
    delivered (x ∷ xs) b' h = (x, xs, b', refl)

put_round-reader_count :
    (b : CycleBuf) (src : List ℕ) → (put_round b src).1.reader_count ≡ b.reader_count
unfolding put_round announce copy_in
put_round-reader_count b src = ground arith

-- A write that does not block is one round of `cyb_putbuf`.
write_pass :
    (user : Bool) (n : End) (b : CycleBuf) (x : ℕ) (xs : List ℕ) (ps : List Pause)
    → writes n.mode ≡ true
    → n.nonblock ≡ true
    → (b.reader_count == 0) ≡ false
    → length (x ∷ xs) < 2 ^ 31
    → let (i, b1) = put_round b (x ∷ xs) in
      write user n b (x ∷ xs) ps ≡ ((if i == 0 then done (fails eagain) else done (count i)), b1)
unfolding write finish putbuf
write_pass user n b x xs ps w nb readers small =
    let all = take-length (length (x ∷ xs) % u32_mod) (x ∷ xs) (omega arith) in
    let (i, b1) = put_round b (x ∷ xs) in
    let given : (length (x ∷ xs) == 0) ≡ false = ground arith in
    let left : ltb 0 b1.reader_count ≡ true =
      rw (put_round-reader_count b (x ∷ xs)) (ground arith) in
    rw (w, nb, given, readers, all, given, left)
      (elim (Bool-cases (i == 0)) [
        | inl no_room ↦ rw (nb, no_room) refl
        | inr room ↦ rw (nb, room) refl
      ])

-- A write that does not block, of at least one byte and fewer than 2^31, to an end that can be written: it accepts bytes,
-- and returns their number, if `poll` reports the end writable; it is refused with EPIPE, or raises
-- SIGPIPE for a user's task, if no reader is left; and otherwise returns EAGAIN.
pub poll-write :
    (user : Bool) (n : End) (b : CycleBuf) (x : ℕ) (xs : List ℕ) (ps : List Pause)
    → IsValid b
    → writes n.mode ≡ true
    → n.nonblock ≡ true
    → length (x ∷ xs) < 2 ^ 31
    → let e = poll n all_events b in
      let r = write user n b (x ∷ xs) ps in
      ((e.writable ≡ true) × (m : ℕ) × (0 < m) × (m ≤ length (x ∷ xs)) × (r.0 ≡ done (count m)))
      ⊎ ((e.writable ≡ false)
          × (e.err ≡ true)
          × (r ≡ ((if user then sigpipe else done (fails epipe)), b)))
      ⊎ ((e.writable ≡ false) × (e.err ≡ false) × (r.0 ≡ done (fails eagain)))
unfolding write finish
poll-write user n b x xs ps v w nb small =
    let p = poll_writable n b w in
    let given : (length (x ∷ xs) == 0) ≡ false = ground arith in
    let amount = (put_round_lem (x ∷ xs) v).1 in
    elim (Bool-cases (b.reader_count == 0)) [
      | inl alone ↦ inr (inl (p.0 ∙ ground arith, p.1 ∙ alone, rw (w, given, alone) refl))
      | inr readers ↦
          let pass = write_pass user n b x xs ps w nb readers small in
          elim (Bool-cases (b.len == b.buf_size)) [
            | inl full ↦
                let m : ((put_round b (x ∷ xs)).0 == 0) ≡ true = ground arith in
                inr (
                  inr (
                    p.0 ∙ ground arith,
                    p.1 ∙ readers,
                    ap (λ (r : Result × CycleBuf). r.0) pass ∙ rw m refl,
                  ))
            | inr room ↦
                let fits = v.fits in
                let some_room : 0 < (put_round b (x ∷ xs)).0 = ground arith in
                let m : ((put_round b (x ∷ xs)).0 == 0) ≡ false = ground arith in
                inl (
                  p.0 ∙ ground arith,
                  (put_round b (x ∷ xs)).0,
                  some_room,
                  omega arith,
                  ap (λ (r : Result × CycleBuf). r.0) pass ∙ rw m refl,
                )
          ]
    ]

-- Closing a file that was reopened on a pipe brings the counts of readers, of writers and of references back
-- to what they were, whatever its mode; and the buffer is not freed by it.
pub release-reopen :
    (mode : Mode) (nonblock : Bool) (source : End) (b : CycleBuf)
    → 0 < b.ref_count
    → b.ref_count + 2 < u32_mod
    → b.reader_count + 1 < u32_mod
    → b.writer_count + 1 < u32_mod
    → (n : End) × (b' : CycleBuf) × (reopen true mode nonblock source b ≡ (some n, b'))
      × ((release n b').reader_count ≡ b.reader_count)
      × ((release n b').writer_count ≡ b.writer_count)
      × ((release n b').ref_count ≡ b.ref_count)
      × ((release n b').freed ≡ b.freed)
unfolding release reopen reader_open writer_open reader_close writer_close destroy
release-reopen rdonly nonblock source b some_ref refs readers writers =
    (_, _, refl, ground arith, ground arith, ground arith, ground arith)
release-reopen wronly nonblock source b some_ref refs readers writers =
    (_, _, refl, ground arith, ground arith, ground arith, ground arith)
release-reopen rdwr nonblock source b some_ref refs readers writers =
    (_, _, refl, ground arith, ground arith, ground arith, ground arith)
