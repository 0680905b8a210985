-- ===== src/CycleBuf/Tests.antt =====
-- Runs of the byte ring on a ring of four bytes that holds 8, 9 round the end of its storage.
use mos.Base.{ℕ, ◌≡◌, refl, List, [], ◌∷◌, true, false, arith, take, tabulate}
use mos.CycleBuf.{
  CycleBuf, create, create_named, copy_in, copy_out, blit, destroy, page_size, one_reader,
  poll_readers,
}
use mos.CycleBuf.Inv.{IsValid, contents}
use mos.CycleBuf.Ops.{
  Pause, put_round, get_round, got, putbuf, getbuf, announce, wait_read, wait_write, writer_open,
  writer_close, reader_close,
}
use mos.CycleBuf.Transfer.{put_round_lem, get_round_lem}
use mos.CycleBuf.Sleep.{Drains, Feeds, Others, ReadsFifo, Drains-refl, Feeds-refl}
use mos.CycleBuf.Blocking.{accepted, final, Wrote, Ended, getbuf-ReadsFifo, putbuf-WritesFifo}
use mos.CycleBuf.Lifetime.{
  Held, Reach, here, next, closes_writer, closes_reader, opens_writer, unregisters, anonymous,
  named,
}

abbrev wrapped : CycleBuf
wrapped = record {
  len = 2;
  write_idx = 1;
  read_idx = 3;
  read_event = 0;
  write_event = 0;
  reader_sequence = 0;
  writer_sequence = 0;
  writer_count = 1;
  reader_count = 1;
  ref_count = 2;
  buf = 9 ∷ 0 ∷ 0 ∷ 8 ∷ [];
  buf_size = 4;
  freed = false;
  wakes = [];
}

abbrev drained : CycleBuf
drained = record wrapped { len = 0; read_idx = 1; read_event = 1 }

wrapped-IsValid : IsValid wrapped
wrapped-IsValid = record {
  storage = refl;
  small = omega arith;
  write_in = omega arith;
  read_in = omega arith;
  fits = omega arith;
  ends = refl;
}

drained-IsValid : IsValid drained
drained-IsValid = record {
  storage = refl;
  small = omega arith;
  write_in = omega arith;
  read_in = omega arith;
  fits = omega arith;
  ends = refl;
}

abbrev bytes : List ℕ
bytes = 1 ∷ 2 ∷ 3 ∷ 4 ∷ 5 ∷ []

-- Another task reads two bytes, or writes one, while the caller sleeps.
abbrev reads_two : Pause
reads_two = record { before = λ b. b; during = λ b. (get_round b 2).1; signalled = false }

abbrev writes_one : Pause
writes_one = record { before = λ b. b; during = λ b. (put_round b (7 ∷ [])).1; signalled = false }

reads_two-Others : Others Drains reads_two
reads_two-Others b v = let g = get_round_lem 2 v in (Drains-refl v, (g.0, (get_round b 2).0, g.2))

writes_one-Others : Others Feeds writes_one
writes_one-Others b v =
    let p = put_round_lem (7 ∷ []) v in
    (Feeds-refl v, (p.0, take (put_round b (7 ∷ [])).0 (7 ∷ []), p.2))

contents-wrapped : contents wrapped ≡ 8 ∷ 9 ∷ []
contents-wrapped = refl

-- Five bytes go in, two of them behind a sleep, in which a reader took 8 and 9.
putbuf-wrapped :
    (accepted (putbuf wrapped bytes true true (reads_two ∷ reads_two ∷ [])) ≡ 5)
    × (contents (final (putbuf wrapped bytes true true (reads_two ∷ reads_two ∷ [])))
        ≡ 3 ∷ 4 ∷ 5 ∷ [])
unfolding putbuf put_round announce copy_in wait_write get_round copy_out blit
putbuf-wrapped = (refl, refl)

getbuf-drained :
    getbuf drained 3 true true (writes_one ∷ [])
    ≡ got (7 ∷ []) (record drained {
      buf = 9 ∷ 7 ∷ 0 ∷ 8 ∷ [];
      write_idx = 2;
      read_idx = 2;
      wakes = poll_readers ∷ one_reader ∷ [];
    })
unfolding getbuf wait_read put_round announce copy_in get_round copy_out blit
getbuf-drained = refl

putbuf-WritesFifo_example :
    let r = putbuf wrapped bytes true true (reads_two ∷ reads_two ∷ []) in
    Wrote (contents wrapped) bytes (accepted r) (final r) × Ended true 5 r
putbuf-WritesFifo_example =
    putbuf-WritesFifo true (reads_two ∷ reads_two ∷ []) bytes wrapped-IsValid (omega arith)
      (omega arith) (reads_two-Others, (reads_two-Others, tt))

getbuf-ReadsFifo_example : ReadsFifo drained 3 (getbuf drained 3 true true (writes_one ∷ []))
getbuf-ReadsFifo_example =
    getbuf-ReadsFifo true (writes_one ∷ []) 3 drained-IsValid (omega arith) (omega arith)
      (writes_one-Others, tt)

abbrev one_page : List ℕ
one_page = tabulate page_size (λ k. 0)

-- A second writer comes and both go, then the reader.
abbrev both_gone : Held
both_gone = record (anonymous one_page 0) {
  ring = reader_close (writer_close (writer_close (writer_open (create one_page 0))));
}

both_gone-Reach : Reach (anonymous one_page 0) both_gone
unfolding create writer_open writer_close reader_close
both_gone-Reach =
    next
      (next
        (next (next here (opens_writer (anonymous one_page 0) (omega arith) (omega arith)))
          (closes_writer _ (omega arith)))
        (closes_writer _ (omega arith)))
      (closes_reader _ (omega arith))

abbrev unregistered : Held
unregistered = record (named one_page 0) {
  device = 0;
  ring = destroy (writer_close (writer_open (create_named one_page 0)));
}

unregistered-Reach : Reach (named one_page 0) unregistered
unfolding create_named writer_open writer_close destroy
unregistered-Reach =
    next
      (next (next here (opens_writer (named one_page 0) (omega arith) (omega arith)))
        (closes_writer _ (omega arith)))
      (unregisters _ (omega arith))

both_gone_freed : both_gone.ring.freed ≡ true
unfolding create writer_open writer_close reader_close
both_gone_freed = refl
