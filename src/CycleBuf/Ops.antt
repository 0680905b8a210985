-- ===== src/CycleBuf/Ops.antt =====
-- The operations of src/lib/impl/cyclebuf.c that readers, writers and pollers call.
-- A call that may sleep takes what the other tasks do meanwhile as a list of pauses, one for each
-- `cond_wait`; a call whose wait is not ended by its pauses is `asleep`.
use mos.Base.{
  ℕ, ◌+◌, Bool, true, ◌&&◌, not, List, [], ◌∷◌, ltb, ◌==◌, if◌then◌else◌, length, take, drop, add32,
  sub32, is_positive32, Outcome, count, fails, epipe, eintr,
}
use mos.CycleBuf.{
  CycleBuf, notify_readers, notify_writers, notify_poll, poll_readers, poll_writers, copy_in,
  copy_out, destroy,
}

-- `before`: what others do between the unlock and the wait; `during`: while the task sleeps.
pub record Pause : Type 0 where
  pub before : CycleBuf → CycleBuf
  pub during : CycleBuf → CycleBuf
  pub signalled : Bool

pub data Woken : Type 0 where
  fired interrupted still : CycleBuf → Woken

-- `cond_wait` on the event of the readers (src/lib/impl/lock.c). Taking the event arms it again;
-- an interrupted task passes an event that is still fired on to the next waiter.
unfoldable pub wait_read : Bool → Pause → CycleBuf → Woken
wait_read interruptible p b =
    let b' = p.during b in
    if b.read_event == 0
    then fired (record b { read_event = 1 })
    else if p.signalled && interruptible
    then interrupted (if b'.read_event == 0 then notify_readers b' else b')
    else if b'.read_event == 0
    then fired (record b' { read_event = 1 })
    else still b'

-- The same on the event of the writers.
unfoldable pub wait_write : Bool → Pause → CycleBuf → Woken
wait_write interruptible p b =
    let b' = p.during b in
    if b.write_event == 0
    then fired (record b { write_event = 1 })
    else if p.signalled && interruptible
    then interrupted (if b'.write_event == 0 then notify_writers b' else b')
    else if b'.write_event == 0
    then fired (record b' { write_event = 1 })
    else still b'

-- What a writer announces: a full buffer arms the event of the writers, the first byte in an empty
-- one wakes a reader, and any byte the pollers.
unfoldable pub announce : Bool → Bool → CycleBuf → CycleBuf
announce was_empty any b =
    let armed = if b.len == b.buf_size then record b { write_event = 1 } else b in
    let told = if was_empty && any then notify_readers armed else armed in
    if any then notify_poll told poll_readers else told

-- One round of `cyb_putbuf` under the lock and the notifications that follow it.
unfoldable pub put_round : CycleBuf → List ℕ → ℕ × CycleBuf
put_round b src =
    let room = sub32 b.buf_size b.len in
    let i = if ltb (length src) room then length src else room in
    let filled = if i == 0 then b else copy_in b (take i src) in
    (i, announce (b.len == 0) (ltb 0 i) filled)

pub data PutResult : Type 0 where
  put : Outcome → CycleBuf → PutResult
  put_asleep : ℕ → CycleBuf → PutResult

-- `written ? (int)written : error`, with `written` below 2^31.
abbrev pub partial : ℕ → Outcome → Outcome
partial written e = if ltb 0 written then count written else e

-- The loop of `cyb_putbuf` in blocking mode, with the bytes that are left and the number written. All
-- bytes together are fewer than 2^31, so that `(int)written` is the number itself.
unfoldable pub putbuf_loop : Bool → List Pause → CycleBuf → List ℕ → ℕ → PutResult
putbuf_loop interruptible [] b src written =
    let (i, b1) = put_round b src in
    if i == length src
    then put (count (written + i)) b1
    else if b1.reader_count == 0
    then put (partial (written + i) (fails epipe)) b1
    else put_asleep (written + i) b1
putbuf_loop interruptible (p ∷ ps) b src written =
    let (i, b1) = put_round b src in
    let b2 = p.before b1 in
    let woken = wait_write interruptible p b2 in
    let rest = λ (b3 : CycleBuf). putbuf_loop interruptible ps b3 (drop i src) (written + i) in
    if i == length src
    then put (count (written + i)) b1
    else if b1.reader_count == 0
    then put (partial (written + i) (fails epipe)) b1
    else elim woken [
      | fired b3 ↦ rest b3
      | interrupted b3 ↦ put (partial (written + i) (fails eintr)) b3
      | still b3 ↦ put_asleep (written + i) b3
    ]

-- `cyb_putbuf(b, src, |src|, blocking, interruptible)` of fewer than 2^31 bytes. The C result is
-- `(int)written`: for more bytes the conversion could make the count negative, which is not modelled.
unfoldable pub putbuf : CycleBuf → List ℕ → Bool → Bool → List Pause → PutResult
unfolding putbuf_loop
putbuf b src blocking interruptible ps =
    let (i, b1) = put_round b src in
    if length src == 0
    then put (count 0) b
    else if blocking
    then putbuf_loop interruptible ps b src 0
    else put (count i) b1

-- `cyb_put_record`: the whole record or nothing.
unfoldable pub put_record : CycleBuf → List ℕ → Outcome × CycleBuf
put_record b src =
    if length src == 0
    then (count 0, b)
    else if ltb (sub32 b.buf_size b.len) (length src)
    then (count 0, b)
    else (count (length src), announce (b.len == 0) true (copy_in b src))

-- The part of `cyb_getbuf` behind its wait: as many bytes as are there, up to `n`.
unfoldable pub get_round : CycleBuf → ℕ → List ℕ × CycleBuf
get_round b n =
    let k = if ltb b.len n then b.len else n in
    let (out, b1) = copy_out b k in
    let armed = if b1.len == 0 then record b1 { read_event = 1 } else b1 in
    (out, if b.len == b.buf_size then notify_poll (notify_writers armed) poll_writers else armed)

-- The bytes delivered (their number is the C result), or the -1 of an interrupted wait.
pub data GetResult : Type 0 where
  got : List ℕ → CycleBuf → GetResult
  get_interrupted get_asleep : CycleBuf → GetResult

abbrev pub got_round : CycleBuf → ℕ → GetResult
got_round b n = let (out, b') = get_round b n in got out b'

unfoldable pub getbuf_loop : Bool → Bool → List Pause → CycleBuf → ℕ → GetResult
getbuf_loop blocking interruptible [] b n =
    if ltb 0 b.len
    then got_round b n
    else if b.writer_count == 0
    then got [] b
    else if blocking
    then get_asleep b
    else got [] b
getbuf_loop blocking interruptible (p ∷ ps) b n =
    let rest = λ (b' : CycleBuf). getbuf_loop blocking interruptible ps b' n in
    let woken = wait_read interruptible p (p.before b) in
    if ltb 0 b.len
    then got_round b n
    else if b.writer_count == 0
    then got [] b
    else if not blocking
    then got [] b
    else elim woken [
      | fired b' ↦ rest b'
      | interrupted b' ↦
          let again = rest b' in if b'.writer_count == 0 then again else get_interrupted b'
      | still b' ↦ get_asleep b'
    ]

-- `cyb_getbuf(b, dst, n, blocking, interruptible)`, `n` as the bit pattern of an `int`.
unfoldable pub getbuf : CycleBuf → ℕ → Bool → Bool → List Pause → GetResult
unfolding getbuf_loop
getbuf b n blocking interruptible ps =
    let r = getbuf_loop blocking interruptible ps b n in if is_positive32 n then r else got [] b

unfoldable pub isempty : CycleBuf → Bool
isempty b = b.len == 0

unfoldable pub isfull : CycleBuf → Bool
isfull b = b.len == b.buf_size

unfoldable pub flush : CycleBuf → CycleBuf
flush b =
    let emptied = record b { read_idx = b.write_idx; len = 0; read_event = 1 } in
    if b.len == b.buf_size then notify_poll (notify_writers emptied) poll_writers else emptied

unfoldable pub writer_open : CycleBuf → CycleBuf
writer_open b =
    notify_poll
      (record b {
        writer_count = add32 b.writer_count 1;
        writer_sequence = add32 b.writer_sequence 1;
        ref_count = add32 b.ref_count 1;
      })
      poll_readers

unfoldable pub reader_open : CycleBuf → CycleBuf
reader_open b =
    notify_poll
      (record b {
        reader_count = add32 b.reader_count 1;
        reader_sequence = add32 b.reader_sequence 1;
        ref_count = add32 b.ref_count 1;
      })
      poll_writers

unfoldable pub writer_close : CycleBuf → CycleBuf
unfolding destroy
writer_close b =
    let closed = record b { writer_count = sub32 b.writer_count 1 } in
    destroy (notify_poll (notify_readers closed) poll_readers)

unfoldable pub reader_close : CycleBuf → CycleBuf
unfolding destroy
reader_close b =
    let closed = record b { reader_count = sub32 b.reader_count 1 } in
    destroy (notify_poll (notify_writers closed) poll_writers)
