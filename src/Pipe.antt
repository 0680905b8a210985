-- ===== src/Pipe.antt =====
-- src/fs/impl/pipe.c: anonymous pipes, files over the two ends of one byte ring. The ring is the
-- shared state; an open file is its access mode, its O_NONBLOCK and its owner.
pub mod Ends
mod Tests
use mos.Base.{
  ℕ, Bool, true, false, ◌&&◌, ◌||◌, not, Option, none, some, List, [], ◌∷◌, ltb, ◌==◌,
  if◌then◌else◌, length, Outcome, count, fails, epipe, eintr, eagain, ebadf, efault, enotty, ◌%◌,
  u32_mod, take,
}
use mos.CycleBuf.{CycleBuf, create}
use mos.CycleBuf.Ops.{
  Pause, PutResult, put, put_asleep, putbuf, GetResult, got, get_interrupted, get_asleep, getbuf,
  isempty, isfull, writer_open, reader_open, writer_close, reader_close,
}

-- O_RDONLY, O_WRONLY and O_RDWR.
pub data Mode : Type 0 where
  rdonly wronly rdwr : Mode

abbrev pub reads : Mode → Bool
reads wronly = false
reads _ = true

abbrev pub writes : Mode → Bool
writes rdonly = false
writes _ = true

-- A file on a pipe: `mode`, `uid` and `gid` of its `pipe_inode`, and O_NONBLOCK of its `f_flag`.
pub record End : Type 0 where
  pub mode : Mode
  pub uid : ℕ
  pub gid : ℕ
  pub nonblock : Bool

-- `pipe_release`.
unfoldable pub release : End → CycleBuf → CycleBuf
release n b =
    let b1 = if writes n.mode then writer_close b else b in
    if reads n.mode then reader_close b1 else b1

-- What a read or a write returns, with the bytes that a read delivers; and whether SIGPIPE is raised.
pub data Result : Type 0 where
  delivers : List ℕ → Result
  done : Outcome → Result
  sigpipe : Result
  asleep : Result

-- What `pipe_read` makes of the result of `cyb_getbuf`: EAGAIN for nothing read while writers are left.
unfoldable pub read_result : Bool → GetResult → Result × CycleBuf
read_result nonblock (got [] b) =
    if nonblock && ltb 0 b.writer_count then (done (fails eagain), b) else (delivers [], b)
read_result nonblock (got (x ∷ xs) b) = (delivers (x ∷ xs), b)
read_result nonblock (get_interrupted b) = (done (fails eintr), b)
read_result nonblock (get_asleep b) = (asleep, b)

-- `pipe_read` of `len` bytes; the length becomes an `int` on the way.
unfoldable pub read : End → CycleBuf → ℕ → List Pause → Result × CycleBuf
read n b len ps =
    if not (reads n.mode)
    then (done (fails ebadf), b)
    else if len == 0
    then (done (count 0), b)
    else read_result n.nonblock (getbuf b (len % u32_mod) (not n.nonblock) true ps)

-- What `pipe_write` makes of the result of `cyb_putbuf`: EAGAIN for nothing written while readers are
-- left, and SIGPIPE with EPIPE for the writer, if it is a user's task.
unfoldable pub finish : Bool → Bool → Outcome → CycleBuf → Result
finish nonblock user (count n) b =
    if nonblock && n == 0 && ltb 0 b.reader_count then done (fails eagain) else done (count n)
finish nonblock user (fails epipe) b = if user then sigpipe else done (fails epipe)
finish nonblock user (fails e) b = done (fails e)

-- `pipe_write` of the bytes `src`; the length becomes `unsigned` on the way to `cyb_putbuf`.
unfoldable pub write : Bool → End → CycleBuf → List ℕ → List Pause → Result × CycleBuf
write user n b src ps =
    if not (writes n.mode)
    then (done (fails ebadf), b)
    else if length src == 0
    then (done (count 0), b)
    else if b.reader_count == 0
    then (finish n.nonblock user (fails epipe) b, b)
    else elim (putbuf b (take (length src % u32_mod) src) (not n.nonblock) true ps) [
      | put r b' ↦ (finish n.nonblock user r b', b')
      | put_asleep written b' ↦ (asleep, b')
    ]

-- A set of the events FS_POLL_READ, FS_POLL_WRITE, FS_POLL_ERR and FS_POLL_HUP.
pub record Events : Type 0 where
  pub readable : Bool
  pub writable : Bool
  pub err : Bool
  pub hup : Bool

-- `pipe_poll_common`: of the events asked for, those that are there.
unfoldable pub poll_common : Events → CycleBuf → Events
poll_common e b = record {
  readable = e.readable && not (isempty b);
  hup = e.hup && b.writer_count == 0;
  err = e.err && b.reader_count == 0;
  writable = e.writable && ltb 0 b.reader_count && not (isfull b);
}

-- `pipe_read_poll`, `pipe_write_poll` and `pipe_rw_poll`, by the mode whose operations the file has.
unfoldable pub poll : End → Events → CycleBuf → Events
poll n e b = elim n.mode [
  | rdonly ↦ poll_common (record e { writable = false; err = false }) b
  | wronly ↦ poll_common (record e { readable = false; hup = false }) b
  | rdwr ↦ poll_common e b
]

-- `pipe_ioctl`: FIONREAD, FIONBIO with its argument (`none` is a null pointer), or another command.
pub data Control : Type 0 where
  fionread : Control
  fionbio : Option Bool → Control
  other : Control

-- The number that FIONREAD stores, or the result; and the file.
unfoldable pub ioctl : Control → End → CycleBuf → (Option ℕ × Outcome) × End
ioctl fionread n b = ((some b.len, count 0), n)
ioctl (fionbio none) n b = ((none, fails efault), n)
ioctl (fionbio (some on)) n b = ((none, count 0), record n { nonblock = on })
ioctl other n b = ((none, fails enotty), n)

-- `pipe_reopen` of a file that is a pipe, with a valid mode; `allocated` says whether all three
-- objects could be.
unfoldable pub reopen : Bool → Mode → Bool → End → CycleBuf → Option End × CycleBuf
reopen allocated mode nonblock source b =
    let b1 = if reads mode then reader_open b else b in
    let b2 = if writes mode then writer_open b1 else b1 in
    if not allocated then (none, b) else (
      some (record { mode = mode; uid = source.uid; gid = source.gid; nonblock = nonblock }),
      b2,
    )

-- `pipe_open`: the read end, the write end and the ring of 16 pages.
unfoldable pub open_pipe : List ℕ → ℕ → ℕ → End × End × CycleBuf
open_pipe storage uid gid = (
  record { mode = rdonly; uid = uid; gid = gid; nonblock = false },
  record { mode = wronly; uid = uid; gid = gid; nonblock = false },
  create storage 16,
)
