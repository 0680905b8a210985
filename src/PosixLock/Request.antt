-- ===== src/PosixLock/Request.antt =====
-- `fs_posix_lock` as a whole: the range that a `struct flock64` names, the errors, and the loop that waits
-- for a conflict to go away.
use mos.Base.{
  ℕ, zero, suc, ◌+◌, ◌-◌, Bool, true, false, ◌&&◌, not, Option, none, some, List, [], ◌∷◌, ltb,
  ◌==◌, if◌then◌else◌, ℤ, pos, negsuc, add_int64, Errno, einval, ebadf, eoverflow, enomem, eagain,
  eintr,
}
use mos.PosixLock.{Kind, rdlck, wrlck, Key, Range, int64_max, conflict, apply}

pub data Span : Type 0 where
  span : ℕ → ℕ → Span
  bad : Errno → Span

abbrev pub from_start : ℤ → ℕ → Span
from_start (pos start) last = span start last
from_start (negsuc n) last = bad einval

-- The bytes from `start` by `l_len`.
unfoldable pub by_length : ℤ → ℤ → Span
by_length start (pos zero) = from_start start int64_max
by_length start (pos (suc n)) = elim (add_int64 start (pos n)) [
  | none ↦ bad eoverflow
  | some (pos last) ↦ from_start start last
  | some (negsuc _) ↦ bad einval
]
by_length (pos (suc s)) (negsuc n) = elim (add_int64 (pos (suc s)) (negsuc n)) [
  | none ↦ bad eoverflow
  | some start ↦ from_start start s
]
by_length (pos zero) (negsuc n) = bad einval
by_length (negsuc s) (negsuc n) = bad einval

-- `l_whence` 0, 1 and 2: from the start of the file, from `f_pos`, from `i_size`.
unfoldable pub request_span : ℕ → ℤ → ℕ → ℤ → ℤ → Span
request_span whence f_pos i_size l_start l_len =
    let from = λ (base : ℤ). elim (add_int64 base l_start) as (λ o. Span) [
      | none ↦ bad eoverflow
      | some start ↦ by_length start l_len
    ] in
    if whence == 0
    then from (pos 0)
    else if whence == 1
    then from f_pos
    else if whence == 2
    then if ltb int64_max i_size then bad eoverflow else from (pos i_size)
    else bad einval

pub data Command : Type 0 where
  getlk setlk setlkw : Command

-- One wait of F_SETLKW: whether a signal keeps the task from sleeping, what others do to the table while it
-- sleeps, and whether a signal is there when it wakes.
pub record Pause : Type 0 where
  pub signal_first : Bool
  pub others : List Range → List Range
  pub signal_after : Bool

pub data Answer : Type 0 where
  granted unlocked asleep : Answer
  blocked_by : Kind → ℕ → ℕ → ℕ → Answer
  refused : Errno → Answer

-- What F_GETLK reports of the range in the way: its type, start, length (0 to the end) and owner.
unfoldable pub report : Option Range → Answer
report none = unlocked
report (some r) =
    blocked_by r.kind r.start (if r.last == int64_max then 0 else r.last - r.start + 1) r.key.owner

module _ (q : Key) (dev : ℕ) (kind : Kind) (start last : ℕ) where
  -- The loop of F_SETLK and F_SETLKW for a lock of the type `kind`.
  unfoldable pub set_loop : Bool → List Pause → List Range → Answer × List Range
  set_loop wait [] table = elim (conflict q kind start last table) [
    | none ↦ (granted, apply q dev (some kind) start last table)
    | some r ↦ if wait then (asleep, table) else (refused eagain, table)
  ]
  set_loop wait (p ∷ ps) table =
      let again = set_loop wait ps (p.others table) in
      elim (conflict q kind start last table) [
        | none ↦ (granted, apply q dev (some kind) start last table)
        | some r ↦
            if not wait
            then (refused eagain, table)
            else if p.signal_first
            then (refused eintr, table)
            else if p.signal_after
            then (refused eintr, p.others table)
            else again
      ]

-- The arguments of `fs_posix_lock`: `request` is `l_type`, `none` for F_UNLCK and with `known_type`
-- false for a number that is no type; `readable` and `writable` are the access mode of the file;
-- `allocated` says whether both `malloc` calls succeed.
pub record Call : Type 0 where
  pub command : Command
  pub known_type : Bool
  pub request : Option Kind
  pub readable : Bool
  pub writable : Bool
  pub whence : ℕ
  pub f_pos : ℤ
  pub i_size : ℕ
  pub l_start : ℤ
  pub l_len : ℤ
  pub key : Key
  pub dev : ℕ
  pub allocated : Bool

-- The checks before the range is computed.
unfoldable pub early_error : Call → Option Errno
early_error c = if not c.known_type then some einval else elim c.command [
  | getlk ↦ elim c.request [ none ↦ some einval | some k ↦ none ]
  | _ ↦ elim c.request [
    | none ↦ none
    | some rdlck ↦ if c.readable then none else some ebadf
    | some wrlck ↦ if c.writable then none else some ebadf
  ]
]

unfoldable pub perform : Call → ℕ → ℕ → List Pause → List Range → Answer × List Range
perform c start last ps table = elim c.command [
  | getlk ↦ elim c.request [
    | none ↦ (refused einval, table)
    | some kind ↦ (report (conflict c.key kind start last table), table)
  ]
  | setlk ↦ elim c.request [
    | none ↦ (granted, apply c.key c.dev none start last table)
    | some kind ↦ set_loop c.key c.dev kind start last false ps table
  ]
  | setlkw ↦ elim c.request [
    | none ↦ (granted, apply c.key c.dev none start last table)
    | some kind ↦ set_loop c.key c.dev kind start last true ps table
  ]
]

abbrev pub needs_memory : Command → Bool
needs_memory getlk = false
needs_memory _ = true

-- `fs_posix_lock`.
unfoldable pub posix_lock : Call → List Pause → List Range → Answer × List Range
posix_lock c ps table = elim (early_error c) [
  | some e ↦ (refused e, table)
  | none ↦ elim (request_span c.whence c.f_pos c.i_size c.l_start c.l_len) [
    | bad e ↦ (refused e, table)
    | span start last ↦
        if needs_memory c.command && not c.allocated
        then (refused enomem, table)
        else perform c start last ps table
  ]
]
