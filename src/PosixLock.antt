-- ===== src/PosixLock.antt =====
-- src/fs/impl/posix_lock.c: the byte-range locks of `fcntl`, owned by processes. The table is the
-- list `ranges`, front first. `range_lock` makes each pass under it one step.
pub mod Held
pub mod Carve
pub mod Grant
pub mod Request
pub mod Whole
mod Tests
use mos.Base.{
  ℕ, ◌+◌, ◌-◌, Bool, true, false, ◌&&◌, ◌||◌, not, Option, none, some, List, [], ◌∷◌, ltb, leb,
  ◌==◌, if◌then◌else◌,
}

abbrev pub int64_max : ℕ
int64_max = 0x7fffffffffffffff

-- F_RDLCK and F_WRLCK, the types that a range can have.
pub data Kind : Type 0 where
  rdlck wrlck : Kind

-- Whose lock on which file: `lock_identity` and the inode number, and the thread group.
pub record Key : Type 0 where
  pub identity : ℕ
  pub ino : ℕ
  pub owner : ℕ

-- `posix_range`.
pub record Range : Type 0 where
  pub key : Key
  pub dev : ℕ
  pub kind : Kind
  pub start : ℕ
  pub last : ℕ

unfoldable pub same_file : Range → Key → Bool
same_file r q = r.key.identity == q.identity && r.key.ino == q.ino

unfoldable pub owned_by : Range → Key → Bool
owned_by r q = r.key.owner == q.owner

abbrev pub overlaps : Range → ℕ → ℕ → Bool
overlaps r start last = leb start r.last && leb r.start last

abbrev pub is_write : Kind → Bool
is_write wrlck = true
is_write rdlck = false

-- The first range of another owner that stands in the way of a lock of the type `kind`.
unfoldable pub conflict : Key → Kind → ℕ → ℕ → List Range → Option Range
conflict q kind start last [] = none
conflict q kind start last (r ∷ rs) =
    if not (owned_by r q)
      && same_file r q
      && overlaps r start last
      && (is_write kind || is_write r.kind)
    then some r
    else conflict q kind start last rs

-- The loop that takes the request out of the owner's ranges. A range that sticks out on both sides
-- is split, and the loop stops there.
unfoldable pub carve : Key → ℕ → ℕ → List Range → List Range
carve q start last [] = []
carve q start last (r ∷ rs) =
    let rest = carve q start last rs in
    if not (owned_by r q) || not (same_file r q) || ltb r.last start || ltb last r.start
    then r ∷ rest
    else if ltb r.start start && ltb last r.last
    then record r { last = start - 1 } ∷ record r { start = last + 1 } ∷ rs
    else if ltb r.start start
    then record r { last = start - 1 } ∷ rest
    else if ltb last r.last
    then record r { start = last + 1 } ∷ rest
    else rest

-- The table after a granted request: `none` is F_UNLCK.
unfoldable pub apply : Key → ℕ → Option Kind → ℕ → ℕ → List Range → List Range
apply q dev none start last table = carve q start last table
apply q dev (some kind) start last table =
    record { key = q; dev = dev; kind = kind; start = start; last = last }
    ∷ carve q start last table

-- The loop of `fs_posix_lock_release` over all locks of `q.owner`: on the file of `q`, or on every
-- file if `fp` is null.
unfoldable pub release_loop : Key → Bool → List Range → List Range
release_loop q all_files [] = []
release_loop q all_files (r ∷ rs) =
    let rest = release_loop q all_files rs in
    if owned_by r q && (all_files || same_file r q) then rest else r ∷ rest

-- `fs_posix_lock_release`; `unused` says whether the caller's group is the owner and its
-- `posix_locks_used` is 0.
unfoldable pub release : Bool → Key → Bool → List Range → List Range
release unused q all_files table = if unused then table else release_loop q all_files table
