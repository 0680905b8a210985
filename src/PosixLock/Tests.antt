-- ===== src/PosixLock/Tests.antt =====
-- Locks on file 7: process 1 holds bytes 0 to 99 for writing and unlocks or reads the middle of them.
use mos.PosixLock.Request.{Pause, Call, setlkw, posix_lock}
use mos.PosixLock.Whole.{InOrder, AllInOrder, posix_lock-InOrder}
use mos.Base.{true, false, pos, ℕ, ◌≡◌, refl, none, some, List, [], ◌∷◌, arith, if◌then◌else◌}
use mos.PosixLock.{Kind, rdlck, wrlck, Key, Range, conflict, carve, apply, same_file, owned_by}
use mos.PosixLock.Held.{held, IsDisjoint, IsExclusive, key_eq}
use mos.PosixLock.Carve.{requested}
use mos.PosixLock.Grant.{apply_lem, apply-IsExclusive}

abbrev key : ℕ → Key
key owner = record { identity = 1; ino = 7; owner = owner }

abbrev range : ℕ → Kind → ℕ → ℕ → Range
range owner kind start last = record {
  key = key owner;
  dev = 0;
  kind = kind;
  start = start;
  last = last;
}

abbrev table : List Range
table = range 1 wrlck 0 99 ∷ range 2 rdlck 200 299 ∷ []

table-IsDisjoint : IsDisjoint table
unfolding held key_eq
table-IsDisjoint = (omega arith, (λ x a b. ground arith), (omega arith, (λ x a b. refl), tt))

table-IsExclusive : IsExclusive table
unfolding held key_eq
table-IsExclusive q p x i n o h = ground arith

carve-table :
    carve (key 1) 40 59 table
    ≡ range 1 wrlck 0 39 ∷ range 1 wrlck 60 99 ∷ range 2 rdlck 200 299 ∷ []
unfolding carve same_file owned_by
carve-table = refl

conflict-table : conflict (key 2) rdlck 40 59 table ≡ some (range 1 wrlck 0 99)
unfolding conflict same_file owned_by
conflict-table = refl

no_conflict : (kind : Kind) → some rdlck ≡ some kind → conflict (key 1) kind 40 59 table ≡ none
unfolding conflict same_file owned_by
no_conflict rdlck e = refl
no_conflict wrlck e = refl

apply_lem_example :
    IsDisjoint (apply (key 1) 0 (some rdlck) 40 59 table)
    × ((q : Key) (x : ℕ)
        → held (apply (key 1) 0 (some rdlck) 40 59 table) q x
          ≡ (if requested (key 1) 40 59 (omega arith) q x then some rdlck else held table q x))
apply_lem_example = apply_lem (key 1) 40 59 (omega arith) 0 (some rdlck) table table-IsDisjoint

apply-IsExclusive_example : IsExclusive (apply (key 1) 0 (some rdlck) 40 59 table)
apply-IsExclusive_example =
    apply-IsExclusive (key 1) 0 (some rdlck) 40 59 table (omega arith) table-IsDisjoint no_conflict
      table-IsExclusive

-- Process 2 waits for bytes 40 to 59, until process 1 unlocks its first 100.
abbrev unlocks : Pause
unlocks = record {
  signal_first = false;
  others = λ t. apply (key 1) 0 none 0 99 t;
  signal_after = false;
}

abbrev call : Call
call = record {
  command = setlkw;
  known_type = true;
  request = some wrlck;
  readable = true;
  writable = true;
  whence = 0;
  f_pos = pos 0;
  i_size = 0;
  l_start = pos 40;
  l_len = pos 20;
  key = key 2;
  dev = 0;
  allocated = true;
}

unlocks-AllInOrder : AllInOrder (unlocks ∷ [])
unlocks-AllInOrder = (
  (λ t i. (
    (apply_lem (key 1) 0 99 (omega arith) 0 none t i.0).0,
    apply-IsExclusive (key 1) 0 none 0 99 t (omega arith) i.0 (λ k e. absurd (cc)) i.1,
  )),
  tt,
)

posix_lock-InOrder_example : InOrder (posix_lock call (unlocks ∷ []) table).1
posix_lock-InOrder_example =
    posix_lock-InOrder call (unlocks ∷ []) table unlocks-AllInOrder
      (table-IsDisjoint, table-IsExclusive)
