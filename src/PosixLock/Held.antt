-- ===== src/PosixLock/Held.antt =====
-- The abstract view of the lock table: what each owner holds at each byte of each file.
use mos.Base.{
  ℕ, ◌≤◌, ◌≡◌, ◌≢◌, Bool, true, ◌&&◌, ◌||◌, not, Option, none, some, List, [], ◌∷◌, leb, ◌==◌,
  if◌then◌else◌, arith,
}
use mos.PosixLock.{Kind, wrlck, Key, Range, same_file, owned_by}

unfoldable pub key_eq : Key → Key → Bool
key_eq p q = p.owner == q.owner && p.identity == q.identity && p.ino == q.ino

abbrev pub hits : Range → Key → ℕ → Bool
hits r q x = key_eq r.key q && leb r.start x && leb x r.last

-- The lock that `q.owner` holds on the byte `x` of its file.
unfoldable pub held : List Range → Key → ℕ → Option Kind
held [] q x = none
held (r ∷ rs) q x = if hits r q x then some r.kind else held rs q x

-- The ranges of one owner on one file do not overlap.
abbrev pub IsDisjoint : List Range → Type 0
IsDisjoint [] = Unit {0}
IsDisjoint (r ∷ rs) =
    (r.start ≤ r.last)
    × ((x : ℕ) → r.start ≤ x → x ≤ r.last → held rs r.key x ≡ none)
    × IsDisjoint rs

-- No owner holds a byte for writing that another holds at all.
abbrev pub IsExclusive : List Range → Type 0
IsExclusive table =
    (q p : Key) (x : ℕ)
    → q.identity ≡ p.identity
    → q.ino ≡ p.ino
    → q.owner ≢ p.owner
    → held table q x ≡ some wrlck
    → held table p x ≡ none

pub key_eq_left : (k p q : Key) → key_eq k p ≡ true → key_eq k q ≡ key_eq p q
unfolding key_eq
key_eq_left k p q h = ground arith

pub key_eq_right : (k p q : Key) → key_eq p q ≡ true → key_eq k p ≡ key_eq k q
unfolding key_eq
key_eq_right k p q h = ground arith

pub key_eq-eq : (p q : Key) → key_eq p q ≡ true → p ≡ q
unfolding key_eq
key_eq-eq p q h = ground arith

pub key_eq_self : (k : Key) → key_eq k k ≡ true
unfolding key_eq
key_eq_self k = ground arith

-- The code's two tests, with whatever follows them.
pub passes-key_eq :
    (r : Range) (q : Key) (b : Bool)
    → (not (owned_by r q) || not (same_file r q) || b) ≡ (not (key_eq r.key q) || b)
unfolding key_eq same_file owned_by
passes-key_eq r q b = ground arith
