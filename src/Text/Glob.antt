-- ===== src/Text/Glob.antt =====
-- `match_class`, `strglob_impl` and `strglob` of src/lib/impl/kstring.c. A string is the list of its
-- characters up to the NUL.
use mos.Base.{
  ℕ, zero, suc, Bool, true, false, ◌&&◌, ◌||◌, not, Option, none, some, List, [], ◌∷◌, leb, ◌==◌,
  if◌then◌else◌, length,
}

-- The loop over a bracket expression: whether the character was met, and what follows the expression.
unfoldable pub class_loop : ℕ → Bool → List ℕ → Bool × List ℕ
class_loop c m [] = (m, [])
class_loop c m (p ∷ []) = if p == 0x5D then (m, []) else (m || c == p, [])
class_loop c m (p ∷ q ∷ []) = elim (p == 0x5D) [
  | true ↦ (m, q ∷ [])
  | false ↦ class_loop c (m || c == p) (q ∷ [])
]
class_loop c m (p ∷ q ∷ r ∷ rest) = elim (p == 0x5D) [
  | true ↦ (m, q ∷ r ∷ rest)
  | false ↦ elim (q == 0x2D && not (r == 0x5D)) [
    | true ↦ class_loop c (m || (leb p c && leb c r)) rest
    | false ↦ class_loop c (m || c == p) (q ∷ r ∷ rest)
  ]
]

unfoldable pub match_class : ℕ → List ℕ → Bool × List ℕ
match_class c [] = class_loop c false []
match_class c (p ∷ rest) = elim (p == 0x21 || p == 0x5E) [
  | true ↦ (not (class_loop c false rest).0, (class_loop c false rest).1)
  | false ↦ class_loop c false (p ∷ rest)
]

-- The cases of the `switch`.
pub data Sign : Type 0 where
  star any_one class escape literal : Sign

unfoldable pub sign : ℕ → Sign
sign p =
    if p == 0x2A
    then star
    else if p == 0x3F
    then any_one
    else if p == 0x5B
    then class
    else if p == 0x5C
    then escape
    else literal

unfoldable pub skip_stars : List ℕ → List ℕ
skip_stars [] = []
skip_stars (p ∷ pat) = elim (p == 0x2A) [ true ↦ skip_stars pat | false ↦ p ∷ pat ]

unfoldable pub is_empty : List ℕ → Bool
is_empty [] = true
is_empty (c ∷ s) = false

-- The rest of the pattern is tried at each position of the string, its end included.
unfoldable pub try_each : (List ℕ → Option Bool) → List ℕ → Option Bool
try_each g [] = g []
try_each g (c ∷ s) = elim (g (c ∷ s)) [
  | none ↦ none
  | some b ↦ elim b [ true ↦ some true | false ↦ try_each g s ]
]

-- One round of the outer loop, with what follows it.
unfoldable pub glob_step :
    (List ℕ → List ℕ → Option Bool) → Sign → ℕ → List ℕ → List ℕ → Option Bool
glob_step g star p pat str =
    if is_empty (skip_stars pat) then some true else try_each (g (skip_stars pat)) str
glob_step g any_one p pat [] = some false
glob_step g any_one p pat (c ∷ s) = g pat s
glob_step g class p pat [] = some false
glob_step g class p pat (c ∷ s) =
    if (match_class c pat).0 then g (match_class c pat).1 s else some false
glob_step g escape p [] str = some false
glob_step g escape p (q ∷ pat) [] = some false
glob_step g escape p (q ∷ pat) (c ∷ s) = if q == c then g pat s else some false
glob_step g literal p pat [] = some false
glob_step g literal p pat (c ∷ s) = if p == c then g pat s else some false

-- `strglob_impl`, with fuel for as many rounds as the pattern has characters.
unfoldable pub glob : ℕ → List ℕ → List ℕ → Option Bool
glob fuel [] str = some (is_empty str)
glob zero (p ∷ pat) str = none
glob (suc fuel) (p ∷ pat) str = glob_step (glob fuel) (sign p) p pat str

unfoldable pub strglob : List ℕ → List ℕ → Option Bool
strglob pat str = glob (length pat) pat str
