-- ===== src/Base/Members.antt =====
-- Lists of numbers by what they hold, and functions changed at one place.
use Prim.Native.Nat.{ℕ, ◌+◌, ◌-◌}
use mathlib.Core.Path.{◌≡◌, refl}
use mathlib.Core.Logic.{inl, inr}
use mathlib.Core.Bool.{Bool, true, false}
use mathlib.Core.List.{List, [], ◌∷◌, ◌++◌}
use native.Mathlib.Omega.{arith}
use mos.Base.Tests.{◌==◌, if◌then◌else◌, Bool-cases}

abbrev pub put {ℓ} : {A : Type ℓ} → (ℕ → A) → ℕ → A → ℕ → A
put f i v j = if j == i then v else f j

unfoldable pub delete : ℕ → List ℕ → List ℕ
delete x [] = []
delete x (y ∷ ys) = if y == x then ys else y ∷ delete x ys

unfoldable pub is_empty : List ℕ → Bool
is_empty [] = true
is_empty (x ∷ xs) = false

unfoldable pub occurrences : ℕ → List ℕ → ℕ
occurrences x [] = 0
occurrences x (y ∷ ys) = (if y == x then 1 else 0) + occurrences x ys

pub occurrences-delete :
    (x y : ℕ) (xs : List ℕ)
    → occurrences x (delete y xs) ≡ (if x == y then occurrences x xs - 1 else occurrences x xs)
unfolding occurrences delete
occurrences-delete x y [] = ground arith
occurrences-delete x y (z ∷ zs) =
    let rest = occurrences-delete x y zs in
    elim (Bool-cases (z == y)) [ inl h ↦ rw h (ground arith) | inr h ↦ rw h (ground arith) ]

pub occurrences-is_empty : (x : ℕ) (xs : List ℕ) → is_empty xs ≡ true → occurrences x xs ≡ 0
unfolding occurrences is_empty
occurrences-is_empty x [] e = refl
occurrences-is_empty x (y ∷ ys) e = ground arith

pub ==-self : (x : ℕ) → (x == x) ≡ true
==-self x = ground arith

pub ==→≡ : (a b : ℕ) → (a == b) ≡ true → a ≡ b
==→≡ a b e = ground arith

pub occurrences-append :
    (x : ℕ) (xs ys : List ℕ) → occurrences x (xs ++ ys) ≡ occurrences x xs + occurrences x ys
unfolding occurrences
occurrences-append x [] ys = omega arith
occurrences-append x (z ∷ zs) ys = let rest = occurrences-append x zs ys in ground arith

-- A change that keeps a value of what is changed keeps it everywhere.
pub put-kept {ℓ} :
    {A B : Type ℓ} (f : A → B) (g : ℕ → A) (i : ℕ) (v : A)
    → f v ≡ f (g i)
    → (j : ℕ) → f (put g i v j) ≡ f (g j)
put-kept f g i v e j = elim (Bool-cases (j == i)) [
  | inl h ↦ let k : j ≡ i = ==→≡ j i h in rw (h, k) e
  | inr h ↦ rw h refl
]
