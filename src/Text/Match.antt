-- ===== src/Text/Match.antt =====
-- What a pattern matches, and that `strglob` always answers.
use mos.Base.{
  ℕ, zero, suc, ◌≤◌, ◌≡◌, ◌≢◌, refl, sym, subst, ◌⊎◌, inl, inr, Bool, true, false, ◌&&◌, ◌||◌, not,
  Option, some, List, [], ◌∷◌, leb, ◌==◌, if◌then◌else◌, length, arith, Bool-cases,
}
use mos.Text.Glob.{
  class_loop, match_class, Sign, star, any_one, class, escape, literal, sign, skip_stars, is_empty,
  try_each, glob_step, glob,
}
use mos.Text.Bracket.{InClass}

-- The characters * ? [ and \, which do not stand for themselves.
abbrev pub IsPlain : ℕ → Type 0
IsPlain c = (c ≢ 0x2A) × (c ≢ 0x3F) × (c ≢ 0x5B) × (c ≢ 0x5C)

-- What a pattern means.
pub data Matches : List ℕ → List ℕ → Type 0 where
  done : Matches [] []
  star_none : (pat s : List ℕ) → Matches pat s → Matches (0x2A ∷ pat) s
  star_more : (pat s : List ℕ) (c : ℕ) → Matches (0x2A ∷ pat) s → Matches (0x2A ∷ pat) (c ∷ s)
  one : (pat s : List ℕ) (c : ℕ) → Matches pat s → Matches (0x3F ∷ pat) (c ∷ s)
  member :
      (pat rest s : List ℕ) (c : ℕ)
      → InClass c pat rest
      → Matches rest s
      → Matches (0x5B ∷ pat) (c ∷ s)
  escaped : (pat s : List ℕ) (c : ℕ) → Matches pat s → Matches (0x5C ∷ c ∷ pat) (c ∷ s)
  same : (pat s : List ℕ) (c : ℕ) → IsPlain c → Matches pat s → Matches (c ∷ pat) (c ∷ s)

pub data Suffix : List ℕ → List ℕ → Type 0 where
  whole : (s : List ℕ) → Suffix s s
  later : (s' s : List ℕ) (c : ℕ) → Suffix s' s → Suffix s' (c ∷ s)

pub class_loop-length :
    (c : ℕ) (m : Bool) (pat : List ℕ) → length (class_loop c m pat).1 ≤ length pat
unfolding class_loop
class_loop-length c m [] = omega arith
class_loop-length c m (p ∷ []) = elim (Bool-cases (p == 0x5D)) [
  | inl e ↦ rw (e, length) (omega arith)
  | inr ne ↦ rw (ne, length) (omega arith)
]
class_loop-length c m (p ∷ q ∷ []) =
    let rest = class_loop-length c (m || c == p) (q ∷ []) in
    elim (Bool-cases (p == 0x5D)) [
      | inl e ↦ rw (e, class_loop) (omega arith)
      | inr ne ↦ rw (ne, class_loop) (omega arith)
    ]
class_loop-length c m (p ∷ q ∷ r ∷ rest) =
    let range = class_loop-length c (m || (leb p c && leb c r)) rest in
    let single = class_loop-length c (m || c == p) (q ∷ r ∷ rest) in
    elim (Bool-cases (p == 0x5D)) [
      | inl e ↦ rw (e, class_loop) (omega arith)
      | inr ne ↦ elim (Bool-cases (q == 0x2D && not (r == 0x5D))) [
        | inl e ↦ rw (ne, e, class_loop) (omega arith)
        | inr ne' ↦ rw (ne, ne', class_loop) (omega arith)
      ]
    ]

pub skip_stars-length : (pat : List ℕ) → length (skip_stars pat) ≤ length pat
unfolding skip_stars
skip_stars-length [] = omega arith
skip_stars-length (p ∷ pat) = elim (Bool-cases (p == 0x2A)) [
  | inl e ↦ rw (e, skip_stars) (let h = skip_stars-length pat in omega arith)
  | inr ne ↦ rw (ne, skip_stars) (omega arith)
]

-- The search along the string.
module _ (g : List ℕ → Option Bool)
    (total : (s : List ℕ) → (g s ≡ some true) ⊎ (g s ≡ some false)) where
  try_each_total : (s : List ℕ) → (try_each g s ≡ some true) ⊎ (try_each g s ≡ some false)
  unfolding try_each
  try_each_total [] = total []
  try_each_total (c ∷ s) = elim (total (c ∷ s)) [
    | inl hit ↦ rw (hit, try_each) (inl refl)
    | inr miss ↦ rw (miss, try_each) (try_each_total s)
  ]

  pub try_each-Suffix :
      (s : List ℕ) → try_each g s ≡ some true → (s' : List ℕ) × Suffix s' s × (g s' ≡ some true)
  unfolding try_each
  try_each-Suffix [] e = ([], whole [], e)
  try_each-Suffix (c ∷ s) e = elim (total (c ∷ s)) [
    | inl hit ↦ (c ∷ s, whole (c ∷ s), hit)
    | inr miss ↦
        let (s', suffix, found) = try_each-Suffix s (rw (sym e, miss, try_each) refl) in
        (s', later s' s c suffix, found)
  ]

  pub try_each_found : (s' s : List ℕ) → Suffix s' s → g s' ≡ some true → try_each g s ≡ some true
  unfolding try_each
  try_each_found s' s (whole []) e = e
  try_each_found s' s (whole (c ∷ t)) e = rw (e, try_each) refl
  try_each_found s' s (later s1 t c suffix) e = elim (total (c ∷ t)) [
    | inl hit ↦ rw (hit, try_each) refl
    | inr miss ↦ rw (miss, try_each) (try_each_found s' t suffix e)
  ]

pub match_class-length : (c : ℕ) (pat : List ℕ) → length (match_class c pat).1 ≤ length pat
unfolding match_class
match_class-length c [] = class_loop-length c false []
match_class-length c (p ∷ rest) =
    let inner = class_loop-length c false rest in
    let plain = class_loop-length c false (p ∷ rest) in
    elim (Bool-cases (p == 0x21 || p == 0x5E)) [
      | inl e ↦ rw (e, match_class) (omega arith)
      | inr ne ↦ rw (ne, match_class) (omega arith)
    ]

abbrev pub Answered : Option Bool → Type 0
Answered o = (o ≡ some true) ⊎ (o ≡ some false)

-- One round, with an answer for the shorter patterns.
module _ (n : ℕ) (g : List ℕ → List ℕ → Option Bool)
    (total : (pat s : List ℕ) → length pat ≤ n → Answered (g pat s)) where
  choice_total :
      (b : Bool) (pat s : List ℕ) → length pat ≤ n → Answered (if b then g pat s else some false)
  choice_total true pat s h = total pat s h
  choice_total false pat s h = inr refl

  glob_step_total :
      (x : Sign) (p : ℕ) (pat s : List ℕ) → length pat ≤ n → Answered (glob_step g x p pat s)
  unfolding glob_step
  glob_step_total star p pat s h =
      let shorter = skip_stars-length pat in
      elim (Bool-cases (is_empty (skip_stars pat))) [
        | inl end ↦ rw (end, glob_step) (inl refl)
        | inr more ↦
            rw (more, glob_step)
              (try_each_total (g (skip_stars pat)) (λ s. total (skip_stars pat) s (omega arith)) s)
      ]
  glob_step_total any_one p pat [] h = inr refl
  glob_step_total any_one p pat (c ∷ s) h = total pat s h
  glob_step_total class p pat [] h = inr refl
  glob_step_total class p pat (c ∷ s) h =
      let shorter = match_class-length c pat in
      choice_total (match_class c pat).0 (match_class c pat).1 s (omega arith)
  glob_step_total escape p [] s h = inr refl
  glob_step_total escape p (q ∷ pat) [] h = inr refl
  glob_step_total escape p (q ∷ pat) (c ∷ s) h = choice_total (q == c) pat s (omega arith)
  glob_step_total literal p pat [] h = inr refl
  glob_step_total literal p pat (c ∷ s) h = choice_total (p == c) pat s h

-- Enough fuel gives an answer.
pub glob_total : (fuel : ℕ) (pat s : List ℕ) → length pat ≤ fuel → Answered (glob fuel pat s)
unfolding glob is_empty
glob_total zero [] [] h = inl refl
glob_total (suc fuel) [] [] h = inl refl
glob_total zero [] (c ∷ s) h = inr refl
glob_total (suc fuel) [] (c ∷ s) h = inr refl
glob_total zero (p ∷ pat) s h = absurd (omega arith)
glob_total (suc fuel) (p ∷ pat) s h =
    glob_step_total fuel (glob fuel) (λ pat s h. glob_total fuel pat s h) (sign p) p pat s
      (omega arith)

pub skip_stars-Matches : (pat s : List ℕ) → Matches (skip_stars pat) s → Matches pat s
unfolding skip_stars
skip_stars-Matches [] s m = m
skip_stars-Matches (p ∷ pat) s m = elim (Bool-cases (p == 0x2A)) [
  | inl e ↦
      let is_star : 0x2A ≡ p = ground arith in
      let m' : Matches (skip_stars pat) s =
        subst
          (λ (b : Bool).
            Matches (elim b as (λ x. List ℕ) [ true ↦ skip_stars pat | false ↦ p ∷ pat ]) s)
          e m in
      subst (λ (c : ℕ). Matches (c ∷ pat) s) is_star (star_none pat s (skip_stars-Matches pat s m'))
  | inr ne ↦
      subst
        (λ (b : Bool).
          Matches (elim b as (λ x. List ℕ) [ true ↦ skip_stars pat | false ↦ p ∷ pat ]) s)
        ne m
]

pub Suffix-Matches : (pat s' s : List ℕ) → Suffix s' s → Matches pat s' → Matches (0x2A ∷ pat) s
Suffix-Matches pat s' s (whole t) m = star_none pat t m
Suffix-Matches pat s' s (later t' t c suffix) m =
    star_more pat t c (Suffix-Matches pat t' t suffix m)

pub nil-Suffix : (s : List ℕ) → Suffix [] s
nil-Suffix [] = whole []
nil-Suffix (c ∷ s) = later [] s c (nil-Suffix s)

-- A match is a match of what follows the stars, from somewhere on.
pub Matches-skip_stars :
    (pat s : List ℕ) → Matches pat s → (s' : List ℕ) × Suffix s' s × Matches (skip_stars pat) s'
unfolding skip_stars sign
Matches-skip_stars pat s done = ([], whole [], done)
Matches-skip_stars pat s (star_none p t m) = Matches-skip_stars p t m
Matches-skip_stars pat s (star_more p t c m) =
    let (s', suffix, m') = Matches-skip_stars (0x2A ∷ p) t m in (s', later s' t c suffix, m')
Matches-skip_stars pat s (one p t c m) = (c ∷ t, whole (c ∷ t), one p t c m)
Matches-skip_stars pat s (member p r t c e m) = (c ∷ t, whole (c ∷ t), member p r t c e m)
Matches-skip_stars pat s (escaped p t c m) = (c ∷ t, whole (c ∷ t), escaped p t c m)
Matches-skip_stars pat s (same p t c e m) =
    let other : (c == 0x2A) ≡ false = ground arith in
    rw (other, skip_stars) (c ∷ t, whole (c ∷ t), same p t c e m)
