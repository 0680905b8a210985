-- ===== src/Text/Decide.antt =====
-- `strglob` decides whether a string matches a pattern.
use mos.Base.{
  ℕ, zero, suc, ◌≤◌, ◌≡◌, refl, sym, subst, ◌⊎◌, inl, inr, Bool, true, false, Option, some, List,
  [], ◌∷◌, ◌==◌, if◌then◌else◌, length, arith, Bool-cases,
}
use mos.Text.Glob.{
  match_class, Sign, star, any_one, class, escape, literal, sign, skip_stars, is_empty, glob_step,
  glob, strglob,
}
use mos.Text.Bracket.{match_class-InClass, InClass-match_class}
use mos.Text.Match.{
  Matches, IsPlain, done, star_none, star_more, one, member, escaped, same, Suffix, later,
  skip_stars-length, match_class-length, Answered, glob_total, try_each-Suffix, try_each_found,
  skip_stars-Matches, Suffix-Matches, nil-Suffix, Matches-skip_stars,
}

sign-star : (p : ℕ) → sign p ≡ star → 0x2A ≡ p
unfolding sign
sign-star p e = ground arith

sign-any_one : (p : ℕ) → sign p ≡ any_one → 0x3F ≡ p
unfolding sign
sign-any_one p e = ground arith

sign-class : (p : ℕ) → sign p ≡ class → 0x5B ≡ p
unfolding sign
sign-class p e = ground arith

sign-escape : (p : ℕ) → sign p ≡ escape → 0x5C ≡ p
unfolding sign
sign-escape p e = ground arith

sign-literal : (p : ℕ) → sign p ≡ literal → IsPlain p
unfolding sign
sign-literal p e =
    ((λ h. ground arith), (λ h. ground arith), (λ h. ground arith), (λ h. ground arith))

IsPlain-sign : (p : ℕ) → IsPlain p → sign p ≡ literal
unfolding sign
IsPlain-sign p plain = ground arith

-- One round finds only matches, if what follows does.
module _ (n : ℕ) (g : List ℕ → List ℕ → Option Bool)
    (total : (pat s : List ℕ) → length pat ≤ n → Answered (g pat s))
    (sound : (pat s : List ℕ) → length pat ≤ n → g pat s ≡ some true → Matches pat s) where
  choice-Matches :
      (b : Bool) (pat s : List ℕ)
      → length pat ≤ n
      → (if b then g pat s else some false) ≡ some true
      → (b ≡ true) × Matches pat s
  choice-Matches true pat s h e = (refl, sound pat s h e)
  choice-Matches false pat s h e = absurd (cc)

  glob_step-Matches :
      (x : Sign) (p : ℕ) (pat s : List ℕ)
      → length pat ≤ n
      → sign p ≡ x
      → glob_step g x p pat s ≡ some true
      → Matches (p ∷ pat) s
  unfolding glob_step is_empty
  glob_step-Matches star p pat s h x e =
      let shorter = skip_stars-length pat in
      subst (λ (c : ℕ). Matches (c ∷ pat) s) (sign-star p x)
        (elim (Bool-cases (is_empty (skip_stars pat))) [
          | inl end ↦ Suffix-Matches pat [] s (nil-Suffix s) (
              skip_stars-Matches pat []
                (subst (λ (q : List ℕ). Matches q []) (nil_of (skip_stars pat) end) done))
          | inr more ↦
              let (s', suffix, found) =
                try_each-Suffix (g (skip_stars pat)) (λ s. total (skip_stars pat) s (omega arith)) s
                  (rw (sym e, more, glob_step) refl) in
              Suffix-Matches pat s' s suffix
                (skip_stars-Matches pat s' (sound (skip_stars pat) s' (omega arith) found))
        ])
    where
      nil_of : (q : List ℕ) → is_empty q ≡ true → [] ≡ q
      nil_of [] e = refl
      nil_of (c ∷ q) e = absurd (cc)
  glob_step-Matches any_one p pat [] h x e = absurd (cc)
  glob_step-Matches any_one p pat (c ∷ s) h x e =
      subst (λ (q : ℕ). Matches (q ∷ pat) (c ∷ s)) (sign-any_one p x)
        (one pat s c (sound pat s h e))
  glob_step-Matches class p pat [] h x e = absurd (cc)
  glob_step-Matches class p pat (c ∷ s) h x e =
      let shorter = match_class-length c pat in
      let (hit, m) = choice-Matches (match_class c pat).0 (match_class c pat).1 s (omega arith) e in
      subst (λ (q : ℕ). Matches (q ∷ pat) (c ∷ s)) (sign-class p x)
        (member pat (match_class c pat).1 s c (match_class-InClass c pat hit) m)
  glob_step-Matches escape p [] s h x e = absurd (cc)
  glob_step-Matches escape p (q ∷ pat) [] h x e = absurd (cc)
  glob_step-Matches escape p (q ∷ pat) (c ∷ s) h x e =
      let (hit, m) = choice-Matches (q == c) pat s (omega arith) e in
      let same_char : c ≡ q = ground arith in
      subst (λ (b : ℕ). Matches (b ∷ q ∷ pat) (c ∷ s)) (sign-escape p x)
        (subst (λ (b : ℕ). Matches (0x5C ∷ b ∷ pat) (c ∷ s)) same_char (escaped pat s c m))
  glob_step-Matches literal p pat [] h x e = absurd (cc)
  glob_step-Matches literal p pat (c ∷ s) h x e =
      let (hit, m) = choice-Matches (p == c) pat s h e in
      let same_char : p ≡ c = ground arith in
      subst (λ (b : ℕ). Matches (p ∷ pat) (b ∷ s)) same_char (same pat s p (sign-literal p x) m)

-- A star goes over what is before a match of the rest.
star-glob :
    (fuel : ℕ) (p s s' : List ℕ)
    → length p ≤ fuel
    → Suffix s' s
    → glob fuel (skip_stars p) s' ≡ some true
    → glob_step (glob fuel) star 0x2A p s ≡ some true
unfolding glob_step
star-glob fuel p s s' h suffix found =
    let shorter = skip_stars-length p in
    elim (Bool-cases (is_empty (skip_stars p))) [
      | inl end ↦ rw (end, glob_step) refl
      | inr more ↦
          rw (more, glob_step)
            (try_each_found (glob fuel (skip_stars p))
              (λ t. glob_total fuel (skip_stars p) t (omega arith)) s' s suffix found)
    ]

glob-Matches :
    (fuel : ℕ) (pat s : List ℕ) → length pat ≤ fuel → glob fuel pat s ≡ some true → Matches pat s
unfolding glob is_empty
glob-Matches zero [] [] h e = done
glob-Matches (suc fuel) [] [] h e = done
glob-Matches zero [] (c ∷ s) h e = absurd (cc)
glob-Matches (suc fuel) [] (c ∷ s) h e = absurd (cc)
glob-Matches zero (p ∷ pat) s h e = absurd (omega arith)
glob-Matches (suc fuel) (p ∷ pat) s h e =
    glob_step-Matches fuel (glob fuel) (λ pat s h. glob_total fuel pat s h)
      (λ pat s h e. glob-Matches fuel pat s h e) (sign p) p pat s (omega arith) refl e

Matches-glob :
    (fuel : ℕ) (pat s : List ℕ) → length pat ≤ fuel → Matches pat s → glob fuel pat s ≡ some true
unfolding glob glob_step is_empty skip_stars sign
Matches-glob zero pat s h done = refl
Matches-glob (suc fuel) pat s h done = refl
Matches-glob zero pat s h (star_none p t m) = absurd (omega arith)
Matches-glob zero pat s h (star_more p t c m) = absurd (omega arith)
Matches-glob zero pat s h (one p t c m) = absurd (omega arith)
Matches-glob zero pat s h (member p r t c e m) = absurd (omega arith)
Matches-glob zero pat s h (escaped p t c m) = absurd (omega arith)
Matches-glob zero pat s h (same p t c e m) = absurd (omega arith)
Matches-glob (suc fuel) pat s h (star_none p t m) =
    let shorter = skip_stars-length p in
    let (s', suffix, m') = Matches-skip_stars p t m in
    star-glob fuel p t s' (omega arith) suffix
      (Matches-glob fuel (skip_stars p) s' (omega arith) m')
Matches-glob (suc fuel) pat s h (star_more p t c m) =
    let shorter = skip_stars-length p in
    let (s', suffix, m') = Matches-skip_stars (0x2A ∷ p) t m in
    star-glob fuel p (c ∷ t) s' (omega arith) (later s' t c suffix)
      (Matches-glob fuel (skip_stars p) s' (omega arith) m')
Matches-glob (suc fuel) pat s h (one p t c m) = Matches-glob fuel p t (omega arith) m
Matches-glob (suc fuel) pat s h (member p r t c e m) =
    let hit = InClass-match_class c p r e in
    let shorter = match_class-length c p in
    let short : length r ≤ length p = rw hit at shorter in
    rw hit (Matches-glob fuel r t (omega arith) m)
Matches-glob (suc fuel) pat s h (escaped p t c m) =
    let hit : (c == c) ≡ true = ground arith in rw hit (Matches-glob fuel p t (omega arith) m)
Matches-glob (suc fuel) pat s h (same p t c e m) =
    let hit : (c == c) ≡ true = ground arith in
    rw (IsPlain-sign c e, glob_step, hit) (Matches-glob fuel p t (omega arith) m)

-- `strglob` always ends, and answers whether the string matches the pattern.
pub strglob_lem :
    (pat s : List ℕ)
    → ((strglob pat s ≡ some true) × Matches pat s)
      ⊎ ((strglob pat s ≡ some false) × (¬ Matches pat s))
unfolding strglob
strglob_lem pat s = elim (glob_total (length pat) pat s (omega arith)) [
  | inl hit ↦ inl (hit, glob-Matches (length pat) pat s (omega arith) hit)
  | inr miss ↦
      inr (miss, λ m. let hit = Matches-glob (length pat) pat s (omega arith) m in absurd (cc))
]
