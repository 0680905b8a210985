-- ===== src/Text/Bracket.antt =====
-- What a bracket expression of a pattern means, and that `match_class` reads it so.
use mos.Base.{
  ℕ, ◌≡◌, refl, sym, ap, ◌∙◌, inl, inr, Bool, true, false, ◌&&◌, ◌||◌, not, List, [], ◌∷◌, leb,
  ◌==◌, arith, Bool-cases, subst,
}
use mos.Text.Glob.{class_loop, match_class}

-- The first and the last character of each item.
abbrev pub Spans : Type 0
Spans = List (ℕ × ℕ)

-- A dash and another character than the closing bracket.
unfoldable pub continues_range : List ℕ → Bool
continues_range (q ∷ r ∷ rest) = q == 0x2D && not (r == 0x5D)
continues_range _ = false

-- The items that stand up to the closing bracket, or to the end of the pattern; and what follows.
pub data Spells : List ℕ → Spans → List ℕ → Type 0 where
  unclosed : Spells [] [] []
  closed : (rest : List ℕ) → Spells (0x5D ∷ rest) [] rest
  range :
      (lo hi : ℕ) (pat rest : List ℕ) (spans : Spans)
      → (lo == 0x5D) ≡ false
      → (hi == 0x5D) ≡ false
      → Spells pat spans rest
      → Spells (lo ∷ 0x2D ∷ hi ∷ pat) ((lo, hi) ∷ spans) rest
  single :
      (p : ℕ) (pat rest : List ℕ) (spans : Spans)
      → (p == 0x5D) ≡ false
      → continues_range pat ≡ false
      → Spells pat spans rest
      → Spells (p ∷ pat) ((p, p) ∷ spans) rest

unfoldable pub in_spans : Spans → ℕ → Bool
in_spans [] c = false
in_spans ((lo, hi) ∷ spans) c = (leb lo c && leb c hi) || in_spans spans c

unfoldable pub is_negated : List ℕ → Bool
is_negated [] = false
is_negated (p ∷ pat) = p == 0x21 || p == 0x5E

-- The character `c` is one that the expression at `pat` stands for; `rest` follows the expression.
pub data InClass (c : ℕ) : List ℕ → List ℕ → Type 0 where
  listed :
      (pat rest : List ℕ) (spans : Spans)
      → is_negated pat ≡ false
      → Spells pat spans rest
      → in_spans spans c ≡ true
      → InClass c pat rest
  unlisted :
      (sign : ℕ) (pat rest : List ℕ) (spans : Spans)
      → is_negated (sign ∷ pat) ≡ true
      → Spells pat spans rest
      → in_spans spans c ≡ false
      → InClass c (sign ∷ pat) rest

abbrev Spelled : List ℕ → Type 0
Spelled pat = (spans : Spans) × (rest : List ℕ) × Spells pat spans rest

Spelled-single :
    (p : ℕ) (pat : List ℕ)
    → (p == 0x5D) ≡ false
    → continues_range pat ≡ false
    → Spelled pat
    → Spelled (p ∷ pat)
Spelled-single p pat ne plain (spans, rest, t) =
    ((p, p) ∷ spans, rest, single p pat rest spans ne plain t)

Spelled-closed : (p : ℕ) (pat : List ℕ) → (p == 0x5D) ≡ true → Spelled (p ∷ pat)
Spelled-closed p pat e =
    let same : 0x5D ≡ p = ground arith in
    subst (λ (k : ℕ). Spelled (k ∷ pat)) same ([], pat, closed pat)

Spelled-range :
    (p q r : ℕ) (pat : List ℕ)
    → (p == 0x5D) ≡ false
    → (q == 0x2D && not (r == 0x5D)) ≡ true
    → Spelled pat
    → Spelled (p ∷ q ∷ r ∷ pat)
Spelled-range p q r pat ne dashed (spans, rest, t) =
    let same : 0x2D ≡ q = ground arith in
    let other : (r == 0x5D) ≡ false = ground arith in
    subst (λ (k : ℕ). Spelled (p ∷ k ∷ r ∷ pat)) same
      ((p, r) ∷ spans, rest, range p r pat rest spans ne other t)

-- Every pattern spells some expression.
spelled : (pat : List ℕ) → Spelled pat
unfolding continues_range
spelled [] = ([], [], unclosed)
spelled (p ∷ []) = elim (Bool-cases (p == 0x5D)) [
  | inl e ↦ Spelled-closed p [] e
  | inr ne ↦ Spelled-single p [] ne refl (spelled [])
]
spelled (p ∷ q ∷ []) = elim (Bool-cases (p == 0x5D)) [
  | inl e ↦ Spelled-closed p (q ∷ []) e
  | inr ne ↦ Spelled-single p (q ∷ []) ne refl (spelled (q ∷ []))
]
spelled (p ∷ q ∷ r ∷ pat) = elim (Bool-cases (p == 0x5D)) [
  | inl e ↦ Spelled-closed p (q ∷ r ∷ pat) e
  | inr ne ↦ elim (Bool-cases (q == 0x2D && not (r == 0x5D))) [
    | inl dashed ↦ Spelled-range p q r pat ne dashed (spelled pat)
    | inr plain ↦ Spelled-single p (q ∷ r ∷ pat) ne plain (spelled (q ∷ r ∷ pat))
  ]
]

-- One character is an item by itself.
class_loop_single :
    (c : ℕ) (m : Bool) (p : ℕ) (pat : List ℕ)
    → (p == 0x5D) ≡ false
    → continues_range pat ≡ false
    → class_loop c m (p ∷ pat) ≡ class_loop c (m || c == p) pat
unfolding class_loop continues_range
class_loop_single c m p [] ne plain = rw (class_loop, ne) refl
class_loop_single c m p (q ∷ []) ne plain = rw (class_loop, ne) refl
class_loop_single c m p (q ∷ r ∷ pat) ne plain = rw (class_loop, ne, plain) refl

one_more :
    (m a b : Bool) (rest : List ℕ)
    → ◌≡◌ {A = Bool × List ℕ} ((m || a) || b, rest) (m || (a || b), rest)
one_more true a b rest = refl
one_more false a b rest = refl

no_more : (m : Bool) (rest : List ℕ) → ◌≡◌ {A = Bool × List ℕ} (m, rest) (m || false, rest)
no_more true rest = refl
no_more false rest = refl

class_loop_closed : (c : ℕ) (m : Bool) (r : List ℕ) → class_loop c m (0x5D ∷ r) ≡ (m, r)
unfolding class_loop
class_loop_closed c m [] = refl
class_loop_closed c m (x ∷ []) = refl
class_loop_closed c m (x ∷ y ∷ r) = refl

-- `class_loop` finds the character among the items, and stops where they end.
Spells-class_loop :
    (c : ℕ) (m : Bool) (pat rest : List ℕ) (spans : Spans)
    → Spells pat spans rest
    → class_loop c m pat ≡ (m || in_spans spans c, rest)
unfolding class_loop in_spans
Spells-class_loop c m pat rest spans unclosed = no_more m []
Spells-class_loop c m pat rest spans (closed r) = class_loop_closed c m r ∙ no_more m r
Spells-class_loop c m pat rest spans (range lo hi p r is a b t) =
    rw (class_loop, a, b)
      (Spells-class_loop c (m || (leb lo c && leb c hi)) p r is t
        ∙ one_more m (leb lo c && leb c hi) (in_spans is c) r)
Spells-class_loop c m pat rest spans (single x p r is a b t) =
    let same : (c == x) ≡ (leb x c && leb c x) = ground arith in
    class_loop_single c m x p a b
    ∙ Spells-class_loop c (m || c == x) p r is t
    ∙ one_more m (c == x) (in_spans is c) r
    ∙ rw same refl

match_class_plain :
    (c : ℕ) (pat : List ℕ) → is_negated pat ≡ false → match_class c pat ≡ class_loop c false pat
unfolding match_class is_negated
match_class_plain c [] n = refl
match_class_plain c (p ∷ pat) n = rw (match_class, n) refl

match_class_negated :
    (c p : ℕ) (pat : List ℕ)
    → is_negated (p ∷ pat) ≡ true
    → match_class c (p ∷ pat) ≡ (not (class_loop c false pat).0, (class_loop c false pat).1)
unfolding match_class is_negated
match_class_negated c p pat n = rw (match_class, n) refl

pub InClass-match_class :
    (c : ℕ) (pat rest : List ℕ) → InClass c pat rest → match_class c pat ≡ (true, rest)
InClass-match_class c pat rest (listed p r is n t e) =
    match_class_plain c pat n ∙ Spells-class_loop c false pat rest is t ∙ rw e refl
InClass-match_class c pat rest (unlisted sign p r is n t e) =
    match_class_negated c sign p n ∙ rw (Spells-class_loop c false p r is t, e) refl

pub match_class-InClass :
    (c : ℕ) (pat : List ℕ) → (match_class c pat).0 ≡ true → InClass c pat (match_class c pat).1
unfolding match_class class_loop
match_class-InClass c [] h = absurd (cc)
match_class-InClass c (p ∷ pat) h = elim (Bool-cases (is_negated (p ∷ pat))) [
  | inl negated ↦
      let (is, rest, t) = spelled pat in
      let e : match_class c (p ∷ pat) ≡ (not (in_spans is c), rest) =
        match_class_negated c p pat negated
        ∙ ap (λ (r : Bool × List ℕ). (not r.0, r.1)) (Spells-class_loop c false pat rest is t) in
      let out : in_spans is c ≡ false = ground (arith, e) in
      rw e (unlisted p pat rest is negated t out)
  | inr plain ↦
      let (is, rest, t) = spelled (p ∷ pat) in
      let e = match_class_plain c (p ∷ pat) plain ∙ Spells-class_loop c false (p ∷ pat) rest is t in
      let found : in_spans is c ≡ true = sym (ap (λ (r : Bool × List ℕ). r.0) e) ∙ h in
      rw e (listed (p ∷ pat) rest is plain t found)
]
