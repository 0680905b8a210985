-- ===== src/Bpf/Codes.antt =====
-- The codes of loads, one by one: those in mode 0x60 are the two that read scratch memory.
use mos.Base.{
  ℕ, ◌≡◌, refl, sym, subst, inl, inr, List, [], ◌∷◌, ◌==◌, arith, Bool-cases, Bool, true, false,
  bit_and, ◌&&◌, ◌||◌, not,
}
use mos.Bpf.Verify.{valid_load}

-- A test that passes on each number of a list.
passes : (ℕ → Bool) → List ℕ → Bool
passes test [] = true
passes test (n ∷ ns) = test n && passes test ns

one_of : ℕ → List ℕ → Bool
one_of c [] = false
one_of c (n ∷ ns) = c == n || one_of c ns

passes-one_of :
    (test : ℕ → Bool) (c : ℕ) (ns : List ℕ)
    → passes test ns ≡ true
    → one_of c ns ≡ true
    → test c ≡ true
unfolding passes one_of
passes-one_of test c [] ok e = absurd (cc)
passes-one_of test c (n ∷ ns) ok e = elim (Bool-cases (c == n)) [
  | inl same ↦
      let e' : c ≡ n = ground arith in subst (λ (m : ℕ). test m ≡ true) (sym e') (ground arith)
  | inr other ↦ passes-one_of test c ns (ground arith) (ground arith)
]

-- The codes of loads, of which two read scratch memory.
abbrev load_codes : List ℕ
load_codes = 0 ∷ 1 ∷ 0x20 ∷ 0x28 ∷ 0x30 ∷ 0x40 ∷ 0x48 ∷ 0x50 ∷ 0x60 ∷ 0x61 ∷ 0x80 ∷ 0x81 ∷ 0xb1 ∷ []

abbrev scratch_load : ℕ → Bool
scratch_load c = not (bit_and c 0xe0 == 0x60) || c == 0x60 || c == 0x61

scratch_loads : passes scratch_load load_codes ≡ true
unfolding passes
scratch_loads = refl

valid_load-one_of : (c : ℕ) → valid_load c ≡ true → one_of c load_codes ≡ true
unfolding valid_load one_of
valid_load-one_of c h = ground arith

pub scratch_code :
    (c : ℕ) → valid_load c ≡ true → bit_and c 0xe0 ≡ 0x60 → (c == 0x60 || c == 0x61) ≡ true
scratch_code c h e =
    ground (arith, passes-one_of scratch_load c load_codes scratch_loads (valid_load-one_of c h))
