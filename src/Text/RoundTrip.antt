-- ===== src/Text/RoundTrip.antt =====
-- `atoi` reads back what `itoa` prints.
use native.Mathlib.Nat.{
  one-le-pow, pow-le-pow_right, pow-suc, div-div-eq-div-mul, div-eq_of_lt, div-one,
  le-div_iff_mul-le, div-lt_iff_lt-mul, div-le_self,
}
use mos.Base.{
  ℕ, zero, suc, ◌+◌, ◌-◌, ◌*◌, ◌/◌, ◌%◌, ◌^◌, ◌≤◌, ◌<◌, ◌≡◌, refl, sym, ◌∙◌, ap, subst, inl, inr,
  true, false, some, ltb, leb, ◌==◌, arith, Bool-cases, u32_mod, sub32, ◌||◌,
}
use mos.Text.Number.{Memory, store, hexdigit, stops, digit, atoi_loop, atoi, clear, text, itoa}
use mos.Text.Spell.{HasDigits, Spelled, print-Spelled, hexdigit_pos}

-- A decimal digit is read for what it is.
stops-hexdigit : (d : ℕ) → d < 10 → (stops 10 (hexdigit d) ≡ false) × (digit (hexdigit d) ≡ d)
unfolding stops hexdigit digit
stops-hexdigit d h = (ground arith, ground arith)

ten : 2 ≤ 10
ten = omega arith

module _ (u p : ℕ) (buf out : Memory) (s : Spelled 10 ten u p buf out) where
  -- With `k` digits to go, the loop has the number that the digits before them make.
  atoi_loop-Spelled :
      (k i fuel : ℕ)
      → i + k ≡ s.len
      → k < fuel
      → u < u32_mod
      → atoi_loop fuel 10 (p + i) (u / 10 ^ k) out ≡ some u
  unfolding atoi_loop
  atoi_loop-Spelled k i zero e h word = absurd (omega arith)
  atoi_loop-Spelled zero i (suc fuel) e h word =
      let at_end : p + s.len ≡ p + i = omega arith in
      let nul = subst (λ (q : ℕ). out q ≡ 0) at_end s.end in
      let stop : (out (p + i) == 0 || stops 10 (out (p + i))) ≡ true = ground arith in
      rw (stop, atoi_loop) (ap (λ (x : ℕ). some x) (div-one u))
  atoi_loop-Spelled (suc k) i (suc fuel) e h word =
      let place : s.len - 1 - i ≡ k = omega arith in
      let char : out (p + i) ≡ hexdigit (u / 10 ^ k % 10) =
        s.digits i (omega arith) ∙ ap (λ (j : ℕ). hexdigit (u / 10 ^ j % 10)) place in
      let (goes, value) = stops-hexdigit (u / 10 ^ k % 10) (omega arith) in
      let value' : digit (out (p + i)) ≡ u / 10 ^ k % 10 = ap digit char ∙ value in
      let goes' : stops 10 (out (p + i)) ≡ false = ap (stops 10) char ∙ goes in
      let some_char = hexdigit_pos (u / 10 ^ k % 10) in
      let go : (out (p + i) == 0 || stops 10 (out (p + i))) ≡ false = ground arith in
      let parts : u / 10 ^ suc k ≡ u / 10 ^ k / 10 =
        rw (pow-suc 10 k) (sym (div-div-eq-div-mul u (10 ^ k) 10)) in
      let smaller = div-le_self u (10 ^ k) in
      let next : (u / 10 ^ suc k * 10 + digit (out (p + i))) % u32_mod ≡ u / 10 ^ k = omega arith in
      let at_next : p + i + 1 ≡ p + (i + 1) = omega arith in
      rw (go, atoi_loop, next, at_next)
        (atoi_loop-Spelled k (i + 1) fuel (omega arith) (omega arith) word)

  -- The first digit of a number other than 0 is not 0.
  first_digit :
      (len : ℕ)
      → HasDigits 10 ten u len
      → ((i : ℕ) → i < len → out (p + i) ≡ hexdigit (u / 10 ^ (len - 1 - i) % 10))
      → 0 < u
      → (49 ≤ out p) × (out p ≤ 57)
  unfolding hexdigit
  first_digit zero e digits h = absurd (omega arith)
  first_digit (suc k) (low, high) digits h =
      let place : suc k - 1 - 0 ≡ k = omega arith in
      let some_unit : 0 < 10 ^ k = pow_pos' k in
      let from : 1 ≤ u / 10 ^ k =
        (le-div_iff_mul-le {k = 10 ^ k} {x = 1} {y = u} some_unit).1 (omega arith) in
      let high' : u < 10 * 10 ^ k = let q = pow-suc 10 k in omega arith in
      let below : u / 10 ^ k < 10 =
        (div-lt_iff_lt-mul {k = 10 ^ k} {x = u} {y = 10} some_unit).1 high' in
      let at : p + 0 ≡ p = omega arith in
      let char : out p ≡ hexdigit (u / 10 ^ k % 10) =
        ap out (sym at)
        ∙ digits 0 (omega arith)
        ∙ ap (λ (j : ℕ). hexdigit (u / 10 ^ j % 10)) place in
      (ground arith, ground arith)
    where
      pow_pos' : (k : ℕ) → 0 < 10 ^ k
      pow_pos' k = one-le-pow k 10 (omega arith)

  read_back : u < u32_mod → 0 < u → (atoi_loop 34 10 p 0 out ≡ some u)
  read_back word h =
      let at : p + 0 ≡ p = omega arith in
      let start : u / 10 ^ s.len ≡ 0 = div-eq_of_lt (below s.len s.size) in
      let fits : s.len < 34 = few s.len s.size in
      subst (λ (q : ℕ). atoi_loop 34 10 q 0 out ≡ some u) at
        (subst (λ (x : ℕ). atoi_loop 34 10 (p + 0) x out ≡ some u) start
          (atoi_loop-Spelled s.len 0 34 (omega arith) (omega arith) word))
    where
      below : (len : ℕ) → HasDigits 10 ten u len → u < 10 ^ len
      below zero e = absurd (omega arith)
      below (suc k) (low, high) = high

      few : (len : ℕ) → HasDigits 10 ten u len → len < 34
      few zero e = omega arith
      few (suc k) (low, high) = elim (Bool-cases (ltb k 33)) [
        | inl fits ↦ ground arith
        | inr long ↦
            let large = pow-le-pow_right {n = 10} (omega arith) {i = 10} {j = k} (ground arith) in
            absurd (omega arith)
      ]

atoi-plain :
    (u p : ℕ) (buf out : Memory)
    → Spelled 10 ten u p buf out
    → u < u32_mod
    → 0 < u
    → atoi 34 p out ≡ some u
unfolding atoi
atoi-plain u p buf out s word h =
    let (low, high) = first_digit u p buf out s s.len s.size s.digits h in
    let plus : (out p == 45) ≡ false = ground arith in
    let char : (out p == 0) ≡ false = ground arith in
    let no_prefix : (out p == 48) ≡ false = ground arith in
    rw (plus, char, no_prefix, read_back u p buf out s word h) refl

atoi-negative :
    (u p : ℕ) (buf out : Memory)
    → Spelled 10 ten u (p + 1) buf out
    → out p ≡ 45
    → u < u32_mod
    → 0 < u
    → atoi 34 p out ≡ some (sub32 0 u)
unfolding atoi
atoi-negative u p buf out s sign word h =
    let (low, high) = first_digit u (p + 1) buf out s s.len s.size s.digits h in
    let minus : (out p == 45) ≡ true = ground arith in
    let char : (out p == 0) ≡ false = ground arith in
    let no_prefix : (out (p + 1) == 48) ≡ false = ground arith in
    rw (minus, char, no_prefix, read_back u (p + 1) buf out s word h) refl

zero_read : (p : ℕ) (out : Memory) → out p ≡ 48 → out (p + 1) ≡ 0 → atoi 34 p out ≡ some 0
unfolding atoi
zero_read p out first second =
    let plus : (out p == 45) ≡ false = ground arith in rw (plus, first, second) refl

-- `itoa` in base 10, with the sign, of any `int`, if there is memory for it, gives a string from which `atoi` reads
-- the same number.
pub itoa-atoi :
    (p num : ℕ) (buf : Memory)
    → num < u32_mod
    → (out : Memory) × (itoa (some p) num 10 true buf ≡ text p out) × (atoi 34 p out ≡ some num)
unfolding itoa store clear
itoa-atoi p num buf word = elim (Bool-cases (num == 0)) [
  | inl zero_num ↦
      let out = store (p + 1) 0 (store p 48 (clear p 34 buf)) in
      let first : out p ≡ 48 = ground arith in
      let second : out (p + 1) ≡ 0 = ground arith in
      let none_num : num ≡ 0 = ground arith in
      (out, rw zero_num refl, rw (none_num) (zero_read p out first second))
  | inr more ↦ elim (Bool-cases (leb (2 ^ 31) num)) [
    | inl neg ↦
        let u = sub32 0 num in
        let back : sub32 0 (sub32 0 num) ≡ num = ground arith in
        let (out, prints, s) =
          print-Spelled 10 ten (λ u. (u / 10, u % 10)) 32 (sub32 0 num) (p + 1)
            (store p 45 (clear p 34 buf)) (λ v h. refl) (omega arith) (λ i h. ground arith) in
        let sign : out p ≡ 45 = s.before p (omega arith) ∙ ground arith in
        (
          out,
          rw (more, neg, prints) refl,
          atoi-negative (sub32 0 num) p (store p 45 (clear p 34 buf)) out s sign (omega arith)
                (ground arith)
              ∙ ap (λ (x : ℕ). some x) back,
        )
    | inr pos ↦
        let (out, prints, s) =
          print-Spelled 10 ten (λ u. (u / 10, u % 10)) 32 num p (clear p 34 buf) (λ v h. refl)
            (omega arith) (λ i h. ground arith) in
        (
          out,
          rw (more, pos, prints) refl,
          atoi-plain num p (clear p 34 buf) out s word (ground arith),
        )
  ]
]
