-- ===== src/Text/Spell.antt =====
-- What the printed digits are.
use native.Mathlib.Nat.{
  pow-zero, pow-suc, le-div_iff_mul-le, div-le_self, div-div-eq-div-mul, div-lt_iff_lt-mul, div-one,
}
use mos.Base.{
  ℕ, zero, suc, ◌+◌, ◌-◌, ◌*◌, ◌/◌, ◌%◌, ◌^◌, ◌≤◌, ◌<◌, ◌≡◌, refl, sym, ◌∙◌, ap, subst, ◌⊎◌, inl,
  inr, true, Option, some, ◌==◌, arith, Bool-cases,
}
use mos.Text.Number.{Memory, store, hexdigit, digits_loop, print}
use mos.Text.Reverse.{strrev_lem}

pub hexdigit_pos : (d : ℕ) → 0 < hexdigit d
unfolding hexdigit
hexdigit_pos d = ground arith

module _ (base : ℕ) (many : 2 ≤ base) where
  -- `u` has `len` digits: it is 0 without any, or the first is not 0.
  abbrev pub HasDigits : ℕ → ℕ → Type 0
  HasDigits u zero = u ≡ 0
  HasDigits u (suc k) = (base ^ k ≤ u) × (u < base ^ suc k)

  -- The digits from `p` on, the lowest first; nothing else is changed.
  record Written (n u p : ℕ) (buf : Memory) (result : Option Memory) : Type 0 where
    pub len : ℕ
    pub out : Memory
    pub ends : result ≡ some out
    pub bound : len ≤ n
    pub size : HasDigits u len
    pub inside : (i : ℕ) → i < len → out (p + i) ≡ hexdigit (u / base ^ i % base)
    pub outside : (q : ℕ) → (q < p) ⊎ (p + len ≤ q) → out q ≡ buf q

  HasDigits-suc : (u k : ℕ) → 0 < u → HasDigits (u / base) k → HasDigits u (suc k)
  HasDigits-suc u zero h e =
      let positive : 0 < base = omega arith in
      let p = pow-zero base in
      let p' = pow-suc base 0 in
      let small = (div-lt_iff_lt-mul {k = base} {x = u} {y = 1} positive).0 (omega arith) in
      let one : base ^ 1 ≡ base = p' ∙ rw p (omega arith) in (omega arith, omega arith)
  HasDigits-suc u (suc k) h (low, high) =
      let positive : 0 < base = omega arith in
      (
        rw (pow-suc base k) ((le-div_iff_mul-le {k = base} {x = base ^ k} {y = u} positive).0 low),
        rw (pow-suc base (suc k))
            ((div-lt_iff_lt-mul {k = base} {x = u} {y = base ^ suc k} positive).0 high),
      )

  digits_loop-Written :
      (split : ℕ → ℕ × ℕ) (n u p : ℕ) (buf : Memory)
      → ((v : ℕ) → v ≤ u → split v ≡ (v / base, v % base))
      → u < base ^ n
      → Written n u p buf (digits_loop split (suc n) u p buf)
  unfolding digits_loop store
  digits_loop-Written split zero u p buf divides small =
      let one = pow-zero base in
      let e : u ≡ 0 = omega arith in
      let here : (u == 0) ≡ true = ground arith in
      record {
        len = 0;
        out = buf;
        ends = rw (here, digits_loop) refl;
        bound = omega arith;
        size = e;
        inside = λ i h. absurd (omega arith);
        outside = λ q h. refl;
      }
  digits_loop-Written split (suc n) u p buf divides small = elim (Bool-cases (u == 0)) [
    | inl here ↦ record {
      len = 0;
      out = buf;
      ends = rw (here, digits_loop) refl;
      bound = omega arith;
      size = ground arith;
      inside = λ i h. absurd (omega arith);
      outside = λ q h. refl;
    }
    | inr more ↦
        let positive : 0 < base = omega arith in
        let smaller = div-le_self u base in
        let next : u < base ^ n * base = subst (λ (x : ℕ). u < x) (pow-suc base n) small in
        let u' = u / base in
        let buf' = store p (hexdigit (u % base)) buf in
        let w =
          digits_loop-Written split n (u / base) (p + 1) (store p (hexdigit (u % base)) buf)
            (λ v h. divides v (omega arith))
            ((div-lt_iff_lt-mul {k = base} {x = u} {y = base ^ n} positive).1 next) in
        let bound = w.bound in
        let later =
          subst
            (λ (x : ℕ × ℕ).
              digits_loop split (suc n) x.0 (p + 1) (store p (hexdigit x.1) buf) ≡ some w.out)
            (sym (divides u (omega arith))) w.ends in
        record {
          len = suc w.len;
          out = w.out;
          ends = rw (more, digits_loop) later;
          bound = omega arith;
          size = HasDigits-suc u w.len (ground arith) w.size;
          inside = λ i h. digit_at i w.len w.out h w.inside w.outside;
          outside = λ q h. w.outside q (ground arith) ∙ ground arith;
        }
  ]
    where
      digit_at :
          (i len : ℕ) (out : Memory)
          → i < suc len
          → ((j : ℕ) → j < len → out (p + 1 + j) ≡ hexdigit (u / base / base ^ j % base))
          → ((q : ℕ)
              → (q < p + 1) ⊎ (p + 1 + len ≤ q)
              → out q ≡ store p (hexdigit (u % base)) buf q)
          → out (p + i) ≡ hexdigit (u / base ^ i % base)
      digit_at zero len out h inside outside =
          let e : p + 0 ≡ p = omega arith in
          let one : u / base ^ 0 ≡ u = rw (pow-zero base) (div-one u) in
          let kept : out p ≡ store p (hexdigit (u % base)) buf p = outside p (omega arith) in
          let here : store p (hexdigit (u % base)) buf p ≡ hexdigit (u % base) = ground arith in
          ap out e ∙ (kept ∙ here) ∙ ap (λ (x : ℕ). hexdigit (x % base)) (sym one)
      digit_at (suc i) len out h inside outside =
          let e : p + suc i ≡ p + 1 + i = omega arith in
          let swap : base * base ^ i ≡ base ^ suc i = rw (pow-suc base i) (grind arith) in
          let e' : u / base / base ^ i ≡ u / base ^ suc i =
            div-div-eq-div-mul u base (base ^ i) ∙ ap (λ (x : ℕ). u / x) swap in
          rw e (inside i (omega arith) ∙ ap (λ (x : ℕ). hexdigit (x % base)) e')

  -- The string at `p` is the digits of `u`, the highest first.
  pub record Spelled (u p : ℕ) (buf out : Memory) : Type 0 where
    pub len : ℕ
    pub size : HasDigits u len
    pub digits : (i : ℕ) → i < len → out (p + i) ≡ hexdigit (u / base ^ (len - 1 - i) % base)
    pub end : out (p + len) ≡ 0
    pub before : (q : ℕ) → q < p → out q ≡ buf q

  pub print-Spelled :
      (split : ℕ → ℕ × ℕ) (n u p : ℕ) (buf : Memory)
      → ((v : ℕ) → v ≤ u → split v ≡ (v / base, v % base))
      → u < base ^ n
      → ((i : ℕ) → i ≤ n → buf (p + i) ≡ 0)
      → (out : Memory) × (print split (suc n) u p buf ≡ some out) × Spelled u p buf out
  unfolding print
  print-Spelled split n u p buf divides small cleared =
      let w = digits_loop-Written split n u p buf divides small in
      let bound = w.bound in
      let full : (i : ℕ) → i < w.len → 0 < w.out (p + i) =
        λ i h. subst (λ (c : ℕ). 0 < c) (sym (w.inside i h)) (hexdigit_pos (u / base ^ i % base)) in
      let nul : w.out (p + w.len) ≡ 0 =
        w.outside (p + w.len) (inr (omega arith)) ∙ cleared w.len bound in
      let (out, reverses, r) = strrev_lem (suc n) p w.len w.out (omega arith) full nul in
      (
        out,
        rw (w.ends, print) reverses,
        record {
          len = w.len;
          size = w.size;
          digits = λ i h.
              r.mirrored i (omega arith) (omega arith) ∙ w.inside (w.len - 1 - i) (omega arith);
          end = r.kept (p + w.len) (inr (omega arith)) ∙ nul;
          before = λ q h. r.kept q (inl (omega arith)) ∙ w.outside q (inl h);
        },
      )
