-- ===== src/Text/Long.antt =====
-- `lltoa` prints the digits of a 64-bit number, which it takes from `u64_divmod`.
use mos.Base.{
  ℕ, ◌+◌, ◌/◌, ◌%◌, ◌^◌, ◌≤◌, ◌<◌, ◌≡◌, refl, ◌∙◌, ◌⊎◌, inl, inr, Bool, true, false, some, leb,
  ◌==◌, ◌&&◌, not, if◌then◌else◌, arith, Bool-cases, u64_mod, sub64,
}
use mos.Arith.{divmod}
use mos.Arith.BitByBit.{divmod_lem}
use mos.Text.Number.{Memory, store, clear, text, lltoa}
use mos.Text.Spell.{Spelled, print-Spelled}

-- A string at `p` that is a number in some base, from 2 up: with a minus sign if it is negative.
abbrev pub IsText : (base : ℕ) → 2 ≤ base → Bool → ℕ → ℕ → Memory → Type 0
IsText base many true u p out =
    (out p ≡ 45) × ((buf : Memory) × Spelled base many u (p + 1) buf out)
IsText base many false u p out = (buf : Memory) × Spelled base many u p buf out

module _ (base : ℕ) (many : 2 ≤ base) (known : (base ≡ 10) ⊎ (base ≡ 16)) where
  divides : (u v : ℕ) → u < u64_mod → v ≤ u → divmod v base ≡ (v / base, v % base)
  divides u v word h =
      divmod_lem v base (omega arith) (omega arith)
        (elim known [ inl e ↦ omega arith | inr e ↦ omega arith ])

  room : (u : ℕ) → u < u64_mod → u < base ^ 22
  room u word = elim known [ inl e ↦ rw e (omega arith) | inr e ↦ rw e (omega arith) ]

  -- `lltoa` of a number other than 0, in base 10 or 16 and with memory for it, gives the digits of the number, the highest
  -- first and without zeros before them; in base 10 and with the sign asked for, a negative number is its
  -- magnitude after a minus sign.
  pub lltoa-IsText :
      (p num : ℕ) (sign : Bool) (buf : Memory)
      → num < u64_mod
      → 0 < num
      → (out : Memory) × (lltoa (some p) num base sign buf ≡ text p out)
        × IsText base many
            (base == 10 && sign && leb (2 ^ 63) num)
            (if base == 10 && sign && leb (2 ^ 63) num then sub64 0 num else num)
            p
            out
  unfolding lltoa store clear
  lltoa-IsText p num sign buf word h =
      let more : (num == 0) ≡ false = ground arith in
      let good : (not (base == 10) && not (base == 16)) ≡ false = elim known [
        | inl e ↦ ground arith
        | inr e ↦ ground arith
      ] in
      elim (Bool-cases (base == 10 && sign && leb (2 ^ 63) num)) [
        | inl neg ↦
            let (out, prints, s) =
              print-Spelled base many (λ u. divmod u base) 22 (sub64 0 num) (p + 1)
                (store p 45 (clear p 24 buf)) (λ v l. divides (sub64 0 num) v (omega arith) l)
                (room (sub64 0 num) (omega arith)) (λ i l. ground arith) in
            rw (more, good, neg)
              (
                out,
                rw prints refl,
                (s.before p (omega arith) ∙ ground arith, (store p 45 (clear p 24 buf), s)),
              )
        | inr pos ↦
            let (out, prints, s) =
              print-Spelled base many (λ u. divmod u base) 22 num p (clear p 24 buf)
                (λ v l. divides num v word l) (room num word) (λ i l. ground arith) in
            rw (more, good, pos) (out, rw prints refl, (clear p 24 buf, s))
      ]
