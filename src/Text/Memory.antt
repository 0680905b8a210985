-- ===== src/Text/Memory.antt =====
-- `memmove` of src/lib/impl/kstring.c, on memory as a function from addresses to characters.
-- The addresses do not wrap round.
use mos.Base.{
  ℕ, zero, suc, ◌+◌, ◌-◌, ◌≤◌, ◌<◌, ◌≡◌, refl, ◌∙◌, ap, ◌⊎◌, inl, inr, true, ◌||◌, ltb, leb, ◌==◌,
  if◌then◌else◌, arith, Bool-cases,
}
use mos.Text.Number.{Memory, store}

-- The two loops of `memmove`, with the characters that are left.
unfoldable pub forward_loop : ℕ → ℕ → ℕ → Memory → Memory
forward_loop zero d s mem = mem
forward_loop (suc len) d s mem = forward_loop len (d + 1) (s + 1) (store d (mem s) mem)

unfoldable pub backward_loop : ℕ → ℕ → ℕ → Memory → Memory
backward_loop zero d s mem = mem
backward_loop (suc len) d s mem = backward_loop len d s (store (d + len) (mem (s + len)) mem)

unfoldable pub memmove : ℕ → ℕ → ℕ → Memory → Memory
memmove d s len mem =
    if d == s || len == 0
    then mem
    else if ltb d s || leb (s + len) d
    then forward_loop len d s mem
    else backward_loop len d s mem

-- What is at `s` is at `d`, as if it had been read before anything was written; nothing else is changed.
pub record Moved (d s len : ℕ) (before after : Memory) : Type 0 where
  pub copied : (i : ℕ) → i < len → after (d + i) ≡ before (s + i)
  pub kept : (q : ℕ) → (q < d) ⊎ (d + len ≤ q) → after q ≡ before q

forward_loop-Moved :
    (len d s : ℕ) (mem : Memory)
    → (d ≤ s) ⊎ (s + len ≤ d)
    → Moved d s len mem (forward_loop len d s mem)
unfolding forward_loop store
forward_loop-Moved zero d s mem apart = record {
  copied = λ i h. absurd (omega arith);
  kept = λ q h. refl;
}
forward_loop-Moved (suc len) d s mem apart =
    let next = store d (mem s) mem in
    let rest = forward_loop-Moved len (d + 1) (s + 1) (store d (mem s) mem) (omega arith) in
    record {
      copied = λ i h. elim (Bool-cases (i == 0)) [
        | inl first ↦
            let e : i ≡ 0 = ground arith in
            let d0 : d + 0 ≡ d = omega arith in
            let s0 : s + 0 ≡ s = omega arith in
            let here : store d (mem s) mem d ≡ mem s = ground arith in
            rw (e, d0, s0) (rest.kept d (omega arith) ∙ here)
        | inr later ↦
            let d1 : d + i ≡ d + 1 + (i - 1) = ground arith in
            let s1 : s + 1 + (i - 1) ≡ s + i = ground arith in
            let there : store d (mem s) mem (s + i) ≡ mem (s + i) = ground arith in
            rw (d1) (rest.copied (i - 1) (ground arith) ∙ ap (store d (mem s) mem) s1 ∙ there)
      ];
      kept = λ q h. rest.kept q (omega arith) ∙ ground arith;
    }

backward_loop-Moved :
    (len d s : ℕ) (mem : Memory) → s ≤ d → Moved d s len mem (backward_loop len d s mem)
unfolding backward_loop store
backward_loop-Moved zero d s mem above = record {
  copied = λ i h. absurd (omega arith);
  kept = λ q h. refl;
}
backward_loop-Moved (suc len) d s mem above =
    let rest = backward_loop-Moved len d s (store (d + len) (mem (s + len)) mem) above in
    record {
      copied = λ i h. elim (Bool-cases (i == len)) [
        | inl last ↦
            let e : i ≡ len = ground arith in
            let here : store (d + len) (mem (s + len)) mem (d + len) ≡ mem (s + len) =
              ground arith in
            rw e (rest.kept (d + len) (omega arith) ∙ here)
        | inr earlier ↦
            let there : store (d + len) (mem (s + len)) mem (s + i) ≡ mem (s + i) = ground arith in
            rest.copied i (ground arith) ∙ there
      ];
      kept = λ q h. rest.kept q (omega arith) ∙ ground arith;
    }

-- `memmove` moves the characters, also where the two areas overlap.
pub memmove-Moved : (d s len : ℕ) (mem : Memory) → Moved d s len mem (memmove d s len mem)
unfolding memmove
memmove-Moved d s len mem = elim (Bool-cases (d == s || len == 0)) [
  | inl nothing ↦
      rw (nothing, memmove) (record { copied = λ i h. unmoved i h nothing; kept = λ q h. refl })
  | inr more ↦ elim (Bool-cases (ltb d s || leb (s + len) d)) [
    | inl apart ↦ rw (more, apart, memmove) (forward_loop-Moved len d s mem (ground arith))
    | inr over ↦ rw (more, over, memmove) (backward_loop-Moved len d s mem (ground arith))
  ]
]
  where
    unmoved : (i : ℕ) → i < len → (d == s || len == 0) ≡ true → mem (d + i) ≡ mem (s + i)
    unmoved i h e = let same : d ≡ s = ground arith in ap (λ (x : ℕ). mem (x + i)) same
