-- ===== src/Text/Border.antt =====
-- The step that the two loops of `strstr` share keeps the longest prefix of Y that ends at the current place.
use mos.Base.{
  ℕ, zero, suc, ◌+◌, ◌-◌, ◌≤◌, ◌<◌, ◌≡◌, ◌≢◌, sym, ◌∙◌, ap, ◌⊎◌, inl, inr, true, false, ◌&&◌, not,
  ◌==◌, arith, Bool-cases,
}
use mos.Text.Number.{Memory}
use mos.Text.Search.{fall_loop, advance}

module _ (Y : Memory) where
  -- The first `k` characters of Y stand in T before the place `i`, from `lo` on.
  pub record EndsAt (T : Memory) (lo i k : ℕ) : Type 0 where
    pub from : k + lo ≤ i
    pub chars : (t : ℕ) → t < k → Y t ≡ T (i - k + t)

  -- `k` is the length of the longest such prefix.
  pub record IsLongest (T : Memory) (lo i k : ℕ) : Type 0 where
    pub ends : EndsAt T lo i k
    pub longest : (x : ℕ) → EndsAt T lo i x → x ≤ k

  -- The table up to `b` has the longest prefix of Y that ends a longer one.
  abbrev pub IsTable : Memory → ℕ → Type 0
  IsTable next b = (j : ℕ) → 0 < j → j ≤ b → IsLongest Y 1 j (next (j - 1))

  pub shorter-EndsAt :
      (T : Memory) (lo i j k : ℕ) → EndsAt T lo i j → EndsAt Y 1 j k → EndsAt T lo i k
  shorter-EndsAt T lo i j k a b =
      let af = a.from in
      let bf = b.from in
      record {
        from = omega arith;
        chars = λ t h.
            let e : i - j + (j - k + t) ≡ i - k + t = omega arith in
            b.chars t h ∙ a.chars (j - k + t) (omega arith) ∙ ap T e;
      }

  both-EndsAt :
      (T : Memory) (lo i j k : ℕ) → k < j → EndsAt T lo i j → EndsAt T lo i k → EndsAt Y 1 j k
  both-EndsAt T lo i j k h a b =
      let af = a.from in
      record {
        from = omega arith;
        chars = λ t l.
            let e : i - j + (j - k + t) ≡ i - k + t = omega arith in
            b.chars t l ∙ ap T (sym e) ∙ sym (a.chars (j - k + t) (omega arith));
      }

  -- What `fall_loop` leaves: the longest prefix that the character may prolong.
  record Fell (T : Memory) (lo i c k : ℕ) : Type 0 where
    pub ends : EndsAt T lo i k
    pub longest : (x : ℕ) → EndsAt T lo i x → Y x ≡ c → x ≤ k
    pub stops : (k ≡ 0) ⊎ (c ≡ Y k)

  fall_loop-Fell :
      (T : Memory) (lo i c b fuel j : ℕ) (next : Memory)
      → IsTable next b
      → j ≤ fuel
      → j ≤ b
      → EndsAt T lo i j
      → ((x : ℕ) → EndsAt T lo i x → Y x ≡ c → x ≤ j)
      → Fell T lo i c (fall_loop fuel next Y c j)
  unfolding fall_loop
  fall_loop-Fell T lo i c b zero j next table enough inside ends longest = record {
    ends = ends;
    longest = longest;
    stops = inl (omega arith);
  }
  fall_loop-Fell T lo i c b (suc fuel) j next table enough inside ends longest =
      elim (Bool-cases (not (j == 0) && not (c == Y j))) [
        | inl more ↦
            let border = table j (ground arith) inside in
            let shorter = border.ends.from in
            rw (more, fall_loop)
              (fall_loop-Fell T lo i c b fuel (next (j - 1)) next table (omega arith) (omega arith)
                (shorter-EndsAt T lo i j (next (j - 1)) ends border.ends)
                (λ x e hit.
                  let bound = longest x e hit in
                  let other : x ≢ j = miss x hit more in
                  border.longest x (both-EndsAt T lo i j x (omega arith) ends e)))
        | inr stop ↦
            rw (stop, fall_loop) (record { ends = ends; longest = longest; stops = ground arith })
      ]
    where
      miss : (x : ℕ) → Y x ≡ c → (not (j == 0) && not (c == Y j)) ≡ true → x ≢ j
      miss x hit more same = let hit' = ap Y (sym same) ∙ hit in ground arith

  longer-EndsAt :
      (T : Memory) (lo i k : ℕ) → EndsAt T lo i k → T i ≡ Y k → EndsAt T lo (i + 1) (k + 1)
  longer-EndsAt T lo i k a hit =
      let from = a.from in
      record {
        from = omega arith;
        chars = λ t h. elim (Bool-cases (t == k)) [
          | inl last ↦
              let e : t ≡ k = ground arith in
              let e' : i ≡ i + 1 - (k + 1) + t = ground arith in ap Y e ∙ sym hit ∙ ap T e'
          | inr earlier ↦
              let e' : i - k + t ≡ i + 1 - (k + 1) + t = omega arith in
              a.chars t (ground arith) ∙ ap T e'
        ];
      }

  pub last-EndsAt :
      (T : Memory) (lo i k : ℕ) → EndsAt T lo (i + 1) (suc k) → EndsAt T lo i k × (Y k ≡ T i)
  last-EndsAt T lo i k a =
      let from = a.from in
      (
        record {
          from = omega arith;
          chars = λ t h.
              let e : i + 1 - suc k + t ≡ i - k + t = omega arith in
              a.chars t (omega arith) ∙ ap T e;
        },
        (let e : i + 1 - suc k + k ≡ i = omega arith in a.chars k (omega arith) ∙ ap T e),
      )

  pub advance-IsLongest :
      (T : Memory) (lo i b j : ℕ) (next : Memory)
      → IsTable next b
      → j ≤ b
      → IsLongest T lo i j
      → IsLongest T lo (i + 1) (advance next Y (T i) j)
  unfolding advance
  advance-IsLongest T lo i b j next table inside l =
      let f =
        fall_loop-Fell T lo i (T i) b j j next table (omega arith) inside l.ends
          (λ x e hit. l.longest x e) in
      let from = f.ends.from in
      elim (Bool-cases (T i == Y (fall_loop j next Y (T i) j))) [
        | inl hit ↦
            rw (hit, advance)
              (record {
                ends = longer-EndsAt T lo i (fall_loop j next Y (T i) j) f.ends (ground arith);
                longest = λ x e. prolonged x e (fall_loop j next Y (T i) j) f.longest;
              })
        | inr miss ↦
            rw (miss, advance)
              (record {
                ends = record {
                  from = omega arith;
                  chars = λ t h. absurd (none_left (fall_loop j next Y (T i) j) t f.stops miss h);
                };
                longest = λ x e. nothing x e (fall_loop j next Y (T i) j) f.longest f.stops miss;
              })
      ]
    where
      prolonged :
          (x : ℕ)
          → EndsAt T lo (i + 1) x
          → (k : ℕ) → ((y : ℕ) → EndsAt T lo i y → Y y ≡ T i → y ≤ k)
          → x ≤ k + 1
      prolonged zero e k longest = omega arith
      prolonged (suc x) e k longest =
          let (e', hit) = last-EndsAt T lo i x e in let bound = longest x e' hit in omega arith

      none_left : (k t : ℕ) → (k ≡ 0) ⊎ (T i ≡ Y k) → (T i == Y k) ≡ false → t < k → ⊥
      none_left k t stops miss h = ground arith

      nothing :
          (x : ℕ)
          → EndsAt T lo (i + 1) x
          → (k : ℕ) → ((y : ℕ) → EndsAt T lo i y → Y y ≡ T i → y ≤ k)
          → (k ≡ 0) ⊎ (T i ≡ Y k)
          → (T i == Y k) ≡ false
          → x ≤ k
      nothing zero e k longest stops miss = omega arith
      nothing (suc x) e k longest stops miss =
          let (e', hit) = last-EndsAt T lo i x e in
          let bound = longest x e' hit in
          let first : k ≡ 0 = ground arith in
          let same : x ≡ k = omega arith in
          let hit' = ap Y (sym same) ∙ hit in absurd (ground arith)
