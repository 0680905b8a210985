-- ===== src/Kmalloc/Tiles.antt =====
-- The headers cut each chunk into blocks. `start` marks the addresses of the blocks, `limit` gives the address of
-- the sentinel of a block's chunk.
use mos.Base.{
  put, ℕ, ◌+◌, ◌-◌, ◌*◌, ◌/◌, ◌%◌, ◌≤◌, ◌<◌, ◌≡◌, inl, inr, ◌⊎◌, ◌≢◌, refl, ap, sym, subst, ◌∙◌,
  ◌==◌, ◌&&◌, ◌||◌, arith, Bool, true, false, Bool-cases, u32_mod,
}
use mos.Kmalloc.Bins.{IsMin}

abbrev pub width : (ℕ → ℕ) → ℕ → ℕ
width hdr a = hdr a / 2 * 2

pub record IsTiled (m : ℕ) (hdr : ℕ → ℕ) (start : ℕ → Bool) (limit : ℕ → ℕ) : Type 0 where
  pub low : (a : ℕ) → start a ≡ true → m ≤ width hdr a
  pub mult : (a : ℕ) → start a ≡ true → width hdr a % 8 ≡ 0
  pub place : (a : ℕ) → start a ≡ true → a % 8 ≡ 0
  pub inside : (a : ℕ) → start a ≡ true → a + width hdr a ≤ limit a
  pub close : (a : ℕ) → start a ≡ true → limit a < a + u32_mod
  pub stop : (a : ℕ) → start a ≡ true → hdr (limit a) ≡ 1
  pub next :
      (a : ℕ)
      → start a ≡ true
      → ((a + width hdr a == limit a)
          || (start (a + width hdr a) && (limit (a + width hdr a) == limit a)))
        ≡ true
  pub apart : (a b : ℕ) → start a ≡ true → start b ≡ true → a < b → a + width hdr a ≤ b
  pub stops : (a b : ℕ) → start a ≡ true → start b ≡ true → b < limit a → b + width hdr b ≤ limit a

module _ {m : ℕ} {hdr : ℕ → ℕ} {start : ℕ → Bool} {limit : ℕ → ℕ} (is : IsMin m)
    (t : IsTiled m hdr start limit) where
  -- No sentinel is at the address of a block.
  limit_ne : (a b : ℕ) → start a ≡ true → start b ≡ true → limit a ≢ b
  limit_ne a b sa sb e =
      let one = ap hdr (sym e) ∙ t.stop a sa in
      let l = t.low b sb in let g = is.low in absurd (omega arith)

  -- A header may change its lowest bit.
  pub flag-IsTiled :
      (b w : ℕ) → start b ≡ true → w / 2 ≡ hdr b / 2 → IsTiled m (put hdr b w) start limit
  flag-IsTiled b w sb e = record {
    low = λ a sa. let h = t.low a sa in same a (λ (v : ℕ). m ≤ v) h;
    mult = λ a sa. same a (λ (v : ℕ). v % 8 ≡ 0) (t.mult a sa);
    place = t.place;
    inside = λ a sa. same a (λ (v : ℕ). a + v ≤ limit a) (t.inside a sa);
    close = t.close;
    stop = λ a sa. let h = t.stop a sa in let ne = limit_ne a b sa sb in ground arith;
    next = λ a sa.
        same a
          (λ (v : ℕ). ((a + v == limit a) || (start (a + v) && (limit (a + v) == limit a))) ≡ true)
          (t.next a sa);
    apart = λ a c sa sc l. same a (λ (v : ℕ). a + v ≤ c) (t.apart a c sa sc l);
    stops = λ a c sa sc l. same c (λ (v : ℕ). c + v ≤ limit a) (t.stops a c sa sc l);
  }
    where
      width-put : (a : ℕ) → width hdr a ≡ width (put hdr b w) a
      width-put a = elim (Bool-cases (a == b)) [
        | inl h ↦ let g : a ≡ b = ground arith in rw (h, e, sym g) refl
        | inr h ↦ rw h refl
      ]

      same : (a : ℕ) (P : ℕ → Type 0) → P (width hdr a) → P (width (put hdr b w) a)
      same a P h = subst P (width-put a) h

  -- A block may be cut in two.
  pub split-IsTiled :
      (b need w v : ℕ)
      → start b ≡ true
      → m ≤ need
      → need % 8 ≡ 0
      → need + m ≤ width hdr b
      → w / 2 * 2 ≡ need
      → v / 2 * 2 ≡ width hdr b - need
      → IsTiled m
          (put (put hdr b w) (b + need) v)
          (put start (b + need) true)
          (put limit (b + need) (limit b))
  split-IsTiled b need w v sb hm h8 fits ew ev = record {
    low = λ a sa. ground (arith, t.low a);
    mult = λ a sa. ground (arith, t.mult a, t.mult b);
    place = λ a sa. ground (arith, t.place a, t.place b);
    inside = λ a sa. ground (arith, t.inside a, t.inside b);
    close = λ a sa. ground (arith, t.close a, t.close b);
    stop = λ a sa. ground (arith, t.stop a, t.stop b, clear a, clear b, is.low);
    next = λ a sa. elim (Bool-cases (a == b + need)) [
      | inl h ↦ ground (arith, t.next b)
      | inr h ↦ elim (Bool-cases (a == b)) [
        | inl g ↦ ground arith
        | inr g ↦ ground (arith, t.next a, t.apart a b, t.apart b a, t.stops a b)
      ]
    ];
    apart = λ a c sa sc l. ground (arith, t.apart a c, t.apart a b, t.apart b c, t.apart b a);
    stops = λ a c sa sc l. ground (arith, t.stops a c, t.stops b c, t.stops a b, t.stops b b);
  }
    where
      clear : (a : ℕ) → start a ≡ true → (limit a ≢ b) × (limit a ≢ b + need)
      clear a sa = (
        limit_ne a b sa sb,
        λ e. let s = t.stops a b sa sb in let g = is.low in absurd (ground arith),
      )

  -- A block may take in the block to its right.
  pub merge-IsTiled :
      (b w : ℕ)
      → start b ≡ true
      → start (b + width hdr b) ≡ true
      → w / 2 * 2 ≡ width hdr b + width hdr (b + width hdr b)
      → IsTiled m (put hdr b w) (put start (b + width hdr b) false) limit
  merge-IsTiled b w sb sn ew =
      let n = b + width hdr b in
      record {
        low = λ a sa. ground (arith, t.low a);
        mult = λ a sa. ground (arith, t.mult a, t.mult b, t.mult n);
        place = λ a sa. ground (arith, t.place a);
        inside = λ a sa. ground (arith, t.inside a, t.inside n, same_limit);
        close = λ a sa. ground (arith, t.close a);
        stop = λ a sa. ground (arith, t.stop a, clear a);
        next = λ a sa. elim (Bool-cases (a == b)) [
          | inl g ↦ ground (arith, same_limit, t.next n, t.low n, is.low)
          | inr g ↦ ground (arith, t.next a, t.apart a b, t.apart b a, t.low a, t.low b, is.low)
        ];
        apart = λ a c sa sc l. ground (arith, t.apart a c, t.apart n c);
        stops = λ a c sa sc l. ground (arith, t.stops a c, t.stops a n, t.stops a b, limit_ne a n);
      }
    where
      clear : (a : ℕ) → start a ≡ true → limit a ≢ b
      clear a sa = limit_ne a b sa sb

      same_limit : limit (b + width hdr b) ≡ limit b
      same_limit =
          let nx = t.next b sb in let ne = limit_ne b (b + width hdr b) sb sn in ground arith

      assoc : (x y z : ℕ) → x + (y + z) ≡ (x + y) + z
      assoc x y z = omega arith

  -- A new chunk of one block and its sentinel, where there was nothing.
  pub chunk-IsTiled :
      (a0 bytes w : ℕ)
      → a0 % 8 ≡ 0
      → bytes % 8 ≡ 0
      → bytes < u32_mod
      → m + 8 ≤ bytes
      → w / 2 * 2 ≡ bytes - 8
      → ((b : ℕ) → start b ≡ true → (limit b + 8 ≤ a0) ⊎ (a0 + bytes ≤ b))
      → IsTiled m
          (put (put hdr (a0 + bytes - 8) 1) a0 w)
          (put start a0 true)
          (put limit a0 (a0 + bytes - 8))
  chunk-IsTiled a0 bytes w a8 b8 small fits ew free = record {
    low = λ a sa. ground (arith, t.low a, t.inside a, free a, is.low);
    mult = λ a sa. ground (arith, t.mult a, t.inside a, free a, t.low a, is.low);
    place = λ a sa. ground (arith, t.place a);
    inside = λ a sa. ground (arith, t.inside a, free a, t.low a, is.low);
    close = λ a sa. ground (arith, t.close a);
    stop = λ a sa. ground (arith, t.stop a, t.inside a, free a, t.low a, is.low);
    next = λ a sa. ground (arith, t.next a, t.inside a, t.low a, free a, is.low);
    apart = λ a c sa sc l.
        ground (arith, t.apart a c, t.inside a, t.low a, free a, t.inside c, free c, is.low);
    stops = λ a c sa sc l.
        ground
          (arith, t.stops a c, t.inside a, t.low a, free a, t.inside c, t.low c, free c, is.low);
  }
