-- ===== src/Kmalloc/Bins.antt =====
-- The bin of a size grows with the size.
use mos.Base.{ℕ, zero, suc, ◌+◌, ◌*◌, ◌%◌, ◌≤◌, ◌<◌, ◌≡◌, inl, inr, leb, arith, Bool-cases, u32_mod}
use mos.Kmalloc.{bin_loop, size_to_bin, small_bin_count, num_bins}

pub bin_loop_bounds :
    (rounds i bound sz : ℕ)
    → (i ≤ bin_loop rounds i bound sz) × (bin_loop rounds i bound sz ≤ i + rounds)
unfolding bin_loop
bin_loop_bounds zero i bound sz = omega arith
bin_loop_bounds (suc rounds) i bound sz =
    ground (arith, bin_loop_bounds rounds (i + 1) (bound * 2 % u32_mod) sz)

bin_loop_mono :
    (rounds i bound a b : ℕ) → a ≤ b → bin_loop rounds i bound a ≤ bin_loop rounds i bound b
unfolding bin_loop
bin_loop_mono zero i bound a b h = omega arith
bin_loop_mono (suc rounds) i bound a b h =
    let later = bin_loop_mono rounds (i + 1) (bound * 2 % u32_mod) a b h in
    let above = bin_loop_bounds rounds (i + 1) (bound * 2 % u32_mod) b in ground arith

-- MIN_BLK is 16 or 24.
pub record IsMin (min_blk : ℕ) : Type 0 where
  pub low : 16 ≤ min_blk
  pub high : min_blk ≤ 24
  pub aligned : min_blk % 8 ≡ 0

module _ (m : ℕ) (is : IsMin m) where
  pub size_to_bin_lt : (a : ℕ) → m ≤ a → size_to_bin m a < num_bins m
  unfolding size_to_bin
  size_to_bin_lt a h =
      let large = bin_loop_bounds 21 (small_bin_count m) 2048 a in
      let low = is.low in let high = is.high in ground arith

  size_to_bin_mono : (a b : ℕ) → m ≤ a → a ≤ b → size_to_bin m a ≤ size_to_bin m b
  unfolding size_to_bin
  size_to_bin_mono a b h g =
      let mono = bin_loop_mono 21 (small_bin_count m) 2048 a b g in
      let large = bin_loop_bounds 21 (small_bin_count m) 2048 b in
      let low = is.low in let high = is.high in ground arith

  -- Blocks of a higher bin are larger.
  pub size_to_bin-lt : (a b : ℕ) → m ≤ b → size_to_bin m a < size_to_bin m b → a ≤ b
  size_to_bin-lt a b h g = elim (Bool-cases (leb a b)) [
    | inl le ↦ ground arith
    | inr gt ↦ let mono = size_to_bin_mono b a h (ground arith) in absurd (omega arith)
  ]

  -- A small bin has blocks of one size.
  pub size_to_bin-small :
      (a b : ℕ)
      → m ≤ a
      → m ≤ b
      → a % 8 ≡ 0
      → b % 8 ≡ 0
      → size_to_bin m a < small_bin_count m
      → size_to_bin m a ≡ size_to_bin m b
      → a ≤ b
  unfolding size_to_bin
  size_to_bin-small a b h g p q small same =
      let aligned = is.aligned in
      let low = is.low in
      let high = is.high in
      let large = bin_loop_bounds 21 (small_bin_count m) 2048 a in
      let large' = bin_loop_bounds 21 (small_bin_count m) 2048 b in ground arith
