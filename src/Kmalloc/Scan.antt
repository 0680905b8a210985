-- ===== src/Kmalloc/Scan.antt =====
-- `next_nonempty_bin` finds the first bin that is not empty.
use mos.Base.{
  ℕ, zero, suc, ◌+◌, ◌-◌, ◌*◌, ◌/◌, ◌%◌, ◌^◌, ◌≤◌, ◌<◌, ◌≡◌, refl, ap, ◌∙◌, inl, inr, ◌⊎◌, ◌==◌,
  leb, if◌then◌else◌, arith, true, false, Bool-cases, u32_mod, bit_and,
}
use mos.Base.Bits.{testbit, testbit-bit_and, testbit_le, testbit-zero, pow_pos}
use mos.Kmalloc.{Heap, num_bins, ctz_loop, word_loop, next_nonempty_bin}
use mos.Kmalloc.Word.{testbit-range, ctz_loop_lem, bit_and_lt}

-- The bit `k` of a bitmap whose word `word` is replaced by `active`.
abbrev bit : ℕ → ℕ → (ℕ → ℕ) → ℕ → ℕ
bit word active bitmap k = testbit (if k / 32 == word then active else bitmap (k / 32)) (k % 32)

-- The first of a range that has the value 1, or `nothing` if none has it.
pub record IsFirst (value : ℕ → ℕ) (lo r : ℕ) : Type 0 where
  pub from : lo ≤ r
  pub set : value r ≡ 1
  pub before : (j : ℕ) → lo ≤ j → j < r → value j ≡ 0

pub record IsNone (value : ℕ → ℕ) (lo hi nothing r : ℕ) : Type 0 where
  pub result : r ≡ nothing
  pub all : (j : ℕ) → lo ≤ j → j < hi → value j ≡ 0

bit-here :
    (word active : ℕ) (bitmap : ℕ → ℕ) (j : ℕ)
    → word * 32 ≤ j
    → j < (word + 1) * 32
    → bit word active bitmap j ≡ testbit active (j % 32)
bit-here word active bitmap j l h = let e : (j / 32 == word) ≡ true = ground arith in rw e refl

bit-later :
    (word active : ℕ) (bitmap : ℕ → ℕ) (j : ℕ)
    → (word + 1) * 32 ≤ j
    → bit word active bitmap j ≡ bit (word + 1) (bitmap (word + 1)) bitmap j
bit-later word active bitmap j l = elim (Bool-cases (j / 32 == word + 1)) [
  | inl h ↦
      let f : (j / 32 == word) ≡ false = ground arith in
      let e : j / 32 ≡ word + 1 = ground arith in rw (f, h, e) refl
  | inr h ↦ let f : (j / 32 == word) ≡ false = ground arith in rw (f, h) refl
]

-- A word without bits is passed over.
bit-skip :
    (word active : ℕ) (bitmap : ℕ → ℕ) (hi : ℕ)
    → active ≡ 0
    → ((j : ℕ) → (word + 1) * 32 ≤ j → j < hi → bit (word + 1) (bitmap (word + 1)) bitmap j ≡ 0)
    → (j : ℕ) → word * 32 ≤ j
    → j < hi
    → bit word active bitmap j ≡ 0
bit-skip word active bitmap hi e zeros j l h = elim (Bool-cases (leb ((word + 1) * 32) j)) [
  | inl g ↦ bit-later word active bitmap j (ground arith) ∙ zeros j (ground arith) h
  | inr g ↦
      bit-here word active bitmap j l (ground arith)
      ∙ ap (λ (w : ℕ). testbit w (j % 32)) e
      ∙ testbit-zero (j % 32)
]

word_loop-IsFirst :
    (words word active : ℕ) (bitmap : ℕ → ℕ) (nothing : ℕ)
    → active < u32_mod
    → ((i : ℕ) → bitmap i < u32_mod)
    → IsFirst (bit word active bitmap) (word * 32) (word_loop words word active bitmap nothing)
      ⊎ IsNone
          (bit word active bitmap)
          (word * 32)
          ((word + words) * 32)
          nothing
          (word_loop words word active bitmap nothing)
unfolding word_loop
word_loop-IsFirst zero word active bitmap nothing h w =
    inr (record { result = refl; all = λ j l g. absurd (omega arith) })
word_loop-IsFirst (suc words) word active bitmap nothing h w = elim (Bool-cases (active == 0)) [
  | inl z ↦
      let e : active ≡ 0 = ground arith in
      elim (word_loop-IsFirst words (word + 1) (bitmap (word + 1)) bitmap nothing (w (word + 1))
        w) [
          | inl r ↦ rw z (
              inl (record {
                from = let f = r.from in omega arith;
                set = bit-later word active bitmap _ r.from ∙ r.set;
                before = bit-skip word active bitmap _ e r.before;
              }))
          | inr r ↦
              let k : (word + suc words) * 32 ≡ (word + 1 + words) * 32 = omega arith in
              rw (z, k)
                (inr (record { result = r.result; all = bit-skip word active bitmap _ e r.all }))
        ]
  | inr z ↦
      let (set, low, clear) = ctz_loop_lem 32 active h (λ e. absurd (ground arith)) in
      let c = ctz_loop 32 active in
      let low_bits : (word * 32 + c) % 32 ≡ c = omega arith in
      rw z (
        inl (record {
          from = omega arith;
          set =
              bit-here word active bitmap (word * 32 + c) (omega arith) (omega arith)
              ∙ ap (testbit active) low_bits
              ∙ set;
          before =
              λ j l g. bit-here word active bitmap j l (omega arith) ∙ clear (j % 32) (omega arith);
        }))
]

-- The bit of each bin.
abbrev pub bin_bit : Heap → ℕ → ℕ
bin_bit s k = testbit (s.bitmap (k / 32)) (k % 32)

-- The bits below `start` are masked out of its word.
bit-masked :
    (s : Heap) (start j : ℕ)
    → start / 32 * 32 ≤ j
    → bit (start / 32) (bit_and (s.bitmap (start / 32)) (u32_mod - 2 ^ (start % 32))) s.bitmap j
      ≡ (if leb start j then bin_bit s j else 0)
bit-masked s start j l = elim (Bool-cases (j / 32 == start / 32)) [
  | inl h ↦
      let e : j / 32 ≡ start / 32 = ground arith in
      let m = testbit-range 32 (start % 32) (j % 32) (omega arith) in
      let le = testbit_le (j % 32) (s.bitmap (start / 32)) in
      rw (h, e, testbit-bit_and) (ground arith)
  | inr h ↦ let g : leb start j ≡ true = ground arith in rw (h, g) refl
]

-- `next_nonempty_bin`, from a bin that exists, in a bitmap of 32-bit words, gives the first bin from there on
-- whose bit is set, or the number of bins if no bit is set.
pub next_nonempty_bin-IsFirst :
    (s : Heap) (start : ℕ)
    → ((i : ℕ) → s.bitmap i < u32_mod)
    → start < num_bins s.min_blk
    → IsFirst (bin_bit s) start (next_nonempty_bin start s)
      ⊎ IsNone
          (bin_bit s)
          start
          (num_bins s.min_blk)
          (num_bins s.min_blk)
          (next_nonempty_bin start s)
unfolding next_nonempty_bin
next_nonempty_bin-IsFirst s start w h =
    let all = num_bins s.min_blk in
    let active = bit_and (s.bitmap (start / 32)) (u32_mod - 2 ^ (start % 32)) in
    let more : leb all start ≡ false = ground arith in
    let r = word_loop ((all + 31) / 32 - start / 32) (start / 32) active s.bitmap all in
    let small =
      bit_and_lt 32 (s.bitmap (start / 32)) (u32_mod - 2 ^ (start % 32)) (w (start / 32))
        (let p = pow_pos (start % 32) in omega arith) in
    elim (word_loop-IsFirst ((all + 31) / 32 - start / 32) (start / 32) active s.bitmap all small
      w) [
        | inl f ↦ rw more (
            inl (record {
              from = ground (arith, bit-masked s start r f.from, f.set);
              set = ground (arith, bit-masked s start r f.from, f.set);
              before = λ j l g.
                  let low : start / 32 * 32 ≤ j = omega arith in
                  ground (arith, bit-masked s start j low, f.before j low g);
            }))
        | inr f ↦ rw more (
            inr (record {
              result = f.result;
              all = λ j l g.
                  let low : start / 32 * 32 ≤ j = omega arith in
                  ground (arith, bit-masked s start j low, f.all j low (omega arith));
            }))
      ]
