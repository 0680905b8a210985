-- ===== src/Kmalloc/Queue.antt =====
-- The bins and their bitmap. `listed` marks the blocks that are in a bin.
use mos.Base.{
  put, delete, is_empty, occurrences, occurrences-delete, occurrences-is_empty, ==-self, ℕ, ◌-◌,
  ◌/◌, ◌%◌, ◌^◌, ◌<◌, ◌≡◌, ◌≢◌, refl, sym, ◌∙◌, inl, inr, ◌==◌, if◌then◌else◌, ◌&&◌, arith, Bool,
  true, false, Bool-cases, u32_mod, List, bit_and, bit_or,
}
use mos.Base.Bits.{
  testbit, testbit-bit_or, testbit-bit_and, testbit-pow_self, testbit-pow_ne, testbit_le,
}
use mos.Kmalloc.{Heap, size_to_bin, fl_insert, fl_remove, blk_sz}
use mos.Kmalloc.Tiles.{width}
use mos.Kmalloc.Word.{testbit-without, bit_or_lt, bit_and_lt, pow_lt}

pub record IsBinned (m : ℕ) (hdr : ℕ → ℕ) (bins : ℕ → List ℕ) (bitmap : ℕ → ℕ) (listed : ℕ → Bool)
    : Type 0 where
  pub counts :
      (k a : ℕ)
      → occurrences a (bins k) ≡ (if listed a && (size_to_bin m (width hdr a) == k) then 1 else 0)
  pub bits : (k : ℕ) → testbit (bitmap (k / 32)) (k % 32) ≡ (if is_empty (bins k) then 0 else 1)
  pub words : (i : ℕ) → bitmap i < u32_mod

-- The heap's bins and bitmap.
abbrev pub IsFiled : Heap → (ℕ → Bool) → Type 0
IsFiled s listed = IsBinned s.min_blk s.hdr s.bins s.bitmap listed

-- A bit of a bitmap is set, and cleared, and the others keep their values.
testbit-set :
    (bitmap : ℕ → ℕ) (i k : ℕ)
    → i ≢ k
    → testbit (put bitmap (i / 32) (bit_or (bitmap (i / 32)) (2 ^ (i % 32))) (k / 32)) (k % 32)
      ≡ testbit (bitmap (k / 32)) (k % 32)
testbit-set bitmap i k ne = elim (Bool-cases (k / 32 == i / 32)) [
  | inl h ↦
      let e : k / 32 ≡ i / 32 = ground arith in
      rw (h, e, testbit-bit_or, testbit-pow_ne (i % 32) (k % 32) (λ g. ne (omega arith)))
        (omega arith)
  | inr h ↦ rw h refl
]

testbit-clear :
    (bitmap : ℕ → ℕ) (i k : ℕ)
    → i ≢ k
    → testbit
        (put bitmap (i / 32) (bit_and (bitmap (i / 32)) (u32_mod - 1 - 2 ^ (i % 32))) (k / 32))
        (k % 32)
      ≡ testbit (bitmap (k / 32)) (k % 32)
testbit-clear bitmap i k ne = elim (Bool-cases (k / 32 == i / 32)) [
  | inl h ↦
      let e : k / 32 ≡ i / 32 = ground arith in
      let w = testbit-without 32 (i % 32) (k % 32) (omega arith) in
      let le = testbit_le (k % 32) (bitmap (i / 32)) in rw (h, e, testbit-bit_and) (ground arith)
  | inr h ↦ rw h refl
]

testbit-set_self :
    (bitmap : ℕ → ℕ) (i : ℕ)
    → testbit (put bitmap (i / 32) (bit_or (bitmap (i / 32)) (2 ^ (i % 32))) (i / 32)) (i % 32) ≡ 1
testbit-set_self bitmap i =
    let same : (i / 32 == i / 32) ≡ true = ground arith in
    let le = testbit_le (i % 32) (bitmap (i / 32)) in
    rw (same, testbit-bit_or, testbit-pow_self (i % 32)) (omega arith)

testbit-clear_self :
    (bitmap : ℕ → ℕ) (i : ℕ)
    → testbit
        (put bitmap (i / 32) (bit_and (bitmap (i / 32)) (u32_mod - 1 - 2 ^ (i % 32))) (i / 32))
        (i % 32)
      ≡ 0
testbit-clear_self bitmap i =
    let same : (i / 32 == i / 32) ≡ true = ground arith in
    let w = testbit-without 32 (i % 32) (i % 32) (omega arith) in
    rw (same, testbit-bit_and) (ground arith)

pub fl_insert-IsBinned :
    (b : ℕ) (s : Heap) (listed : ℕ → Bool)
    → listed b ≡ false
    → IsFiled s listed
    → IsFiled (fl_insert b s) (put listed b true)
unfolding fl_insert occurrences is_empty
fl_insert-IsBinned b s listed h t =
    let bin = size_to_bin s.min_blk (blk_sz s b) in
    record {
      counts = λ k a. let c = t.counts k a in ground arith;
      bits = λ k. elim (Bool-cases (k == bin)) [
        | inl e ↦
            let g : k ≡ bin = ground arith in rw (g, ==-self bin) (testbit-set_self s.bitmap bin)
        | inr e ↦
            let same = testbit-set s.bitmap bin k (λ g. absurd (ground arith)) in
            rw e (same ∙ t.bits k)
      ];
      words = λ i.
          let p = pow_lt (bin % 32) 32 (omega arith) in
          let o = bit_or_lt 32 (s.bitmap (bin / 32)) (2 ^ (bin % 32)) (t.words (bin / 32)) p in
          let w = t.words i in ground arith;
    }

pub fl_remove-IsBinned :
    (b : ℕ) (s : Heap) (listed : ℕ → Bool)
    → listed b ≡ true
    → IsFiled s listed
    → IsFiled (fl_remove b s) (put listed b false)
unfolding fl_remove occurrences is_empty
fl_remove-IsBinned b s listed h t =
    let bin = size_to_bin s.min_blk (blk_sz s b) in
    let left = delete b (s.bins bin) in
    record {
      counts =
          λ k a. let c = t.counts k a in let d = occurrences-delete a b (s.bins k) in ground arith;
      bits = λ k. elim (Bool-cases (is_empty left)) [
        | inl z ↦ elim (Bool-cases (k == bin)) [
          | inl e ↦
              let g : k ≡ bin = ground arith in
              rw (g, ==-self bin, z) (testbit-clear_self s.bitmap bin)
          | inr e ↦
              let same = testbit-clear s.bitmap bin k (λ g. absurd (ground arith)) in
              rw (e, z) (same ∙ t.bits k)
        ]
        | inr z ↦ elim (Bool-cases (k == bin)) [
          | inl e ↦
              let g : k ≡ bin = ground arith in
              let old = t.bits k in
              let was = occurrences-is_empty b (s.bins k) in
              let c = t.counts k b in rw z (ground arith)
          | inr e ↦ rw (e, z) (t.bits k)
        ]
      ];
      words = λ i.
          let p =
            bit_and_lt 32 (s.bitmap (bin / 32)) (u32_mod - 1 - 2 ^ (bin % 32)) (t.words (bin / 32))
              (omega arith) in
          let w = t.words i in ground arith;
    }

-- A header of a block in no bin may be written.
pub header-IsBinned :
    (b w : ℕ) (s : Heap) (listed : ℕ → Bool)
    → listed b ≡ false
    → IsFiled s listed
    → IsFiled (record s { hdr = put s.hdr b w }) listed
header-IsBinned b w s listed h t = record {
  counts = λ k a. let c = t.counts k a in ground arith;
  bits = t.bits;
  words = t.words;
}

pub same-IsBinned :
    {m : ℕ} {hdr : ℕ → ℕ} {bins : ℕ → List ℕ} {bitmap : ℕ → ℕ} (f g : ℕ → Bool)
    → ((a : ℕ) → f a ≡ g a)
    → IsBinned m hdr bins bitmap f
    → IsBinned m hdr bins bitmap g
same-IsBinned f g same t = record {
  counts = λ k a. rw (sym (same a)) (t.counts k a);
  bits = t.bits;
  words = t.words;
}
