-- ===== src/Kmalloc/Search.antt =====
-- `find_free` finds a block that is large enough whenever there is one.
use mos.Base.{
  occurrences, occurrences-is_empty, is_empty, ==→≡, ℕ, ◌+◌, ◌%◌, ◌≤◌, ◌<◌, ◌≡◌, refl, ap, subst,
  inl, inr, ◌==◌, leb, ltb, if◌then◌else◌, arith, Bool, true, false, Bool-cases, Option-cases,
  Option, none, some, List, [], ◌∷◌,
}
use mos.Kmalloc.{
  Heap, size_to_bin, num_bins, small_bin_count, head, first_fit, next_nonempty_bin, pick_free,
  blk_sz,
}
use mos.Kmalloc.Bins.{IsMin, size_to_bin_lt, size_to_bin-lt, size_to_bin-small}
use mos.Kmalloc.Tiles.{width}
use mos.Kmalloc.Queue.{IsFiled}
use mos.Kmalloc.Scan.{next_nonempty_bin-IsFirst, bin_bit}

-- What a search for `need` bytes gives among the blocks that `listed` marks.
abbrev pub Finds : (ℕ → Bool) → (ℕ → ℕ) → ℕ → Option ℕ → Type 0
Finds listed size need (some b) = (listed b ≡ true) × (need ≤ size b)
Finds listed size need none = (a : ℕ) → listed a ≡ true → size a < need

head-occurrences : (xs : List ℕ) (x : ℕ) → head xs ≡ some x → 1 ≤ occurrences x xs
unfolding head occurrences
head-occurrences [] x e = ground arith
head-occurrences (y ∷ ys) x e = ground arith

head-is_empty : (xs : List ℕ) → head xs ≡ none → is_empty xs ≡ true
unfolding head is_empty
head-is_empty [] e = refl
head-is_empty (y ∷ ys) e = ground arith

-- A search of one list.
first_fit-Finds :
    (need : ℕ) (hdr : ℕ → ℕ) (xs : List ℕ)
    → Finds (λ a. ltb 0 (occurrences a xs)) (width hdr) need (first_fit need hdr xs)
unfolding first_fit occurrences
first_fit-Finds need hdr [] = λ a h. ground arith
first_fit-Finds need hdr (x ∷ xs) = elim (Bool-cases (leb need (width hdr x))) [
  | inl fits ↦ rw fits (ground arith, ground arith)
  | inr small ↦ rw small (more (first_fit need hdr xs) (first_fit-Finds need hdr xs) small)
]
  where
    more :
        (r : Option ℕ)
        → Finds (λ a. ltb 0 (occurrences a xs)) (width hdr) need r
        → leb need (width hdr x) ≡ false
        → Finds (λ a. ltb 0 ((if x == a then 1 else 0) + occurrences a xs)) (width hdr) need r
    more none all small = λ a h. let rest = all a in ground arith
    more (some b) (there, fits) small = (ground arith, fits)

module _ (s : Heap) (listed : ℕ → Bool) (is : IsMin s.min_blk)
    (low : (a : ℕ) → listed a ≡ true → s.min_blk ≤ blk_sz s a) (t : IsFiled s listed) where
  bin_bit-listed : (a : ℕ) → listed a ≡ true → bin_bit s (size_to_bin s.min_blk (blk_sz s a)) ≡ 1
  bin_bit-listed a la =
      let bin = size_to_bin s.min_blk (blk_sz s a) in
      let c = t.counts bin a in
      let b = t.bits bin in let e = occurrences-is_empty a (s.bins bin) in ground arith

  -- The first block of the first bin from `from` on that is not empty.
  higher-Finds :
      (need from : ℕ)
      → ((a : ℕ) → listed a ≡ true → from ≤ size_to_bin s.min_blk (blk_sz s a) → need ≤ blk_sz s a)
      → ((a : ℕ) → listed a ≡ true → size_to_bin s.min_blk (blk_sz s a) < from → blk_sz s a < need)
      → Finds listed (blk_sz s) need (
          if next_nonempty_bin from s == num_bins s.min_blk
          then none
          else head (s.bins (next_nonempty_bin from s)))
  unfolding next_nonempty_bin
  higher-Finds need from fit small =
      let all = num_bins s.min_blk in
      let bin = λ (a : ℕ). size_to_bin s.min_blk (blk_sz s a) in
      elim (Bool-cases (leb all from)) [
        | inl above ↦
            let e : (all == all) ≡ true = ground arith in
            rw (above, e)
              (λ a la.
                let lt = size_to_bin_lt s.min_blk is (blk_sz s a) (low a la) in
                small a la (ground arith))
        | inr below ↦ elim (next_nonempty_bin-IsFirst s from t.words (ground arith)) [
          | inl f ↦
              let r = next_nonempty_bin from s in
              elim (Option-cases (head (s.bins r))) [
                | inl h ↦
                    let e = head-is_empty (s.bins r) h in
                    let b = t.bits r in let one = f.set in absurd (ground arith)
                | inr (x, h) ↦
                    let c = head-occurrences (s.bins r) x h in
                    let d = t.counts r x in
                    let lx : listed x ≡ true = ground arith in
                    let e : bin x ≡ r = ground arith in
                    let lt = size_to_bin_lt s.min_blk is (blk_sz s x) (low x lx) in
                    let other : (r == all) ≡ false = ground arith in
                    let from_r = f.from in rw (other, h) (lx, fit x lx (ground arith))
              ]
          | inr f ↦
              let e : (next_nonempty_bin from s == all) ≡ true = let g = f.result in ground arith in
              rw e (λ a la.
                let lt = size_to_bin_lt s.min_blk is (blk_sz s a) (low a la) in
                let b = bin_bit-listed a la in let z = f.all (bin a) in small a la (ground arith))
        ]
      ]

  pub pick_free-Finds :
      (need : ℕ)
      → s.min_blk ≤ need
      → need % 8 ≡ 0
      → ((a : ℕ) → listed a ≡ true → blk_sz s a % 8 ≡ 0)
      → Finds listed (blk_sz s) need (pick_free need s)
  unfolding pick_free
  pick_free-Finds need hm h8 mult =
      let start = size_to_bin s.min_blk need in
      let bin = λ (a : ℕ). size_to_bin s.min_blk (blk_sz s a) in
      let first = first_fit-Finds need s.hdr (s.bins start) in
      elim (Bool-cases (leb (small_bin_count s.min_blk) start)) [
        | inl large ↦ elim (Option-cases (first_fit need s.hdr (s.bins start))) [
          | inl h ↦
              let none_there : Finds (λ a. ltb 0 (occurrences a (s.bins start))) (width s.hdr) need
                  none =
                subst (Finds (λ a. ltb 0 (occurrences a (s.bins start))) (width s.hdr) need) h
                  first in
              rw (large, h)
                (higher-Finds need (start + 1)
                  (λ a la g.
                    size_to_bin-lt s.min_blk is need (blk_sz s a) (low a la) (ground arith))
                  (λ a la g. elim (Bool-cases (bin a == start)) [
                    | inl e ↦ let c = t.counts start a in let f = none_there a in ground arith
                    | inr e ↦ below a la (ground arith)
                  ]))
          | inr (b, h) ↦
              let (there, fits) : Finds (λ a. ltb 0 (occurrences a (s.bins start))) (width s.hdr)
                  need (some b) =
                subst (Finds (λ a. ltb 0 (occurrences a (s.bins start))) (width s.hdr) need) h
                  first in
              let c = t.counts start b in rw (large, h) (ground arith, fits)
        ]
        | inr few ↦ rw few (
            higher-Finds need start
              (λ a la g. elim (Bool-cases (bin a == start)) [
                | inl e ↦
                    size_to_bin-small s.min_blk is need (blk_sz s a) hm (low a la) h8 (mult a la)
                      (ground arith) (ground arith)
                | inr e ↦ size_to_bin-lt s.min_blk is need (blk_sz s a) (low a la) (ground arith)
              ])
              below)
      ]
    where
      below :
          (a : ℕ)
          → listed a ≡ true
          → size_to_bin s.min_blk (blk_sz s a) < size_to_bin s.min_blk need
          → blk_sz s a < need
      below a la g =
          let le = size_to_bin-lt s.min_blk is (blk_sz s a) need hm g in
          elim (Bool-cases (blk_sz s a == need)) [
            | inl e ↦
                let f = ap (size_to_bin s.min_blk) (==→≡ (blk_sz s a) need e) in
                absurd (omega arith)
            | inr e ↦ ground arith
          ]
