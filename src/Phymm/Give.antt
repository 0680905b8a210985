-- ===== src/Phymm/Give.antt =====
-- `buddy_free_block`: what is given back becomes free, together with the buddies that it is joined to.
use mos.Base.{
  ℕ, zero, suc, ◌+◌, ◌-◌, ◌*◌, ◌/◌, ◌%◌, ◌^◌, ◌≤◌, ◌≡◌, refl, ap, subst, ◌∙◌, true, false, ltb,
  ◌==◌, if◌then◌else◌, arith, inl, inr, Bool-cases, bit_xor, ◌⊎◌,
}
use mos.Base.Bits.{flip, bit_xor-pow}
use mos.Phymm.{
  Page, Phymm, max_buddy_order, is_listed, is_free_at_order, put_page, push, remove, hand_back,
  free_loop, free_block,
}
use mos.Phymm.Measure.{pow_double, inside, total, cover, inside-split, inside_self, pow_pos}
use mos.Phymm.Take.{Took, remove-Took}
use mos.Phymm.Inv.{IsValid, IsHeld, change-IsHeld, push-IsValid, put_page_same, put_page_other}

-- A block and its buddy make the block of the next order at the lower index of the two.
pub record AreBuddies (idx buddy order : ℕ) : Type 0 where
  pub parts :
      (x : ℕ)
      → inside (if ltb buddy idx then buddy else idx) (order + 1) x
        ≡ inside idx order x + inside buddy order x
  pub aligned : (m : ℕ) × ((if ltb buddy idx then buddy else idx) ≡ m * 2 ^ (order + 1))
  pub joins :
      (((if ltb buddy idx then buddy else idx) ≡ idx) × (buddy ≡ idx + 2 ^ order))
      ⊎ (((if ltb buddy idx then buddy else idx) ≡ buddy) × (idx ≡ buddy + 2 ^ order))

upper-AreBuddies :
    (h idx buddy order : ℕ)
    → idx ≡ h * 2 ^ (order + 1)
    → buddy ≡ idx + 2 ^ order
    → AreBuddies idx buddy order
upper-AreBuddies h idx buddy order e b =
    let above : ltb buddy idx ≡ false = ground arith in
    record {
      parts = λ x. rw (above, b) (inside-split idx order x);
      aligned = (h, rw above e);
      joins = inl (rw above refl, b);
    }

lower-AreBuddies :
    (h idx buddy order : ℕ)
    → buddy ≡ h * 2 ^ (order + 1)
    → idx ≡ buddy + 2 ^ order
    → AreBuddies idx buddy order
lower-AreBuddies h idx buddy order e b =
    let some_page = pow_pos order in
    let below : ltb buddy idx ≡ true = ground arith in
    record {
      parts = λ x. let d = inside-split buddy order x in rw (below, b) (omega arith);
      aligned = (h, rw below e);
      joins = inr (rw below refl, b);
    }

bit_xor-AreBuddies :
    (m idx order : ℕ) → idx ≡ m * 2 ^ order → AreBuddies idx (bit_xor idx (2 ^ order)) order
unfolding flip
bit_xor-AreBuddies m idx order e =
    let flipped : bit_xor idx (2 ^ order) ≡ flip m * 2 ^ order = rw e (bit_xor-pow order m) in
    let d = pow_double order in
    elim (Bool-cases (m % 2 == 0)) [
      | inl even ↦
          let f : flip m ≡ m + 1 = rw even refl in
          let half : m ≡ m / 2 + m / 2 = ground arith in
          upper-AreBuddies (m / 2) idx (bit_xor idx (2 ^ order)) order
            (rw d (e ∙ ap (λ (k : ℕ). k * 2 ^ order) half ∙ grind arith))
            (flipped ∙ rw (f, e) (grind arith))
      | inr odd ↦
          let f : flip m ≡ m / 2 + m / 2 = rw odd (ground arith) in
          let half : m ≡ m / 2 + m / 2 + 1 = ground arith in
          lower-AreBuddies (m / 2) idx (bit_xor idx (2 ^ order)) order
            (rw d (flipped ∙ rw f (grind arith)))
            (rw flipped (e ∙ ap (λ (k : ℕ). k * 2 ^ order) half ∙ rw f (grind arith)))
    ]

-- The free lists cover the pages as `before` says, and are valid.
pub record Gave (before : ℕ → ℕ) (first_page end_page : ℕ) (s : Phymm) : Type 0 where
  pub valid : IsValid s
  pub covered : (x : ℕ) → cover s.free x ≡ before x
  pub first : s.first_page ≡ first_page
  pub last : s.end_page ≡ end_page

is_free_at_order_lem :
    (i o : ℕ) (s : Phymm)
    → is_free_at_order i o s ≡ true
    → ((s.pages i).order ≡ o) × (is_listed i s.free ≡ true)
unfolding is_free_at_order
is_free_at_order_lem i o s h = ground arith

module _ (before : ℕ → ℕ) (first_page end_page : ℕ) where
  hand_back-Gave :
      (i o : ℕ) (s : Phymm)
      → Took before first_page end_page s i o
      → Gave before first_page end_page (hand_back i o s)
  unfolding hand_back push total
  hand_back-Gave i o s t =
      let cleared = record (s.pages i) { ref_count = 0; flags = 0 } in
      let held = change-IsHeld i o s (put_page s.pages i cleared) t.held λ x out.
        put_page_other s.pages i x cleared (λ same.
          let e = inside_self i o in
          let z = subst (λ (y : ℕ). inside i o y ≡ 0) same out in omega arith) in
      record {
        valid =
            push-IsValid i o (record s { pages = put_page s.pages i cleared }) held
              (ap (λ (p : Page). p.ref_count) (put_page_same s.pages i cleared));
        covered = λ x. omega (arith, t.covered x);
        first = t.first;
        last = t.last;
      }

  join-Took :
      (i buddy o : ℕ) (s : Phymm)
      → Took before first_page end_page s i o
      → AreBuddies i buddy o
      → is_free_at_order buddy o s ≡ true
      → o + 1 ≤ max_buddy_order
      → Took before first_page end_page (remove buddy s) (if ltb buddy i then buddy else i) (o + 1)
  unfolding remove
  join-Took i buddy o s t b free small =
      let (at_o, l) = is_free_at_order_lem buddy o s free in
      let held = (remove-Took buddy o s t.held.valid l at_o).held in
      let total = λ (x : ℕ). (remove-Took buddy o s t.held.valid l at_o).covered x in
      let d = pow_double o in
      let low = t.held.fits.low in
      let low' = held.fits.low in
      let high = t.held.fits.high in
      let high' = held.fits.high in
      record {
        held = record {
          valid = held.valid;
          fits = record {
            low = elim b.joins [ inl (m, e) ↦ omega arith | inr (m, e) ↦ omega arith ];
            high = elim b.joins [ inl (m, e) ↦ omega arith | inr (m, e) ↦ omega arith ];
            small = small;
            aligned = b.aligned;
          };
          apart = λ x. omega (arith, t.held.apart x, b.parts x, total x);
        };
        covered = λ x. omega (arith, t.covered x, b.parts x, total x);
        first = t.first;
        last = t.last;
      }

  free_loop-Gave :
      (n i o : ℕ) (s : Phymm)
      → n + o ≡ max_buddy_order
      → Took before first_page end_page s i o
      → Gave before first_page end_page (free_loop n i o s)
  unfolding free_loop
  free_loop-Gave zero i o s e t = hand_back-Gave i o s t
  free_loop-Gave (suc n) i o s e t =
      let buddy = bit_xor i (2 ^ o) in
      elim (Bool-cases (is_free_at_order buddy o s)) [
        | inl free ↦
            let (m, at_m) = t.held.fits.aligned in
            rw (free, free_loop)
              (free_loop-Gave n (if ltb buddy i then buddy else i) (o + 1) (remove buddy s)
                (omega arith)
                (join-Took i buddy o s t (bit_xor-AreBuddies m i o at_m) free (omega arith)))
        | inr taken ↦ rw (taken, free_loop) (hand_back-Gave i o s t)
      ]

-- `buddy_free_block`, on valid free lists, of a block in the managed range, at a multiple of its size, that no
-- free block meets, leaves valid free lists, which cover what they covered and that block, and no other page.
pub free_block-Gave :
    (i o : ℕ) (s : Phymm)
    → IsHeld s i o
    → Gave (λ x. cover s.free x + inside i o x) s.first_page s.end_page (free_block i o s)
unfolding free_block
free_block-Gave i o s h =
    let small = h.fits.small in
    free_loop-Gave (λ x. cover s.free x + inside i o x) s.first_page s.end_page
      (max_buddy_order - o) i o s (omega arith)
      (record { held = h; covered = λ x. refl; first = refl; last = refl })
