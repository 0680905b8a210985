-- ===== src/Phymm/Take.antt =====
-- Splitting a block that has been taken out: what is left of it stays held, and the rest goes back.
use mos.Base.{
  ℕ, zero, suc, ◌+◌, ◌-◌, ◌^◌, ◌≤◌, ◌<◌, ◌≡◌, refl, ap, subst, ◌∙◌, true, ltb, ◌⊎◌, if◌then◌else◌,
  arith, inl, add32,
}
use mos.Phymm.{Page, Phymm, phymm_order_none, is_listed, push, remove, set_order, clear_refs}
use mos.Phymm.Measure.{pow_pos, inside, total, cover, inside-split}
use mos.Phymm.Inv.{
  Fits, IsValid, IsHeld, remove-IsHeld, remove-total, change-IsHeld, push-IsHeld, lower-Fits,
  upper-Fits, put_page_same,
}
use mos.Phymm.Alloc.{mark_rest, mark, split_low, split_high}

-- A block is out of the free lists, which covered the pages as `before` says with it.
pub record Took (before : ℕ → ℕ) (first_page end_page : ℕ) (s : Phymm) (idx order : ℕ)
    : Type 0 where
  pub held : IsHeld s idx order
  pub covered : (x : ℕ) → cover s.free x + inside idx order x ≡ before x
  pub first : s.first_page ≡ first_page
  pub last : s.end_page ≡ end_page

pub remove-Took :
    (i o : ℕ) (s : Phymm)
    → IsValid s
    → is_listed i s.free ≡ true
    → (s.pages i).order ≡ o
    → Took (cover s.free) s.first_page s.end_page (remove i s) i o
unfolding remove
remove-Took i o s v l at_o = record {
  held = subst (λ (k : ℕ). IsHeld (remove i s) i k) at_o (remove-IsHeld i s v l);
  covered = λ x.
      let parts =
        subst (λ (k : ℕ). cover s.free x ≡ inside i k x + cover (remove i s).free x) at_o
          (remove-total (λ i o. inside i o x) i s v l) in
      omega arith;
  first = refl;
  last = refl;
}

module _ (before : ℕ → ℕ) (first_page end_page : ℕ) where
  push-Took :
      (i o j k l m : ℕ) (s : Phymm)
      → Took before first_page end_page s i o
      → Fits s.first_page s.end_page j k
      → Fits s.first_page s.end_page l m
      → ((x : ℕ) → inside i o x ≡ inside j k x + inside l m x)
      → Took before first_page end_page (push j k (clear_refs j s)) l m
  unfolding push total
  push-Took i o j k l m s t fits_j fits_l parts = record {
    held = push-IsHeld i o j k l m s t.held fits_j fits_l parts;
    covered = λ x. omega (arith, t.covered x, parts x);
    first = t.first;
    last = t.last;
  }

  pub split_low-Took :
      (n i o : ℕ) (s : Phymm)
      → Took before first_page end_page s i (o + n)
      → Took before first_page end_page (split_low n i o s) i o
  unfolding split_low
  split_low-Took zero i o s t =
      let e : o + 0 ≡ o = omega arith in
      subst (λ (k : ℕ). Took before first_page end_page s i k) e t
  split_low-Took (suc n) i o s t =
      let e : o + suc n ≡ (o + n) + 1 = omega arith in
      let f = subst (λ (k : ℕ). Fits s.first_page s.end_page i k) e t.held.fits in
      let low = lower-Fits s.first_page s.end_page i (o + n) f in
      let upper = upper-Fits s.first_page s.end_page i (o + n) f in
      let above = pow_pos (o + n) in
      let end = upper.high in
      let word = t.held.valid.word in
      let no_wrap : add32 i (2 ^ (o + n)) ≡ i + 2 ^ (o + n) = omega arith in
      let inner : ltb (i + 2 ^ (o + n)) s.end_page ≡ true = ground arith in
      rw (no_wrap, inner)
        (split_low-Took n i o (push (i + 2 ^ (o + n)) (o + n) (clear_refs (i + 2 ^ (o + n)) s)) (
          push-Took i (o + suc n) (i + 2 ^ (o + n)) (o + n) i (o + n) s t upper low
            (λ x. rw e (let d = inside-split i (o + n) x in omega arith))))

  pub split_high-Took :
      (n i o : ℕ) (s : Phymm)
      → Took before first_page end_page s i (o + n)
      → Took before first_page end_page (split_high n i o s).1 (split_high n i o s).0 o
  unfolding split_high
  split_high-Took zero i o s t =
      let e : o + 0 ≡ o = omega arith in
      subst (λ (k : ℕ). Took before first_page end_page s i k) e t
  split_high-Took (suc n) i o s t =
      let e : o + suc n ≡ (o + n) + 1 = omega arith in
      let f = subst (λ (k : ℕ). Fits s.first_page s.end_page i k) e t.held.fits in
      let low = lower-Fits s.first_page s.end_page i (o + n) f in
      let upper = upper-Fits s.first_page s.end_page i (o + n) f in
      let above = pow_pos (o + n) in
      let end = upper.high in
      let word = t.held.valid.word in
      let no_wrap : add32 i (2 ^ (o + n)) ≡ i + 2 ^ (o + n) = omega arith in
      let inner : ltb (i + 2 ^ (o + n)) s.end_page ≡ true = ground arith in
      rw (no_wrap, inner, split_high, no_wrap)
        (split_high-Took n (i + 2 ^ (o + n)) o (push i (o + n) (clear_refs i s)) (
          push-Took i (o + suc n) i (o + n) (i + 2 ^ (o + n)) (o + n) s t low upper
            (λ x. rw e (let d = inside-split i (o + n) x in omega arith))))

  -- Marking the pages of the block touches no other.
  pub mark_rest_out :
      (n i half last x : ℕ) (pages : ℕ → Page)
      → (x < i + half) ⊎ (i + half + n ≤ x)
      → mark_rest n i half last pages x ≡ pages x
  unfolding mark_rest
  mark_rest_out zero i half last x pages out = refl
  mark_rest_out (suc n) i half last x pages out =
      mark_rest_out n i (half + 1) last x
        (if ltb (i + half) last then set_order pages (i + half) phymm_order_none else pages)
        (ground arith)
      ∙ ground arith

  pub mark-Took :
      (i o : ℕ) (s : Phymm)
      → Took before first_page end_page s i o
      → Took before first_page end_page (mark i o s) i o
  unfolding mark inside
  mark-Took i o s t = record {
    held = change-IsHeld i o s (mark i o s).pages t.held λ x out.
        let size = pow_pos o in
        let away : (x < i + 1) ⊎ (i + 1 + (2 ^ o - 1) ≤ x) = ground arith in
        let rest = mark_rest_out (2 ^ o - 1) i 1 s.end_page x (set_order s.pages i o) away in
        let other : set_order s.pages i o x ≡ s.pages x = ground arith in rest ∙ other;
    covered = t.covered;
    first = t.first;
    last = t.last;
  }

-- The first page of a taken block keeps its order.
pub mark-order : (i o : ℕ) (s : Phymm) → ((mark i o s).pages i).order ≡ o
unfolding mark
mark-order i o s =
    ap (λ (p : Page). p.order)
      (mark_rest_out (λ x. x) 0 0 (2 ^ o - 1) i 1 s.end_page i (set_order s.pages i o)
          (inl (omega arith))
        ∙ put_page_same s.pages i (record (s.pages i) { order = o }))
