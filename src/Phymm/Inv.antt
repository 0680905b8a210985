-- ===== src/Phymm/Inv.antt =====
-- The invariant of the free lists, and a block that has been taken out of them.
use mos.Base.{
  ℕ, ◌+◌, ◌*◌, ◌%◌, ◌^◌, ◌≤◌, ◌<◌, ◌≡◌, ap, sym, subst, ◌≢◌, ◌∙◌, true, List, [], ◌∷◌, ◌==◌, arith,
  inl, inr, Bool-cases, u32_mod,
}
use mos.Phymm.{
  Page, Block, Phymm, max_buddy_order, delete, is_listed, push, remove, put_page, set_order,
  clear_refs,
}
use mos.Phymm.Measure.{
  pow_double, pow_le, inside, total, cover, size, inside_le, inside_self, Headed, total-delete,
  Headed-delete, Headed-agree,
}

-- The block of the order `order` at `idx` lies in the managed range, at a multiple of its size.
pub record Fits (first_page end_page idx order : ℕ) : Type 0 where
  pub low : first_page ≤ idx
  pub high : idx + 2 ^ order ≤ end_page
  pub small : order ≤ max_buddy_order
  pub aligned : (m : ℕ) × (idx ≡ m * 2 ^ order)

abbrev pub AllFit : ℕ → ℕ → List Block → Type 0
AllFit first end [] = Unit {0}
AllFit first end (b ∷ bs) = Fits first end b.idx b.order × AllFit first end bs

pub record IsValid (s : Phymm) : Type 0 where
  pub word : s.end_page < u32_mod
  pub headed : Headed s.pages s.free
  pub fit : AllFit s.first_page s.end_page s.free
  pub apart : (x : ℕ) → cover s.free x ≤ 1
  pub counted : s.free_pages ≡ size s.free % u32_mod

-- A block that is in the range and that no free block meets.
pub record IsHeld (s : Phymm) (idx order : ℕ) : Type 0 where
  pub valid : IsValid s
  pub fits : Fits s.first_page s.end_page idx order
  pub apart : (x : ℕ) → cover s.free x + inside idx order x ≤ 1

pub AllFit-delete :
    (first end i : ℕ) (bs : List Block) → AllFit first end bs → AllFit first end (delete i bs)
unfolding delete
AllFit-delete first end i [] h = tt
AllFit-delete first end i (b ∷ bs) h = elim (Bool-cases (b.idx == i)) [
  | inl e ↦ rw e h.1
  | inr ne ↦ rw ne (h.0, AllFit-delete first end i bs h.1)
]

pub AllFit_lem :
    (first end i : ℕ) (bs : List Block) (pages : ℕ → Page)
    → AllFit first end bs
    → Headed pages bs
    → is_listed i bs ≡ true
    → Fits first end i (pages i).order
unfolding is_listed
AllFit_lem first end i [] pages h d l = absurd (cc)
AllFit_lem first end i (b ∷ bs) pages h d l = elim (Bool-cases (b.idx == i)) [
  | inl e ↦
      let same : b.idx ≡ i = ground arith in
      subst (λ (j : ℕ). Fits first end j (pages j).order) same
        (subst (λ (o : ℕ). Fits first end b.idx o) (sym d.0) h.0)
  | inr ne ↦ AllFit_lem first end i bs pages h.1 d.2 (ground arith)
]

-- `buddy_remove` of a listed page takes its block out.
pub remove-IsHeld :
    (i : ℕ) (s : Phymm)
    → IsValid s
    → is_listed i s.free ≡ true
    → IsHeld (remove i s) i (s.pages i).order
unfolding remove
remove-IsHeld i s v l =
    let fits = AllFit_lem s.first_page s.end_page i s.free s.pages v.fit v.headed l in
    let bound = pow_le (s.pages i).order 10 fits.small in
    record {
      valid = record {
        word = v.word;
        headed = Headed-delete s.pages i s.free v.headed;
        fit = AllFit-delete s.first_page s.end_page i s.free v.fit;
        apart = λ x.
            omega
              (arith, v.apart x, total-delete (λ i o. inside i o x) s.pages i s.free v.headed l);
        counted =
            omega
              (arith, v.counted, total-delete (λ i o. 2 ^ o) s.pages i s.free v.headed l, bound);
      };
      fits = fits;
      apart = λ x.
          omega (arith, v.apart x, total-delete (λ i o. inside i o x) s.pages i s.free v.headed l);
    }

pub remove-total :
    (w : ℕ → ℕ → ℕ) (i : ℕ) (s : Phymm)
    → IsValid s
    → is_listed i s.free ≡ true
    → total w s.free ≡ w i (s.pages i).order + total w (remove i s).free
unfolding remove
remove-total w i s v l = total-delete w s.pages i s.free v.headed l

pub put_page_same : (pages : ℕ → Page) (i : ℕ) (p : Page) → put_page pages i p i ≡ p
put_page_same pages i p = ground arith

pub put_page_other :
    (pages : ℕ → Page) (i j : ℕ) (p : Page) → j ≢ i → put_page pages i p j ≡ pages j
put_page_other pages i j p h = ground arith

-- A page of a held block is in no free block.
pub held_ne :
    (i o x y : ℕ) (s : Phymm) → IsHeld s i o → 1 ≤ cover s.free x → inside i o y ≡ 1 → x ≢ y
held_ne i o x y s h c e same =
    let twice = h.apart y in let c' = subst (λ (z : ℕ). 1 ≤ cover s.free z) same c in omega arith

-- What is done to the pages of a held block does not matter to the free lists.
pub change-IsHeld :
    (i o : ℕ) (s : Phymm) (pages : ℕ → Page)
    → IsHeld s i o
    → ((x : ℕ) → inside i o x ≡ 0 → pages x ≡ s.pages x)
    → IsHeld (record s { pages = pages }) i o
change-IsHeld i o s pages h out = record {
  valid = record {
    word = h.valid.word;
    headed =
        Headed-agree s.pages pages s.free (λ x c. out x (let twice = h.apart x in omega arith))
          h.valid.headed;
    fit = h.valid.fit;
    apart = h.valid.apart;
    counted = h.valid.counted;
  };
  fits = h.fits;
  apart = h.apart;
}

-- `buddy_push` of a held block, with no references to its first page, puts it in.
pub push-IsValid :
    (i o : ℕ) (s : Phymm) → IsHeld s i o → (s.pages i).ref_count ≡ 0 → IsValid (push i o s)
unfolding push total
push-IsValid i o s h none_left = record {
  word = h.valid.word;
  headed = (
    ap (λ (p : Page). p.order) (put_page_same s.pages i (record (s.pages i) { order = o })),
    ap (λ (p : Page). p.ref_count) (put_page_same s.pages i (record (s.pages i) { order = o }))
        ∙ none_left,
    Headed-agree s.pages (set_order s.pages i o) s.free
        (λ x c.
          put_page_other s.pages i x (record (s.pages i) { order = o })
            (held_ne i o x i s h c (inside_self i o)))
        h.valid.headed,
  );
  fit = (h.fits, h.valid.fit);
  apart = λ x. omega (arith, h.apart x);
  counted = omega (arith, h.valid.counted);
}

pub clear_refs-IsHeld :
    (i o j : ℕ) (s : Phymm) → IsHeld s i o → inside i o j ≡ 1 → IsHeld (clear_refs j s) i o
clear_refs-IsHeld i o j s h e = change-IsHeld i o s (clear_refs j s).pages h λ x out.
    put_page_other s.pages j x (record (s.pages j) { ref_count = 0 })
      (λ same. let c = subst (λ (z : ℕ). inside i o z ≡ 0) same out in omega arith)

-- Giving back a part of a held block, the rest stays held.
pub push-IsHeld :
    (i o j k l m : ℕ) (s : Phymm)
    → IsHeld s i o
    → Fits s.first_page s.end_page j k
    → Fits s.first_page s.end_page l m
    → ((x : ℕ) → inside i o x ≡ inside j k x + inside l m x)
    → IsHeld (push j k (clear_refs j s)) l m
unfolding push total
push-IsHeld i o j k l m s h fits_j fits_l parts =
    let inner : inside i o j ≡ 1 = omega (arith, parts j, inside_self j k, inside_le i o j) in
    let cleared = clear_refs-IsHeld i o j s h inner in
    record {
      valid =
          push-IsValid j k (clear_refs j s)
            (record {
              valid = cleared.valid;
              fits = fits_j;
              apart = λ x. omega (arith, h.apart x, parts x);
            })
            (ap (λ (p : Page). p.ref_count)
              (put_page_same s.pages j (record (s.pages j) { ref_count = 0 })));
      fits = fits_l;
      apart = λ x. omega (arith, h.apart x, parts x);
    }

-- Both halves of a block fit if it does.
pub lower-Fits : (first end i k : ℕ) → Fits first end i (k + 1) → Fits first end i k
lower-Fits first end i k f =
    let d = pow_double k in
    let (m, e) = f.aligned in
    record {
      low = f.low;
      high = let h = f.high in omega arith;
      small = let h = f.small in omega arith;
      aligned = (m * 2, e ∙ rw d (grind arith));
    }

pub upper-Fits : (first end i k : ℕ) → Fits first end i (k + 1) → Fits first end (i + 2 ^ k) k
upper-Fits first end i k f =
    let d = pow_double k in
    let (m, e) = f.aligned in
    record {
      low = let h = f.low in omega arith;
      high = let h = f.high in omega arith;
      small = let h = f.small in omega arith;
      aligned = (m * 2 + 1, rw (e, d) (grind arith));
    }
