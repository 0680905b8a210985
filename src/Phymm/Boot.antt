-- ===== src/Phymm/Boot.antt =====
-- `phymm_init` makes the free lists of exactly the usable pages.
use mos.Base.{
  ℕ, zero, suc, ◌+◌, ◌-◌, ◌*◌, ◌/◌, ◌%◌, ◌^◌, ◌≤◌, ◌<◌, ◌≡◌, ◌≢◌, refl, ap, subst, ◌∙◌, Bool, true,
  false, ◌||◌, not, List, [], ◌∷◌, ltb, leb, ◌==◌, if◌then◌else◌, arith, inl, inr, Bool-cases,
  u32_mod, add32, Option, none, some, u64_mod,
}
use mos.Phymm.{Page, Phymm, phymm_order_none, put_page}
use mos.Phymm.Measure.{total, cover, Headed-agree}
use mos.Phymm.Inv.{put_page_same, put_page_other}
use mos.Phymm.Give.{Gave}
use mos.Phymm.AddRange.{span, add_free_range-Gave}
use mos.Phymm.Init.{Entry, reserve_loop, clear_loop, usable_range, add_range, init_walk, init}
use mos.Phymm.Usable.{in_range, added, usable, NoneWraps, added-usable}

abbrev cleared : Page → Page
cleared p = record p { ref_count = 0; order = phymm_order_none }

clear_loop_out : (n i x : ℕ) (s : Phymm) → x < i → (clear_loop n i s).pages x ≡ s.pages x
unfolding clear_loop
clear_loop_out zero i x s h = refl
clear_loop_out (suc n) i x s h =
    clear_loop_out n (i + 1) x
      (record s {
        managed_pages = add32 s.managed_pages 1;
        pages = put_page s.pages i (cleared (s.pages i));
      })
      (omega arith)
    ∙ put_page_other s.pages i x (cleared (s.pages i)) (λ e. absurd (omega arith))

clear_loop_in :
    (n i x : ℕ) (s : Phymm) → i ≤ x → x < i + n → ((clear_loop n i s).pages x).ref_count ≡ 0
unfolding clear_loop
clear_loop_in zero i x s low high = absurd (omega arith)
clear_loop_in (suc n) i x s low high =
    let s' = record s {
      managed_pages = add32 s.managed_pages 1;
      pages = put_page s.pages i (cleared (s.pages i));
    } in
    elim (Bool-cases (x == i)) [
      | inl here ↦
          let e : i ≡ x = ground arith in
          ap (λ (p : Page). p.ref_count)
            (clear_loop_out n (i + 1) x s' (omega arith)
              ∙ subst (λ (j : ℕ). put_page s.pages i (cleared (s.pages i)) j ≡ cleared (s.pages i))
                  e (put_page_same s.pages i (cleared (s.pages i))))
      | inr later ↦ clear_loop_in n (i + 1) x s' (ground arith) (omega arith)
    ]

module _ (before : ℕ → ℕ) (first_page end_page : ℕ) where
  -- Pages in no free block do not matter to the free lists.
  clear_loop-Gave :
      (n i top : ℕ) (s : Phymm)
      → i + n ≡ top
      → ((x : ℕ) → before x + span i top x ≤ 1)
      → Gave before first_page end_page s
      → Gave before first_page end_page (clear_loop n i s)
  unfolding clear_loop span
  clear_loop-Gave zero i top s e apart g = g
  clear_loop-Gave (suc n) i top s e apart g =
      clear_loop-Gave n (i + 1) top
        (record s {
          managed_pages = add32 s.managed_pages 1;
          pages = put_page s.pages i (cleared (s.pages i));
        })
        (omega arith) (λ x. later x (apart x))
        (record {
          valid = record {
            word = g.valid.word;
            headed =
                Headed-agree s.pages (put_page s.pages i (cleared (s.pages i))) s.free
                  (λ x c. put_page_other s.pages i x (cleared (s.pages i)) (taken x c))
                  g.valid.headed;
            fit = g.valid.fit;
            apart = g.valid.apart;
            counted = g.valid.counted;
          };
          covered = g.covered;
          first = g.first;
          last = g.last;
        })
    where
      taken : (x : ℕ) → 1 ≤ cover s.free x → x ≢ i
      taken x c same = let full = apart x in let e' = g.covered x in ground arith

      later : (x : ℕ) → before x + span i top x ≤ 1 → before x + span (i + 1) top x ≤ 1
      later x h = ground arith

  -- The pages that an entry makes usable are in the managed range.
  abbrev IsInside : Option (ℕ × ℕ) → Type 0
  IsInside none = Unit {0}
  IsInside (some (start, end)) = (first_page ≤ start) × (start ≤ end) × (end ≤ end_page)

  add_range-Gave :
      (r : Option (ℕ × ℕ)) (s : Phymm)
      → end_page < 2 ^ 31
      → IsInside r
      → ((x : ℕ) → before x + in_range r x ≤ 1)
      → Gave before first_page end_page s
      → Gave (λ x. before x + in_range r x) first_page end_page (add_range r s)
  add_range-Gave none s word i apart g = record {
    valid = g.valid;
    covered = λ x. g.covered x ∙ omega arith;
    first = g.first;
    last = g.last;
  }
  add_range-Gave (some (start, end)) s word (low, room, high) apart g =
      let g' = clear_loop-Gave (end - start) start end s (omega arith) apart g in
      let first = g'.first in
      let last = g'.last in
      let added =
        add_free_range-Gave start end (clear_loop (end - start) start s) g'.valid (omega arith) room
          (omega arith) (omega arith) (λ x. rw (g'.covered x) (apart x))
          (λ x h l. clear_loop_in (end - start) start x s h (omega arith)) in
      record {
        valid = added.valid;
        covered = λ x. added.covered x ∙ ap (λ (n : ℕ). n + span start end x) (g'.covered x);
        first = added.first ∙ first;
        last = added.last ∙ last;
      }

clamped-IsInside :
    (first_page end_page start end : ℕ) (x : Bool)
    → first_page ≤ start
    → end ≤ end_page
    → IsInside
        (λ x. 0)
        first_page
        end_page
        (if x then none else if leb end start then none else some (start, end))
clamped-IsInside first_page end_page start end true low high = tt
clamped-IsInside first_page end_page start end false low high = elim (Bool-cases (leb end start)) [
  | inl empty ↦ rw empty tt
  | inr room ↦ rw room (low, ground arith, high)
]

usable_range-IsInside :
    (limit first_page end_page : ℕ) (e : Entry)
    → IsInside (λ x. 0) first_page end_page (usable_range limit first_page end_page e)
unfolding usable_range
usable_range-IsInside limit first_page end_page e =
    let base = e.base_low + e.base_high * 2 ^ 32 in
    let top = (base + (e.length_low + e.length_high * 2 ^ 32)) % u64_mod in
    let start = base / 4096 % u32_mod in
    let end = (if ltb limit top then limit else top) / 4096 % u32_mod in
    clamped-IsInside first_page end_page (if ltb start first_page then first_page else start)
      (if ltb end_page end then end_page else end) (not (e.kind == 1) || leb limit base)
      (at_least first_page start) (at_most end_page end)
  where
    at_least : (a b : ℕ) → a ≤ (if ltb b a then a else b)
    at_least a b = ground arith

    at_most : (a b : ℕ) → (if ltb a b then a else b) ≤ a
    at_most a b = ground arith

init_walk-Gave :
    (limit first_page end_page : ℕ) (before : ℕ → ℕ) (es : List Entry) (s : Phymm)
    → end_page < 2 ^ 31
    → ((x : ℕ) → before x + added limit first_page end_page es x ≤ 1)
    → Gave before first_page end_page s
    → Gave
        (λ x. before x + added limit first_page end_page es x)
        first_page
        end_page
        (init_walk limit es s)
unfolding init_walk
init_walk-Gave limit first_page end_page before [] s word apart g = record {
  valid = g.valid;
  covered = λ x. g.covered x ∙ omega arith;
  first = g.first;
  last = g.last;
}
init_walk-Gave limit first_page end_page before (e ∷ es) s word apart g =
    let r = usable_range limit first_page end_page e in
    let one =
      add_range-Gave before first_page end_page r s word
        (usable_range-IsInside limit first_page end_page e) (λ x. omega (arith, apart x)) g in
    let rest =
      init_walk-Gave limit first_page end_page (λ x. before x + in_range r x) es (add_range r s)
        word (λ x. omega (arith, apart x)) one in
    let same : usable_range limit s.first_page s.end_page e ≡ r = rw (g.first, g.last) refl in
    rw same (record {
      valid = rest.valid;
      covered = λ x. rest.covered x ∙ omega arith;
      first = rest.first;
      last = rest.last;
    })

-- `phymm_init` with fewer than 2^31 pages, addresses limited to less than 2^44, and a memory map whose
-- entries of RAM end below 2^64, no two of which give the same managed page, makes valid free lists that cover
-- exactly the pages that an entry of RAM gives: managed pages that end behind the entry's begin, and
-- within the entry and the limit.
pub init-Gave :
    (limit : ℕ) (es : List Entry) (s : Phymm)
    → s.end_page < 2 ^ 31
    → limit < 2 ^ 44
    → NoneWraps es
    → ((x : ℕ) → usable limit s.first_page s.end_page es x ≤ 1)
    → Gave (usable limit s.first_page s.end_page es) s.first_page s.end_page (init limit es s)
unfolding init total
init-Gave limit es s word small fits apart =
    let same = λ (x : ℕ). added-usable limit s.first_page s.end_page es x small fits in
    let walked =
      init_walk-Gave limit s.first_page s.end_page (λ x. 0) es
        (record s {
          free = [];
          free_pages = 0;
          managed_pages = 0;
          pages = reserve_loop (s.end_page - s.first_page) s.first_page s.pages;
        })
        word (λ x. omega (arith, same x, apart x))
        (record {
          valid = record {
            word = omega arith;
            headed = tt;
            fit = tt;
            apart = λ x. omega arith;
            counted = refl;
          };
          covered = λ x. refl;
          first = refl;
          last = refl;
        }) in
    record {
      valid = walked.valid;
      covered = λ x. walked.covered x ∙ omega (arith, same x);
      first = walked.first;
      last = walked.last;
    }
