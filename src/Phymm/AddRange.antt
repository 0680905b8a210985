-- ===== src/Phymm/AddRange.antt =====
-- `buddy_add_free_range`, and the walk of the memory map in `phymm_init`.
use native.Mathlib.Nat.{pow-suc}
use mos.Base.{
  ℕ, zero, suc, ◌+◌, ◌-◌, ◌*◌, ◌/◌, ◌%◌, ◌^◌, ◌≤◌, ◌<◌, ◌≡◌, refl, ap, subst, ◌∙◌, true, ◌&&◌, ltb,
  leb, ◌==◌, if◌then◌else◌, arith, inl, inr, Bool-cases, ltb→lt, ◌≢◌, add32, bit_and, min,
}
use mos.Base.Bits.{bit_and_digit}
use mos.Phymm.{Page, Phymm, max_buddy_order, push}
use mos.Phymm.Measure.{pow_le, pow_pos, inside, total, cover}
use mos.Phymm.Inv.{IsValid, push-IsValid, put_page_other}
use mos.Phymm.Give.{Gave}
use mos.Phymm.Alloc.{fit_order, add_range_loop, add_free_range}

double_multiple : (k p m : ℕ) → p / 2 ≡ m * 2 ^ k → p % 2 ≡ 0 → p ≡ m * 2 ^ suc k
double_multiple k p m half even =
    let e : p ≡ p / 2 * 2 = omega arith in e ∙ rw (half, pow-suc 2 k) (grind arith)

-- A number whose last `k` bits are 0 is a multiple of 2^k.
bit_and-aligned : (k p : ℕ) → bit_and p (2 ^ k - 1) ≡ 0 → (m : ℕ) × (p ≡ m * 2 ^ k)
bit_and-aligned zero p e = (p, omega arith)
bit_and-aligned (suc k) p e =
    let d = bit_and_digit p (2 ^ suc k - 1) in
    let double = pow-suc 2 k in
    let some_page = pow_pos k in
    let half : (2 ^ suc k - 1) / 2 ≡ 2 ^ k - 1 = omega arith in
    let odd : (2 ^ suc k - 1) % 2 ≡ 1 = omega arith in
    let d' : bit_and p (2 ^ suc k - 1) ≡ bit_and (p / 2) (2 ^ k - 1) * 2 + min (p % 2) 1 =
      d ∙ rw (half, odd) refl in
    let (m, at_m) = bit_and-aligned k (p / 2) (omega arith) in
    (m, double_multiple k p m at_m (omega arith))

-- 1 if the page `x` is one of those from `start` up to `top`.
unfoldable pub span : ℕ → ℕ → ℕ → ℕ
span start top x = if leb start x && ltb x top then 1 else 0

pub record IsChoice (p top order : ℕ) : Type 0 where
  pub small : order ≤ max_buddy_order
  pub aligned : (m : ℕ) × (p ≡ m * 2 ^ order)
  pub high : p + 2 ^ order ≤ top

fit_order-IsChoice :
    (k p top : ℕ)
    → k ≤ max_buddy_order
    → top < 2 ^ 31
    → p < top
    → IsChoice p top (fit_order k p top)
unfolding fit_order
fit_order-IsChoice zero p top small word below = record {
  small = omega arith;
  aligned = (p, omega arith);
  high = omega arith;
}
fit_order-IsChoice (suc k) p top small word below =
    let rest = fit_order-IsChoice k p top (omega arith) word below in
    let bound = pow_le (suc k) 10 small in
    elim (Bool-cases (bit_and p (2 ^ suc k - 1) == 0 && leb (add32 p (2 ^ suc k)) top)) [
      | inl good ↦ rw good (record {
        small = small;
        aligned = bit_and-aligned (suc k) p (ground arith);
        high = ground arith;
      })
      | inr bad ↦ rw bad rest
    ]

module _ (before : ℕ → ℕ) (first_page end_page top : ℕ) where
  -- The free lists cover what they covered before and the pages of the range below `p`; the rest of the range is
  -- not covered, and its pages have no references.
  pub record Filled (start p : ℕ) (s : Phymm) : Type 0 where
    pub gave : Gave (λ x. before x + span start p x) first_page end_page s
    pub from : start ≤ p
    pub upto : p ≤ top
    pub apart : (x : ℕ) → before x + span start top x ≤ 1
    pub unused : (x : ℕ) → p ≤ x → x < top → (s.pages x).ref_count ≡ 0

  fill-Filled :
      (start p order : ℕ) (s : Phymm)
      → first_page ≤ start
      → top ≤ end_page
      → p < top
      → IsChoice p top order
      → Filled start p s
      → Filled start (p + 2 ^ order) (push p order s)
  unfolding push total span inside
  fill-Filled start p order s low high below c f =
      let some_page = pow_pos order in
      let up = c.high in
      let from = f.from in
      let first = f.gave.first in
      let last = f.gave.last in
      let parts : (x : ℕ) → span start (p + 2 ^ order) x ≡ span start p x + inside p order x =
        λ x. ground arith in
      let rest : (x : ℕ) → span start (p + 2 ^ order) x ≤ span start top x = λ x. ground arith in
      record {
        gave = record {
          valid =
              push-IsValid p order s
                (record {
                  valid = f.gave.valid;
                  fits = record {
                    low = omega arith;
                    high = omega arith;
                    small = c.small;
                    aligned = c.aligned;
                  };
                  apart = λ x. omega (arith, f.gave.covered x, f.apart x, parts x, rest x);
                })
                (f.unused p (omega arith) below);
          covered = λ x. omega (arith, f.gave.covered x, parts x);
          first = first;
          last = last;
        };
        from = omega arith;
        upto = up;
        apart = f.apart;
        unused = λ x h g.
            let other : x ≢ p = λ e. absurd (omega arith) in
            ap (λ (page : Page). page.ref_count)
              (put_page_other s.pages p x (record (s.pages p) { order = order }) other)
            ∙ f.unused x (omega arith) g;
      }

  add_range_loop-Filled :
      (rounds start p : ℕ) (s : Phymm)
      → first_page ≤ start
      → top ≤ end_page
      → top < 2 ^ 31
      → top ≤ p + rounds
      → Filled start p s
      → Filled start top (add_range_loop rounds p top s)
  unfolding add_range_loop
  add_range_loop-Filled zero start p s low high word enough f =
      let upto = f.upto in let e : p ≡ top = omega arith in subst (λ (q : ℕ). Filled start q s) e f
  add_range_loop-Filled (suc rounds) start p s low high word enough f =
      let upto = f.upto in
      elim (Bool-cases (ltb p top)) [
        | inl more ↦
            let below = ltb→lt p top more in
            let order = fit_order max_buddy_order p top in
            let c = fit_order-IsChoice max_buddy_order p top (omega arith) word below in
            let up = c.high in
            let some_page = pow_pos order in
            let no_wrap : add32 p (2 ^ order) ≡ p + 2 ^ order = omega arith in
            let inner : (ltb p top && leb (p + 2 ^ order) top) ≡ true = ground arith in
            rw (add_range_loop, no_wrap, inner, no_wrap)
              (add_range_loop-Filled rounds start (p + 2 ^ order) (push p order s) low high word
                (omega arith) (fill-Filled start p order s low high below c f))
        | inr done ↦
            let e : p ≡ top = ground arith in
            rw (add_range_loop, done) (subst (λ (q : ℕ). Filled start q s) e f)
      ]

-- `buddy_add_free_range` of pages that have no references and are in no free block adds exactly these pages to
-- what the free lists cover, and keeps the free lists valid.
pub add_free_range-Gave :
    (start top : ℕ) (s : Phymm)
    → IsValid s
    → s.first_page ≤ start
    → start ≤ top
    → top ≤ s.end_page
    → top < 2 ^ 31
    → ((x : ℕ) → cover s.free x + span start top x ≤ 1)
    → ((x : ℕ) → start ≤ x → x < top → (s.pages x).ref_count ≡ 0)
    → Gave
        (λ x. cover s.free x + span start top x)
        s.first_page
        s.end_page
        (add_free_range start top s)
unfolding add_free_range span
add_free_range-Gave start top s v low room high word apart unused =
    (add_range_loop-Filled (cover s.free) s.first_page s.end_page top (top - start) start start s
      low high word (omega arith)
      (record {
        gave = record { valid = v; covered = λ x. ground arith; first = refl; last = refl };
        from = omega arith;
        upto = room;
        apart = apart;
        unused = unused;
      })).gave
