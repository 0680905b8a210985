-- ===== src/Phymm/Measure.antt =====
-- How many blocks cover a page, and how many pages the blocks have.
pub use mos.Base.Bits.{pow_double, pow_pos, pow_le}
use mos.Base.{
  ℕ, ◌+◌, ◌^◌, ◌≤◌, ◌<◌, ◌≡◌, refl, ap, ◌∙◌, subst, true, ◌&&◌, List, [], ◌∷◌, ltb, leb, ◌==◌,
  if◌then◌else◌, arith, inl, inr, Bool-cases,
}
use mos.Phymm.{Page, Block, delete, is_listed}

-- 1 if the block of the order `o` at `i` covers the page `x`.
unfoldable pub inside : ℕ → ℕ → ℕ → ℕ
inside i o x = if leb i x && ltb x (i + 2 ^ o) then 1 else 0

unfoldable pub total : (ℕ → ℕ → ℕ) → List Block → ℕ
total w [] = 0
total w (b ∷ bs) = w b.idx b.order + total w bs

-- The number of blocks that cover the page `x`.
abbrev pub cover : List Block → ℕ → ℕ
cover bs x = total (λ i o. inside i o x) bs

-- The number of pages of the blocks.
abbrev pub size : List Block → ℕ
size bs = total (λ i o. 2 ^ o) bs

pub inside-split : (i k x : ℕ) → inside i (k + 1) x ≡ inside i k x + inside (i + 2 ^ k) k x
unfolding inside
inside-split i k x = rw pow_double (ground arith)

pub inside_le : (i o x : ℕ) → inside i o x ≤ 1
unfolding inside
inside_le i o x = ground arith

pub inside_yes : (i o x : ℕ) → i ≤ x → x < i + 2 ^ o → inside i o x ≡ 1
unfolding inside
inside_yes i o x h g = ground arith

pub inside_no : (i o x : ℕ) → inside i o x ≡ 0 → i ≤ x → i + 2 ^ o ≤ x
unfolding inside
inside_no i o x h g = ground arith

pub inside_below : (i o x : ℕ) → 1 ≤ inside i o x → (i ≤ x) × (x < i + 2 ^ o)
unfolding inside
inside_below i o x h = ground arith

pub inside_self : (i o : ℕ) → inside i o i ≡ 1
inside_self i o = let h = pow_pos o in inside_yes i o i (omega arith) (omega arith)

-- The first page of a free block has its order and no references.
abbrev pub Headed : (ℕ → Page) → List Block → Type 0
Headed pages [] = Unit {0}
Headed pages (b ∷ bs) =
    ((pages b.idx).order ≡ b.order) × ((pages b.idx).ref_count ≡ 0) × Headed pages bs

-- Taking the block of a listed page out takes one block out, of the order that its page has.
pub total-delete :
    (w : ℕ → ℕ → ℕ) (pages : ℕ → Page) (i : ℕ) (bs : List Block)
    → Headed pages bs
    → is_listed i bs ≡ true
    → total w bs ≡ w i (pages i).order + total w (delete i bs)
unfolding total delete is_listed
total-delete w pages i [] h l = absurd (cc)
total-delete w pages i (b ∷ bs) h l = elim (Bool-cases (b.idx == i)) [
  | inl e ↦
      let same : b.idx ≡ i = ground arith in
      let o : (pages i).order ≡ b.order = subst (λ (j : ℕ). (pages j).order ≡ b.order) same h.0 in
      rw (e, o, same) refl
  | inr ne ↦
      let rest = total-delete w pages i bs h.2 (ground arith) in rw (ne, rest, total) (omega arith)
]

pub Headed-delete :
    (pages : ℕ → Page) (i : ℕ) (bs : List Block) → Headed pages bs → Headed pages (delete i bs)
unfolding delete
Headed-delete pages i [] h = tt
Headed-delete pages i (b ∷ bs) h = elim (Bool-cases (b.idx == i)) [
  | inl e ↦ rw e h.2
  | inr ne ↦ rw ne (h.0, h.1, Headed-delete pages i bs h.2)
]

pub Headed-agree :
    (p q : ℕ → Page) (bs : List Block)
    → ((x : ℕ) → 1 ≤ cover bs x → q x ≡ p x)
    → Headed p bs
    → Headed q bs
unfolding total
Headed-agree p q [] same h = tt
Headed-agree p q (b ∷ bs) same h =
    let head = same b.idx (let e = inside_self b.idx b.order in omega arith) in
    (
      ap (λ (page : Page). page.order) head ∙ h.0,
      ap (λ (page : Page). page.ref_count) head ∙ h.1,
      Headed-agree p q bs (λ x c. same x (omega arith)) h.2,
    )
