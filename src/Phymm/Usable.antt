-- ===== src/Phymm/Usable.antt =====
-- Which pages the memory map of the boot loader makes usable, by their bytes; and that the walk of
-- `phymm_init` adds exactly these.
use mos.Base.{
  ℕ, ◌+◌, ◌*◌, ◌/◌, ◌%◌, ◌^◌, ◌≤◌, ◌<◌, ◌≡◌, refl, Bool, ◌&&◌, List, [], ◌∷◌, ltb, leb, ◌==◌,
  if◌then◌else◌, arith, inl, inr, Bool-cases, u32_mod, Option, none, some, u64_mod,
}
use mos.Phymm.AddRange.{span}
use mos.Phymm.Init.{Entry, usable_range}

abbrev pub in_range : Option (ℕ × ℕ) → ℕ → ℕ
in_range none x = 0
in_range (some (start, end)) x = span start end x

-- The number of entries whose range holds the page `x`.
abbrev pub added : ℕ → ℕ → ℕ → List Entry → ℕ → ℕ
added limit first_page end_page [] x = 0
added limit first_page end_page (e ∷ es) x =
    in_range (usable_range limit first_page end_page e) x + added limit first_page end_page es x

-- The bytes of an entry, in a sum that does not wrap.
abbrev pub base : Entry → ℕ
base e = e.base_low + e.base_high * 2 ^ 32

abbrev pub stop : Entry → ℕ
stop e = base e + (e.length_low + e.length_high * 2 ^ 32)

-- An entry of RAM gives the page `x`, if that is managed: the page does not end before the entry
-- begins, and ends within the entry and below the limit of the addresses.
unfoldable pub gives : ℕ → ℕ → ℕ → Entry → ℕ → Bool
gives limit first_page end_page e x =
    e.kind == 1
    && leb first_page x
    && ltb x end_page
    && ltb (base e) ((x + 1) * 4096)
    && leb ((x + 1) * 4096) (stop e)
    && leb ((x + 1) * 4096) limit

-- The number of entries that give the page `x`.
abbrev pub usable : ℕ → ℕ → ℕ → List Entry → ℕ → ℕ
usable limit first_page end_page [] x = 0
usable limit first_page end_page (e ∷ es) x =
    (if gives limit first_page end_page e x then 1 else 0) + usable limit first_page end_page es x

-- Every entry of RAM ends below 2^64.
abbrev pub NoneWraps : List Entry → Type 0
NoneWraps [] = Unit {0}
NoneWraps (e ∷ es) = (e.kind ≡ 1 → stop e < u64_mod) × NoneWraps es

-- The pages between the bounds that `usable_range` makes of a region.
clamped-gives :
    (limit first_page end_page b t x : ℕ)
    → limit < 2 ^ 44
    → b ≤ t
    → let start = b / 4096 % u32_mod in
      let end = (if ltb limit t then limit else t) / 4096 % u32_mod in
      let start' = if ltb start first_page then first_page else start in
      let end' = if ltb end_page end then end_page else end in
      in_range
        (if leb limit b then none else if leb end' start' then none else some (start', end'))
        x
      ≡ (if leb first_page x
            && ltb x end_page
            && ltb b ((x + 1) * 4096)
            && leb ((x + 1) * 4096) t
            && leb ((x + 1) * 4096) limit
          then 1
          else 0)
unfolding span
clamped-gives limit first_page end_page b t x small order = elim (Bool-cases (leb limit b)) [
  | inl above ↦ rw above (ground arith)
  | inr inside ↦
      let start : b / 4096 % u32_mod ≡ b / 4096 = ground arith in
      let top = if ltb limit t then limit else t in
      let end : top / 4096 % u32_mod ≡ top / 4096 = ground arith in
      rw (inside, start, end) (ground arith)
]

in_range-gives :
    (limit first_page end_page : ℕ) (e : Entry) (x : ℕ)
    → limit < 2 ^ 44
    → (e.kind ≡ 1 → stop e < u64_mod)
    → in_range (usable_range limit first_page end_page e) x
      ≡ (if gives limit first_page end_page e x then 1 else 0)
unfolding usable_range gives span
in_range-gives limit first_page end_page e x small fits = elim (Bool-cases (e.kind == 1)) [
  | inr other ↦ rw (other, gives) refl
  | inl ram ↦
      let below = fits (ground arith) in
      let no_wrap : stop e % u64_mod ≡ stop e = omega arith in
      rw (ram, gives, no_wrap)
        (clamped-gives limit first_page end_page (base e) (stop e) x small (omega arith))
]

pub added-usable :
    (limit first_page end_page : ℕ) (es : List Entry) (x : ℕ)
    → limit < 2 ^ 44
    → NoneWraps es
    → added limit first_page end_page es x ≡ usable limit first_page end_page es x
added-usable limit first_page end_page [] x small fits = refl
added-usable limit first_page end_page (e ∷ es) x small fits = omega (
  arith,
  in_range-gives limit first_page end_page e x small fits.0,
  added-usable limit first_page end_page es x small fits.1,
)
