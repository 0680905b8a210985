-- ===== src/CycleBuf/Window.antt =====
-- How writes into the storage and moves of the read index change what a window shows.
use mos.Base.{
  ℕ, zero, suc, ◌+◌, ◌≤◌, ◌<◌, ◌≡◌, refl, ◌∙◌, ◌⊎◌, List, [], ◌∷◌, arith, length, get_or, set,
  length-set, get_or-set_self, get_or-set_ne,
}
use mos.CycleBuf.{blit}

pub length-blit : (buf : List ℕ) (off : ℕ) (xs : List ℕ) → length (blit buf off xs) ≡ length buf
unfolding blit
length-blit buf off [] = refl
length-blit buf off (x ∷ xs) = length-blit (set buf off x) (off + 1) xs ∙ length-set buf off x

-- What is outside the copied span stays.
pub get_or-blit_out :
    (buf : List ℕ) (off : ℕ) (xs : List ℕ) (i : ℕ)
    → (i < off) ⊎ (off + length xs ≤ i)
    → get_or (blit buf off xs) i 0 ≡ get_or buf i 0
unfolding blit
get_or-blit_out buf off [] i h = refl
get_or-blit_out buf off (x ∷ xs) i h =
    get_or-blit_out (set buf off x) (off + 1) xs i (omega arith)
    ∙ get_or-set_ne buf off i x 0 (omega arith)

-- What is inside is the source.
pub get_or-blit_in :
    (buf : List ℕ) (off : ℕ) (xs : List ℕ) (k : ℕ)
    → k < length xs
    → off + length xs ≤ length buf
    → get_or (blit buf off xs) (off + k) 0 ≡ get_or xs k 0
unfolding blit
get_or-blit_in buf off [] k h f = absurd (omega arith)
get_or-blit_in buf off (x ∷ xs) zero h f =
    let e : off + zero ≡ off = omega arith in
    rw e (
      get_or-blit_out (set buf off x) (off + 1) xs off (omega arith)
      ∙ get_or-set_self buf off x 0 (omega arith))
get_or-blit_in buf off (x ∷ xs) (suc k) h f =
    let e : off + suc k ≡ off + 1 + k = omega arith in
    rw e (
      get_or-blit_in (set buf off x) (off + 1) xs k (omega arith)
        (omega (arith, length-set buf off x)))
