-- ===== src/LinkedList/Chain.antt =====
-- Entries linked one after the other.
use mos.Base.{
  ℕ, ◌+◌, ◌≡◌, ◌≢◌, ◌≤◌, List, [], ◌∷◌, ◌++◌, ◌==◌, if◌then◌else◌, arith, inl, inr, ◌⊎◌, Bool-cases,
  ◌∙◌, delete, occurrences, ==→≡, subst,
}
use mos.LinkedList.{Links, list_remove_entry, list_insert_tail}

-- From the entry `a` by the entries of the list to the entry `b`, both ways.
abbrev pub Chain : Links → ℕ → List ℕ → ℕ → Type 0
Chain s a [] b = (s.next a ≡ b) × (s.prev b ≡ a)
Chain s a (x ∷ xs) b = (s.next a ≡ x) × (s.prev x ≡ a) × Chain s x xs b

-- Links that agree where the chain uses them.
pub Chain-kept :
    (s t : Links) (a b : ℕ) (xs : List ℕ)
    → t.next a ≡ s.next a
    → t.prev b ≡ s.prev b
    → ((u : ℕ) → 1 ≤ occurrences u xs → (t.next u ≡ s.next u) × (t.prev u ≡ s.prev u))
    → Chain s a xs b
    → Chain t a xs b
unfolding occurrences
Chain-kept s t a b [] n p same (e, f) = (n ∙ e, p ∙ f)
Chain-kept s t a b (x ∷ xs) n p same (e, f, c) =
    let (nx, px) = same x (ground arith) in
    (n ∙ e, px ∙ f, Chain-kept s t x b xs nx p (λ u l. same u (ground arith)) c)

-- The neighbours of an entry.
pub prev_in :
    (s : Links) (a b e : ℕ) (xs : List ℕ)
    → Chain s a xs b
    → 1 ≤ occurrences e xs
    → (s.prev e ≡ a) ⊎ (1 ≤ occurrences (s.prev e) xs)
unfolding occurrences
prev_in s a b e [] c l = absurd (omega arith)
prev_in s a b e (x ∷ xs) (n, p, c) l = elim (Bool-cases (x == e)) [
  | inl h ↦ inl (subst (λ (u : ℕ). s.prev u ≡ a) (==→≡ x e h) p)
  | inr h ↦ elim (prev_in s x b e xs c (ground arith)) [
    | inl g ↦ inr (ground arith)
    | inr g ↦ inr (ground arith)
  ]
]

pub next_in :
    (s : Links) (a b e : ℕ) (xs : List ℕ)
    → Chain s a xs b
    → 1 ≤ occurrences e xs
    → (s.next e ≡ b) ⊎ (1 ≤ occurrences (s.next e) xs)
unfolding occurrences
next_in s a b e [] c l = absurd (omega arith)
next_in s a b e (x ∷ xs) (n, p, c) l = elim (Bool-cases (x == e)) [
  | inl h ↦ first xs c (==→≡ x e h)
  | inr h ↦ elim (next_in s x b e xs c (ground arith)) [
    | inl g ↦ inl g
    | inr g ↦ inr (ground arith)
  ]
]
  where
    first :
        (ys : List ℕ)
        → Chain s x ys b
        → x ≡ e
        → (s.next e ≡ b) ⊎ (1 ≤ (if x == s.next e then 1 else 0) + occurrences (s.next e) ys)
    first [] (m, q) g = inl (subst (λ (u : ℕ). s.next u ≡ b) g m)
    first (y ∷ ys) (m, q, d) g = let k = subst (λ (u : ℕ). s.next u ≡ y) g m in inr (ground arith)

-- The last entry.
pub last_in :
    (s : Links) (a b x : ℕ) (xs : List ℕ)
    → Chain s a (x ∷ xs) b
    → 1 ≤ occurrences (s.prev b) (x ∷ xs)
unfolding occurrences
last_in s a b x [] (n, p, (m, q)) = ground arith
last_in s a b x (y ∷ ys) (n, p, c) = let rest = last_in s x b y ys c in ground arith

remove-first :
    (s : Links) (a b e : ℕ) (ys : List ℕ)
    → Chain s e ys b
    → s.prev e ≡ a
    → occurrences a ys ≡ 0
    → occurrences b ys ≡ 0
    → ((u : ℕ) → occurrences u ys ≤ 1)
    → Chain (list_remove_entry e s).1 a ys b
unfolding list_remove_entry occurrences
remove-first s a b e [] (m, q) p na nb one = (ground arith, ground arith)
remove-first s a b e (y ∷ ys) (m, q, c) p na nb one = (
  ground arith,
  ground arith,
  Chain-kept s (list_remove_entry e s).1 y b ys (ground arith) (ground arith)
      (λ u l.
        let o = one u in
        let ne : u ≢ y = λ g. absurd (ground arith) in
        let na' : u ≢ a = λ g. let z = no_a u l g in absurd (omega arith) in
        (ground arith, ground arith))
      c,
)
  where
    no_a : (u : ℕ) → 1 ≤ occurrences u ys → u ≡ a → 1 ≤ 0
    no_a u l g = let k = subst (λ (v : ℕ). 1 ≤ occurrences v ys) g l in ground arith

-- Taking an entry out of a chain.
pub remove-Chain :
    (s : Links) (a b e : ℕ) (xs : List ℕ)
    → Chain s a xs b
    → 1 ≤ occurrences e xs
    → occurrences a xs ≡ 0
    → occurrences b xs ≡ 0
    → ((u : ℕ) → occurrences u xs ≤ 1)
    → Chain (list_remove_entry e s).1 a (delete e xs) b
unfolding list_remove_entry occurrences delete
remove-Chain s a b e [] c l na nb one = absurd (omega arith)
remove-Chain s a b e (x ∷ xs) (n, p, c) l na nb one = elim (Bool-cases (x == e)) [
  | inl h ↦
      let g : x ≡ e = ==→≡ x e h in
      rw h (
        remove-first s a b e xs (subst (λ (u : ℕ). Chain s u xs b) g c)
          (subst (λ (u : ℕ). s.prev u ≡ a) g p) (ground arith) (ground arith)
          (λ u. let o = one u in omega arith))
  | inr h ↦
      let there : 1 ≤ occurrences e xs = ground arith in
      let pe = prev_in s x b e xs c there in
      let ne = next_in s x b e xs c there in
      let ox = one x in
      let rest =
        remove-Chain s x b e xs c there (ground arith) (ground arith)
          (λ u. let o = one u in omega arith) in
      rw h (ground arith, ground arith, rest)
]

-- Putting an entry at the end of a chain.
pub insert-Chain :
    (s : Links) (a b e : ℕ) (xs : List ℕ)
    → Chain s a xs b
    → e ≢ a
    → e ≢ b
    → occurrences e xs ≡ 0
    → occurrences a xs ≡ 0
    → occurrences b xs ≡ 0
    → ((u : ℕ) → occurrences u xs ≤ 1)
    → Chain (list_insert_tail b e s) a (xs ++ (e ∷ [])) b
unfolding list_insert_tail occurrences
insert-Chain s a b e [] (n, p) ea eb ne na nb one =
    (ground arith, ground arith, (ground arith, ground arith))
insert-Chain s a b e (x ∷ xs) (n, p, c) ea eb ne na nb one =
    let last = last_in s a b x xs (n, p, c) in
    let ox = one x in
    let rest =
      insert-Chain s x b e xs c (λ g. absurd (ground arith)) eb (ground arith) (ground arith)
        (ground arith) (λ u. let o = one u in omega arith) in
    (ground arith, ground arith, rest)
