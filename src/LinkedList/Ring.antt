-- ===== src/LinkedList/Ring.antt =====
-- Rings of linked entries, and that inserting and removing keep them.
use mos.Base.{
  ℕ, ◌≡◌, ◌≢◌, ◌≤◌, false, List, [], ◌∷◌, ◌++◌, ◌==◌, arith, refl, inl, inr, Bool-cases, delete,
  occurrences, occurrences-delete, occurrences-append, is_empty, ==→≡, subst,
}
use mos.LinkedList.{
  Links, list_init, list_is_empty, list_remove_entry, list_insert_head, list_insert_tail,
}
use mos.LinkedList.Chain.{Chain, Chain-kept, remove-Chain, insert-Chain, last_in}

-- The links of the head entry and of the entries of the list, each of which is there once.
pub record IsRing (s : Links) (head : ℕ) (xs : List ℕ) : Type 0 where
  pub chain : Chain s head xs head
  pub apart : occurrences head xs ≡ 0
  pub once : (u : ℕ) → occurrences u xs ≤ 1

pub list_init-IsRing : (head : ℕ) (s : Links) → IsRing (list_init head s) head []
unfolding list_init occurrences
list_init-IsRing head s = record {
  chain = (ground arith, ground arith);
  apart = refl;
  once = λ u. omega arith;
}

pub list_is_empty_lem :
    (s : Links) (head : ℕ) (xs : List ℕ) → IsRing s head xs → list_is_empty head s ≡ is_empty xs
unfolding list_is_empty is_empty occurrences
list_is_empty_lem s head [] r = let (n, p) = r.chain in ground arith
list_is_empty_lem s head (x ∷ xs) r =
    let last = last_in s head head x xs r.chain in
    let a = r.apart in
    let ne : s.prev head ≢ head =
      λ e. let z = subst (λ (u : ℕ). 1 ≤ occurrences u (x ∷ xs)) e last in absurd (omega arith) in
    ground arith

pub list_insert_tail-IsRing :
    (s : Links) (head e : ℕ) (xs : List ℕ)
    → IsRing s head xs
    → e ≢ head
    → occurrences e xs ≡ 0
    → IsRing (list_insert_tail head e s) head (xs ++ (e ∷ []))
unfolding occurrences
list_insert_tail-IsRing s head e xs r ne new = record {
  chain = insert-Chain s head head e xs r.chain ne ne new r.apart r.apart r.once;
  apart = let o = occurrences-append head xs (e ∷ []) in let a = r.apart in ground arith;
  once = λ u. let o = occurrences-append u xs (e ∷ []) in let a = r.once u in ground arith;
}

pub list_insert_head-IsRing :
    (s : Links) (head e : ℕ) (xs : List ℕ)
    → IsRing s head xs
    → e ≢ head
    → occurrences e xs ≡ 0
    → IsRing (list_insert_head head e s) head (e ∷ xs)
unfolding occurrences list_insert_head
list_insert_head-IsRing s head e [] r ne new =
    let (n, p) = r.chain in
    record {
      chain = (ground arith, ground arith, (ground arith, ground arith));
      apart = ground arith;
      once = λ u. ground arith;
    }
list_insert_head-IsRing s head e (y ∷ ys) r ne new =
    let (n, p, c) = r.chain in
    let a = r.apart in
    let oy = r.once y in
    record {
      chain = (
        ground arith,
        ground arith,
        (
          ground arith,
          ground arith,
          Chain-kept s (list_insert_head head e s) y head ys (ground arith) (ground arith)
              (λ u l.
                let ue : (u == e) ≡ false = other u e ys l (ground arith) in
                let uh : (u == head) ≡ false = other u head ys l (ground arith) in
                let uy : (u == y) ≡ false = other u y ys l (ground arith) in
                (ground arith, ground arith))
              c,
        ),
      );
      apart = ground arith;
      once = λ u. let o = r.once u in ground arith;
    }
  where
    other : (u v : ℕ) (zs : List ℕ) → 1 ≤ occurrences u zs → occurrences v zs ≡ 0 → (u == v) ≡ false
    other u v zs l z = elim (Bool-cases (u == v)) [
      | inl h ↦
          let k = subst (λ (w : ℕ). 1 ≤ occurrences w zs) (==→≡ u v h) l in absurd (omega arith)
      | inr h ↦ h
    ]

pub list_remove_entry-IsRing :
    (s : Links) (head e : ℕ) (xs : List ℕ)
    → IsRing s head xs
    → 1 ≤ occurrences e xs
    → IsRing (list_remove_entry e s).1 head (delete e xs)
list_remove_entry-IsRing s head e xs r l = record {
  chain = remove-Chain s head head e xs r.chain l r.apart r.apart r.once;
  apart = let o = occurrences-delete head e xs in let a = r.apart in ground arith;
  once = λ u. let o = occurrences-delete u e xs in let a = r.once u in ground arith;
}
