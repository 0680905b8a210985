-- ===== src/LinkedList/Ends.antt =====
-- Removing an entry: the first, the last, and the last that is left.
use mos.Base.{
  ℕ, ◌≡◌, ◌≢◌, ◌≤◌, true, false, List, [], ◌∷◌, ◌==◌, arith, refl, inl, inr, Bool-cases, sym, ◌∙◌,
  put, delete, occurrences, occurrences-delete, is_empty, ==→≡, ==-self, subst,
}
use mos.LinkedList.{Links, list_is_empty, list_remove_entry, list_remove_tail, list_remove_head}
use mos.LinkedList.Chain.{Chain, next_in}
use mos.LinkedList.Ring.{IsRing, list_is_empty_lem, list_remove_entry-IsRing}

-- The last of a list with a first entry.
unfoldable pub last_of : ℕ → List ℕ → ℕ
last_of x [] = x
last_of x (y ∷ ys) = last_of y ys

prev-last_of :
    (s : Links) (a b x : ℕ) (xs : List ℕ) → Chain s a (x ∷ xs) b → s.prev b ≡ last_of x xs
unfolding last_of
prev-last_of s a b x [] (n, p, (m, q)) = q
prev-last_of s a b x (y ∷ ys) (n, p, c) = prev-last_of s x b y ys c

last_of_in : (x : ℕ) (xs : List ℕ) → 1 ≤ occurrences (last_of x xs) (x ∷ xs)
unfolding last_of occurrences
last_of_in x [] = ground arith
last_of_in x (y ∷ ys) = let rest = last_of_in y ys in ground arith

first_there : (x : ℕ) (xs : List ℕ) → 1 ≤ occurrences x (x ∷ xs)
unfolding occurrences
first_there x xs = ground arith

next_of_last :
    (s : Links) (a b x : ℕ) (xs : List ℕ) → Chain s a (x ∷ xs) b → s.next (last_of x xs) ≡ b
unfolding last_of
next_of_last s a b x [] (n, p, (m, q)) = m
next_of_last s a b x (y ∷ ys) (n, p, c) = next_of_last s x b y ys c

next_ne :
    (s : Links) (a b y : ℕ) (xs : List ℕ)
    → Chain s a xs b
    → 1 ≤ occurrences y xs
    → occurrences b xs ≡ 0
    → ((u : ℕ) → occurrences u xs ≤ 1)
    → s.next y ≢ y
unfolding occurrences
next_ne s a b y [] c l nb one = absurd (omega arith)
next_ne s a b y (x ∷ []) (n, p, (m, q)) l nb one = λ e. absurd (ground arith)
next_ne s a b y (x ∷ z ∷ zs) (n, p, c) l nb one = elim (Bool-cases (x == y)) [
  | inl h ↦
      let m = subst (λ (u : ℕ). s.next u ≡ z) (==→≡ x y h) c.0 in
      let o = one y in λ e. absurd (ground arith)
  | inr h ↦
      next_ne s x b y (z ∷ zs) c (ground arith) (ground arith) (λ u. let o = one u in omega arith)
]

none_there : (e : ℕ) → 1 ≤ occurrences e [] → 1 ≤ 0
unfolding occurrences
none_there e l = l

-- Whether the removal of an entry leaves an empty list.
pub removed_empty :
    (s : Links) (head e : ℕ) (xs : List ℕ)
    → IsRing s head xs
    → 1 ≤ occurrences e xs
    → (list_remove_entry e s).0 ≡ is_empty (delete e xs)
unfolding list_remove_entry list_is_empty is_empty
removed_empty s head e [] r l = let z = none_there e l in absurd (omega arith)
removed_empty s head e (x ∷ xs) r l =
    let q = list_remove_entry-IsRing s head e (x ∷ xs) r l in
    let z = list_is_empty_lem (list_remove_entry e s).1 head (delete e (x ∷ xs)) q in
    elim (Bool-cases (head == s.next e)) [
      | inl h ↦ same h ∙ z
      | inr h ↦
          let emp = list_is_empty_lem s head (x ∷ xs) r in
          let next_there : 1 ≤ occurrences (s.next e) (x ∷ xs) =
            elim (next_in s head head e (x ∷ xs) r.chain l) [
              | inl g ↦ absurd (ground arith)
              | inr g ↦ g
            ] in
          let other = next_ne s head head e (x ∷ xs) r.chain l r.apart r.once in
          let d = occurrences-delete (s.next e) e (x ∷ xs) in
          let loop =
            next_ne (list_remove_entry e s).1 head head (s.next e) (delete e (x ∷ xs)) q.chain
              (ground arith) q.apart q.once in
          let apart : (s.prev e == s.next e) ≡ false = elim (Bool-cases (s.prev e == s.next e)) [
            | inl g ↦ absurd (loop (ground arith))
            | inr g ↦ g
          ] in
          apart ∙ sym (sym z ∙ kept h ∙ emp)
    ]
  where
    same :
        (head == s.next e) ≡ true
        → (s.prev e == s.next e) ≡ (put s.prev (s.next e) (s.prev e) head == head)
    same h = ground arith

    kept :
        (head == s.next e) ≡ false
        → (put s.prev (s.next e) (s.prev e) head == head) ≡ (s.prev head == head)
    kept h = ground arith

-- What an operation returns, and the ring that it leaves.
pub record IsDone (head n : ℕ) (xs : List ℕ) (r : ℕ × Links) : Type 0 where
  pub result : r.0 ≡ n
  pub ring : IsRing r.1 head xs

pub remove_head-IsDone :
    (s : Links) (head x : ℕ) (xs : List ℕ)
    → IsRing s head (x ∷ xs)
    → IsDone head x xs (list_remove_head head s)
unfolding list_remove_head list_remove_entry delete
remove_head-IsDone s head x xs r =
    let (n, p, c) = r.chain in
    let q = list_remove_entry-IsRing s head x (x ∷ xs) r (first_there x xs) in
    let gone : delete x (x ∷ xs) ≡ xs = let h = ==-self x in rw h refl in
    let q' =
      subst
        (λ (v : ℕ).
          IsRing (record s { prev = put s.prev (s.next x) v; next = put s.next v (s.next x) }) head
            (delete x (x ∷ xs)))
        p q in
    record {
      result = n;
      ring = rw n (
          subst
            (λ (ys : List ℕ).
              IsRing
                (record s { prev = put s.prev (s.next x) head; next = put s.next head (s.next x) })
                head ys)
            gone q');
    }

pub remove_tail-IsDone :
    (s : Links) (head x : ℕ) (xs : List ℕ)
    → IsRing s head (x ∷ xs)
    → IsDone head (last_of x xs) (delete (last_of x xs) (x ∷ xs)) (list_remove_tail head s)
unfolding list_remove_tail list_remove_entry
remove_tail-IsDone s head x xs r =
    let e = prev-last_of s head head x xs r.chain in
    let m = next_of_last s head head x xs r.chain in
    let q = list_remove_entry-IsRing s head (last_of x xs) (x ∷ xs) r (last_of_in x xs) in
    let l = last_of x xs in
    let q' =
      subst
        (λ (v : ℕ).
          IsRing (record s { prev = put s.prev v (s.prev l); next = put s.next (s.prev l) v }) head
            (delete l (x ∷ xs)))
        m q in
    record { result = e; ring = rw e q' }
