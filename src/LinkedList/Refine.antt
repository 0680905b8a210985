-- ===== src/LinkedList/Refine.antt =====
-- The operations act on the links as the same operations on a list.
use mos.Base.{
  Option-cases, ℕ, ◌≡◌, Bool, not, ◌&&◌, List, [], ◌∷◌, ◌++◌, ◌==◌, if◌then◌else◌, arith, refl, inl,
  inr, Bool-cases, sym, ap, ap₂, ◌∙◌, delete, occurrences, is_empty, subst, Option, none, some, ltb,
}
use mos.LinkedList.{
  Links, list_init, list_is_empty, list_remove_entry, list_remove_tail, list_remove_head,
  list_insert_head, list_insert_tail,
}
use mos.LinkedList.Ends.{last_of, removed_empty, IsDone, remove_head-IsDone, remove_tail-IsDone}
use mos.LinkedList.Ring.{
  IsRing, list_init-IsRing, list_is_empty_lem, list_insert_tail-IsRing, list_insert_head-IsRing,
  list_remove_entry-IsRing,
}

-- The operations, and what each does to a list and returns; nothing where it may not be called.
pub data Operation : Type 0 where
  tests_empty : Operation
  inserts_head : ℕ → Operation
  inserts_tail : ℕ → Operation
  removes : ℕ → Operation
  removes_head : Operation
  removes_tail : Operation

abbrev pub as_number : Bool → ℕ
as_number b = if b then 1 else 0

unfoldable pub perform : ℕ → Operation → Links → ℕ × Links
perform head tests_empty s = (as_number (list_is_empty head s), s)
perform head (inserts_head e) s = (0, list_insert_head head e s)
perform head (inserts_tail e) s = (0, list_insert_tail head e s)
perform head (removes e) s = (as_number (list_remove_entry e s).0, (list_remove_entry e s).1)
perform head removes_head s = list_remove_head head s
perform head removes_tail s = list_remove_tail head s

abbrev pub is_new : ℕ → ℕ → List ℕ → Bool
is_new head e xs = not (e == head) && (occurrences e xs == 0)

unfoldable pub on_list : ℕ → Operation → List ℕ → Option (ℕ × List ℕ)
on_list head tests_empty xs = some (as_number (is_empty xs), xs)
on_list head (inserts_head e) xs = if is_new head e xs then some (0, e ∷ xs) else none
on_list head (inserts_tail e) xs = if is_new head e xs then some (0, xs ++ (e ∷ [])) else none
on_list head (removes e) xs =
    if ltb 0 (occurrences e xs)
    then some (as_number (is_empty (delete e xs)), delete e xs)
    else none
on_list head removes_head [] = none
on_list head removes_head (x ∷ xs) = some (x, xs)
on_list head removes_tail [] = none
on_list head removes_tail (x ∷ xs) = some (last_of x xs, delete (last_of x xs) (x ∷ xs))

abbrev result_of : ℕ → List ℕ → Option (ℕ × List ℕ)
result_of n xs = some (n, xs)

done :
    {head : ℕ} (n : ℕ) (xs : List ℕ) (n' : ℕ) (xs' : List ℕ) (r : ℕ × Links)
    → result_of n xs ≡ result_of n' xs'
    → IsDone head n xs r
    → IsDone head n' xs' r
done {head = head} n xs n' xs' r e d =
    let f : n ≡ n' = ground arith in
    let g : xs ≡ xs' = ground arith in
    record { result = d.result ∙ f; ring = subst (λ (ys : List ℕ). IsRing r.1 head ys) g d.ring }

perform-IsDone :
    (head : ℕ) (op : Operation) (s : Links) (xs : List ℕ) (n : ℕ) (ys : List ℕ)
    → IsRing s head xs
    → on_list head op xs ≡ some (n, ys)
    → IsDone head n ys (perform head op s)
unfolding perform on_list
perform-IsDone head tests_empty s xs n ys r e =
    done (as_number (is_empty xs)) xs n ys _ (ground arith)
      (record { result = ap as_number (list_is_empty_lem s head xs r); ring = r })
perform-IsDone head (inserts_head x) s xs n ys r e = elim (Bool-cases (is_new head x xs)) [
  | inl h ↦ done 0 (x ∷ xs) n ys _ (ground arith) (record {
    result = refl;
    ring = list_insert_head-IsRing s head x xs r (λ g. absurd (ground arith)) (ground arith);
  })
  | inr h ↦ absurd (ground arith)
]
perform-IsDone head (inserts_tail x) s xs n ys r e = elim (Bool-cases (is_new head x xs)) [
  | inl h ↦ done 0 (xs ++ (x ∷ [])) n ys _ (ground arith) (record {
    result = refl;
    ring = list_insert_tail-IsRing s head x xs r (λ g. absurd (ground arith)) (ground arith);
  })
  | inr h ↦ absurd (ground arith)
]
perform-IsDone head (removes x) s xs n ys r e = elim (Bool-cases (ltb 0 (occurrences x xs))) [
  | inl h ↦ done (as_number (is_empty (delete x xs))) (delete x xs) n ys _ (ground arith) (record {
    result = ap as_number (removed_empty s head x xs r (ground arith));
    ring = list_remove_entry-IsRing s head x xs r (ground arith);
  })
  | inr h ↦ absurd (ground arith)
]
perform-IsDone head removes_head s [] n ys r e = absurd (ground arith)
perform-IsDone head removes_head s (x ∷ xs) n ys r e =
    done x xs n ys _ (ground arith) (remove_head-IsDone s head x xs r)
perform-IsDone head removes_tail s [] n ys r e = absurd (ground arith)
perform-IsDone head removes_tail s (x ∷ xs) n ys r e =
    done (last_of x xs) (delete (last_of x xs) (x ∷ xs)) n ys _ (ground arith)
      (remove_tail-IsDone s head x xs r)

abbrev pub pair_of : List ℕ → List ℕ → Option (List ℕ × List ℕ)
pair_of ns zs = some (ns, zs)

-- Operations one after the other, with what each returns.
unfoldable pub perform_all : ℕ → List Operation → Links → List ℕ × Links
perform_all head [] s = ([], s)
perform_all head (op ∷ ops) s =
    let rest = perform_all head ops (perform head op s).1 in
    ((perform head op s).0 ∷ rest.0, rest.1)

unfoldable pub all_on_list : ℕ → List Operation → List ℕ → Option (List ℕ × List ℕ)
all_on_list head [] xs = some ([], xs)
all_on_list head (op ∷ ops) xs = elim (on_list head op xs) [
  | none ↦ none
  | some (n, ys) ↦ elim (all_on_list head ops ys) [
    | none ↦ none
    | some (ns, zs) ↦ some (n ∷ ns, zs)
  ]
]

results :
    (head : ℕ) (ops : List Operation) (s : Links) (xs ns zs : List ℕ)
    → IsRing s head xs
    → all_on_list head ops xs ≡ pair_of ns zs
    → ((perform_all head ops s).0 ≡ ns) × IsRing (perform_all head ops s).1 head zs
unfolding perform_all all_on_list
results head [] s xs ns zs r e =
    let f : [] ≡ ns = ground arith in
    let g : xs ≡ zs = ground arith in (f, subst (IsRing s head) g r)
results head (op ∷ ops) s xs ns zs r e = elim (Option-cases (on_list head op xs)) [
  | inl h ↦
      let u : all_on_list head (op ∷ ops) xs ≡ none = rw (all_on_list, h) refl in
      let v = sym u ∙ e in absurd (ground arith)
  | inr ((n, ys), h) ↦ elim (Option-cases (all_on_list head ops ys)) [
    | inl k ↦
        let u : all_on_list head (op ∷ ops) xs ≡ none = rw (all_on_list, h, k) refl in
        let v = sym u ∙ e in absurd (ground arith)
    | inr ((ms, ws), k) ↦
        let d = perform-IsDone head op s xs n ys r h in
        let (a, b) = results head ops (perform head op s).1 ys ms ws d.ring k in
        let u : all_on_list head (op ∷ ops) xs ≡ pair_of (n ∷ ms) ws =
          rw (all_on_list, h, k) refl in
        let v = sym u ∙ e in
        let f : n ∷ ms ≡ ns = ground arith in
        let g : ws ≡ zs = ground arith in
        (
          ap₂ (λ (x : ℕ) (l : List ℕ). x ∷ l) d.result a ∙ f,
          subst (IsRing (perform_all head ops (perform head op s).1).1 head) g b,
        )
  ]
]

-- After `list_init`, any sequence of tests, insertions and removals that a list of the entries allows (what is inserted
-- is neither the head nor in the list, what is removed is in it, and the first or the last is taken only
-- of a list that is not empty) returns what it returns on that list, and the links end as a ring of the
-- entries that are left, in their order.
pub perform_all-IsRing :
    (head : ℕ) (ops : List Operation) (s : Links) (ns zs : List ℕ)
    → all_on_list head ops [] ≡ pair_of ns zs
    → ((perform_all head ops (list_init head s)).0 ≡ ns)
      × IsRing (perform_all head ops (list_init head s)).1 head zs
perform_all-IsRing head ops s ns zs e =
    results head ops (list_init head s) [] ns zs (list_init-IsRing head s) e
