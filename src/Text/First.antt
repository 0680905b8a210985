-- ===== src/Text/First.antt =====
-- `strstr` finds the first place where one string stands in the other, with its table and without.
use mos.Base.{
  ℕ, zero, suc, ◌+◌, ◌-◌, ◌≤◌, ◌<◌, ◌≡◌, sym, ◌∙◌, ap, subst, inl, inr, Bool, true, false, ltb,
  ◌==◌, if◌then◌else◌, arith, Bool-cases, ltb→lt, ◌^◌, ◌%◌, u32_mod, is_positive32, refl,
}
use mos.Text.Number.{Memory, store}
use mos.Text.Search.{advance, build_loop, search_loop, plain_loop, chr_loop, strchr, strstr}
use mos.Text.Border.{EndsAt, IsLongest, IsTable, last-EndsAt, advance-IsLongest}
use mos.Text.Plain.{Occurs, IsFirst, chr_loop-IsFirst, plain_loop-IsFirst}

module _ (Y : Memory) where
  build_loop-IsTable :
      (rounds i j : ℕ) (next : Memory)
      → IsTable Y next i
      → IsLongest Y Y 1 i j
      → IsTable Y (build_loop rounds i j next Y) (i + rounds)
  unfolding build_loop store
  build_loop-IsTable zero i j next table l =
      let e : i ≡ i + 0 = omega arith in subst (λ (b : ℕ). IsTable Y next b) e table
  build_loop-IsTable (suc rounds) i j next table l =
      let from = l.ends.from in
      let j' = advance next Y (Y i) j in
      let l' = advance-IsLongest Y Y 1 i i j next table (omega arith) l in
      let e : i + 1 + rounds ≡ i + suc rounds = omega arith in
      subst (λ (b : ℕ). IsTable Y (build_loop (suc rounds) i j next Y) b) e
        (build_loop-IsTable rounds (i + 1) j' (store i j' next)
          (λ k some_k inside. elim (Bool-cases (k == i + 1)) [
            | inl last ↦
                let k' : k ≡ i + 1 = ground arith in
                let at : k - 1 ≡ i = omega arith in
                let value : store i j' next i ≡ j' = ground arith in rw (at, value, k') l'
            | inr earlier ↦
                let other : store i j' next (k - 1) ≡ next (k - 1) = ground arith in
                rw other (table k some_k (ground arith))
          ])
          l')

  module _ (X : Memory) (n m : ℕ) (next : Memory) (table : IsTable Y next n) where
    search_loop-IsFirst :
        (rounds i j : ℕ)
        → i + rounds ≡ m
        → j < n
        → IsLongest Y X 0 i j
        → ((x : ℕ) → x + n ≤ i → ¬ Occurs X Y n x)
        → IsFirst X Y n m (search_loop rounds i j next n X Y)
    unfolding search_loop
    search_loop-IsFirst zero i j e short l none_yet = λ k h. none_yet k (omega arith)
    search_loop-IsFirst (suc rounds) i j e short l none_yet =
        let l' = advance-IsLongest Y X 0 i n j next table (omega arith) l in
        let j' = advance next Y (X i) j in
        let bound = at_most j' l'.ends in
        elim (Bool-cases (advance next Y (X i) j == n)) [
          | inl full ↦
              let same : advance next Y (X i) j ≡ n = ground arith in
              let ends = subst (λ (k : ℕ). EndsAt Y X 0 (i + 1) k) same l'.ends in
              let from = ends.from in
              rw (full, search_loop)
                (omega arith, (λ t h. sym (ends.chars t h)), (λ x h. none_yet x (omega arith)))
          | inr less ↦
              rw (less, search_loop)
                (search_loop-IsFirst rounds (i + 1) (advance next Y (X i) j) (omega arith)
                  (ground arith) l' (λ x h occurs. not_here x h occurs j' l'.longest bound less))
        ]
      where
        at_most : (k : ℕ) → EndsAt Y X 0 (i + 1) k → k ≤ j + 1
        at_most zero a = omega arith
        at_most (suc k) a =
            let (a', hit) = last-EndsAt Y X 0 i k a in let b = l.longest k a' in omega arith

        not_here :
            (x : ℕ)
            → x + n ≤ i + 1
            → Occurs X Y n x
            → (k : ℕ) → ((y : ℕ) → EndsAt Y X 0 (i + 1) y → y ≤ k)
            → k ≤ j + 1
            → (k == n) ≡ false
            → ⊥
        not_here x h occurs k longest bound less = elim (Bool-cases (x + n == i + 1)) [
          | inl here ↦
              let e : x + n ≡ i + 1 = ground arith in
              let full = longest n (record {
                from = omega arith;
                chars = λ t l.
                    let e' : x + t ≡ i + 1 - n + t = omega arith in sym (occurs t l) ∙ ap X e';
              }) in
              absurd (ground arith)
          | inr before ↦ none_yet x (ground arith) occurs
        ]

store-IsTable : (Y : Memory) → IsTable Y (store 0 0 (λ q. 0)) 1
unfolding store
store-IsTable Y j some_j inside =
    let e : j ≡ 1 = omega arith in
    rw e (record {
      ends = record { from = omega arith; chars = λ t h. absurd (omega arith) };
      longest = λ x a. let from = a.from in omega arith;
    })

-- Below 2^31 characters `strchr` looks at all of them.
strchr_small : (m : ℕ) (X : Memory) (c : ℕ) → 0 < m → m < 2 ^ 31 → strchr m X c ≡ chr_loop m 0 X c
unfolding strchr
strchr_small m X c some_there small =
    let len : m % u32_mod ≡ m = omega arith in
    let pos : is_positive32 m ≡ true = ground arith in rw (len, pos) refl

-- `strstr` in a string X of fewer than 2^31 characters, whether or not there is memory for its table, finds the first
-- place of X where the characters of Y stand, and fails only if they stand nowhere in X.
pub strstr-IsFirst :
    (granted : Bool) (m n : ℕ) (X Y : Memory)
    → m < 2 ^ 31
    → IsFirst X Y n m (strstr granted m n X Y)
unfolding strstr
strstr-IsFirst granted m n X Y small = elim (Bool-cases (n == 0)) [
  | inl nothing ↦
      rw (nothing, strstr)
        (ground arith, (λ t h. absurd (ground arith)), (λ x h. absurd (omega arith)))
  | inr more ↦ elim (Bool-cases (ltb m n)) [
    | inl long ↦
        let shorter = ltb→lt m n long in rw (more, long, strstr) (λ k h. absurd (omega arith))
    | inr room ↦ elim (Bool-cases (n == 1)) [
      | inl single ↦
          let e : n ≡ 1 = ground arith in
          let same = strchr_small m X (Y 0) (ground arith) small in
          rw (more, room, single, strstr, same, e)
            (chr_loop-IsFirst X Y m m 0 (omega arith) (λ x h. absurd (omega arith)))
      | inr several ↦ rw (more, room, several, strstr) (search granted more room)
    ]
  ]
]
  where
    search :
        (g : Bool)
        → (n == 0) ≡ false
        → ltb m n ≡ false
        → IsFirst X Y n m (
            if g
            then search_loop m 0 0 (build_loop (n - 1) 1 0 (store 0 0 (λ q. 0)) Y) n X Y
            else plain_loop (m - n + 1) 0 n X Y)
    search true more room =
        let all : 1 + (n - 1) ≡ n = ground arith in
        let start : IsLongest Y Y 1 1 0 = record {
          ends = record { from = omega arith; chars = λ t h. absurd (omega arith) };
          longest = λ x a. let from = a.from in omega arith;
        } in
        let next = build_loop (n - 1) 1 0 (store 0 0 (λ q. 0)) Y in
        let table = build_loop-IsTable Y (n - 1) 1 0 (store 0 0 (λ q. 0)) (store-IsTable Y) start in
        search_loop-IsFirst Y X n m next (subst (λ (b : ℕ). IsTable Y next b) all table) m 0 0
          (omega arith) (ground arith)
          (record {
            ends = record { from = omega arith; chars = λ t h. absurd (omega arith) };
            longest = λ x a. let from = a.from in omega arith;
          })
          (λ x h occurs. absurd (ground arith))
    search false more room =
        let e : m - n + n ≡ m = ground arith in
        subst (λ (k : ℕ). IsFirst X Y n k (plain_loop (m - n + 1) 0 n X Y)) e
          (plain_loop-IsFirst X Y n (m - n) (m - n + 1) 0 (omega arith)
            (λ x h. absurd (omega arith)))
