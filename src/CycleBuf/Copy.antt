-- ===== src/CycleBuf/Copy.antt =====
-- `cyb_copy_in` and `cyb_copy_out`: two contiguous transfers are a queue's enqueue and dequeue.
use mos.Base.{
  ℕ, ◌+◌, ◌-◌, ◌%◌, ◌≤◌, ◌<◌, ◌≡◌, ap, ap₂, ◌∙◌, sym, ◌⊎◌, inl, inr, List, ◌++◌, ltb, if◌then◌else◌,
  arith, length, get_or, take, drop, tabulate_ext, tabulate-append, tabulate-get_or, length-take,
  length-drop, get_or-take, get_or-drop, Bool-cases, length-tabulate,
}
use mos.CycleBuf.{CycleBuf, blit, slice, first_span, copy_in, copy_out}
use mos.CycleBuf.Inv.{IsValid, at, window, contents}
use mos.CycleBuf.Window.{length-blit, get_or-blit_in, get_or-blit_out}

-- The storage after the two transfers of `copy_in`.
abbrev two_spans : List ℕ → ℕ → ℕ → List ℕ → List ℕ
two_spans buf size w xs =
    let first = first_span size w (length xs) in
    let head = blit buf w (take first xs) in
    if ltb first (length xs) then blit head 0 (drop first xs) else head

module _ (buf : List ℕ) (size w : ℕ) (xs : List ℕ) (held : length buf ≡ size)
    (small : size ≤ 2147483648) (inside : w < size) (fits : length xs ≤ size) where
  length-two_spans : length (two_spans buf size w xs) ≡ size
  length-two_spans = ground (
    arith,
    length-blit buf w (take (first_span size w (length xs)) xs),
    length-blit (blit buf w (take (first_span size w (length xs)) xs)) 0
        (drop (first_span size w (length xs)) xs),
  )

  two_spans_in :
      (k : ℕ) → k < length xs → get_or (two_spans buf size w xs) (at size w k) 0 ≡ get_or xs k 0
  two_spans_in k h = ground (
    arith,
    get_or-blit_out (blit buf w (take (first_span size w (length xs)) xs)) 0
        (drop (first_span size w (length xs)) xs) (w + k),
    get_or-blit_in buf w (take (first_span size w (length xs)) xs) k,
    length-take (first_span size w (length xs)) xs,
    length-drop (first_span size w (length xs)) xs,
    get_or-take (first_span size w (length xs)) k xs 0,
    get_or-drop (first_span size w (length xs)) (k - first_span size w (length xs)) xs 0,
    get_or-blit_in (blit buf w (take (first_span size w (length xs)) xs)) 0
        (drop (first_span size w (length xs)) xs) (k - first_span size w (length xs)),
    length-blit buf w (take (first_span size w (length xs)) xs),
  )

  two_spans_out :
      (h n k : ℕ)
      → h < size
      → k < n
      → n + length xs ≤ size
      → w ≡ at size h n
      → get_or (two_spans buf size w xs) (at size h k) 0 ≡ get_or buf (at size h k) 0
  two_spans_out h n k hh hk room e = ground (
    arith,
    get_or-blit_out (blit buf w (take (first_span size w (length xs)) xs)) 0
        (drop (first_span size w (length xs)) xs) (at size h k),
    get_or-blit_out buf w (take (first_span size w (length xs)) xs) (at size h k),
    length-take (first_span size w (length xs)) xs,
    length-drop (first_span size w (length xs)) xs,
  )

  window-two_spans :
      (h n : ℕ)
      → h < size
      → n + length xs ≤ size
      → w ≡ at size h n
      → window (two_spans buf size w xs) size h (n + length xs) ≡ window buf size h n ++ xs
  window-two_spans h n hh room e =
      tabulate-append n (length xs) (λ k. get_or (two_spans buf size w xs) (at size h k) 0)
      ∙ ap₂ ◌++◌
          (tabulate_ext n (λ k. get_or (two_spans buf size w xs) (at size h k) 0)
            (λ k. get_or buf (at size h k) 0) (λ k lt. two_spans_out h n k hh lt room e))
          (tabulate_ext (length xs) (λ k. get_or (two_spans buf size w xs) (at size h (n + k)) 0)
              (λ k. get_or xs k 0)
              (λ k lt.
                let e' : at size h (n + k) ≡ at size w k = ground arith in
                ap (λ i. get_or (two_spans buf size w xs) i 0) e' ∙ two_spans_in k lt)
            ∙ tabulate-get_or xs 0)

-- With room for the bytes, `cyb_copy_in` appends them to the contents and keeps the invariant.
pub copy_in_lem :
    {b : CycleBuf} (src : List ℕ)
    → IsValid b
    → b.len + length src ≤ b.buf_size
    → IsValid (copy_in b src)
      × (contents (copy_in b src) ≡ contents b ++ src)
      × ((copy_in b src).len ≡ b.len + length src)
unfolding copy_in
copy_in_lem {b} src v room = (
  record {
    storage = length-two_spans b.buf b.buf_size b.write_idx src v.storage v.small v.write_in bound;
    small = v.small;
    write_in = ground arith;
    read_in = v.read_in;
    fits = ground arith;
    ends = ground arith;
  },
  ap (window (two_spans b.buf b.buf_size b.write_idx src) b.buf_size b.read_idx) total
      ∙ window-two_spans b.buf b.buf_size b.write_idx src v.storage v.small v.write_in bound
          b.read_idx b.len v.read_in room v.ends,
  total,
)
  where
    bound : length src ≤ b.buf_size
    bound = omega arith

    total : (b.len + length src) % 4294967296 ≡ b.len + length src
    total = omega (arith, v.small)

-- A window splits where the read index moves to.
window-split :
    (buf : List ℕ) (size h n m : ℕ)
    → h < size
    → n + m ≤ size
    → (h' : ℕ) → (h' ≡ at size h n) ⊎ (m ≡ 0)
    → window buf size h (n + m) ≡ window buf size h n ++ window buf size h' m
window-split buf size h n m hh room h' e =
    tabulate-append n m (λ k. get_or buf (at size h k) 0)
    ∙ ap (λ l. window buf size h n ++ l)
        (tabulate_ext m (λ k. get_or buf (at size h (n + k)) 0) (λ k. get_or buf (at size h' k) 0)
          (λ k lt.
            let e' : at size h (n + k) ≡ at size h' k = ground arith in
            ap (λ i. get_or buf i 0) e'))

slice-window :
    (buf : List ℕ) (size h n : ℕ)
    → h < size
    → size ≤ 2147483648
    → n ≤ size
    → (if ltb (first_span size h n) n
        then slice buf h (first_span size h n) ++ slice buf 0 (n - first_span size h n)
        else slice buf h (first_span size h n))
      ≡ window buf size h n
slice-window buf size h n hh small fits = elim (Bool-cases (ltb (first_span size h n) n)) [
  | inl wraps ↦
      let e : n ≡ first_span size h n + (n - first_span size h n) = ground arith in
      rw wraps (
        sym (
          ap (window buf size h) e
          ∙ tabulate-append (first_span size h n) (n - first_span size h n)
              (λ k. get_or buf (at size h k) 0)
          ∙ ap₂ ◌++◌
              (tabulate_ext (first_span size h n) (λ k. get_or buf (at size h k) 0)
                (λ k. get_or buf (h + k) 0)
                (λ k lt.
                  let e' : at size h k ≡ h + k = ground arith in ap (λ i. get_or buf i 0) e'))
              (tabulate_ext (n - first_span size h n)
                (λ k. get_or buf (at size h (first_span size h n + k)) 0)
                (λ k. get_or buf (0 + k) 0)
                (λ k lt.
                  let e' : at size h (first_span size h n + k) ≡ 0 + k = ground arith in
                  ap (λ i. get_or buf i 0) e'))))
  | inr whole ↦
      let e : first_span size h n ≡ n = ground arith in
      rw whole (
        ap (slice buf h) e
        ∙ tabulate_ext n (λ k. get_or buf (h + k) 0) (λ k. get_or buf (at size h k) 0)
            (λ k lt. let e' : h + k ≡ at size h k = ground arith in ap (λ i. get_or buf i 0) e'))
]

-- Of at most as many bytes as are held, `cyb_copy_out` delivers the oldest ones, in order, leaves
-- the others, and keeps the invariant.
pub copy_out_lem :
    {b : CycleBuf} (n : ℕ)
    → IsValid b
    → n ≤ b.len
    → let (out, b') = copy_out b n in
      IsValid b' × (contents b ≡ out ++ contents b') × (length out ≡ n) × (b'.len ≡ b.len - n)
unfolding copy_out
copy_out_lem {b} n v room =
    let bytes = slice-window b.buf b.buf_size b.read_idx n v.read_in v.small bound in
    (
      record {
        storage = v.storage;
        small = v.small;
        write_in = v.write_in;
        read_in = ground arith;
        fits = ground arith;
        ends = ground arith;
      },
      ap (window b.buf b.buf_size b.read_idx) total
          ∙ window-split b.buf b.buf_size b.read_idx n left v.read_in whole _ (inl (ground arith))
          ∙ ap (λ l. l ++ contents (copy_out b n).1) (sym bytes),
      rw bytes (length-tabulate n (λ k. get_or b.buf (at b.buf_size b.read_idx k) 0)),
      ground arith,
    )
  where
    left : ℕ
    left = (b.len + 4294967296 - n) % 4294967296

    total : b.len ≡ n + left
    total = omega arith

    bound : n ≤ b.buf_size
    bound = omega arith

    whole : n + left ≤ b.buf_size
    whole = omega arith
