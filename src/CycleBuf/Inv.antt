-- ===== src/CycleBuf/Inv.antt =====
-- The representation invariant of `struct _cy_buf`, and the bytes that it holds.
use mos.Base.{ℕ, ◌+◌, ◌-◌, ◌^◌, ◌≤◌, ◌<◌, ◌≡◌, List, ltb, if◌then◌else◌, length, get_or, tabulate}
use mos.CycleBuf.{CycleBuf}

pub record IsValid (b : CycleBuf) : Type 0 where
  pub storage : length b.buf ≡ b.buf_size
  pub small : b.buf_size ≤ 2 ^ 31
  pub write_in : b.write_idx < b.buf_size
  pub read_in : b.read_idx < b.buf_size
  pub fits : b.len ≤ b.buf_size
  pub ends : b.write_idx ≡ (
      if ltb (b.read_idx + b.len) b.buf_size
      then b.read_idx + b.len
      else b.read_idx + b.len - b.buf_size)

-- The index `k` places after `h`.
abbrev pub at : ℕ → ℕ → ℕ → ℕ
at size h k = if ltb (h + k) size then h + k else h + k - size

abbrev pub window : List ℕ → ℕ → ℕ → ℕ → List ℕ
window buf size h n = tabulate n (λ k. get_or buf (at size h k) 0)

-- The bytes in the buffer, oldest first.
abbrev pub contents : CycleBuf → List ℕ
contents b = window b.buf b.buf_size b.read_idx b.len
