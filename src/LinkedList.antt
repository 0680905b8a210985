-- ===== src/LinkedList.antt =====
-- src/lib/impl/list.c: circular lists with a head entry, over a store of the two links of every entry by its address.
pub mod Chain
pub mod Ring
pub mod Ends
pub mod Refine
mod Tests
use mos.Base.{ℕ, Bool, ◌==◌, put}

pub record Links : Type 0 where
  pub next : ℕ → ℕ
  pub prev : ℕ → ℕ

unfoldable pub list_init : ℕ → Links → Links
list_init head s = record s { next = put s.next head head; prev = put s.prev head head }

unfoldable pub list_is_empty : ℕ → Links → Bool
list_is_empty head s = s.prev head == head

-- With whether the list is empty then.
unfoldable pub list_remove_entry : ℕ → Links → Bool × Links
list_remove_entry entry s =
    let prev = s.prev entry in
    let next = s.next entry in
    (prev == next, record s { prev = put s.prev next prev; next = put s.next prev next })

unfoldable pub list_remove_tail : ℕ → Links → ℕ × Links
list_remove_tail head s =
    let entry = s.prev head in
    let prev = s.prev entry in
    (entry, record s { prev = put s.prev head prev; next = put s.next prev head })

unfoldable pub list_remove_head : ℕ → Links → ℕ × Links
list_remove_head head s =
    let entry = s.next head in
    let next = s.next entry in
    (entry, record s { next = put s.next head next; prev = put s.prev next head })

unfoldable pub list_insert_head : ℕ → ℕ → Links → Links
list_insert_head head entry s =
    let next = s.next head in
    record s {
      prev = put (put s.prev entry head) next entry;
      next = put (put s.next entry next) head entry;
    }

unfoldable pub list_insert_tail : ℕ → ℕ → Links → Links
list_insert_tail head entry s =
    let prev = s.prev head in
    record s {
      prev = put (put s.prev entry prev) head entry;
      next = put (put s.next entry head) prev entry;
    }
