-- ===== src/LinkedList/Tests.antt =====
-- Runs of the circular lists.
use mos.Base.{◌≡◌, List, [], ◌∷◌, refl, delete, is_empty, occurrences}
use mos.LinkedList.{Links, list_init}
use mos.LinkedList.Ring.{IsRing}
use mos.LinkedList.Ends.{last_of}
use mos.LinkedList.Refine.{
  Operation, tests_empty, inserts_head, inserts_tail, removes, removes_head, removes_tail,
  perform_all, on_list, all_on_list, perform_all-IsRing,
}

abbrev some_operations : List Operation
some_operations =
    inserts_tail 5
    ∷ inserts_head 6
    ∷ inserts_tail 7
    ∷ removes 5
    ∷ removes_tail
    ∷ tests_empty
    ∷ removes_head
    ∷ tests_empty
    ∷ inserts_tail 9
    ∷ []

abbrev no_links : Links
no_links = record { next = λ a. 0; prev = λ a. 0 }

perform_all-IsRing_example :
    ((perform_all 1 some_operations (list_init 1 no_links)).0
      ≡ 0 ∷ 0 ∷ 0 ∷ 0 ∷ 7 ∷ 0 ∷ 6 ∷ 1 ∷ 0 ∷ [])
    × IsRing (perform_all 1 some_operations (list_init 1 no_links)).1 1 (9 ∷ [])
unfolding on_list all_on_list delete is_empty occurrences last_of
perform_all-IsRing_example =
    perform_all-IsRing 1 some_operations no_links (0 ∷ 0 ∷ 0 ∷ 0 ∷ 7 ∷ 0 ∷ 6 ∷ 1 ∷ 0 ∷ []) (9 ∷ [])
      refl
