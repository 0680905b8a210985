-- ===== src/Text/Tests.antt =====
-- Patterns and strings, as character codes.
use mos.Base.{
  ℕ, ◌≡◌, ◌==◌, ◌||◌, if◌then◌else◌, arith, refl, List, [], ◌∷◌, some, none, true, false, ◌⊎◌,
}
use mos.Text.Glob.{
  strglob, glob, glob_step, sign, skip_stars, try_each, match_class, class_loop, is_empty,
}
use mos.Text.Match.{Matches}
use mos.Text.Number.{Memory, store, itoa, atoi, text, null}
use mos.Text.Memory.{memmove, backward_loop, Moved, memmove-Moved}
use mos.Text.Search.{strstr, search_loop, build_loop, advance, fall_loop}
use mos.Text.First.{strstr-IsFirst}
use mos.Text.Plain.{IsFirst}
use mos.Text.RoundTrip.{itoa-atoi}
use mos.Text.Decide.{strglob_lem}

-- *.[a-ch]
abbrev sources : List ℕ
sources = 42 ∷ 46 ∷ 91 ∷ 97 ∷ 45 ∷ 99 ∷ 104 ∷ 93 ∷ []

-- a.b.c
abbrev name : List ℕ
name = 97 ∷ 46 ∷ 98 ∷ 46 ∷ 99 ∷ []

sources_match : strglob sources name ≡ some true
unfolding strglob glob glob_step sign skip_stars try_each match_class class_loop is_empty
sources_match = refl

strglob_example :
    ((strglob sources name ≡ some true) × Matches sources name)
    ⊎ ((strglob sources name ≡ some false) × (¬ Matches sources name))
strglob_example = strglob_lem sources name

abbrev garbage : Memory
garbage = λ q. 7

-- -1024 as an `int`.
itoa-atoi_example :
    (out : Memory) × (itoa (some 100) 4294966272 10 true garbage ≡ text 100 out)
    × (atoi 34 100 out ≡ some 4294966272)
itoa-atoi_example = itoa-atoi 100 4294966272 garbage (omega arith)

printed_first : itoa none 5 10 true garbage ≡ null
unfolding itoa
printed_first = refl

abbrev alphabet : Memory
alphabet = λ q. q

-- Eight characters two places up, over themselves.
memmove-Moved_example : Moved 102 100 8 alphabet (memmove 102 100 8 alphabet)
memmove-Moved_example = memmove-Moved 102 100 8 alphabet

overlap_run : memmove 102 100 8 alphabet 109 ≡ 107
unfolding memmove backward_loop store
overlap_run = refl

-- aabaabaac, which a table is needed for, in a string that nearly has it at 0.
abbrev needle : Memory
needle = λ q. if q == 2 || q == 5 then 98 else if q == 8 then 99 else 97

abbrev hay : Memory
hay = λ q. if q == 2 || q == 5 || q == 8 then 98 else if q == 11 then 99 else 97

found_at_three : strstr true 12 9 hay needle ≡ some 3
unfolding strstr search_loop build_loop advance fall_loop store
found_at_three = refl

strstr-IsFirst_example : IsFirst hay needle 9 12 (strstr true 12 9 hay needle)
strstr-IsFirst_example = strstr-IsFirst true 12 9 hay needle (omega arith)
