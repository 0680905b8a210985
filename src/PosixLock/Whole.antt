-- ===== src/PosixLock/Whole.antt =====
-- `fs_posix_lock` as a whole keeps the table in order, whatever its arguments, its errors and its waits.
use mos.Base.{
  enomem, eoverflow, einval, eagain, eintr, subst, ℕ, zero, suc, ◌≤◌, ◌≡◌, refl, inl, inr, Bool,
  true, false, ◌&&◌, not, Option, none, some, List, [], ◌∷◌, if◌then◌else◌, ltb, ◌==◌, ℤ, pos,
  negsuc, add_int64, in_int64, ◌+ℤ◌, arith, Option-cases, Errno,
}
use mos.PosixLock.{Kind, Key, Range, conflict, apply, int64_max}
use mos.PosixLock.Held.{IsDisjoint, IsExclusive}
use mos.PosixLock.Grant.{apply_lem, apply-IsExclusive}
use mos.PosixLock.Request.{
  Span, span, bad, by_length, request_span, Pause, Answer, refused, asleep, set_loop, Call, Command,
  getlk, setlk, setlkw, needs_memory, perform, posix_lock, early_error,
}

-- A span of bytes is not empty.
abbrev pub IsOrdered : Span → Type 0
IsOrdered (span start last) = start ≤ last
IsOrdered (bad e) = Unit {0}

by_length-IsOrdered :
    (start len : ℤ) → in_int64 start ≡ some start → IsOrdered (by_length start len)
unfolding by_length add_int64 ◌+ℤ◌
by_length-IsOrdered (pos s) (pos zero) r = ground arith
by_length-IsOrdered (negsuc s) (pos zero) r = tt
by_length-IsOrdered (pos s) (pos (suc n)) r = ground arith
by_length-IsOrdered (negsuc s) (pos (suc n)) r = ground arith
by_length-IsOrdered (pos zero) (negsuc n) r = tt
by_length-IsOrdered (pos (suc s)) (negsuc n) r = ground arith
by_length-IsOrdered (negsuc s) (negsuc n) r = tt

in_int64_idem : (a c : ℤ) → in_int64 a ≡ some c → in_int64 c ≡ some c
in_int64_idem (pos n) c e = ground arith
in_int64_idem (negsuc n) c e = ground arith

from_base : ℤ → ℤ → ℤ → Span
from_base base l_start l_len = elim (add_int64 base l_start) [
  | none ↦ bad eoverflow
  | some start ↦ by_length start l_len
]

from_base-IsOrdered : (base l_start l_len : ℤ) → IsOrdered (from_base base l_start l_len)
unfolding from_base add_int64
from_base-IsOrdered base l_start l_len = go (in_int64 (base +ℤ l_start)) refl
  where
    go :
        (o : Option ℤ)
        → in_int64 (base +ℤ l_start) ≡ o
        → IsOrdered (elim o [ none ↦ bad eoverflow | some start ↦ by_length start l_len ])
    go none e = tt
    go (some start) e = by_length-IsOrdered start l_len (in_int64_idem (base +ℤ l_start) start e)

request_span-IsOrdered :
    (whence : ℕ) (f_pos : ℤ) (i_size : ℕ) (l_start l_len : ℤ)
    → IsOrdered (request_span whence f_pos i_size l_start l_len)
unfolding request_span from_base
request_span-IsOrdered whence f_pos i_size l_start l_len =
    go (whence == 0) (whence == 1) (whence == 2) (ltb int64_max i_size)
  where
    go :
        (x y z w : Bool)
        → IsOrdered (
            if x
            then from_base (pos 0) l_start l_len
            else if y
            then from_base f_pos l_start l_len
            else if z
            then if w then bad eoverflow else from_base (pos i_size) l_start l_len
            else bad einval)
    go true y z w = from_base-IsOrdered (pos 0) l_start l_len
    go false true z w = from_base-IsOrdered f_pos l_start l_len
    go false false true true = tt
    go false false true false = from_base-IsOrdered (pos i_size) l_start l_len
    go false false false w = tt

-- The ranges of an owner do not overlap, and no owner holds for writing what another holds.
abbrev pub InOrder : List Range → Type 0
InOrder table = IsDisjoint table × IsExclusive table

abbrev Keeps : Answer × List Range → Type 0
Keeps r = InOrder r.1

-- Other tasks keep the table in order while the caller sleeps.
abbrev pub AllInOrder : List Pause → Type 0
AllInOrder [] = Unit {0}
AllInOrder (p ∷ ps) =
    ((table : List Range) → InOrder table → InOrder (p.others table)) × AllInOrder ps

module _ (q : Key) (dev : ℕ) (start last : ℕ) (ordered : start ≤ last) where
  unlocked-InOrder :
      (table : List Range) → InOrder table → InOrder (apply q dev none start last table)
  unlocked-InOrder table (d, x) = (
    (apply_lem q start last ordered dev none table d).0,
    apply-IsExclusive q dev none start last table ordered d (λ k e. absurd (cc)) x,
  )

  granted-InOrder :
      (kind : Kind) (table : List Range)
      → conflict q kind start last table ≡ none
      → InOrder table
      → InOrder (apply q dev (some kind) start last table)
  granted-InOrder kind table free (d, x) = (
    (apply_lem q start last ordered dev (some kind) table d).0,
    apply-IsExclusive q dev (some kind) start last table ordered d
        (λ k e. subst (λ (k' : Kind). conflict q k' start last table ≡ none) (same kind k e) free)
        x,
  )
    where
      same : (k k' : Kind) → some k ≡ some k' → k ≡ k'
      same k k' e = cc

  set_loop-InOrder :
      (kind : Kind) (wait : Bool) (ps : List Pause) (table : List Range)
      → AllInOrder ps
      → InOrder table
      → InOrder (set_loop q dev kind start last wait ps table).1
  unfolding set_loop
  set_loop-InOrder kind wait [] table o i = elim (Option-cases (conflict q kind start last table)) [
    | inl free ↦ rw (free, set_loop) (granted-InOrder kind table free i)
    | inr (r, taken) ↦ rw (taken, set_loop) (stays wait)
  ]
    where
      stays : (w : Bool) → Keeps (if w then (asleep, table) else (refused eagain, table))
      stays true = i
      stays false = i
  set_loop-InOrder kind wait (p ∷ ps) table o i =
      elim (Option-cases (conflict q kind start last table)) [
        | inl free ↦ rw (free, set_loop) (granted-InOrder kind table free i)
        | inr (r, taken) ↦
            rw (taken, set_loop)
              (waits wait p.signal_first p.signal_after
                (set_loop-InOrder kind wait ps (p.others table) o.1 (o.0 table i)))
      ]
    where
      waits :
          (x y z : Bool)
          → InOrder (set_loop q dev kind start last wait ps (p.others table)).1
          → Keeps (
              if not x
              then (refused eagain, table)
              else if y
              then (refused eintr, table)
              else if z
              then (refused eintr, p.others table)
              else set_loop q dev kind start last wait ps (p.others table))
      waits false y z later = i
      waits true true z later = i
      waits true false true later = o.0 table i
      waits true false false later = later

-- Whatever its arguments, `fs_posix_lock` leaves a table in order as long as other tasks do so while it
-- sleeps: granted, unlocked or refused, the ranges of an owner do not overlap, and no owner holds
-- for writing a byte that another holds.
pub posix_lock-InOrder :
    (c : Call) (ps : List Pause) (table : List Range)
    → AllInOrder ps
    → InOrder table
    → InOrder (posix_lock c ps table).1
unfolding posix_lock perform
posix_lock-InOrder c ps table o i = refuses _ (early_error c) (
    spans (request_span c.whence c.f_pos c.i_size c.l_start c.l_len)
      (request_span-IsOrdered c.whence c.f_pos c.i_size c.l_start c.l_len))
  where
    performs : (start last : ℕ) → start ≤ last → InOrder (perform c start last ps table).1
    performs start last ordered = go c.command c.request
      where
        go :
            (cmd : Command) (request : Option Kind)
            → InOrder
                (perform (record c { command = cmd; request = request }) start last ps table).1
        go getlk none = i
        go getlk (some kind) = i
        go setlk none = unlocked-InOrder c.key c.dev start last ordered table i
        go setlk (some kind) =
            set_loop-InOrder c.key c.dev start last ordered kind false ps table o i
        go setlkw none = unlocked-InOrder c.key c.dev start last ordered table i
        go setlkw (some kind) =
            set_loop-InOrder c.key c.dev start last ordered kind true ps table o i

    spans :
        (s : Span)
        → IsOrdered s
        → Keeps (elim s as (λ t. Answer × List Range) [
          | bad e ↦ (refused e, table)
          | span start last ↦
              if needs_memory c.command && not c.allocated
              then (refused enomem, table)
              else perform c start last ps table
        ])
    spans (bad e) h = i
    spans (span start last) h = allocates (needs_memory c.command && not c.allocated)
      where
        allocates :
            (x : Bool)
            → Keeps (if x then (refused enomem, table) else perform c start last ps table)
        allocates true = i
        allocates false = performs start last h

    refuses :
        (more : Answer × List Range) (e : Option Errno)
        → InOrder more.1
        → Keeps
            (elim e as (λ x. Answer × List Range) [ some e' ↦ (refused e', table) | none ↦ more ])
    refuses more none h = h
    refuses more (some e) h = i
