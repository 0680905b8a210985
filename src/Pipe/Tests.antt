-- ===== src/Pipe/Tests.antt =====
-- Runs of a pipe of one page.
use mos.Base.{
  ℕ, ◌≡◌, ◌≤◌, ◌<◌, refl, ◌⊎◌, List, [], ◌∷◌, true, false, arith, tabulate, length-tabulate, count,
  fails, eagain,
}
use mos.CycleBuf.{CycleBuf, create, page_size}
use mos.CycleBuf.Inv.{IsValid}
use mos.CycleBuf.Transfer.{create-IsValid}
use mos.Pipe.{End, rdonly, wronly, delivers, done, sigpipe, read, write, poll}
use mos.Pipe.Ends.{all_events, poll-read, poll-write}

abbrev page : List ℕ
page = tabulate page_size (λ k. 0)

abbrev ring : CycleBuf
ring = create page 1

ring-IsValid : IsValid ring
ring-IsValid =
    (create-IsValid page 1 (omega arith) (length-tabulate {0} {A = ℕ} page_size (λ k. 0))).0

abbrev read_end : End
read_end = record { mode = rdonly; uid = 0; gid = 0; nonblock = true }

abbrev write_end : End
write_end = record { mode = wronly; uid = 0; gid = 0; nonblock = true }

poll-read_example :
    let e = poll read_end all_events ring in
    ((e.readable ≡ true)
      × (x : ℕ) × (xs : List ℕ) × (b' : CycleBuf) × (read read_end ring 10 []
          ≡ (delivers (x ∷ xs), b')))
    ⊎ ((e.readable ≡ false) × (e.hup ≡ true) × (read read_end ring 10 [] ≡ (delivers [], ring)))
    ⊎ ((e.readable ≡ false)
        × (e.hup ≡ false)
        × (read read_end ring 10 [] ≡ (done (fails eagain), ring)))
poll-read_example = poll-read read_end ring 10 [] ring-IsValid refl refl (omega arith) (omega arith)

poll-write_example :
    let e = poll write_end all_events ring in
    let r = write true write_end ring (1 ∷ 2 ∷ []) [] in
    ((e.writable ≡ true) × (m : ℕ) × (0 < m) × (m ≤ 2) × (r.0 ≡ done (count m)))
    ⊎ ((e.writable ≡ false) × (e.err ≡ true) × (r ≡ (sigpipe, ring)))
    ⊎ ((e.writable ≡ false) × (e.err ≡ false) × (r.0 ≡ done (fails eagain)))
poll-write_example =
    poll-write true write_end ring 1 (2 ∷ []) [] ring-IsValid refl refl (omega arith)
