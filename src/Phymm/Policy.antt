-- ===== src/Phymm/Policy.antt =====
-- `phymm_cache_budget`: how many pages each of the two caches may have. MOS_BLOCK_CACHE_MAX_PAGES is a
-- constant of the build, the argument `block_max`. The counts are `unsigned`, and the sums of them 64 bits wide.
use mos.Base.{ℕ, ◌+◌, ◌-◌, ◌≤◌, ◌≡◌, ltb, ◌==◌, if◌then◌else◌, arith, min, max}

-- `phymm_cache_policy`.
pub record CachePolicy : Type 0 where
  pub file_pages : ℕ
  pub block_pages : ℕ
  pub reserve_pages : ℕ

unfoldable pub cache_budget : ℕ → ℕ → ℕ → ℕ → ℕ → CachePolicy
cache_budget block_max total free file_cached block_cached =
    let sum = free + file_cached + block_cached in
    let available = if ltb total sum then total else sum in
    let file = if ltb block_cached available then available - block_cached else 0 in
    let block = if ltb file_cached available then available - file_cached else 0 in
    let file' = if file == 0 then 1 else file in
    let block' = if block == 0 then 1 else block in
    record {
      file_pages = file';
      block_pages = if ltb block_max block' then block_max else block';
      reserve_pages = 0;
    }

-- Each cache may have at least one page, and else the pages it has and the free ones, as far as these are
-- among the pages that the other cache leaves; the block cache has its own upper bound as well.
pub cache_budget-bounds :
    (block_max total free file_cached block_cached : ℕ)
    → 1 ≤ block_max
    → ((cache_budget block_max total free file_cached block_cached).file_pages
        ≡ max 1 (min (free + file_cached) (total - block_cached)))
      × ((cache_budget block_max total free file_cached block_cached).block_pages
          ≡ min block_max (max 1 (min (free + block_cached) (total - file_cached))))
unfolding cache_budget
cache_budget-bounds block_max total free file_cached block_cached h = (ground arith, ground arith)
