-- ===== src/Journal/Vacuum.antt =====
-- The pages that `_vacuum_after_finish` leaves free, src/raggio/store.py.
use raggio.Prelude.{ℕ, ◌+◌, ◌≤◌, ◌<◌, ◌≡◌, ◌⊎◌, List, arith}
use raggio.Journal.{Job, open_jobs, vacuum_freelist_pages, vacuum_chunk_pages, vacuum_after_finish}

-- After a finish either no job is open and no free page is left; or jobs are open, the freelist was
-- below the limit and is not touched; or jobs are open, the freelist was at or above the limit and
-- is trimmed to exactly the limit less one chunk.
pub vacuum_bounds :
    {T : Type 0} (jobs : List (Job T)) (free : ℕ)
    → let left = vacuum_after_finish jobs free in
      ((open_jobs jobs ≡ 0) × (left ≡ 0))
      ⊎ ((0 < open_jobs jobs) × (free < vacuum_freelist_pages) × (left ≡ free))
      ⊎ ((0 < open_jobs jobs)
          × (vacuum_freelist_pages ≤ free)
          × (left + vacuum_chunk_pages ≡ vacuum_freelist_pages))
unfolding vacuum_after_finish
vacuum_bounds jobs free = ground arith
