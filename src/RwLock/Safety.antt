-- ===== src/RwLock/Safety.antt =====
-- What every interleaving of readers and writers keeps, and that no sleeper is forgotten.
use raggio.Prelude.{◌⊎◌, ℕ, ◌+◌, ◌<◌, Bool, true, false, ◌≡◌, arith}
use raggio.RwLock.{
  World, start, read_test, read_done, write_arrives, write_test, write_cancelled, write_done,
  reader_awake, reader_leaves, writer_awake, writer_leaves, Step, read, read_retry,
  read_cancel_asleep, read_cancel_woken, read_end, write, write_retry, write_cancel_asleep,
  write_cancel_woken, write_end, Reach, here, next,
}

abbrev pub as_number : Bool → ℕ
as_number true = 1
as_number false = 0

-- The fields count the tasks, and whoever sleeps has somebody to wait for.
pub record IsValid (w : World) : Type 0 where
  pub counts_readers : w.lock.readers ≡ w.tasks.reading
  pub counts_writers : as_number w.lock.writing ≡ w.tasks.writing
  pub counts_queue : w.lock.writers_waiting ≡ w.tasks.write_asleep + w.tasks.write_woken
  pub exclusive : w.lock.writing ≡ true → w.lock.readers ≡ 0
  pub readers_wait : 0 < w.tasks.read_asleep → 0 < w.tasks.writing + w.lock.writers_waiting
  pub writers_wait : 0 < w.tasks.write_asleep → 0 < w.tasks.writing + w.tasks.reading

Step-IsValid : {w w' : World} → Step w w' → IsValid w → IsValid w'
unfolding read_test read_done write_arrives write_test write_cancelled write_done reader_awake
    reader_leaves writer_awake writer_leaves
Step-IsValid read v = ground arith
Step-IsValid (read_retry h) v = ground arith
Step-IsValid (read_cancel_asleep h) v = ground arith
Step-IsValid (read_cancel_woken h) v = ground arith
Step-IsValid (read_end h) v = ground arith
Step-IsValid write v = ground arith
Step-IsValid (write_retry h) v = ground arith
Step-IsValid (write_cancel_asleep h) v = ground arith
Step-IsValid (write_cancel_woken h) v = ground arith
Step-IsValid (write_end h) v = ground arith

start-IsValid : IsValid start
start-IsValid = ground arith

pub Reach-IsValid : {w : World} → Reach w → IsValid w
Reach-IsValid here = start-IsValid
Reach-IsValid (next r s) = Step-IsValid s (Reach-IsValid r)

-- In every reachable state at most one task writes, and while one does no task reads.
pub mutual_exclusion :
    {w : World} → Reach w → (w.tasks.writing ≡ 0) ⊎ ((w.tasks.writing ≡ 1) × (w.tasks.reading ≡ 0))
mutual_exclusion r = let v = Reach-IsValid r in ground arith

-- In every reachable state in which some task sleeps on the condition, another task holds the lock
-- or has been woken as a writer and will test again: no wakeup is lost, a cancelled writer's
-- included.
pub no_lost_wakeup :
    {w : World}
    → Reach w
    → 0 < w.tasks.read_asleep + w.tasks.write_asleep
    → 0 < w.tasks.reading + w.tasks.writing + w.tasks.write_woken
no_lost_wakeup r h = let v = Reach-IsValid r in ground arith

-- While a writer is queued, a reader that arrives goes to sleep: it joins the sleepers and not the
-- readers, and the lock stays as it is.
pub writer_preferred :
    {w : World}
    → Reach w
    → 0 < w.tasks.write_asleep + w.tasks.write_woken
    → ((read_test w).tasks.reading ≡ w.tasks.reading)
      × ((read_test w).tasks.read_asleep ≡ w.tasks.read_asleep + 1)
      × ((read_test w).lock ≡ w.lock)
unfolding read_test
writer_preferred r h = let v = Reach-IsValid r in ground arith
