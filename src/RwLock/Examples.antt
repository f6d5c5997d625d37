-- ===== src/RwLock/Examples.antt =====
-- A reader holds the lock of `_RWLock` and a writer waits (src/raggio/store.py).
use raggio.Prelude.{◌+◌, ◌<◌, ◌≡◌, ◌⊎◌, arith}
use raggio.RwLock.{
  World, read_test, write_arrives, write_test, start, Reach, here, next, read, write,
}
use raggio.RwLock.Safety.{mutual_exclusion, no_lost_wakeup}

abbrev crowded : World
crowded = write_test (write_arrives (read_test start))

crowded_reached : Reach crowded
crowded_reached = next (next here read) write

mutual_exclusion_example :
    (crowded.tasks.writing ≡ 0) ⊎ ((crowded.tasks.writing ≡ 1) × (crowded.tasks.reading ≡ 0))
mutual_exclusion_example = mutual_exclusion crowded_reached

one_asleep : 0 < crowded.tasks.read_asleep + crowded.tasks.write_asleep
unfolding write_test write_arrives read_test
one_asleep = omega arith

no_lost_wakeup_example :
    0 < crowded.tasks.reading + crowded.tasks.writing + crowded.tasks.write_woken
no_lost_wakeup_example = no_lost_wakeup crowded_reached one_asleep

writer_waits : 0 < crowded.tasks.write_asleep + crowded.tasks.write_woken
unfolding write_test write_arrives read_test
writer_waits = omega arith
