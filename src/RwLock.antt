-- ===== src/RwLock.antt =====
-- `_RWLock` of src/raggio/store.py: an asyncio readers-writer lock that prefers writers.
--
-- `Lock` has the three fields of the class. The tasks that use the lock are counted by where they
-- stand (`Tasks`): asleep in `self._cond.wait()`, woken and about to test again, or inside. Each
-- step is what one task does between two awaits, with the condition's own lock held.
pub mod Safety
mod Examples
use raggio.Prelude.{ℕ, ◌+◌, ◌-◌, ◌<◌, Bool, true, false, ◌||◌, ltb, ◌==◌, if◌then◌else◌}

pub record Lock : Type 0 where
  pub readers : ℕ
  pub writing : Bool
  pub writers_waiting : ℕ

abbrev pub init : Lock
init = record { readers = 0; writing = false; writers_waiting = 0 }

-- The test of the reader's `while`: a writer holds the lock or is queued.
pub must_wait_to_read : Lock → Bool
must_wait_to_read l = l.writing || ltb 0 l.writers_waiting

-- The test of the writer's `while`.
pub must_wait_to_write : Lock → Bool
must_wait_to_write l = l.writing || ltb 0 l.readers

pub read_enter : Lock → Lock
read_enter l = record l { readers = l.readers + 1 }

-- The lock after a reader leaves, and whether it notifies the sleepers.
pub read_exit : Lock → Lock × Bool
read_exit l = (record l { readers = l.readers - 1 }, l.readers - 1 == 0)

pub write_arrive : Lock → Lock
write_arrive l = record l { writers_waiting = l.writers_waiting + 1 }

-- The `finally` of the writer's wait, which runs on a cancel too; it always notifies.
pub write_leave_queue : Lock → Lock
write_leave_queue l = record l { writers_waiting = l.writers_waiting - 1 }

pub write_enter : Lock → Lock
write_enter l = record l { writing = true }

pub write_exit : Lock → Lock
write_exit l = record l { writing = false }

pub record Tasks : Type 0 where
  pub reading : ℕ
  pub read_asleep : ℕ
  pub read_woken : ℕ
  pub writing : ℕ
  pub write_asleep : ℕ
  pub write_woken : ℕ

abbrev pub no_tasks : Tasks
no_tasks = record {
  reading = 0;
  read_asleep = 0;
  read_woken = 0;
  writing = 0;
  write_asleep = 0;
  write_woken = 0;
}

-- `self._cond.notify_all()`
pub notify_all : Tasks → Tasks
notify_all t = record t {
  read_asleep = 0;
  read_woken = t.read_woken + t.read_asleep;
  write_asleep = 0;
  write_woken = t.write_woken + t.write_asleep;
}

-- The lock with the tasks that use it.
pub record World : Type 0 where
  pub lock : Lock
  pub tasks : Tasks

-- A reader runs its loop's test: it sleeps, or it is in.
pub read_test : World → World
unfolding must_wait_to_read read_enter
read_test w =
    let t = w.tasks in
    if must_wait_to_read w.lock
    then record w { tasks = record t { read_asleep = t.read_asleep + 1 } }
    else record { lock = read_enter w.lock; tasks = record t { reading = t.reading + 1 } }

pub read_done : World → World
unfolding read_exit notify_all
read_done w =
    let (l, wake) = read_exit w.lock in
    let t = record w.tasks { reading = w.tasks.reading - 1 } in
    record { lock = l; tasks = if wake then notify_all t else t }

pub write_arrives : World → World
unfolding write_arrive
write_arrives w = record w { lock = write_arrive w.lock }

-- A writer that is counted in `writers_waiting` runs its loop's test.
pub write_test : World → World
unfolding must_wait_to_write write_leave_queue write_enter notify_all
write_test w =
    let t = w.tasks in
    let t' = notify_all t in
    if must_wait_to_write w.lock
    then record w { tasks = record t { write_asleep = t.write_asleep + 1 } }
    else record {
      lock = write_enter (write_leave_queue w.lock);
      tasks = record t' { writing = t'.writing + 1 };
    }

pub write_cancelled : World → World
unfolding write_leave_queue notify_all
write_cancelled w = record { lock = write_leave_queue w.lock; tasks = notify_all w.tasks }

pub write_done : World → World
unfolding write_exit notify_all
write_done w = record {
  lock = write_exit w.lock;
  tasks = notify_all (record w.tasks { writing = w.tasks.writing - 1 });
}

-- A woken or sleeping task that goes on is no longer counted where it stood.
pub reader_awake : World → World
reader_awake w = record w { tasks = record w.tasks { read_woken = w.tasks.read_woken - 1 } }

pub reader_leaves : World → World
reader_leaves w = record w { tasks = record w.tasks { read_asleep = w.tasks.read_asleep - 1 } }

pub writer_awake : World → World
writer_awake w = record w { tasks = record w.tasks { write_woken = w.tasks.write_woken - 1 } }

pub writer_leaves : World → World
writer_leaves w = record w { tasks = record w.tasks { write_asleep = w.tasks.write_asleep - 1 } }

-- One step of some task. A `retry` is a woken sleeper that tests again; a cancel reaches a task that
-- sleeps or has just been woken.
pub data Step (w : World) : World → Type 0 where
  read : Step w (read_test w)
  read_retry : 0 < w.tasks.read_woken → Step w (read_test (reader_awake w))
  read_cancel_asleep : 0 < w.tasks.read_asleep → Step w (reader_leaves w)
  read_cancel_woken : 0 < w.tasks.read_woken → Step w (reader_awake w)
  read_end : 0 < w.tasks.reading → Step w (read_done w)
  write : Step w (write_test (write_arrives w))
  write_retry : 0 < w.tasks.write_woken → Step w (write_test (writer_awake w))
  write_cancel_asleep : 0 < w.tasks.write_asleep → Step w (write_cancelled (writer_leaves w))
  write_cancel_woken : 0 < w.tasks.write_woken → Step w (write_cancelled (writer_awake w))
  write_end : 0 < w.tasks.writing → Step w (write_done w)

abbrev pub start : World
start = record { lock = init; tasks = no_tasks }

pub data Reach : World → Type 0 where
  here : Reach start
  next : {w w' : World} → Reach w → Step w w' → Reach w'
