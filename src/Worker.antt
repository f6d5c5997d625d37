-- ===== src/Worker.antt =====
-- The ingest worker: `_run_worker`, `_flush_unsynced` and `_sync_and_finish` of
-- src/raggio/store.py, over the journal.
--
-- `applied` and `synced` are the jobs whose writes the index in memory and the index file hold. What a
-- job's processing, `index.sync` or the clock do is chosen by the step. Requests enqueue between any
-- two steps. A crash, or a stop, ends the run at any point: the next one starts with the index file,
-- an empty batch and the cursor at 0.
pub mod Batch
pub mod Durable
pub mod Payloads
pub mod Stop
mod Examples
use raggio.Prelude.{
  ℕ, zero, suc, ◌+◌, ◌≤◌, String, ◌≡◌, ◌≢◌, Bool, true, false, ◌&&◌, ◌||◌, Option, none, some, List,
  [], ◌∷◌, ◌++◌, length, leb, if◌then◌else◌,
}
use raggio.Prelude.Result.{Result, ok}
use raggio.Journal.{
  Journal, Outcome, succeeded, failed, Claimed, decoded, bad_payload, enqueue_row, claim_next,
  finish_job,
}

-- (job_id, status, error) of a processed job that no sync covers yet.
pub record Entry : Type 0 where
  pub id : ℕ
  pub outcome : Outcome
  pub error_text : Option String

-- What the worker does once its batch is closed: claim again, or run the index job that waits.
pub data After : Type 0 where
  claim_again : After
  index_job : ℕ → After

pub data Pc (P : Type 0) : Type 0 where
  claiming : Pc P
  claimed : ℕ → Claimed P → Pc P
  syncing : After → Pc P
  finishing : After → Pc P
  indexing : ℕ → Pc P

pub record Worker (B T P : Type 0) : Type 0 where
  pub journal : Journal B T
  pub pc : Pc P
  pub after : ℕ
  pub unsynced : List Entry
  pub applied : List ℕ
  pub synced : List ℕ

-- Where the worker goes on.
pub continue_at : {P : Type 0} → After → Pc P
continue_at claim_again = claiming
continue_at (index_job id) = indexing id

module _ {B T P : Type 0} where
  -- `if self._unsynced: await self._flush_unsynced()`
  pub flush_then : After → Worker B T P → Worker B T P
  unfolding continue_at
  flush_then next w = elim w.unsynced [
    | [] ↦ record w { pc = continue_at next }
    | _ ↦ record w { pc = syncing next }
  ]

  pub take_claim : Option (ℕ × Claimed P) × Journal B T → Worker B T P → Worker B T P
  unfolding flush_then
  take_claim (none, j) w = flush_then claim_again (record w { journal = j })
  take_claim (some (id, c), j) w = record w { journal = j; after = id; pc = claimed id c }

module _ {B T P : Type 0} (decode : B → Option P) (loads : T → Option P) where
  pub claim : Worker B T P → Worker B T P
  unfolding take_claim
  claim w = take_claim (claim_next decode loads w.after w.journal) w

-- `payload.get("op") in ("attach_index", "detach_index")`
pub is_index_job : {P : Type 0} → (P → Bool) → Claimed P → Bool
is_index_job is_index_op (decoded p) = is_index_op p
is_index_job is_index_op bad_payload = false

module _ {B T P : Type 0} where
  pub joins_batch : ℕ → ℕ → Bool → Entry → List ℕ → Worker B T P → Worker B T P
  joins_batch limit id elapsed entry applied w =
      let batch = w.unsynced ++ entry ∷ [] in
      record w {
        unsynced = batch;
        applied = applied;
        pc = if leb limit (length batch) || elapsed then syncing claim_again else claiming;
      }

  -- An ingest job that was processed, with `sync=False`: its rows are in the index in memory.
  pub ingest_succeeds : ℕ → ℕ → Bool → Worker B T P → Worker B T P
  unfolding joins_batch
  ingest_succeeds limit id elapsed w =
      joins_batch limit id elapsed (record { id = id; outcome = succeeded; error_text = none })
        (id ∷ w.applied) w

  -- A job that raised joins the batch too.
  pub ingest_fails : ℕ → ℕ → Bool → String → Worker B T P → Worker B T P
  unfolding joins_batch
  ingest_fails limit id elapsed text w =
      joins_batch limit id elapsed (record { id = id; outcome = failed; error_text = some text })
        w.applied w

  -- The sync of a batch landed: the file holds what the memory holds.
  pub sync_lands : After → Worker B T P → Worker B T P
  sync_lands next w = record w { synced = w.applied; pc = finishing next }

  pub finish_entry : Entry → List Entry → Worker B T P → Worker B T P
  finish_entry e rest w = record w {
    unsynced = rest;
    journal = finish_job e.id e.outcome e.error_text w.journal;
  }

  -- An index job writes the new index itself and finishes at once.
  pub index_succeeds : ℕ → Worker B T P → Worker B T P
  index_succeeds id w = record w {
    applied = id ∷ w.applied;
    synced = id ∷ w.applied;
    journal = finish_job id succeeded none w.journal;
    pc = claiming;
  }

  pub index_fails : ℕ → String → Worker B T P → Worker B T P
  index_fails id text w = record w {
    journal = finish_job id failed (some text) w.journal;
    pc = claiming;
  }

  pub restart : Worker B T P → Worker B T P
  restart w = record w { pc = claiming; after = 0; unsynced = []; applied = w.synced }

module _ {B T P : Type 0} (decode : B → Option P) (loads : T → Option P) (is_index_op : P → Bool)
    (limit : ℕ) where
  pub data Step (w : Worker B T P) : Worker B T P → Type 0 where
    enqueued :
        (id : ℕ) (data_ : B) (j : Journal B T)
        → enqueue_row false true data_ w.journal ≡ ok (id, j)
        → Step w (record w { journal = j })
    claims : w.pc ≡ claiming → Step w (claim decode loads w)
    index_job_waits :
        (id : ℕ) (c : Claimed P)
        → w.pc ≡ claimed id c
        → is_index_job is_index_op c ≡ true
        → Step w (flush_then (index_job id) w)
    ingest_done :
        (id : ℕ) (p : P) (elapsed : Bool)
        → w.pc ≡ claimed id (decoded p)
        → is_index_op p ≡ false
        → Step w (ingest_succeeds limit id elapsed w)
    ingest_failed :
        (id : ℕ) (c : Claimed P) (elapsed : Bool) (text : String)
        → w.pc ≡ claimed id c
        → is_index_job is_index_op c ≡ false
        → Step w (ingest_fails limit id elapsed text w)
    sync_done : (next : After) → w.pc ≡ syncing next → Step w (sync_lands next w)
    sync_failed : (next : After) → w.pc ≡ syncing next → Step w w
    finishes :
        (next : After) (e : Entry) (rest : List Entry)
        → w.pc ≡ finishing next
        → w.unsynced ≡ e ∷ rest
        → Step w (finish_entry e rest w)
    batch_finished :
        (next : After)
        → w.pc ≡ finishing next
        → w.unsynced ≡ []
        → Step w (record w { pc = continue_at next })
    index_done : (id : ℕ) → w.pc ≡ indexing id → Step w (index_succeeds id w)
    index_failed : (id : ℕ) (text : String) → w.pc ≡ indexing id → Step w (index_fails id text w)
    -- A deletion, or an upsert at the cap on removals, writes the index between two steps.
    index_written : Step w (record w { synced = w.applied })
    -- `stop` cancels the worker wherever it waits and syncs and finishes in its place.
    stop_syncs : Step w (sync_lands claim_again w)
    crashed : Step w (restart w)

  -- A new collection, and what can come of it.
  pub data Reach : Worker B T P → Type 0 where
    here : Reach (record {
      journal = record { jobs = []; payloads = [] };
      pc = claiming;
      after = 0;
      unsynced = [];
      applied = [];
      synced = [];
    })
    next : {w w' : Worker B T P} → Reach w → Step w w' → Reach w'
