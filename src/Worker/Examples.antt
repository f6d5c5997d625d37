-- ===== src/Worker/Examples.antt =====
-- A job is enqueued, claimed, processed, synced and finished.
use raggio.Prelude.{ℕ, ◌≤◌, refl, Bool, false, none, some, [], ◌∷◌, arith, length}
use raggio.Journal.{Journal, pending, succeeded, enqueue_row, claim_next}
use raggio.Worker.{
  Worker, claiming, claim_again, claim, ingest_succeeds, sync_lands, finish_entry, Reach, here,
  next, enqueued, claims, ingest_done, sync_done,
}
use raggio.Worker.{Entry}
use raggio.Worker.Payloads.{Kept, open_jobs-Kept}

abbrev one_job : Journal ℕ ℕ
one_job = record {
  jobs = record { id = 1; status = pending; error_text = none; payload = none } ∷ [];
  payloads = (1, some 7) ∷ [];
}

abbrev idle : Worker ℕ ℕ ℕ
idle = record {
  journal = one_job;
  pc = claiming;
  after = 0;
  unsynced = [];
  applied = [];
  synced = [];
}

abbrev is_index_op : ℕ → Bool
is_index_op p = false

-- With batches of one job.
abbrev synced_state : Worker ℕ ℕ ℕ
synced_state = sync_lands claim_again (ingest_succeeds 1 1 false (claim some some idle))

abbrev finished : Worker ℕ ℕ ℕ
finished = finish_entry (record { id = 1; outcome = succeeded; error_text = none }) [] synced_state

synced_reached : Reach {B = ℕ} {T = ℕ} {P = ℕ} some some is_index_op 1 synced_state
unfolding claim ingest_succeeds sync_lands enqueue_row claim_next
synced_reached =
    next
      (next (next (next here (enqueued 1 7 one_job refl)) (claims refl))
        (ingest_done 1 7 false refl refl))
      (sync_done claim_again refl)

open_jobs-Kept_example : Kept synced_state.journal × (length synced_state.unsynced ≤ 1)
open_jobs-Kept_example = open_jobs-Kept some some is_index_op 1 (omega arith) synced_reached

-- The stop comes after the sync and its finish raises.
abbrev no_commit : Entry → Bool
no_commit e = false
