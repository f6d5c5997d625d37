-- ===== src/Journal.antt =====
-- The job journal of a collection: the tables `jobs` and `job_payloads`, `_enqueue_row`, `_claim_next`,
-- `_finish_job` and `_vacuum_after_finish` of src/raggio/store.py.
--
-- `B` and `T` are the types of a binary and of a legacy text payload, `P` that of a decoded one. The
-- timestamps are left out. A transaction that SQLite refuses is the argument `commits`.
pub mod Claims
pub mod Vacuum
mod Examples
use raggio.Prelude.{
  ℕ, ◌+◌, ◌-◌, ◌≤◌, String, Bool, true, false, ◌&&◌, Option, none, some, List, [], ◌∷◌, ◌++◌, map,
  max, ltb, leb, ◌==◌, count, if◌then◌else◌,
}
use raggio.Prelude.Keys.{Eq, nat_eq, lookup, remove}
use raggio.Prelude.Result.{Result, ok, err}

pub data Status : Type 0 where
  pending processing done error : Status

-- What a job ends as.
pub data Outcome : Type 0 where
  succeeded failed : Outcome

abbrev pub status_of : Outcome → Status
status_of succeeded = done
status_of failed = error

pub record Job (T : Type 0) : Type 0 where
  pub id : ℕ
  pub status : Status
  pub error_text : Option String
  pub payload : Option T

pub record Journal (B T : Type 0) : Type 0 where
  pub jobs : List (Job T)
  pub payloads : List (ℕ × Option B)

abbrev pub is_open : Status → Bool
is_open pending = true
is_open processing = true
is_open done = false
is_open error = false

pub data EnqueueError : Type 0 where
  closed rolled_back : EnqueueError

-- A claimed job's payload, or the reason why it could not be decoded.
pub data Claimed (P : Type 0) : Type 0 where
  decoded : P → Claimed P
  bad_payload : Claimed P

module _ {T : Type 0} where
  -- `COALESCE(MAX(id),0)`
  pub max_job : List (Job T) → ℕ
  max_job [] = 0
  max_job (j ∷ js) = max j.id (max_job js)

  -- The lower id of a job that is due and the best of the others.
  pub prefer : ℕ → Job T → Option (Job T) → Option (Job T)
  prefer after j none = if is_open j.status && ltb after j.id then some j else none
  prefer after j (some k) =
      if is_open j.status && ltb after j.id && leb j.id k.id then some j else some k

  -- `WHERE status IN ('pending','processing') AND id > ? ORDER BY id LIMIT 1`
  pub lowest_open : ℕ → List (Job T) → Option (Job T)
  unfolding prefer
  lowest_open after [] = none
  lowest_open after (j ∷ js) = prefer after j (lowest_open after js)

  -- `UPDATE jobs SET status='processing' WHERE id=?`
  unfoldable pub mark_processing : ℕ → Job T → Job T
  mark_processing id j = if j.id == id then record j { status = processing } else j

  -- The CASE of the update clears a legacy payload on success.
  unfoldable pub mark_finished : ℕ → Outcome → Option String → Job T → Job T
  mark_finished id succeeded text j =
      if j.id == id then record j { status = done; error_text = text; payload = none } else j
  mark_finished id failed text j =
      if j.id == id then record j { status = error; error_text = text } else j

  pub open_jobs : List (Job T) → ℕ
  open_jobs js = count (λ j. is_open j.status) js

module _ {B T : Type 0} where
  unfoldable pub enqueue_row : Bool → Bool → B → Journal B T → Result EnqueueError (ℕ × Journal B T)
  unfolding max_job
  enqueue_row is_closed commits data_ j =
      let job_id = max_job j.jobs + 1 in
      if is_closed
      then err closed
      else if commits
      then ok (
        job_id,
        record {
          jobs =
              j.jobs
              ++ record { id = job_id; status = pending; error_text = none; payload = none } ∷ [];
          payloads = j.payloads ++ (job_id, some data_) ∷ [];
        },
      )
      else err rolled_back

  unfoldable pub finish_job : ℕ → Outcome → Option String → Journal B T → Journal B T
  unfolding mark_finished remove
  finish_job id succeeded text j = record {
    jobs = map (mark_finished id succeeded text) j.jobs;
    payloads = remove id j.payloads;
  }
  finish_job id failed text j = record j { jobs = map (mark_finished id failed text) j.jobs }

module _ {B T P : Type 0} (decode : B → Option P) (loads : T → Option P) where
  pub from_text : Option T → Claimed P
  from_text none = bad_payload
  from_text (some t) = elim (loads t) [ none ↦ bad_payload | some p ↦ decoded p ]

  -- The binary payload if there is one, else the text of an older journal.
  pub claimed_payload : Option (Option B) → Option T → Claimed P
  unfolding from_text
  claimed_payload (some (some b)) text = elim (decode b) [ none ↦ bad_payload | some p ↦ decoded p ]
  claimed_payload _ text = from_text text

  unfoldable pub claim_found : Option (Job T) → Journal B T → Option (ℕ × Claimed P) × Journal B T
  unfolding claimed_payload mark_processing lookup
  claim_found none j = (none, j)
  claim_found (some job) j = (
    some (job.id, claimed_payload (lookup job.id j.payloads) job.payload),
    record j { jobs = map (mark_processing job.id) j.jobs },
  )

  unfoldable pub claim_next : ℕ → Journal B T → Option (ℕ × Claimed P) × Journal B T
  unfolding claim_found lowest_open
  claim_next after j = claim_found (lowest_open after j.jobs) j

-- The limits of `_vacuum_after_finish`.
abbrev pub vacuum_freelist_pages : ℕ
vacuum_freelist_pages = 16384

abbrev pub vacuum_chunk_pages : ℕ
vacuum_chunk_pages = 2048

-- The free pages that are left: `incremental_vacuum(n)` returns up to n of them, and with no argument
-- all.
pub vacuum_after_finish : {T : Type 0} → List (Job T) → ℕ → ℕ
vacuum_after_finish jobs free =
    if open_jobs jobs == 0
    then 0
    else if leb vacuum_freelist_pages free
    then free - (free - vacuum_freelist_pages + vacuum_chunk_pages)
    else free
