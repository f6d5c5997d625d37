-- ===== src/Worker/Payloads.antt =====
-- No job is lost: an open job keeps its payload, and a batch stays within its limit.
use raggio.Prelude.{
  ℕ, ◌+◌, ◌≤◌, ◌<◌, String, ◌≡◌, refl, Bool, true, false, ◌||◌, Option, none, some, List, [], ◌∷◌,
  ◌++◌, arith, sym, ap, subst, ==_iff, length, length-append, leb, All, All-append, All-map,
  map-All, if◌then◌else◌,
}
use raggio.Prelude.Keys.{nat_eq, has, key, has-append, has-remove}
use raggio.Prelude.Result.{ok}
use raggio.Journal.{
  Job, Journal, pending, Outcome, succeeded, failed, is_open, Claimed, max_job, lowest_open,
  mark_finished, mark_processing, finish_job, enqueue_row, claim_next, claim_found,
}
use raggio.Journal.Claims.{OpenAnd, lowest_open-OpenAnd}
use raggio.Worker.{
  Entry, After, claim_again, index_job, Pc, claiming, claimed, syncing, finishing, indexing, Worker,
  continue_at, flush_then, take_claim, claim, joins_batch, ingest_succeeds, ingest_fails,
  sync_lands, finish_entry, index_succeeds, index_fails, restart, Step, enqueued, claims,
  index_job_waits, ingest_done, ingest_failed, sync_done, sync_failed, finishes, batch_finished,
  index_done, index_failed, index_written, stop_syncs, crashed, Reach, here, next,
}

module _ {B T : Type 0} where
  -- Every open job has a row in `job_payloads`.
  abbrev pub Kept : Journal B T → Type 0
  Kept j = All (λ k. is_open k.status ≡ true → has key k.id j.payloads ≡ true) j.jobs

  Kept-enqueue :
      (b : B) (j : Journal B T) {id : ℕ} {j' : Journal B T}
      → enqueue_row false true b j ≡ ok (id, j')
      → Kept j
      → Kept j'
  unfolding enqueue_row
  Kept-enqueue b j {id} {j'} e h =
      let new = max_job j.jobs + 1 in
      let jobs : j'.jobs
          ≡ j.jobs
            ++ record { id = new; status = pending; error_text = none; payload = none } ∷ [] =
        cc e in
      let rows : j'.payloads ≡ j.payloads ++ (new, some b) ∷ [] = cc e in
      rw (jobs, rows)
        (All-append _ j.jobs _
          (All-map _ _ j.jobs
            (λ k g o. ground (arith, g o, has-append key k.id j.payloads ((new, some b) ∷ []))) h)
          (
            (λ o.
                ground (arith, has-append key new j.payloads ((new, some b) ∷ []), ==_iff new new)),
            tt,
          ))

  Kept-finish :
      (id : ℕ) (o : Outcome) (text : Option String) (j : Journal B T)
      → Kept j
      → Kept (finish_job id o text j)
  unfolding finish_job
  Kept-finish id succeeded text j h = map-All _ (mark_finished id succeeded text) j.jobs (
      All-map _ _ j.jobs
        (λ k g.
          unfold mark_finished in
          ground (arith, has-remove id k.id j.payloads, ==_iff k.id id, ==_iff id k.id))
        h)
  Kept-finish id failed text j h =
      map-All _ (mark_finished id failed text) j.jobs
        (All-map _ _ j.jobs (λ k g. unfold mark_finished in ground arith) h)

  Kept-claim_next :
      {P : Type 0} (decode : B → Option P) (loads : T → Option P) (n : ℕ) (j : Journal B T)
      → Kept j
      → Kept (claim_next decode loads n j).1
  unfolding claim_next claim_found
  Kept-claim_next decode loads n j h =
      found (lowest_open n j.jobs) (lowest_open-OpenAnd Good n j.jobs h)
    where
      Good : Job T → Type 0
      Good k = is_open k.status ≡ true → has key k.id j.payloads ≡ true

      found : (o : Option (Job T)) → OpenAnd Good n o → Kept (claim_found decode loads o j).1
      found none g = h
      found (some i) (g, o) = map-All Good (mark_processing i.id) j.jobs (
          All-map Good (λ k. Good (mark_processing i.id k)) j.jobs
            (λ k f. unfold mark_processing in ground (arith, ==_iff k.id i.id, g o)) h)

-- How long the batch may be where the worker stands.
abbrev Room : {P : Type 0} → ℕ → Pc P → ℕ → Type 0
Room limit claiming n = n < limit
Room limit (claimed id c) n = n < limit
Room limit (syncing a) n = n ≤ limit
Room limit (finishing a) n = n ≤ limit
Room limit (indexing id) n = n < limit

module _ {B T P : Type 0} (decode : B → Option P) (loads : T → Option P) (is_index_op : P → Bool)
    (limit : ℕ) (positive : 0 < limit) where
  record IsKept (w : Worker B T P) : Type 0 where
    kept : Kept w.journal
    bounded : Room limit w.pc (length w.unsynced)
    least : length w.unsynced ≤ limit

  continue_at-Room : (a : After) (n : ℕ) → n ≡ 0 → Room {P = P} limit (continue_at a) n
  unfolding continue_at
  continue_at-Room claim_again n e = omega arith
  continue_at-Room (index_job id) n e = omega arith

  flush_then-IsKept : (a : After) (w : Worker B T P) → IsKept w → IsKept (flush_then a w)
  unfolding flush_then
  flush_then-IsKept a w v = go w.unsynced refl
    where
      go :
          (es : List Entry)
          → w.unsynced ≡ es
          → IsKept
              (elim es [ [] ↦ record w { pc = continue_at a } | _ ↦ record w { pc = syncing a } ])
      go [] e = record {
        kept = v.kept;
        bounded = continue_at-Room a (length w.unsynced) (ap length e);
        least = v.least;
      }
      go (e ∷ es) _ = record { kept = v.kept; bounded = v.least; least = v.least }

  joins_batch-IsKept :
      (id : ℕ) (elapsed : Bool) (e : Entry) (ids : List ℕ) (w : Worker B T P)
      → length w.unsynced < limit
      → IsKept w
      → IsKept (joins_batch limit id elapsed e ids w)
  unfolding joins_batch
  joins_batch-IsKept id elapsed e ids w h v =
      let size = length-append {0} w.unsynced (e ∷ []) in
      record {
        kept = v.kept;
        bounded = go (leb limit (length (w.unsynced ++ e ∷ []))) refl elapsed;
        least = omega (arith, size);
      }
    where
      n : ℕ
      n = length (w.unsynced ++ e ∷ [])

      size : n ≡ length w.unsynced + 1
      size = omega (arith, length-append {0} w.unsynced (e ∷ []))

      go :
          (full : Bool)
          → leb limit n ≡ full
          → (late : Bool)
          → Room {P = P} limit (if full || late then syncing claim_again else claiming) n
      go true e true = omega (arith, size)
      go true e false = omega (arith, size)
      go false e true = omega (arith, size)
      go false e false = ground arith

  claim-IsKept : (w : Worker B T P) → w.pc ≡ claiming → IsKept w → IsKept (claim decode loads w)
  unfolding claim
  claim-IsKept w at v =
      go (claim_next decode loads w.after w.journal)
        (Kept-claim_next decode loads w.after w.journal v.kept)
    where
      go : (r : Option (ℕ × Claimed P) × Journal B T) → Kept r.1 → IsKept (take_claim r w)
      go (none, j) k =
          flush_then-IsKept claim_again (record w { journal = j })
            (record { kept = k; bounded = v.bounded; least = v.least })
      go (some (id, c), j) k = record {
        kept = k;
        bounded = subst (λ (pc : Pc P). Room limit pc (length w.unsynced)) at v.bounded;
        least = v.least;
      }

  Step-IsKept :
      {w w' : Worker B T P} → Step decode loads is_index_op limit w w' → IsKept w → IsKept w'
  unfolding ingest_succeeds ingest_fails sync_lands finish_entry index_succeeds index_fails restart
  Step-IsKept {w} (enqueued id b j e) v = record {
    kept = Kept-enqueue b w.journal e v.kept;
    bounded = v.bounded;
    least = v.least;
  }
  Step-IsKept {w} (claims h) v = claim-IsKept w h v
  Step-IsKept {w} (index_job_waits id c h i) v = flush_then-IsKept (index_job id) w v
  Step-IsKept {w} (ingest_done id p elapsed h i) v =
      joins_batch-IsKept id elapsed _ (id ∷ w.applied) w
        (subst (λ (pc : Pc P). Room limit pc (length w.unsynced)) h v.bounded) v
  Step-IsKept {w} (ingest_failed id c elapsed text h i) v =
      joins_batch-IsKept id elapsed _ w.applied w
        (subst (λ (pc : Pc P). Room limit pc (length w.unsynced)) h v.bounded) v
  Step-IsKept {w} (sync_done then_ h) v = record {
    kept = v.kept;
    bounded = v.least;
    least = v.least;
  }
  Step-IsKept (sync_failed then_ h) v = v
  Step-IsKept {w} (finishes then_ e rest h es) v =
      let shorter = ap (length {A = Entry}) es in
      record {
        kept = Kept-finish e.id e.outcome e.error_text w.journal v.kept;
        bounded =
            subst (λ (pc : Pc P). Room limit pc (length rest)) (sym h)
              (omega (arith, shorter, v.least));
        least = omega (arith, shorter, v.least);
      }
  Step-IsKept {w} (batch_finished then_ h es) v = record {
    kept = v.kept;
    bounded = continue_at-Room then_ (length w.unsynced) (ap length es);
    least = v.least;
  }
  Step-IsKept {w} (index_done id h) v = record {
    kept = Kept-finish id succeeded none w.journal v.kept;
    bounded = subst (λ (pc : Pc P). Room limit pc (length w.unsynced)) h v.bounded;
    least = v.least;
  }
  Step-IsKept {w} (index_failed id text h) v = record {
    kept = Kept-finish id failed (some text) w.journal v.kept;
    bounded = subst (λ (pc : Pc P). Room limit pc (length w.unsynced)) h v.bounded;
    least = v.least;
  }
  Step-IsKept {w} index_written v = record { kept = v.kept; bounded = v.bounded; least = v.least }
  Step-IsKept {w} stop_syncs v = record { kept = v.kept; bounded = v.least; least = v.least }
  Step-IsKept {w} crashed v = record { kept = v.kept; bounded = positive; least = omega arith }

  Reach-IsKept : {w : Worker B T P} → Reach decode loads is_index_op limit w → IsKept w
  Reach-IsKept here = record { kept = tt; bounded = positive; least = omega arith }
  Reach-IsKept (next r s) = Step-IsKept s (Reach-IsKept r)

  -- In every reachable state each open job still has its payload row, so a crash at any moment leaves
  -- the replay everything it needs; and the open batch never holds more jobs than its limit, which is at least one.
  pub open_jobs-Kept :
      {w : Worker B T P}
      → Reach decode loads is_index_op limit w
      → Kept w.journal × (length w.unsynced ≤ limit)
  open_jobs-Kept r = let v = Reach-IsKept r in (v.kept, v.least)
