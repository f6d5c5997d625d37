-- ===== src/Worker/Batch.antt =====
-- What the open batch and the journal keep in the single steps of the worker.
use raggio.Prelude.{
  ℕ, ◌+◌, String, ◌≡◌, refl, Bool, true, false, ◌||◌, Option, none, some, List, [], ◌∷◌, ◌++◌, map,
  arith, sym, subst, ==_iff, length, leb, All, All-append, All-map, map-All, if◌then◌else◌,
}
use raggio.Prelude.Keys.{nat_eq, has}
use raggio.Prelude.Result.{ok}
use raggio.Journal.{
  Job, Journal, done, Outcome, succeeded, failed, Claimed, mark_finished, mark_processing,
  finish_job, pending, max_job, lowest_open, enqueue_row, claim_next, claim_found,
}
use raggio.Worker.{
  Entry, After, claim_again, index_job, Pc, claiming, claimed, syncing, finishing, indexing, Worker,
  continue_at, flush_then, take_claim, claim, joins_batch,
}

abbrev pub self : ℕ → ℕ
self x = x

pub older : (y x : ℕ) (xs : List ℕ) → has self x xs ≡ true → has self x (y ∷ xs) ≡ true
older y x xs h = ground arith

pub newest : (x : ℕ) (xs : List ℕ) → has self x (x ∷ xs) ≡ true
newest x xs = ground (arith, ==_iff x x)

-- Every job of the batch that succeeded is in `ids`.
abbrev pub Covered : List ℕ → List Entry → Type 0
Covered ids es = All (λ e. e.outcome ≡ succeeded → has self e.id ids ≡ true) es

pub Covered-grows :
    (xs ys : List ℕ) (es : List Entry)
    → ((x : ℕ) → has self x xs ≡ true → has self x ys ≡ true)
    → Covered xs es
    → Covered ys es
Covered-grows xs ys es f h = All-map _ _ es (λ e g o. f e.id (g o)) h

module _ {B T : Type 0} where
  -- Every job that is done is in the index file.
  abbrev pub DoneIsSynced : List ℕ → Journal B T → Type 0
  DoneIsSynced synced j = All (λ k. k.status ≡ done → has self k.id synced ≡ true) j.jobs

  pub DoneIsSynced-grows :
      (xs ys : List ℕ) (j : Journal B T)
      → ((x : ℕ) → has self x xs ≡ true → has self x ys ≡ true)
      → DoneIsSynced xs j
      → DoneIsSynced ys j
  DoneIsSynced-grows xs ys j f h = All-map _ _ j.jobs (λ k g d. f k.id (g d)) h

  pub DoneIsSynced-finish :
      (xs : List ℕ) (id : ℕ) (o : Outcome) (text : Option String) (j : Journal B T)
      → (o ≡ succeeded → has self id xs ≡ true)
      → DoneIsSynced xs j
      → DoneIsSynced xs (finish_job id o text j)
  unfolding finish_job
  DoneIsSynced-finish xs id succeeded text j c h =
      map-All _ (mark_finished id succeeded text) j.jobs (
        All-map _ _ j.jobs (λ k g. unfold mark_finished in ground (arith, c refl, ==_iff k.id id))
          h)
  DoneIsSynced-finish xs id failed text j c h =
      map-All _ (mark_finished id failed text) j.jobs
        (All-map _ _ j.jobs (λ k g. unfold mark_finished in ground arith) h)

  DoneIsSynced-claim :
      (xs : List ℕ) (id : ℕ) (j : Journal B T)
      → DoneIsSynced xs j
      → DoneIsSynced xs (record j { jobs = map (mark_processing id) j.jobs })
  DoneIsSynced-claim xs id j h =
      let Good = λ (k : Job T). k.status ≡ done → has self k.id xs ≡ true in
      map-All Good (mark_processing id) j.jobs (
        All-map Good (λ k. Good (mark_processing id k)) j.jobs
          (λ k g. unfold mark_processing in ground arith) h)

  pub DoneIsSynced-enqueue :
      (xs : List ℕ) (b : B) (j : Journal B T) {id : ℕ} {j' : Journal B T}
      → enqueue_row false true b j ≡ ok (id, j')
      → DoneIsSynced xs j
      → DoneIsSynced xs j'
  unfolding enqueue_row
  DoneIsSynced-enqueue xs b j {id} {j'} e h =
      let same : j'.jobs
          ≡ j.jobs
            ++ record {
              id = max_job j.jobs + 1;
              status = pending;
              error_text = none;
              payload = none;
            }
              ∷ [] =
        cc e in
      rw same (All-append _ j.jobs _ h ((λ d. cc d), tt))

-- What covers the batch: the file once the sync has landed, the memory before.
abbrev pub covering_at : {P : Type 0} → Pc P → List ℕ → List ℕ → List ℕ
covering_at (finishing then_) synced applied = synced
covering_at claiming synced applied = applied
covering_at (claimed id c) synced applied = applied
covering_at (syncing then_) synced applied = applied
covering_at (indexing id) synced applied = applied

module _ {B T P : Type 0} where
  DoneIsSynced-claim_next :
      (decode : B → Option P) (loads : T → Option P) (xs : List ℕ) (n : ℕ) (j : Journal B T)
      → DoneIsSynced xs j
      → DoneIsSynced xs (claim_next decode loads n j).1
  unfolding claim_next claim_found
  DoneIsSynced-claim_next decode loads xs n j h = found (lowest_open n j.jobs)
    where
      found : (o : Option (Job T)) → DoneIsSynced xs (claim_found decode loads o j).1
      found none = h
      found (some k) = DoneIsSynced-claim xs k.id j h

  abbrev pub covering : Worker B T P → List ℕ
  covering w = covering_at w.pc w.synced w.applied

  pub record IsDurable (w : Worker B T P) : Type 0 where
    pub done_synced : DoneIsSynced w.synced w.journal
    pub covered : Covered (covering w) w.unsynced
    pub written : (x : ℕ) → has self x w.synced ≡ true → has self x w.applied ≡ true

  pub covering-applied : (w : Worker B T P) → IsDurable w → Covered w.applied w.unsynced
  covering-applied w v = applied w.pc v.covered
    where
      applied :
          (pc : Pc P)
          → Covered (covering_at pc w.synced w.applied) w.unsynced
          → Covered w.applied w.unsynced
      applied (finishing then_) h = Covered-grows w.synced w.applied w.unsynced v.written h
      applied claiming h = h
      applied (claimed id c) h = h
      applied (syncing then_) h = h
      applied (indexing id) h = h

  -- To move on changes nothing else.
  set_pc-IsDurable :
      (pc : Pc P) (w : Worker B T P)
      → covering (record w { pc = pc }) ≡ w.applied
      → IsDurable w
      → IsDurable (record w { pc = pc })
  set_pc-IsDurable pc w same v = record {
    done_synced = v.done_synced;
    covered = subst (λ ids. Covered ids w.unsynced) (sym same) (covering-applied w v);
    written = v.written;
  }

  pub continue_at-IsDurable :
      (a : After) (w : Worker B T P) → IsDurable w → IsDurable (record w { pc = continue_at a })
  unfolding continue_at
  continue_at-IsDurable claim_again w v = set_pc-IsDurable claiming w refl v
  continue_at-IsDurable (index_job id) w v = set_pc-IsDurable (indexing id) w refl v

  pub flush_then-IsDurable :
      (a : After) (w : Worker B T P) → IsDurable w → IsDurable (flush_then a w)
  unfolding flush_then
  flush_then-IsDurable a w v = go w.unsynced
    where
      go :
          (es : List Entry)
          → IsDurable
              (elim es [ [] ↦ record w { pc = continue_at a } | _ ↦ record w { pc = syncing a } ])
      go [] = continue_at-IsDurable a w v
      go (e ∷ es) = set_pc-IsDurable (syncing a) w refl v

  pub joins_batch-IsDurable :
      (limit id : ℕ) (elapsed : Bool) (e : Entry) (ids : List ℕ) (w : Worker B T P)
      → ((x : ℕ) → has self x w.applied ≡ true → has self x ids ≡ true)
      → (e.outcome ≡ succeeded → has self e.id ids ≡ true)
      → IsDurable w
      → IsDurable (joins_batch limit id elapsed e ids w)
  unfolding joins_batch
  joins_batch-IsDurable limit id elapsed e ids w grows c v = record {
    done_synced = v.done_synced;
    covered = go (leb limit (length (w.unsynced ++ e ∷ [])) || elapsed);
    written = λ x h. grows x (v.written x h);
  }
    where
      batch : Covered ids (w.unsynced ++ e ∷ [])
      batch =
          All-append _ w.unsynced (e ∷ [])
            (Covered-grows w.applied ids w.unsynced grows (covering-applied w v)) (c, tt)

      go :
          (full : Bool)
          → Covered
              (covering
                (record w { applied = ids; pc = if full then syncing claim_again else claiming }))
              (w.unsynced ++ e ∷ [])
      go true = batch
      go false = batch

  pub claim-IsDurable :
      (decode : B → Option P) (loads : T → Option P) (w : Worker B T P)
      → IsDurable w
      → IsDurable (claim decode loads w)
  unfolding claim
  claim-IsDurable decode loads w v =
      go (claim_next decode loads w.after w.journal)
        (DoneIsSynced-claim_next decode loads w.synced w.after w.journal v.done_synced)
    where
      go :
          (r : Option (ℕ × Claimed P) × Journal B T)
          → DoneIsSynced w.synced r.1
          → IsDurable (take_claim r w)
      go (none, j) d =
          flush_then-IsDurable claim_again (record w { journal = j })
            (record { done_synced = d; covered = v.covered; written = v.written })
      go (some (id, c), j) d = record {
        done_synced = d;
        covered = covering-applied w v;
        written = v.written;
      }
