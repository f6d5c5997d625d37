-- ===== src/Scans.antt =====
-- Searches that share a scan, of src/raggio/store.py: `_scan_batched` with `_drain_scans`, and
-- `_scan_scoped` with `_drain_scoped`.
--
-- A waiter is a request that awaits its future. A drain is a task whose one await is the thread of a
-- search; between two awaits nothing interleaves. `Scan` is the state of either drain; of the scoped
-- drains it is that of one key of `_scoped_scans`. A future is a number.
pub mod Steps
mod Settling
mod Groups
mod Examples
pub mod Batched
pub mod Scoped
use raggio.Prelude.{
  ℕ, zero, suc, ◌+◌, ◌*◌, ◌/◌, ◌≡◌, ◌≢◌, Bool, true, false, Option, none, some, List, [], ◌∷◌, ◌++◌,
  map, min, max, ◌==◌, if◌then◌else◌, take, drop, length, keep,
}

pub data Future (R E : Type 0) : Type 0 where
  pending : Future R E
  resolved : R → Future R E
  failed : E → Future R E
  cancelled : Future R E

pub record Waiter (Q : Type 0) : Type 0 where
  pub query : Q
  pub depth : ℕ
  pub nprobe : Option ℕ
  pub fut : ℕ

pub record Scan (Q R E : Type 0) : Type 0 where
  pub queue : List (Waiter Q)
  -- What the drain's search in a thread is for.
  pub group : List (Waiter Q)
  pub in_thread : Bool
  -- The drain's task exists and is not done.
  pub running : Bool
  pub futures : ℕ → Future R E
  -- The number of the next future.
  pub next_fut : ℕ

module _ {R E : Type 0} where
  pub is_pending : Future R E → Bool
  is_pending pending = true
  is_pending _ = false

  -- `if not fut.done()`, and then the future is set.
  pub settle : ℕ → Future R E → (ℕ → Future R E) → ℕ → Future R E
  unfolding is_pending
  settle i v fs j = if i == j then (if is_pending (fs j) then v else fs j) else fs j

-- `p or self.index.nprobe`
pub probe_or : ℕ → Option ℕ → ℕ
probe_or default none = default
probe_or default (some p) = if p == 0 then default else p

-- `max(p or self.index.nprobe for ...)`
pub widest : {Q : Type 0} → ℕ → List (Waiter Q) → ℕ
unfolding probe_or
widest default [] = 0
widest default (w ∷ ws) = max (probe_or default w.nprobe) (widest default ws)

-- A group of one goes through `_search_allowed` (`solo`), a larger one through `_search_rescored` (`many`).
pub scoped_results :
    {Q R : Type 0} → (Q → ℕ → R) → (List Q → List ℕ → List R) → List (Waiter Q) → List R
scoped_results solo many (w ∷ []) = solo w.query w.depth ∷ []
scoped_results solo many ws = many (map (λ w. w.query) ws) (map (λ w. w.depth) ws)

module _ {Q R E : Type 0} where
  -- `for (_, _, fut), result in zip(group, results)`
  pub set_results : List (Waiter Q) → List R → (ℕ → Future R E) → ℕ → Future R E
  unfolding settle
  set_results (w ∷ ws) (r ∷ rs) fs = set_results ws rs (settle w.fut (resolved r) fs)
  set_results _ _ fs = fs

  -- One outcome for all of a group.
  pub set_all : Future R E → List (Waiter Q) → (ℕ → Future R E) → ℕ → Future R E
  unfolding settle
  set_all v [] fs = fs
  set_all v (w ∷ ws) fs = set_all v ws (settle w.fut v fs)

  -- `create_future()`
  pub create_future : Scan Q R E → Scan Q R E
  create_future s = record s {
    futures = λ j. if s.next_fut == j then pending else s.futures j;
    next_fut = s.next_fut + 1;
  }

  -- A caller is cancelled while it awaits its future.
  pub cancel_caller : ℕ → Scan Q R E → Scan Q R E
  unfolding settle
  cancel_caller i s = record s { futures = settle i cancelled s.futures }

  pub scan_batched : Q → ℕ → Option ℕ → Scan Q R E → Scan Q R E
  unfolding create_future
  scan_batched q n nprobe s = record (create_future s) {
    queue = s.queue ++ record { query = q; depth = n; nprobe = nprobe; fut = s.next_fut } ∷ [];
    running = true;
  }

  -- `_drain_scans` up to its await: the whole queue is one batch, or the loop ends.
  pub drain_scans_take : Scan Q R E → Scan Q R E
  drain_scans_take s = elim s.queue [
    | [] ↦ record s { running = false }
    | w ∷ ws ↦ record s { group = w ∷ ws; queue = []; in_thread = true }
  ]

  -- `_drain_scans` after its await, with the exception that the search raised, if any. `nprobe` is that of an
  -- index in shards, and `search` is `_search_rescored`.
  pub drain_scans_return :
      Option ℕ → (List Q → List ℕ → Option ℕ → List R) → Option E → Scan Q R E → Scan Q R E
  unfolding set_results set_all widest
  drain_scans_return index_nprobe search raised s =
      let probe : Option ℕ = elim index_nprobe [ none ↦ none | some d ↦ some (widest d s.group) ] in
      record s {
        group = [];
        in_thread = false;
        futures = elim raised [
          | none ↦
              set_results s.group
                (search (map (λ w. w.query) s.group) (map (λ w. w.depth) s.group) probe) s.futures
          | some e ↦ set_all (failed e) s.group s.futures
        ];
      }

  -- The key's queue is a new one unless its drain is running.
  pub scan_scoped : Q → ℕ → Option ℕ → Scan Q R E → Scan Q R E
  unfolding create_future
  scan_scoped q n nprobe s =
      let w : Waiter Q = record { query = q; depth = n; nprobe = nprobe; fut = s.next_fut } in
      record (create_future s) {
        queue = if s.running then s.queue ++ w ∷ [] else w ∷ [];
        running = true;
      }

  -- The next group with a waiter that is not done, and the queue behind it. At most `limit` waiters
  -- leave the queue at a time; the length of the queue is fuel enough.
  pub next_group : ℕ → ℕ → (ℕ → Future R E) → List (Waiter Q) → List (Waiter Q) × List (Waiter Q)
  unfolding is_pending
  next_group zero limit fs queue = ([], queue)
  next_group (suc fuel) limit fs [] = ([], [])
  next_group (suc fuel) limit fs (w ∷ ws) =
      elim (keep (λ (v : Waiter Q). is_pending (fs v.fut)) (take limit (w ∷ ws))) [
        | [] ↦ next_group fuel limit fs (drop limit (w ∷ ws))
        | v ∷ vs ↦ (v ∷ vs, drop limit (w ∷ ws))
      ]

  -- `_drain_scoped` up to its await, or to its end, where the key is removed.
  pub drain_scoped_take : ℕ → Scan Q R E → Scan Q R E
  unfolding next_group
  drain_scoped_take limit s =
      let next = next_group (length s.queue) limit s.futures s.queue in
      elim next.0 [
        | [] ↦ record s { queue = next.1; running = false }
        | w ∷ ws ↦ record s { group = w ∷ ws; queue = next.1; in_thread = true }
      ]

  -- `_drain_scoped` after its await.
  pub drain_scoped_return :
      (Q → ℕ → R) → (List Q → List ℕ → List R) → Option E → Scan Q R E → Scan Q R E
  unfolding set_results set_all scoped_results
  drain_scoped_return solo many raised s = record s {
    group = [];
    in_thread = false;
    futures = elim raised [
      | none ↦ set_results s.group (scoped_results solo many s.group) s.futures
      | some e ↦ set_all (failed e) s.group s.futures
    ];
  }

  -- The drain's task is cancelled during its search.
  pub drain_scoped_cancelled : Scan Q R E → Scan Q R E
  unfolding set_all
  drain_scoped_cancelled s = record s {
    queue = [];
    group = [];
    in_thread = false;
    running = false;
    futures = set_all cancelled (s.group ++ s.queue) s.futures;
  }

-- A drain, by its steps.
pub record Drain (Q R E : Type 0) : Type 0 where
  pub arrive : Q → ℕ → Option ℕ → Scan Q R E → Scan Q R E
  pub take_group : Scan Q R E → Scan Q R E
  pub return_group : Option E → Scan Q R E → Scan Q R E
  -- What a cancellation of the task does, where the code handles one.
  pub cancel_task : Option (Scan Q R E → Scan Q R E)

module _ {Q R E : Type 0} where
  pub batched : Option ℕ → (List Q → List ℕ → Option ℕ → List R) → Drain Q R E
  unfolding scan_batched drain_scans_take drain_scans_return
  batched index_nprobe search = record {
    arrive = scan_batched;
    take_group = drain_scans_take;
    return_group = drain_scans_return index_nprobe search;
    cancel_task = none;
  }

  pub scoped : ℕ → (Q → ℕ → R) → (List Q → List ℕ → List R) → Drain Q R E
  unfolding scan_scoped drain_scoped_take drain_scoped_return drain_scoped_cancelled
  scoped limit solo many = record {
    arrive = scan_scoped;
    take_group = drain_scoped_take limit;
    return_group = drain_scoped_return solo many;
    cancel_task = some drain_scoped_cancelled;
  }

-- The drain's task alone, for so many turns, with what each search raises.
pub run : {Q R E : Type 0} → Drain Q R E → ℕ → (ℕ → Option E) → Scan Q R E → Scan Q R E
run d zero raised s = s
run d (suc fuel) raised s = elim s.in_thread [
  | true ↦ run d fuel raised (d.return_group (raised fuel) s)
  | false ↦ elim s.running [ true ↦ run d fuel raised (d.take_group s) | false ↦ s ]
]

-- `min(nprobe or self.index.nprobe, self.index.nlist)`, the probe of a key.
pub scoped_probe : ℕ → ℕ → Option ℕ → ℕ
unfolding probe_or
scoped_probe index_nprobe nlist nprobe = min (probe_or index_nprobe nprobe) nlist

abbrev pub scoped_scan_batch_rows : ℕ
scoped_scan_batch_rows = 16

abbrev pub scoped_scan_batch_bytes : ℕ
scoped_scan_batch_bytes = 16 * 1024 * 1024

-- How many waiters a group of `_drain_scoped` takes.
pub scoped_limit : ℕ → ℕ → ℕ
scoped_limit depth dim =
    max 1 (min scoped_scan_batch_rows (scoped_scan_batch_bytes / (depth * dim * 4)))
