-- ===== src/Scans/Batched.antt =====
-- `_scan_batched` and `_drain_scans`: whatever happens to a batch, its waiters are answered.
use raggio.Prelude.{
  List-cases, ℕ, ◌+◌, ◌*◌, ◌<◌, ◌≡◌, ◌≢◌, refl, ◌∙◌, sym, subst, ◌⊎◌, true, false, Option, none,
  some, List, [], ◌∷◌, length, arith, inl, inr, ==_iff,
}
use raggio.Prelude.Keys.{nat_eq, has-append}
use raggio.Scans.{
  Scan, Waiter, pending, failed, batched, run, scan_batched, drain_scans_take, drain_scans_return,
  create_future, is_pending,
}
use raggio.Scans.Steps.{IsAccounted, DrainLaws, Reach, run_settles}
use raggio.Scans.Settling.{
  set_results_pending, set_all_pending, length-queries, answered-IsAccounted,
}

module _ {Q R E : Type 0} (index_nprobe : Option ℕ) (search : List Q → List ℕ → Option ℕ → List R)
    (one_each : (qs : List Q) (ns : List ℕ) (p : Option ℕ)
      → length (search qs ns p) ≡ length ns) where
  scan_batched-IsAccounted :
      (q : Q) (n : ℕ) (nprobe : Option ℕ) (s : Scan Q R E)
      → IsAccounted s
      → IsAccounted (scan_batched q n nprobe s)
  unfolding scan_batched create_future
  scan_batched-IsAccounted q n nprobe s a =
      let w : Waiter Q = record { query = q; depth = n; nprobe = nprobe; fut = s.next_fut } in
      record {
        waiting = λ i lt p. ground (
          arith,
          has-append (λ (v : Waiter Q). v.fut) i s.queue (w ∷ []),
          ==_iff s.next_fut i,
          a.waiting i,
        );
        no_group = a.no_group;
        task_runs = λ e. refl;
        no_queue = λ e. absurd (cc e);
      }

  take_all :
      (s : Scan Q R E) {w : Waiter Q} {ws : List (Waiter Q)}
      → s.queue ≡ w ∷ ws
      → drain_scans_take s ≡ record s { group = w ∷ ws; queue = []; in_thread = true }
  unfolding drain_scans_take
  take_all s e = rw (e, drain_scans_take)

  take_none : (s : Scan Q R E) → s.queue ≡ [] → drain_scans_take s ≡ record s { running = false }
  unfolding drain_scans_take
  take_none s e = rw (e, drain_scans_take) (rw e refl)

  drain_scans_take-IsAccounted :
      (s : Scan Q R E)
      → s.running ≡ true
      → s.in_thread ≡ false
      → IsAccounted s
      → IsAccounted (drain_scans_take s)
  drain_scans_take-IsAccounted s r h a = elim (List-cases s.queue) [
    | inl e ↦ subst IsAccounted (sym (take_none s e)) (record {
      waiting = a.waiting;
      no_group = a.no_group;
      task_runs = λ t. absurd (cc (t, h));
      no_queue = λ t. e;
    })
    | inr (w, ws, e) ↦ subst IsAccounted (sym (take_all s e)) (record {
      waiting = λ i lt p. ground (arith, a.waiting i lt p, e, a.no_group h);
      no_group = λ t. absurd (cc t);
      task_runs = λ t. r;
      no_queue = λ t. refl;
    })
  ]

  drain_scans_take_ends :
      (s : Scan Q R E)
      → ((drain_scans_take s).running ≡ false)
        ⊎ (((drain_scans_take s).in_thread ≡ true)
            × (length (drain_scans_take s).queue < length s.queue))
  drain_scans_take_ends s = elim (List-cases s.queue) [
    | inl e ↦ inl (rw (take_none s e) refl)
    | inr (w, ws, e) ↦ inr (rw (take_all s e) (refl, rw e (omega arith)))
  ]

  drain_scans_take_keeps : (s : Scan Q R E) → (drain_scans_take s).next_fut ≡ s.next_fut
  drain_scans_take_keeps s = elim (List-cases s.queue) [
    | inl e ↦ rw (take_none s e) refl
    | inr (w, ws, e) ↦ rw (take_all s e) refl
  ]

  drain_scans_return-IsAccounted :
      (raised : Option E) (s : Scan Q R E)
      → IsAccounted s
      → IsAccounted (drain_scans_return index_nprobe search raised s)
  unfolding drain_scans_return is_pending
  drain_scans_return-IsAccounted none s a =
      answered-IsAccounted s _
        (λ i p.
          set_results_pending i s.group _ s.futures
            (one_each _ _ _ ∙ length-queries (λ w. w.depth) s.group) p)
        a
  drain_scans_return-IsAccounted (some e) s a =
      answered-IsAccounted s _ (λ i p. set_all_pending i (failed e) s.group s.futures refl p) a

  laws : DrainLaws {E = E} (batched index_nprobe search)
  unfolding batched drain_scans_take drain_scans_return
  laws = record {
    arrive-IsAccounted = scan_batched-IsAccounted;
    take-IsAccounted = drain_scans_take-IsAccounted;
    take_ends = λ s r h. drain_scans_take_ends s;
    take_keeps = drain_scans_take_keeps;
    return-IsAccounted = drain_scans_return-IsAccounted;
    return_keeps = λ raised s. (refl, refl, refl, refl);
    cancel-IsAccounted = λ f s e a. absurd (cc e);
  }

  -- At any time the task of the batched scans, left to run, ends, whatever its searches raise, and then
  -- every search that was queued has its answer, an exception or was given up. Assumes that a search
  -- gives a result for each query.
  pub drain_scans_settles :
      {s : Scan Q R E}
      → Reach (batched index_nprobe search) s
      → (raised : ℕ → Option E)
      → (let t = run (batched index_nprobe search) (2 * length s.queue + 4) raised s in
          (t.running ≡ false) × ((i : ℕ) → i < s.next_fut → t.futures i ≢ pending))
  drain_scans_settles r raised = run_settles (batched index_nprobe search) laws r raised
