-- ===== src/Scans/Scoped.antt =====
-- `_scan_scoped` and `_drain_scoped`: whatever happens to a group, its waiters are answered.
use raggio.Prelude.{
  List-cases, ℕ, ◌+◌, ◌*◌, ◌<◌, ◌≡◌, ◌≢◌, refl, ◌∙◌, sym, subst, ◌⊎◌, true, false, Option, none,
  some, List, [], ◌∷◌, ◌++◌, length, arith, inl, inr, ◌||◌, ==_iff,
}
use mathlib.Core.Option.{some-injective}
use raggio.Prelude.Keys.{nat_eq, has-append}
use raggio.Scans.{
  Scan, Waiter, pending, failed, cancelled, scoped, run, scan_scoped, next_group, drain_scoped_take,
  drain_scoped_return, drain_scoped_cancelled, create_future, scoped_results, is_pending,
}
use raggio.Scans.Steps.{waits_in, IsAccounted, DrainLaws, Reach, run_settles}
use raggio.Scans.Settling.{
  set_results_pending, set_all_pending, length-queries, answered-IsAccounted,
}
use raggio.Scans.Groups.{next_group_waits, next_group_ends, next_group_done}

module _ {Q R E : Type 0} where
  abbrev next_of : ℕ → Scan Q R E → List (Waiter Q) × List (Waiter Q)
  next_of limit s = next_group (length s.queue) limit s.futures s.queue

  next_of_waits :
      (limit i : ℕ) (s : Scan Q R E)
      → s.futures i ≡ pending
      → (waits_in i (next_of limit s).1 || waits_in i (next_of limit s).0) ≡ waits_in i s.queue
  next_of_waits limit i s p = next_group_waits (length s.queue) limit i s.futures s.queue p

  next_of_shorter :
      (limit : ℕ) (s : Scan Q R E) {w : Waiter Q} {ws : List (Waiter Q)}
      → 0 < limit
      → (next_of limit s).0 ≡ w ∷ ws
      → length (next_of limit s).1 < length s.queue
  next_of_shorter limit s l e =
      elim (next_group_ends (length s.queue) limit s.futures s.queue l (omega arith)) [
        | inl (e', n) ↦ absurd (cc (e, e'))
        | inr lt ↦ lt
      ]

  take_some :
      (limit : ℕ) (s : Scan Q R E) {w : Waiter Q} {ws : List (Waiter Q)}
      → (next_of limit s).0 ≡ w ∷ ws
      → drain_scoped_take limit s
        ≡ record s { group = w ∷ ws; queue = (next_of limit s).1; in_thread = true }
  unfolding drain_scoped_take
  take_some limit s e = rw (e, drain_scoped_take)

  take_none :
      (limit : ℕ) (s : Scan Q R E)
      → (next_of limit s).0 ≡ []
      → drain_scoped_take limit s ≡ record s { queue = (next_of limit s).1; running = false }
  unfolding drain_scoped_take
  take_none limit s e = rw (e, drain_scoped_take)

  drain_scoped_take-IsAccounted :
      (limit : ℕ) (s : Scan Q R E)
      → 0 < limit
      → s.running ≡ true
      → s.in_thread ≡ false
      → IsAccounted s
      → IsAccounted (drain_scoped_take limit s)
  drain_scoped_take-IsAccounted limit s l r h a = elim (List-cases (next_of limit s).0) [
    | inl e ↦ subst IsAccounted (sym (take_none limit s e)) (record {
      waiting = λ i lt p. ground (arith, a.waiting i lt p, next_of_waits limit i s p, e);
      no_group = a.no_group;
      task_runs = λ t. absurd (cc (t, h));
      no_queue = λ t. next_group_done (length s.queue) limit s.futures s.queue l (omega arith) e;
    })
    | inr (w, ws, e) ↦ subst IsAccounted (sym (take_some limit s e)) (record {
      waiting =
          λ i lt p. ground (arith, a.waiting i lt p, a.no_group h, next_of_waits limit i s p, e);
      no_group = λ t. absurd (cc t);
      task_runs = λ t. r;
      no_queue = λ t. absurd (cc (t, r));
    })
  ]

  drain_scoped_take_ends :
      (limit : ℕ) (s : Scan Q R E)
      → 0 < limit
      → ((drain_scoped_take limit s).running ≡ false)
        ⊎ (((drain_scoped_take limit s).in_thread ≡ true)
            × (length (drain_scoped_take limit s).queue < length s.queue))
  drain_scoped_take_ends limit s l = elim (List-cases (next_of limit s).0) [
    | inl e ↦ inl (rw (take_none limit s e) refl)
    | inr (w, ws, e) ↦ inr (rw (take_some limit s e) (refl, next_of_shorter limit s l e))
  ]

  drain_scoped_take_keeps :
      (limit : ℕ) (s : Scan Q R E) → (drain_scoped_take limit s).next_fut ≡ s.next_fut
  drain_scoped_take_keeps limit s = elim (List-cases (next_of limit s).0) [
    | inl e ↦ rw (take_none limit s e) refl
    | inr (w, ws, e) ↦ rw (take_some limit s e) refl
  ]

  scan_scoped-IsAccounted :
      (q : Q) (n : ℕ) (nprobe : Option ℕ) (s : Scan Q R E)
      → IsAccounted s
      → IsAccounted (scan_scoped q n nprobe s)
  unfolding scan_scoped create_future
  scan_scoped-IsAccounted q n nprobe s a =
      let w : Waiter Q = record { query = q; depth = n; nprobe = nprobe; fut = s.next_fut } in
      record {
        waiting = λ i lt p. ground (
          arith,
          has-append (λ (v : Waiter Q). v.fut) i s.queue (w ∷ []),
          ==_iff s.next_fut i,
          a.waiting i,
          a.no_queue,
        );
        no_group = a.no_group;
        task_runs = λ e. refl;
        no_queue = λ e. absurd (cc e);
      }

  drain_scoped_cancelled-IsAccounted :
      (s : Scan Q R E) → IsAccounted s → IsAccounted (drain_scoped_cancelled s)
  unfolding drain_scoped_cancelled is_pending
  drain_scoped_cancelled-IsAccounted s a = record {
    waiting = λ i lt p.
        let (before, out) = set_all_pending i cancelled (s.group ++ s.queue) s.futures refl p in
        ground
          (arith, before, out, has-append (λ (v : Waiter Q). v.fut) i s.group s.queue, a.waiting i);
    no_group = λ e. refl;
    task_runs = λ e. absurd (cc e);
    no_queue = λ e. refl;
  }

module _ {Q R : Type 0} (solo : Q → ℕ → R) (many : List Q → List ℕ → List R)
    (one_each : (qs : List Q) (ns : List ℕ) → length (many qs ns) ≡ length ns) where
  results_length : (ws : List (Waiter Q)) → length (scoped_results solo many ws) ≡ length ws
  unfolding scoped_results
  results_length [] = one_each [] []
  results_length (w ∷ []) = refl
  results_length (w ∷ v ∷ ws) = one_each _ _ ∙ length-queries (λ u. u.depth) (w ∷ v ∷ ws)

module _ {Q R E : Type 0} (limit : ℕ) (solo : Q → ℕ → R) (many : List Q → List ℕ → List R)
    (limit_pos : 0 < limit)
    (one_each : (qs : List Q) (ns : List ℕ) → length (many qs ns) ≡ length ns) where
  drain_scoped_return-IsAccounted :
      (raised : Option E) (s : Scan Q R E)
      → IsAccounted s
      → IsAccounted (drain_scoped_return solo many raised s)
  unfolding drain_scoped_return is_pending
  drain_scoped_return-IsAccounted none s a =
      answered-IsAccounted s _
        (λ i p.
          set_results_pending i s.group _ s.futures (results_length solo many one_each s.group) p)
        a
  drain_scoped_return-IsAccounted (some e) s a =
      answered-IsAccounted s _ (λ i p. set_all_pending i (failed e) s.group s.futures refl p) a

  laws : DrainLaws {E = E} (scoped limit solo many)
  unfolding scoped drain_scoped_return
  laws = record {
    arrive-IsAccounted = scan_scoped-IsAccounted;
    take-IsAccounted = λ s r h a. drain_scoped_take-IsAccounted limit s limit_pos r h a;
    take_ends = λ s r h. drain_scoped_take_ends limit s limit_pos;
    take_keeps = drain_scoped_take_keeps limit;
    return-IsAccounted = drain_scoped_return-IsAccounted;
    return_keeps = λ raised s. (refl, refl, refl, refl);
    cancel-IsAccounted = λ f s e a.
        subst (λ g. IsAccounted (g s)) (some-injective _ _ e)
          (drain_scoped_cancelled-IsAccounted s a);
  }

  -- At any time the task of a key's scoped scans, left to run, ends, whatever its searches raise, and
  -- then every search that was queued has its answer, an exception or was given up. Assumes that a
  -- group takes at least one waiter and that a search gives a result for each query.
  pub drain_scoped_settles :
      {s : Scan Q R E}
      → Reach (scoped limit solo many) s
      → (raised : ℕ → Option E)
      → (let t = run (scoped limit solo many) (2 * length s.queue + 4) raised s in
          (t.running ≡ false) × ((i : ℕ) → i < s.next_fut → t.futures i ≢ pending))
  drain_scoped_settles r raised = run_settles (scoped limit solo many) laws r raised
