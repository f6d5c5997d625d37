-- ===== src/Scans/Steps.antt =====
-- A drain's steps among its callers', and what every drain of laws `DrainLaws` achieves.
use raggio.Prelude.{
  ℕ, zero, suc, ◌+◌, ◌*◌, if◌then◌else◌, ◌≡◌, ◌≢◌, ◌<◌, refl, ◌∙◌, Bool, true, false, Option, some,
  List, [], length, ◌||◌, arith, inl, inr, ◌⊎◌, Bool-cases,
}
use raggio.Prelude.Keys.{has, nat_eq}
use raggio.Scans.{Scan, Waiter, pending, Drain, cancel_caller, settle, is_pending, run}

abbrev pub waits_in : {Q : Type 0} → ℕ → List (Waiter Q) → Bool
waits_in = has (λ w. w.fut)

module _ {Q R E : Type 0} where
  -- Before the first search.
  abbrev pub IsIdle : Scan Q R E → Type 0
  IsIdle s =
      (s.queue ≡ [])
      × (s.group ≡ [])
      × (s.in_thread ≡ false)
      × (s.running ≡ false)
      × (s.next_fut ≡ 0)

  -- Whoever waits is in the queue or in the group, and the task runs as long as anybody is.
  pub record IsAccounted (s : Scan Q R E) : Type 0 where
    pub waiting :
        (i : ℕ)
        → i < s.next_fut
        → s.futures i ≡ pending
        → (waits_in i s.queue || waits_in i s.group) ≡ true
    pub no_group : s.in_thread ≡ false → s.group ≡ []
    pub task_runs : s.in_thread ≡ true → s.running ≡ true
    pub no_queue : s.running ≡ false → s.queue ≡ []

  module _ (d : Drain Q R E) where
    pub data Turn (s : Scan Q R E) : Scan Q R E → Type 0 where
      takes : s.running ≡ true → s.in_thread ≡ false → Turn s (d.take_group s)
      returns : (raised : Option E) → s.in_thread ≡ true → Turn s (d.return_group raised s)

    -- Searches arrive, callers give up and the task may be cancelled between the drain's turns.
    pub data Step (s : Scan Q R E) : Scan Q R E → Type 0 where
      turns : {t : Scan Q R E} → Turn s t → Step s t
      arrives : (q : Q) (n : ℕ) (nprobe : Option ℕ) → Step s (d.arrive q n nprobe s)
      gives_up : (i : ℕ) → Step s (cancel_caller i s)
      is_cancelled :
          (f : Scan Q R E → Scan Q R E) → d.cancel_task ≡ some f → s.in_thread ≡ true → Step s (f s)

    pub data Reach : Scan Q R E → Type 0 where
      here : {s : Scan Q R E} → IsIdle s → Reach s
      next : {s t : Scan Q R E} → Reach s → Step s t → Reach t

    pub record DrainLaws : Type 0 where
      pub arrive-IsAccounted :
          (q : Q) (n : ℕ) (nprobe : Option ℕ) (s : Scan Q R E)
          → IsAccounted s
          → IsAccounted (d.arrive q n nprobe s)
      pub take-IsAccounted :
          (s : Scan Q R E)
          → s.running ≡ true
          → s.in_thread ≡ false
          → IsAccounted s
          → IsAccounted (d.take_group s)
      pub take_ends :
          (s : Scan Q R E)
          → s.running ≡ true
          → s.in_thread ≡ false
          → ((d.take_group s).running ≡ false)
            ⊎ (((d.take_group s).in_thread ≡ true)
                × (length (d.take_group s).queue < length s.queue))
      pub return-IsAccounted :
          (raised : Option E) (s : Scan Q R E)
          → IsAccounted s
          → IsAccounted (d.return_group raised s)
      pub return_keeps :
          (raised : Option E) (s : Scan Q R E)
          → ((d.return_group raised s).running ≡ s.running)
            × ((d.return_group raised s).in_thread ≡ false)
            × ((d.return_group raised s).queue ≡ s.queue)
            × ((d.return_group raised s).next_fut ≡ s.next_fut)
      pub take_keeps : (s : Scan Q R E) → (d.take_group s).next_fut ≡ s.next_fut
      pub cancel-IsAccounted :
          (f : Scan Q R E → Scan Q R E) (s : Scan Q R E)
          → d.cancel_task ≡ some f
          → IsAccounted s
          → IsAccounted (f s)

    module _ (laws : DrainLaws) where
      open laws use {
        arrive-IsAccounted, take-IsAccounted, take_ends, return-IsAccounted, return_keeps,
        take_keeps, cancel-IsAccounted,
      }

      Turn-IsAccounted : {s t : Scan Q R E} → Turn s t → IsAccounted s → IsAccounted t
      Turn-IsAccounted {s} (takes r h) a = take-IsAccounted s r h a
      Turn-IsAccounted {s} (returns raised h) a = return-IsAccounted raised s a

      Step-IsAccounted : {s t : Scan Q R E} → Step s t → IsAccounted s → IsAccounted t
      unfolding cancel_caller settle is_pending
      Step-IsAccounted (turns t) a = Turn-IsAccounted t a
      Step-IsAccounted {s} (arrives q n nprobe) a = arrive-IsAccounted q n nprobe s a
      Step-IsAccounted {s} (gives_up i) a = record {
        waiting = λ j lt p. a.waiting j lt (ground (arith, p));
        no_group = a.no_group;
        task_runs = a.task_runs;
        no_queue = a.no_queue;
      }
      Step-IsAccounted {s} (is_cancelled f e h) a = cancel-IsAccounted f s e a

      pub Reach-IsAccounted : {s : Scan Q R E} → Reach s → IsAccounted s
      Reach-IsAccounted (here h) = record {
        waiting = λ i lt p. absurd (omega (arith, h, lt));
        no_group = λ e. h.1;
        task_runs = λ e. cc (h.2, e);
        no_queue = λ e. h.0;
      }
      Reach-IsAccounted (next r s) = Step-IsAccounted s (Reach-IsAccounted r)

      abbrev turns_left : Scan Q R E → ℕ
      turns_left s = 2 * length s.queue + (if s.in_thread then 3 else (if s.running then 2 else 1))

      after_take :
          (s : Scan Q R E)
          → s.in_thread ≡ false
          → s.running ≡ true
          → IsAccounted s
          → turns_left (d.take_group s) < turns_left s
      after_take s h r a =
          let b = take-IsAccounted s r h a in
          elim (take_ends s r h) [
            | inl e ↦ ground (arith, b.no_queue e, b.task_runs)
            | inr (e, lt) ↦ ground arith
          ]

      run_ends :
          (fuel : ℕ) (raised : ℕ → Option E) (s : Scan Q R E)
          → turns_left s < fuel
          → IsAccounted s
          → IsAccounted (run d fuel raised s)
            × ((run d fuel raised s).running ≡ false)
            × ((run d fuel raised s).next_fut ≡ s.next_fut)
      unfolding run
      run_ends zero raised s lt a = absurd (omega arith)
      run_ends (suc fuel) raised s lt a = elim (Bool-cases s.in_thread) [
        | inl h ↦
            let k = return_keeps (raised fuel) s in
            let rest =
              run_ends fuel raised (d.return_group (raised fuel) s) (ground (arith, k))
                (return-IsAccounted (raised fuel) s a) in
            rw (h, run) (rest.0, rest.1, rest.2 ∙ k.3)
        | inr h ↦ elim (Bool-cases s.running) [
          | inr r ↦ rw (h, run) (rw (r, run) (a, r, refl))
          | inl r ↦
              let rest =
                run_ends fuel raised (d.take_group s) (omega (arith, after_take s h r a))
                  (take-IsAccounted s r h a) in
              rw (h, run) (rw (r, run) (rest.0, rest.1, rest.2 ∙ take_keeps s))
        ]
      ]

      -- However its searches end, the drain's task ends, and then nobody waits.
      pub run_settles :
          {s : Scan Q R E}
          → Reach s
          → (raised : ℕ → Option E)
          → ((run d (2 * length s.queue + 4) raised s).running ≡ false)
            × ((i : ℕ)
                → i < s.next_fut
                → (run d (2 * length s.queue + 4) raised s).futures i ≢ pending)
      run_settles {s} r raised =
          let fuel = 2 * length s.queue + 4 in
          let t = run d fuel raised s in
          let (a, e, keeps) = run_ends fuel raised s (ground arith) (Reach-IsAccounted r) in
          let idle : t.in_thread ≡ false = ground (arith, a.task_runs) in
          (
            e,
            λ i lt p.
                ground
                  (arith, a.waiting i (omega (arith, keeps, lt)) p, a.no_queue e, a.no_group idle),
          )
