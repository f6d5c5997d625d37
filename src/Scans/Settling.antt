-- ===== src/Scans/Settling.antt =====
-- Who still waits after a group was answered, and where a group comes from.
use raggio.Prelude.{ℕ, ◌≡◌, refl, false, List, [], ◌∷◌, map, length, arith, ==_iff}
use raggio.Prelude.Keys.{nat_eq}
use raggio.Scans.{Scan, Future, Waiter, pending, is_pending, settle, set_results, set_all}
use raggio.Scans.Steps.{waits_in, IsAccounted}

pub length-queries :
    {Q A : Type 0} (f : Waiter Q → A) (ws : List (Waiter Q)) → length (map f ws) ≡ length ws
length-queries f [] = refl
length-queries f (w ∷ ws) = omega (arith, length-queries f ws)

module _ {Q R E : Type 0} where
  pub set_results_pending :
      (i : ℕ) (ws : List (Waiter Q)) (rs : List R) (fs : ℕ → Future R E)
      → length rs ≡ length ws
      → set_results ws rs fs i ≡ pending
      → (fs i ≡ pending) × (waits_in i ws ≡ false)
  unfolding set_results settle is_pending
  set_results_pending i [] [] fs l p = (p, refl)
  set_results_pending i [] (r ∷ rs) fs l p = absurd (omega arith)
  set_results_pending i (w ∷ ws) [] fs l p = absurd (omega arith)
  set_results_pending i (w ∷ ws) (r ∷ rs) fs l p =
      ground
        (arith, set_results_pending i ws rs (settle w.fut (Future.resolved r) fs), ==_iff w.fut i)

  pub set_all_pending :
      (i : ℕ) (v : Future R E) (ws : List (Waiter Q)) (fs : ℕ → Future R E)
      → is_pending v ≡ false
      → set_all v ws fs i ≡ pending
      → (fs i ≡ pending) × (waits_in i ws ≡ false)
  unfolding set_all settle is_pending
  set_all_pending i v [] fs e p = (p, refl)
  set_all_pending i v (w ∷ ws) fs e p =
      ground (arith, set_all_pending i v ws (settle w.fut v fs), ==_iff w.fut i)

  -- An answered group: nobody in it waits any more, and the queue is as it was.
  pub answered-IsAccounted :
      (s : Scan Q R E) (fs : ℕ → Future R E)
      → ((i : ℕ) → fs i ≡ pending → (s.futures i ≡ pending) × (waits_in i s.group ≡ false))
      → IsAccounted s
      → IsAccounted (record s { group = []; in_thread = false; futures = fs })
  answered-IsAccounted s fs h a = record {
    waiting = λ i lt p. ground (arith, h i p, a.waiting i);
    no_group = λ e. refl;
    task_runs = λ e. absurd (cc e);
    no_queue = a.no_queue;
  }
