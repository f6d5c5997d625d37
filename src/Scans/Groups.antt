-- ===== src/Scans/Groups.antt =====
-- The groups that `_drain_scoped` cuts its queue into.
use raggio.Prelude.{
  List-cases, ℕ, zero, suc, ◌≤◌, ◌<◌, ◌≡◌, refl, ◌∙◌, sym, ap, ◌⊎◌, true, List, [], ◌∷◌, length,
  arith, inl, inr, ◌||◌, ◌==◌, ==_iff, take, drop, keep, length-drop, take-append-drop, Bool-cases,
}
use raggio.Prelude.Keys.{nat_eq, has-append}
use raggio.Scans.{Waiter, Future, pending, next_group, is_pending}
use raggio.Scans.Steps.{waits_in}

module _ {Q R E : Type 0} where
  -- Whoever waits stays in a group from which those that are done were dropped.
  keep_waits :
      (i : ℕ) (fs : ℕ → Future R E) (ws : List (Waiter Q))
      → fs i ≡ pending
      → waits_in i (keep (λ (v : Waiter Q). is_pending (fs v.fut)) ws) ≡ waits_in i ws
  unfolding is_pending
  keep_waits i fs [] p = refl
  keep_waits i fs (w ∷ ws) p = elim (Bool-cases (w.fut == i)) [
    | inl e ↦
        let waits : is_pending (fs w.fut) ≡ true = rw (ap fs ((==_iff w.fut i).0 e) ∙ p) refl in
        ground (arith, waits, e)
    | inr e ↦ ground (arith, e, keep_waits i fs ws p)
  ]

  abbrev live : (ℕ → Future R E) → List (Waiter Q) → List (Waiter Q)
  unfolding is_pending
  live fs ws = keep (λ (v : Waiter Q). is_pending (fs v.fut)) ws

  skip_group :
      (fuel limit : ℕ) (fs : ℕ → Future R E) (w : Waiter Q) (ws : List (Waiter Q))
      → live fs (take limit (w ∷ ws)) ≡ []
      → next_group (suc fuel) limit fs (w ∷ ws) ≡ next_group fuel limit fs (drop limit (w ∷ ws))
  unfolding next_group is_pending
  skip_group fuel limit fs w ws e = rw (e, next_group)

  take-live :
      (fuel limit : ℕ) (fs : ℕ → Future R E) (w : Waiter Q) (ws : List (Waiter Q)) {v : Waiter Q}
      {vs : List (Waiter Q)}
      → live fs (take limit (w ∷ ws)) ≡ v ∷ vs
      → next_group (suc fuel) limit fs (w ∷ ws) ≡ (v ∷ vs, drop limit (w ∷ ws))
  unfolding next_group is_pending
  take-live fuel limit fs w ws e = rw (e, next_group)

  split_waits :
      (limit i : ℕ) (fs : ℕ → Future R E) (ws : List (Waiter Q))
      → fs i ≡ pending
      → waits_in i ws ≡ (waits_in i (live fs (take limit ws)) || waits_in i (drop limit ws))
  unfolding is_pending
  split_waits limit i fs ws p =
      ap (waits_in i) (sym (take-append-drop limit ws))
      ∙ (has-append (λ (v : Waiter Q). v.fut) i (take limit ws) (drop limit ws)
          ∙ ap (λ b. b || waits_in i (drop limit ws)) (sym (keep_waits i fs (take limit ws) p)))

  pub next_group_waits :
      (fuel limit : ℕ) (i : ℕ) (fs : ℕ → Future R E) (queue : List (Waiter Q))
      → fs i ≡ pending
      → (let next = next_group fuel limit fs queue in
          (waits_in i next.1 || waits_in i next.0) ≡ waits_in i queue)
  unfolding next_group
  next_group_waits zero limit i fs queue p = ground arith
  next_group_waits (suc fuel) limit i fs [] p = refl
  next_group_waits (suc fuel) limit i fs (w ∷ ws) p =
      elim (List-cases (live fs (take limit (w ∷ ws)))) [
        | inl e ↦ rw (skip_group fuel limit fs w ws e) (
            ground (
              arith,
              next_group_waits fuel limit i fs (drop limit (w ∷ ws)) p,
              split_waits limit i fs (w ∷ ws) p,
              e,
            ))
        | inr (v, vs, e) ↦
            rw (take-live fuel limit fs w ws e)
              (ground (arith, split_waits limit i fs (w ∷ ws) p, e))
      ]

  pub next_group_ends :
      (fuel limit : ℕ) (fs : ℕ → Future R E) (queue : List (Waiter Q))
      → 0 < limit
      → length queue ≤ fuel
      → (let next = next_group fuel limit fs queue in
          ((next.0 ≡ []) × (next.1 ≡ [])) ⊎ (length next.1 < length queue))
  unfolding next_group
  next_group_ends zero limit fs [] l h = inl (refl, refl)
  next_group_ends zero limit fs (w ∷ ws) l h = absurd (omega arith)
  next_group_ends (suc fuel) limit fs [] l h = inl (refl, refl)
  next_group_ends (suc fuel) limit fs (w ∷ ws) l h =
      elim (List-cases (live fs (take limit (w ∷ ws)))) [
        | inl e ↦ rw (skip_group fuel limit fs w ws e) (
            ground (
              arith,
              next_group_ends fuel limit fs (drop limit (w ∷ ws)) l,
              length-drop limit (w ∷ ws),
            ))
        | inr (v, vs, e) ↦
            rw (take-live fuel limit fs w ws e) (inr (omega (arith, length-drop limit (w ∷ ws), l)))
      ]

  pub next_group_done :
      (fuel limit : ℕ) (fs : ℕ → Future R E) (queue : List (Waiter Q))
      → 0 < limit
      → length queue ≤ fuel
      → (next_group fuel limit fs queue).0 ≡ []
      → (next_group fuel limit fs queue).1 ≡ []
  unfolding next_group
  next_group_done zero limit fs [] l h n = refl
  next_group_done zero limit fs (w ∷ ws) l h n = absurd (omega arith)
  next_group_done (suc fuel) limit fs [] l h n = refl
  next_group_done (suc fuel) limit fs (w ∷ ws) l h n =
      elim (List-cases (live fs (take limit (w ∷ ws)))) [
        | inl e ↦ rw (skip_group fuel limit fs w ws e) (
            next_group_done fuel limit fs (drop limit (w ∷ ws)) l
              (omega (arith, length-drop limit (w ∷ ws), h, l))
              (rw (skip_group fuel limit fs w ws e) at n))
        | inr (v, vs, e) ↦ absurd (cc (rw (take-live fuel limit fs w ws e) at n))
      ]
