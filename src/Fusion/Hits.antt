-- ===== src/Fusion/Hits.antt =====
-- The hits of a fusion and of a search: different records, the best first, and no more than asked for.
use raggio.Prelude.{
  ℕ, zero, suc, ◌+◌, ◌≤◌, ◌≡◌, refl, ◌∙◌, Bool, true, ◌||◌, List, [], ◌∷◌, map, take, max, length,
  length-take, All, any, arith, Option-cases, Bool-cases, inl, inr, if◌then◌else◌,
}
use raggio.Prelude.Keys.{nat_eq, lookup, has, Distinct, key, has-insert, insert-Distinct}
use raggio.Ranking.{Scores, sort}
use raggio.Ranking.Sorting.{TotalPreorder, IsSorted, sort-IsSorted}
use raggio.Ranking.Distinctness.{sort-Distinct, take-Distinct, has-sort, has-take_absent}
use raggio.Fusion.{
  Arithmetic, not_below, add_score, best, add_ranking, add_rankings, rrf, add_scaled, add_leg,
  relative, Mode, vector, text, hybrid_rrf, hybrid_relative, search_ids, hybrid_depth, rrf_k,
}

module _ {A : Type 0} (le : A → A → Bool) where
  take-All : (P : A → Type 0) (n : ℕ) (xs : List A) → All P xs → All P (take n xs)
  take-All P zero xs h = tt
  take-All P (suc n) [] h = tt
  take-All P (suc n) (x ∷ xs) h = (h.0, take-All P n xs h.1)

  take-IsSorted : (n : ℕ) (xs : List A) → IsSorted le xs → IsSorted le (take n xs)
  take-IsSorted zero xs h = tt
  take-IsSorted (suc n) [] h = tt
  take-IsSorted (suc n) (x ∷ xs) h =
      (take-All (λ y. le x y ≡ true) n xs h.0, take-IsSorted n xs h.1)

-- Hits of different records, and no more than `n`.
abbrev pub AreHits : {S : Type 0} → ℕ → List (ℕ × S) → Type 0
AreHits n hits = (length hits ≤ n) × Distinct key hits

module _ {S W : Type 0} (sc : Scores S) (ar : Arithmetic S W) where
  open sc use {above, above_asym, above_trans, above_total}

  below_order : TotalPreorder (not_below sc ar)
  unfolding not_below
  below_order = record {
    le_total = λ x y h. ground (arith, above_asym x.1 y.1, above_asym y.1 x.1);
    le_trans = λ x y z h k. ground (
      arith,
      above_trans z.1 y.1 x.1,
      above_total y.1 z.1,
      above_total x.1 y.1,
      above_trans z.1 x.1 y.1,
    );
  }

  best-AreHits :
      (k : ℕ) (scores : List (ℕ × S)) → Distinct key scores → AreHits k (best sc ar k scores)
  unfolding best
  best-AreHits k scores d = (
    omega (arith, length-take k (sort (not_below sc ar) scores)),
    take-Distinct key k _ (sort-Distinct key (not_below sc ar) scores d),
  )

  best-IsSorted : (k : ℕ) (scores : List (ℕ × S)) → IsSorted (not_below sc ar) (best sc ar k scores)
  unfolding best
  best-IsSorted k scores =
      take-IsSorted (not_below sc ar) k _ (sort-IsSorted (not_below sc ar) below_order scores)

  has-best :
      (k i : ℕ) (scores : List (ℕ × S))
      → has key i (best sc ar k scores) ≡ true
      → has key i scores ≡ true
  unfolding best
  has-best k i scores h = elim (Bool-cases (has key i scores)) [
    | inl e ↦ e
    | inr e ↦ absurd (
        cc (
          h,
          has-take_absent key k i (sort (not_below sc ar) scores)
              (has-sort key (not_below sc ar) i scores ∙ e),
        ))
  ]

  has-add_score :
      (i rid : ℕ) (s : S) (scores : List (ℕ × S))
      → has key i (add_score sc ar rid s scores) ≡ (nat_eq.beq rid i || has key i scores)
  unfolding add_score
  has-add_score i rid s scores = elim (Option-cases (lookup rid scores)) [
    | inl e ↦ rw (e, add_score) (has-insert rid i _ scores)
    | inr (t, e) ↦ rw (e, add_score) (has-insert rid i _ scores)
  ]

  add_score-Distinct :
      (rid : ℕ) (s : S) (scores : List (ℕ × S))
      → Distinct key scores
      → Distinct key (add_score sc ar rid s scores)
  unfolding add_score
  add_score-Distinct rid s scores d = elim (Option-cases (lookup rid scores)) [
    | inl e ↦ rw (e, add_score) (insert-Distinct rid _ scores d)
    | inr (t, e) ↦ rw (e, add_score) (insert-Distinct rid _ scores d)
  ]

  add_ranking-Distinct :
      (rank : ℕ) (is : List ℕ) (scores : List (ℕ × S))
      → Distinct key scores
      → Distinct key (add_ranking sc ar rank is scores)
  unfolding add_ranking
  add_ranking-Distinct rank [] scores d = d
  add_ranking-Distinct rank (i ∷ is) scores d =
      add_ranking-Distinct (suc rank) is _ (add_score-Distinct i _ scores d)

  has-add_ranking :
      (x rank : ℕ) (is : List ℕ) (scores : List (ℕ × S))
      → has key x (add_ranking sc ar rank is scores) ≡ (has (λ (i : ℕ). i) x is || has key x scores)
  unfolding add_ranking
  has-add_ranking x rank [] scores = refl
  has-add_ranking x rank (i ∷ is) scores = ground (
    arith,
    has-add_ranking x (suc rank) is (add_score sc ar i (ar.reciprocal (rrf_k + rank)) scores),
    has-add_score x i (ar.reciprocal (rrf_k + rank)) scores,
  )

  add_rankings-Distinct :
      (rs : List (List ℕ)) (scores : List (ℕ × S))
      → Distinct key scores
      → Distinct key (add_rankings sc ar rs scores)
  unfolding add_rankings
  add_rankings-Distinct [] scores d = d
  add_rankings-Distinct (r ∷ rs) scores d =
      add_rankings-Distinct rs _ (add_ranking-Distinct 1 r scores d)

  has-add_rankings :
      (x : ℕ) (rs : List (List ℕ)) (scores : List (ℕ × S))
      → has key x (add_rankings sc ar rs scores)
        ≡ (any (λ r. has (λ (i : ℕ). i) x r) rs || has key x scores)
  unfolding add_rankings
  has-add_rankings x [] scores = refl
  has-add_rankings x (r ∷ rs) scores =
      ground
        (arith, has-add_rankings x rs (add_ranking sc ar 1 r scores), has-add_ranking x 1 r scores)

  -- Reciprocal rank fusion gives at most `k` hits of different records, each from one of the
  -- rankings, with scores that do not rise.
  pub rrf-AreHits :
      (k : ℕ) (rankings : List (List ℕ))
      → AreHits k (rrf sc ar k rankings)
        × IsSorted (not_below sc ar) (rrf sc ar k rankings)
        × ((i : ℕ)
            → has key i (rrf sc ar k rankings) ≡ true
            → any (λ r. has (λ (j : ℕ). j) i r) rankings ≡ true)
  unfolding rrf
  rrf-AreHits k rankings = (
    best-AreHits k _ (add_rankings-Distinct rankings [] tt),
    best-IsSorted k (add_rankings sc ar rankings []),
    λ i h.
        ground
          (arith, has-best k i (add_rankings sc ar rankings []) h, has-add_rankings i rankings []),
  )

  add_scaled-Distinct :
      (weight : W) (lo hi : S) (hs scores : List (ℕ × S))
      → Distinct key scores
      → Distinct key (add_scaled sc ar weight lo hi hs scores)
  unfolding add_scaled
  add_scaled-Distinct weight lo hi [] scores d = d
  add_scaled-Distinct weight lo hi (h ∷ hs) scores d =
      add_scaled-Distinct weight lo hi hs _ (add_score-Distinct h.0 _ scores d)

  add_leg-Distinct :
      (weight : W) (hs scores : List (ℕ × S))
      → Distinct key scores
      → Distinct key (add_leg sc ar weight hs scores)
  unfolding add_leg
  add_leg-Distinct weight [] scores d = d
  add_leg-Distinct weight (h ∷ hs) scores d = add_scaled-Distinct weight _ _ (h ∷ hs) scores d

  relative-AreHits :
      (k : ℕ) (alpha rest : W) (vec txt : List (ℕ × S))
      → AreHits k (relative sc ar k alpha rest vec txt)
  unfolding relative
  relative-AreHits k alpha rest vec txt =
      let first = add_leg sc ar alpha vec [] in
      best-AreHits k (add_leg sc ar rest txt first)
        (add_leg-Distinct rest txt first (add_leg-Distinct alpha vec [] tt))

  -- A search gives at most `k` hits of different records in each of its modes, if its legs give at
  -- most as many as they are asked for, of different records.
  pub search_ids-AreHits :
      (mode : Mode sc ar) (k : ℕ) (vec txt : ℕ → List (ℕ × S))
      → ((n : ℕ) → AreHits n (vec n))
      → ((n : ℕ) → AreHits n (txt n))
      → AreHits k (search_ids sc ar mode k vec txt)
  unfolding search_ids relative
  search_ids-AreHits vector k vec txt hv ht = hv k
  search_ids-AreHits text k vec txt hv ht = ht k
  search_ids-AreHits hybrid_rrf k vec txt hv ht =
      let n = max hybrid_depth k in
      (rrf-AreHits k (map (λ (h : ℕ × S). h.0) (vec n) ∷ map (λ (h : ℕ × S). h.0) (txt n) ∷ [])).0
  search_ids-AreHits (hybrid_relative alpha rest v t) k vec txt hv ht =
      let n = max hybrid_depth k in
      relative-AreHits k alpha rest (if v then vec n else []) (if t then txt n else [])
