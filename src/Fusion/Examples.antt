-- ===== src/Fusion/Examples.antt =====
-- Two legs that share a record, with scores in millionths.
use raggio.Prelude.{
  ℕ, zero, suc, ◌+◌, ◌-◌, ◌*◌, ◌/◌, ◌≡◌, refl, true, List, [], ◌∷◌, take, any, arith,
}
use raggio.Prelude.Keys.{nat_eq, has, key}
use raggio.Ranking.Order.{nat_scores}
use raggio.Ranking.Sorting.{IsSorted}
use raggio.Fusion.{Arithmetic, not_below, rrf, relative, search_ids, hybrid_relative}
use raggio.Fusion.Hits.{AreHits, rrf-AreHits, search_ids-AreHits}

-- A weight is a per cent.
abbrev arithmetic : Arithmetic ℕ ℕ
arithmetic = record {
  zero_score = 0;
  plus = λ s t. s + t;
  reciprocal = λ n. 1000000 / n;
  scaled = λ w lo hi s. (w * 10000 * (s - lo)) / (hi - lo);
  whole = λ w. w * 10000;
}

shared_first :
    rrf nat_scores arithmetic 2 ((7 ∷ 8 ∷ []) ∷ (9 ∷ 8 ∷ []) ∷ []) ≡ (8, 32258) ∷ (7, 16393) ∷ []
unfolding rrf
shared_first = refl

half_and_half :
    relative nat_scores arithmetic 3 50 50 ((7, 30) ∷ (8, 10) ∷ []) ((8, 4) ∷ [])
    ≡ (7, 500000) ∷ (8, 500000) ∷ []
unfolding relative
half_and_half = refl

rrf-AreHits_example :
    AreHits 2 (rrf nat_scores arithmetic 2 ((7 ∷ 8 ∷ []) ∷ (9 ∷ 8 ∷ []) ∷ []))
    × IsSorted
        (not_below nat_scores arithmetic)
        (rrf nat_scores arithmetic 2 ((7 ∷ 8 ∷ []) ∷ (9 ∷ 8 ∷ []) ∷ []))
    × ((i : ℕ)
        → has key i (rrf nat_scores arithmetic 2 ((7 ∷ 8 ∷ []) ∷ (9 ∷ 8 ∷ []) ∷ [])) ≡ true
        → any (λ r. has (λ (j : ℕ). j) i r) ((7 ∷ 8 ∷ []) ∷ (9 ∷ 8 ∷ []) ∷ []) ≡ true)
rrf-AreHits_example = rrf-AreHits nat_scores arithmetic 2 ((7 ∷ 8 ∷ []) ∷ (9 ∷ 8 ∷ []) ∷ [])

-- A leg with one hit, if any was asked for.
abbrev one_hit : ℕ → ℕ → List (ℕ × ℕ)
one_hit i n = take n ((i, 5) ∷ [])

one_hit-AreHits : (i n : ℕ) → AreHits n (one_hit i n)
one_hit-AreHits i zero = (omega arith, tt)
one_hit-AreHits i (suc zero) = (omega arith, (refl, tt))
one_hit-AreHits i (suc (suc n)) = (omega arith, (refl, tt))

search_ids-AreHits_example :
    AreHits 1
      (search_ids nat_scores arithmetic (hybrid_relative 70 30 true true) 1 (one_hit 7) (one_hit 8))
search_ids-AreHits_example =
    search_ids-AreHits nat_scores arithmetic (hybrid_relative 70 30 true true) 1 (one_hit 7)
      (one_hit 8) (one_hit-AreHits 7) (one_hit-AreHits 8)
