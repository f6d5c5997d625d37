-- ===== src/Ranking/Order.antt =====
-- The order of results is total, so the top of a list of hits does not depend on the list's order.
use raggio.Prelude.{ℕ, ◌≡◌, ap, ◌∙◌, true, false, List, take, arith, min, length, length-take, ltb}
use raggio.Ranking.{Scores, before, top, sort}
use raggio.Ranking.Sorting.{TotalOrder, Reordered, sort-eq, length-sort}

module _ {S : Type 0} (sc : Scores S) where
  open sc use {above, above_asym, above_trans, above_total}

  before_total : (x y : ℕ × S) → before sc x y ≡ false → before sc y x ≡ true
  unfolding before
  before_total x y h = ground (arith, above_asym x.1 y.1, above_total x.1 y.1)

  before_trans :
      (x y z : ℕ × S) → before sc x y ≡ true → before sc y z ≡ true → before sc x z ≡ true
  unfolding before
  before_trans x y z h k = ground (
    arith,
    above_trans x.1 y.1 z.1,
    above_asym x.1 y.1,
    above_asym y.1 z.1,
    above_asym x.1 z.1,
    above_total x.1 y.1,
    above_total y.1 z.1,
    above_trans z.1 x.1 y.1,
    above_trans y.1 z.1 x.1,
  )

  before_antisym : (x y : ℕ × S) → before sc x y ≡ true → before sc y x ≡ true → x ≡ y
  unfolding before
  before_antisym x y h k =
      ground (arith, above_asym x.1 y.1, above_asym y.1 x.1, above_total x.1 y.1)

  pub before-order : TotalOrder (before sc)
  before-order = record {
    preorder = record { le_total = before_total; le_trans = before_trans };
    le_antisym = before_antisym;
  }

  pub top-eq :
      (n : ℕ) {hits others : List (ℕ × S)} → Reordered hits others → top sc n hits ≡ top sc n others
  unfolding top
  top-eq n p = ap (take n) (sort-eq (before sc) before-order p)

  pub length-top : (n : ℕ) (hits : List (ℕ × S)) → length (top sc n hits) ≡ min n (length hits)
  unfolding top
  length-top n hits =
      length-take n (sort (before sc) hits) ∙ ap (min n) (length-sort (before sc) hits)

-- Natural numbers as scores.
abbrev pub nat_scores : Scores ℕ
nat_scores = record {
  above = λ s t. ltb t s;
  above_asym = λ s t h. ground arith;
  above_trans = λ s t u h k. ground arith;
  above_total = λ s t h k. ground arith;
}
