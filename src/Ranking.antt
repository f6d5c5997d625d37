-- ===== src/Ranking.antt =====
-- The order of search results in src/raggio/store.py, `(-score, id)`, and sorting by it.
--
-- A score is a finite float. Of the floats only their order matters here, the interface `Scores`.
pub mod Sorting
pub mod Order
pub mod Distinctness
use raggio.Prelude.{ℕ, ◌≡◌, Bool, true, false, List, [], ◌∷◌, ltb, leb, if◌then◌else◌, take}

pub record Scores (S : Type 0) : Type 0 where
  pub above : S → S → Bool
  pub above_asym : (s t : S) → above s t ≡ true → above t s ≡ false
  pub above_trans : (s t u : S) → above s t ≡ true → above t u ≡ true → above s u ≡ true
  pub above_total : (s t : S) → above s t ≡ false → above t s ≡ false → s ≡ t

-- `sorted` by an order, as an insertion sort.
module _ {A : Type 0} (le : A → A → Bool) where
  pub insert_sorted : A → List A → List A
  insert_sorted x [] = x ∷ []
  insert_sorted x (y ∷ ys) =
      let rest = insert_sorted x ys in if le x y then x ∷ y ∷ ys else y ∷ rest

  unfoldable pub sort : List A → List A
  unfolding insert_sorted
  sort [] = []
  sort (x ∷ xs) = insert_sorted x (sort xs)

module _ {S : Type 0} (sc : Scores S) where
  -- The order of the keys `(-score, id)`.
  pub before : ℕ × S → ℕ × S → Bool
  before x y = if sc.above x.1 y.1 then true else if sc.above y.1 x.1 then false else leb x.0 y.0

  unfoldable pub top : ℕ → List (ℕ × S) → List (ℕ × S)
  unfolding sort before
  top n hits = take n (sort before hits)
