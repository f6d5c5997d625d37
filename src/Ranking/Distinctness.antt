-- ===== src/Ranking/Distinctness.antt =====
-- Sorting and cutting keep the keys of a list distinct.
use raggio.Prelude.{
  ℕ, zero, suc, ◌≡◌, refl, Bool, false, ◌||◌, List, [], ◌∷◌, map, take, arith, ◌∙◌,
}
use raggio.Prelude.Keys.{Eq, nat_eq, has, Distinct, key}
use raggio.Ranking.{Scores, insert_sorted, sort, top, before}

module _ {K A : Type 0} ⦃e : Eq K⦄ (f : A → K) where
  pub has-take_absent :
      (n : ℕ) (k : K) (xs : List A) → has f k xs ≡ false → has f k (take n xs) ≡ false
  has-take_absent zero k xs h = refl
  has-take_absent (suc n) k [] h = refl
  has-take_absent (suc n) k (x ∷ xs) h = ground (arith, has-take_absent n k xs)

  pub take-Distinct : (n : ℕ) (xs : List A) → Distinct f xs → Distinct f (take n xs)
  take-Distinct zero xs d = tt
  take-Distinct (suc n) [] d = tt
  take-Distinct (suc n) (x ∷ xs) d = (has-take_absent n (f x) xs d.0, take-Distinct n xs d.1)

  module _ (le : A → A → Bool) where
    has-insert_sorted :
        (k : K) (x : A) (xs : List A)
        → has f k (insert_sorted le x xs) ≡ (e.beq (f x) k || has f k xs)
    unfolding insert_sorted
    has-insert_sorted k x [] = ground arith
    has-insert_sorted k x (y ∷ ys) = ground (arith, has-insert_sorted k x ys)

    insert_sorted-Distinct :
        (x : A) (xs : List A)
        → has f (f x) xs ≡ false
        → Distinct f xs
        → Distinct f (insert_sorted le x xs)
    unfolding insert_sorted
    insert_sorted-Distinct x [] h d = (refl, tt)
    insert_sorted-Distinct x (y ∷ ys) h d = ground (
      arith,
      insert_sorted-Distinct x ys,
      has-insert_sorted (f y) x ys,
      e.beq_iff (f x) (f y),
      e.beq_iff (f y) (f x),
    )

    pub has-sort : (k : K) (xs : List A) → has f k (sort le xs) ≡ has f k xs
    unfolding sort
    has-sort k [] = refl
    has-sort k (x ∷ xs) = ground (arith, has-insert_sorted k x (sort le xs), has-sort k xs)

    pub sort-Distinct : (xs : List A) → Distinct f xs → Distinct f (sort le xs)
    unfolding sort
    sort-Distinct [] d = tt
    sort-Distinct (x ∷ xs) d =
        insert_sorted-Distinct x (sort le xs) (has-sort (f x) xs ∙ d.0) (sort-Distinct xs d.1)

pub top-Distinct :
    {S : Type 0} (sc : Scores S) (n : ℕ) (hits : List (ℕ × S))
    → Distinct key hits
    → Distinct key (top sc n hits)
unfolding top
top-Distinct sc n hits d =
    take-Distinct key n (sort (before sc) hits) (sort-Distinct key (before sc) hits d)

-- New values under the same keys.
module _ {K A B : Type 0} ⦃e : Eq K⦄ (f : A → K) (h : B → K) (g : A → B)
    (same : (x : A) → h (g x) ≡ f x) where
  has-map : (k : K) (xs : List A) → has h k (map g xs) ≡ has f k xs
  has-map k [] = refl
  has-map k (x ∷ xs) = rw (same x) (rw (has-map k xs) refl)

  pub map-Distinct : (xs : List A) → Distinct f xs → Distinct h (map g xs)
  map-Distinct [] d = tt
  map-Distinct (x ∷ xs) d = (rw (same x) (has-map (f x) xs ∙ d.0), map-Distinct xs d.1)
