-- ===== src/Slices.antt =====
-- `for s in range(0, len(xs), n): xs[s : s + n]`, the loop that src/raggio/store.py cuts its work by:
-- 512 ids of `_rows_by_id`, 64 texts of an embedding call, `CAL_THRESHOLD` rows of an index add.
use raggio.Prelude.{
  ℕ, zero, suc, ◌≤◌, ◌<◌, ◌≡◌, refl, ap, ◌∙◌, List, [], ◌∷◌, ◌++◌, arith, length, take, drop, All,
  length-take, length-drop, take-append-drop,
}

module _ {ℓ} {A : Type ℓ} where
  pub slices_from : ℕ → ℕ → List A → List (List A)
  slices_from zero n xs = []
  slices_from (suc fuel) n [] = []
  slices_from (suc fuel) n (x ∷ xs) = take n (x ∷ xs) ∷ slices_from fuel n (drop n (x ∷ xs))

  -- The length of the list is fuel enough: each slice takes at least one member.
  unfoldable pub slices : ℕ → List A → List (List A)
  unfolding slices_from
  slices n xs = slices_from (length xs) n xs

  unfoldable pub concat : List (List A) → List A
  concat [] = []
  concat (xs ∷ xss) = xs ++ concat xss

  concat-slices_from :
      (fuel n : ℕ) (xs : List A) → 0 < n → length xs ≤ fuel → concat (slices_from fuel n xs) ≡ xs
  unfolding slices_from concat
  concat-slices_from zero n [] p h = refl
  concat-slices_from zero n (x ∷ xs) p h = absurd (omega arith)
  concat-slices_from (suc fuel) n [] p h = refl
  concat-slices_from (suc fuel) n (x ∷ xs) p h =
      ap (λ (ys : List A). take n (x ∷ xs) ++ ys)
        (concat-slices_from fuel n (drop n (x ∷ xs)) p (omega (arith, length-drop {ℓ} n (x ∷ xs))))
      ∙ take-append-drop n (x ∷ xs)

  slices_from-bounded :
      (fuel n : ℕ) (xs : List A) → All (λ ys. length ys ≤ n) (slices_from fuel n xs)
  unfolding slices_from
  slices_from-bounded zero n xs = tt
  slices_from-bounded (suc fuel) n [] = tt
  slices_from-bounded (suc fuel) n (x ∷ xs) =
      (omega (arith, length-take {ℓ} n (x ∷ xs)), slices_from-bounded fuel n (drop n (x ∷ xs)))

  pub concat-slices : (n : ℕ) (xs : List A) → 0 < n → concat (slices n xs) ≡ xs
  unfolding slices
  concat-slices n xs h = concat-slices_from (length xs) n xs h (omega arith)

  pub slices-bounded : (n : ℕ) (xs : List A) → All (λ ys. length ys ≤ n) (slices n xs)
  unfolding slices
  slices-bounded n xs = slices_from-bounded (length xs) n xs
