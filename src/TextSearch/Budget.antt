-- ===== src/TextSearch/Budget.antt =====
-- What `_prune_common` keeps: its cost, and what always survives.
use Prim.Native.String.{String}
use raggio.Prelude.{
  ℕ, zero, suc, ◌+◌, ◌≤◌, ◌<◌, ◌≡◌, refl, sym, ap, subst, ◌⊎◌, inl, inr, true, false, List, [], ◌∷◌,
  ltb, leb→le, lt→ltb, count, All, arith, Bool-cases, max,
}
use raggio.Ranking.{sort}
use raggio.Ranking.Sorting.{
  Reordered, nil, cons, swap, trans, IsSorted, TotalPreorder, sort-perm, sort-IsSorted,
}
use raggio.TextSearch.{no_more_common, within_budget, kept_keys}

abbrev pub Elem : {A : Type 0} → A → List A → Type 0
Elem x [] = ⊥
Elem x (y ∷ ys) = (x ≡ y) ⊎ Elem x ys

Elem-Reordered : {A : Type 0} (x : A) {xs ys : List A} → Reordered xs ys → Elem x ys → Elem x xs
Elem-Reordered x nil h = h
Elem-Reordered x (cons y p) (inl e) = inl e
Elem-Reordered x (cons y p) (inr h) = inr (Elem-Reordered x p h)
Elem-Reordered x (swap y z xs) (inl e) = inr (inl e)
Elem-Reordered x (swap y z xs) (inr (inl e)) = inl e
Elem-Reordered x (swap y z xs) (inr (inr h)) = inr (inr h)
Elem-Reordered x (trans p q) h = Elem-Reordered x p (Elem-Reordered x q h)

All-Elem : {A : Type 0} (P : A → Type 0) (x : A) (xs : List A) → All P xs → Elem x xs → P x
All-Elem P x [] h m = absurd m
All-Elem P x (y ∷ ys) h (inl e) = subst P (sym e) h.0
All-Elem P x (y ∷ ys) h (inr m) = All-Elem P x ys h.1 m

-- The postings that a list of keys costs, and how many of its keys occur at all.
abbrev pub cost : List (String × ℕ) → ℕ
cost [] = 0
cost ((k, d) ∷ ks) = d + cost ks

abbrev pub matching : List (String × ℕ) → ℕ
matching ks = count (λ (x : String × ℕ). ltb 0 x.1) ks

common_order : TotalPreorder no_more_common
common_order = record { le_total = λ x y h. ground arith; le_trans = λ x y z h k. ground arith }

-- Once a matching key was kept, the budget is kept to.
cost-within_budget :
    (budget spent : ℕ) (ks : List (String × ℕ))
    → spent + cost (within_budget budget spent true ks) ≤ max budget spent
unfolding within_budget
cost-within_budget budget spent [] = omega arith
cost-within_budget budget spent ((k, d) ∷ ks) =
    ground (arith, cost-within_budget budget (spent + d) ks)

matching-within_budget :
    (budget spent : ℕ) (ks : List (String × ℕ))
    → budget < spent
    → matching (within_budget budget spent true ks) ≡ 0
unfolding within_budget
matching-within_budget budget spent [] h = refl
matching-within_budget budget spent ((k, d) ∷ ks) h =
    ground (arith, matching-within_budget budget (spent + d) ks)

first_within_budget :
    (budget : ℕ) (ks : List (String × ℕ))
    → (cost (within_budget budget 0 false ks) ≤ budget)
      ⊎ (matching (within_budget budget 0 false ks) ≡ 1)
unfolding within_budget
first_within_budget budget [] = inl (omega arith)
first_within_budget budget ((k, zero) ∷ ks) = ground (arith, first_within_budget budget ks)
first_within_budget budget ((k, suc d) ∷ ks) = elim (Bool-cases (ltb budget (suc d))) [
  | inl e ↦ inr (ground (arith, matching-within_budget budget (suc d) ks))
  | inr e ↦ inl (ground (arith, cost-within_budget budget (suc d) ks))
]

kept_first :
    (budget : ℕ) (k : String) (d : ℕ) (ks : List (String × ℕ))
    → Elem (k, suc d) (within_budget budget 0 false ((k, suc d) ∷ ks))
unfolding within_budget
kept_first budget k d ks = rw (lt→ltb 0 (suc d) (omega arith)) (inl refl)

rarest_survives :
    (budget : ℕ) (ks : List (String × ℕ)) (x : String × ℕ)
    → IsSorted no_more_common ks
    → Elem x ks
    → 0 < x.1
    → (y : String × ℕ) × Elem y (within_budget budget 0 false ks) × (0 < y.1) × (y.1 ≤ x.1)
unfolding within_budget
rarest_survives budget [] x s m h = absurd m
rarest_survives budget ((k, zero) ∷ ks) x s (inl e) h =
    absurd (omega (arith, ap (λ (z : String × ℕ). z.1) e, h))
rarest_survives budget ((k, zero) ∷ ks) x s (inr m) h =
    let (y, e, p, q) = rarest_survives budget ks x s.1 m h in (y, inr e, p, q)
rarest_survives budget ((k, suc d) ∷ ks) x s (inl e) h = (
  (k, suc d),
  kept_first budget k d ks,
  omega arith,
  omega (arith, ap (λ (z : String × ℕ). z.1) e),
)
rarest_survives budget ((k, suc d) ∷ ks) x s (inr m) h = (
  (k, suc d),
  kept_first budget k d ks,
  omega arith,
  leb→le _ _ (All-Elem (λ y. no_more_common (k, suc d) y ≡ true) x ks s.0 m),
)

unknown_survives :
    (budget : ℕ) (ks : List (String × ℕ)) (k : String)
    → IsSorted no_more_common ks
    → Elem (k, 0) ks
    → Elem (k, 0) (within_budget budget 0 false ks)
unfolding within_budget
unknown_survives budget [] k s m = absurd m
unknown_survives budget ((j, zero) ∷ ks) k s (inl e) = inl e
unknown_survives budget ((j, zero) ∷ ks) k s (inr m) = inr (unknown_survives budget ks k s.1 m)
unknown_survives budget ((j, suc d) ∷ ks) k s (inl e) =
    absurd (omega (arith, ap (λ (z : String × ℕ). z.1) e))
unknown_survives budget ((j, suc d) ∷ ks) k s (inr m) =
    absurd (
      omega
        (arith, leb→le _ _ (All-Elem (λ y. no_more_common (j, suc d) y ≡ true) (k, 0) ks s.0 m)))

-- The keys that are kept cost no more postings than the budget, unless one of them alone occurs.
pub kept_keys_budget :
    (budget : ℕ) (dfs : List (String × ℕ))
    → (cost (kept_keys budget dfs) ≤ budget) ⊎ (matching (kept_keys budget dfs) ≡ 1)
unfolding kept_keys
kept_keys_budget budget dfs = first_within_budget budget (sort no_more_common dfs)

-- For each key that occurs, one that occurs and is no more common is kept, so that the rarest ones
-- survive; and a key that does not occur is always kept.
pub kept_keys_survive :
    (budget : ℕ) (dfs : List (String × ℕ))
    → ((x : String × ℕ)
        → Elem x dfs
        → 0 < x.1
        → (y : String × ℕ) × Elem y (kept_keys budget dfs) × (0 < y.1) × (y.1 ≤ x.1))
      × ((k : String) → Elem (k, 0) dfs → Elem (k, 0) (kept_keys budget dfs))
unfolding kept_keys
kept_keys_survive budget dfs =
    let sorted = sort-IsSorted no_more_common common_order dfs in
    let members = sort-perm no_more_common dfs in
    (
      λ x m h.
          rarest_survives budget (sort no_more_common dfs) x sorted (Elem-Reordered x members m) h,
      λ k m.
          unknown_survives budget (sort no_more_common dfs) k sorted
            (Elem-Reordered (k, 0) members m),
    )
