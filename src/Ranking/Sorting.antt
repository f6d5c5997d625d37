-- ===== src/Ranking/Sorting.antt =====
-- Sorting by a total order: it permutes, its result is in order, and permuted inputs give one result.
use raggio.Prelude.{
  suc, ◌+◌, ◌≡◌, refl, ap, ◌∙◌, Bool, true, false, List, [], ◌∷◌, map, arith, Bool-cases, inl, inr,
  All, length,
}
use raggio.Ranking.{insert_sorted, sort}

-- One list is the other in another order, with the steps that lead there.
pub data Reordered {A : Type 0} : List A → List A → Type 0 where
  nil : Reordered [] []
  cons : {xs ys : List A} (x : A) → Reordered xs ys → Reordered (x ∷ xs) (x ∷ ys)
  swap : (x y : A) (xs : List A) → Reordered (x ∷ y ∷ xs) (y ∷ x ∷ xs)
  trans : {xs ys zs : List A} → Reordered xs ys → Reordered ys zs → Reordered xs zs

pub Reordered-refl : {A : Type 0} (xs : List A) → Reordered xs xs
Reordered-refl [] = nil
Reordered-refl (x ∷ xs) = cons x (Reordered-refl xs)

pub Reordered-map :
    {A B : Type 0} (f : A → B) {xs ys : List A} → Reordered xs ys → Reordered (map f xs) (map f ys)
Reordered-map f nil = nil
Reordered-map f (cons x p) = cons (f x) (Reordered-map f p)
Reordered-map f (swap x y xs) = swap (f x) (f y) (map f xs)
Reordered-map f (trans p q) = trans (Reordered-map f p) (Reordered-map f q)

pub length-Reordered : {A : Type 0} {xs ys : List A} → Reordered xs ys → length xs ≡ length ys
length-Reordered nil = refl
length-Reordered (cons x p) = ap suc (length-Reordered p)
length-Reordered (swap x y xs) = refl
length-Reordered (trans p q) = length-Reordered p ∙ length-Reordered q

-- An order in which two members may be level.
pub record TotalPreorder {A : Type 0} (le : A → A → Bool) : Type 0 where
  pub le_total : (x y : A) → le x y ≡ false → le y x ≡ true
  pub le_trans : (x y z : A) → le x y ≡ true → le y z ≡ true → le x z ≡ true

pub record TotalOrder {A : Type 0} (le : A → A → Bool) : Type 0 where
  pub preorder : TotalPreorder le
  pub open preorder use *
  pub le_antisym : (x y : A) → le x y ≡ true → le y x ≡ true → x ≡ y

module _ {A : Type 0} (le : A → A → Bool) where
  -- Every member comes before all later ones.
  abbrev pub IsSorted : List A → Type 0
  IsSorted [] = Unit
  IsSorted (x ∷ xs) = All (λ y. le x y ≡ true) xs × IsSorted xs

  insert_sorted-perm : (x : A) (xs : List A) → Reordered (insert_sorted le x xs) (x ∷ xs)
  unfolding insert_sorted
  insert_sorted-perm x [] = Reordered-refl (x ∷ [])
  insert_sorted-perm x (y ∷ ys) = elim (Bool-cases (le x y)) [
    | inl e ↦ rw e (Reordered-refl (x ∷ y ∷ ys))
    | inr e ↦ rw e (trans (cons y (insert_sorted-perm x ys)) (swap y x ys))
  ]

  pub sort-perm : (xs : List A) → Reordered (sort le xs) xs
  unfolding sort
  sort-perm [] = nil
  sort-perm (x ∷ xs) = trans (insert_sorted-perm x (sort le xs)) (cons x (sort-perm xs))

  length-insert_sorted : (x : A) (xs : List A) → length (insert_sorted le x xs) ≡ length xs + 1
  unfolding insert_sorted
  length-insert_sorted x [] = omega arith
  length-insert_sorted x (y ∷ ys) = ground (arith, length-insert_sorted x ys)

  pub length-sort : (xs : List A) → length (sort le xs) ≡ length xs
  unfolding sort
  length-sort [] = refl
  length-sort (x ∷ xs) = omega (arith, length-insert_sorted x (sort le xs), length-sort xs)

  module _ (o : TotalPreorder le) where
    open o use {le_total, le_trans}

    insert_sorted-All :
        (P : A → Type 0) (x : A) (xs : List A) → P x → All P xs → All P (insert_sorted le x xs)
    unfolding insert_sorted
    insert_sorted-All P x [] px h = (px, tt)
    insert_sorted-All P x (y ∷ ys) px h = elim (Bool-cases (le x y)) [
      | inl e ↦ rw e (px, h)
      | inr e ↦ rw e (h.0, insert_sorted-All P x ys px h.1)
    ]

    below-All :
        (x y : A) (ys : List A)
        → le x y ≡ true
        → All (λ z. le y z ≡ true) ys
        → All (λ z. le x z ≡ true) ys
    below-All x y [] e h = tt
    below-All x y (z ∷ zs) e h = (le_trans x y z e h.0, below-All x y zs e h.1)

    insert_sorted-IsSorted : (x : A) (xs : List A) → IsSorted xs → IsSorted (insert_sorted le x xs)
    unfolding insert_sorted
    insert_sorted-IsSorted x [] h = (tt, tt)
    insert_sorted-IsSorted x (y ∷ ys) h = elim (Bool-cases (le x y)) [
      | inl e ↦ rw e ((e, below-All x y ys e h.0), h)
      | inr e ↦ rw e (
        insert_sorted-All (λ z. le y z ≡ true) x ys (le_total x y e) h.0,
        insert_sorted-IsSorted x ys h.1,
      )
    ]

    pub sort-IsSorted : (xs : List A) → IsSorted (sort le xs)
    unfolding sort
    sort-IsSorted [] = tt
    sort-IsSorted (x ∷ xs) = insert_sorted-IsSorted x (sort le xs) (sort-IsSorted xs)

  module _ (o : TotalOrder le) where
    open o use {le_total, le_trans, le_antisym}

    insert_sorted_comm :
        (x y : A) (zs : List A)
        → insert_sorted le x (insert_sorted le y zs) ≡ insert_sorted le y (insert_sorted le x zs)
    unfolding insert_sorted
    insert_sorted_comm x y [] = ground (arith, le_total x y, le_antisym x y)
    insert_sorted_comm x y (z ∷ zs) = ground (
      arith,
      le_total x y,
      le_antisym x y,
      le_trans x y z,
      le_trans y x z,
      insert_sorted_comm x y zs,
    )

    -- A sort by a total order forgets the order of its input.
    pub sort-eq : {xs ys : List A} → Reordered xs ys → sort le xs ≡ sort le ys
    unfolding sort
    sort-eq nil = refl
    sort-eq (cons x p) = ap (insert_sorted le x) (sort-eq p)
    sort-eq (swap x y xs) = insert_sorted_comm x y (sort le xs)
    sort-eq (trans p q) = sort-eq p ∙ sort-eq q
