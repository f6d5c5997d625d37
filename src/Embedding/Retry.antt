-- ===== src/Embedding/Retry.antt =====
-- The three attempts of `Embedder.embed`.
use raggio.Prelude.{
  ℕ, zero, suc, ◌+◌, ◌≤◌, ◌<◌, ◌≡◌, refl, ap, ◌∙◌, Bool, ◌⊎◌, inl, inr, Option, none, some, List,
  [], ◌∷◌, map, arith, leb, ◌==◌, ==_iff, count, All, All-map, Bool-cases,
}
use raggio.Embedding.{insert_by_index, sort_by_index, embed_from, embed}

module _ {V : Type 0} where
  -- Indices never fall.
  abbrev pub IsSorted : List (ℕ × V) → Type 0
  IsSorted [] = Unit
  IsSorted (d ∷ ds) = All (λ e. d.0 ≤ e.0) ds × IsSorted ds

  insert-All :
      (n : ℕ) (d : ℕ × V) (ds : List (ℕ × V))
      → n ≤ d.0
      → All (λ e. n ≤ e.0) ds
      → All (λ e. n ≤ e.0) (insert_by_index d ds)
  unfolding insert_by_index
  insert-All n d [] h k = (h, tt)
  insert-All n d (e ∷ es) h k = elim (Bool-cases (leb d.0 e.0)) [
    | inl c ↦ rw c (h, k)
    | inr c ↦ rw c (k.0, insert-All n d es h k.1)
  ]

  insert-IsSorted : (d : ℕ × V) (ds : List (ℕ × V)) → IsSorted ds → IsSorted (insert_by_index d ds)
  unfolding insert_by_index
  insert-IsSorted d [] s = (tt, tt)
  insert-IsSorted d (e ∷ es) s = elim (Bool-cases (leb d.0 e.0)) [
    | inl c ↦
        let le : d.0 ≤ e.0 = ground arith in
        rw c ((le, All-map _ _ es (λ f h. omega (arith, le, h)) s.0), s)
    | inr c ↦ rw c (insert-All e.0 d es (ground arith) s.0, insert-IsSorted d es s.1)
  ]

  pub sort-IsSorted : (ds : List (ℕ × V)) → IsSorted (sort_by_index ds)
  unfolding sort_by_index
  sort-IsSorted [] = tt
  sort-IsSorted (d ∷ ds) = insert-IsSorted d (sort_by_index ds) (sort-IsSorted ds)

  count-insert :
      (p : ℕ × V → Bool) (d : ℕ × V) (ds : List (ℕ × V))
      → count p (insert_by_index d ds) ≡ count p (d ∷ ds)
  unfolding insert_by_index
  count-insert p d [] = refl
  count-insert p d (e ∷ es) = ground (arith, count-insert p d es)

  count-sort : (p : ℕ × V → Bool) (ds : List (ℕ × V)) → count p (sort_by_index ds) ≡ count p ds
  unfolding sort_by_index
  count-sort p [] = refl
  count-sort p (d ∷ ds) = ground (arith, count-sort p ds, count-insert p d (sort_by_index ds))

  -- What the caller gets of an answer: its vectors by rising index, each as often as it was answered.
  abbrev pub IsOrdered : List (ℕ × V) → List V → Type 0
  IsOrdered answer vs =
      (ds : List (ℕ × V)) × ((vs ≡ map (λ (d : ℕ × V). d.1) ds)
        × (IsSorted ds × ((p : ℕ × V → Bool) → count p ds ≡ count p answer)))

  -- What the attempts from `n` on, of which there are `left`, come to: the answer of the first that
  -- succeeds, or nothing, where all of them failed.
  abbrev pub FirstAnswer : (ℕ → Option (List (ℕ × V))) → ℕ → ℕ → Option (List V) → Type 0
  FirstAnswer post left n result =
      ((k : ℕ) × (answer : List (ℕ × V)) × (vs : List V) × (n ≤ k)
        × (k < n + left)
        × (post k ≡ some answer)
        × ((j : ℕ) → (j < n) ⊎ ((k ≤ j) ⊎ (post j ≡ none)))
        × (result ≡ some vs)
        × IsOrdered answer vs)
      ⊎ ((result ≡ none) × ((j : ℕ) → (j < n) ⊎ ((n + left ≤ j) ⊎ (post j ≡ none))))

  earlier :
      (post : ℕ → Option (List (ℕ × V))) (n k : ℕ)
      → post n ≡ none
      → ((j : ℕ) → (j < suc n) ⊎ ((k ≤ j) ⊎ (post j ≡ none)))
      → (j : ℕ) → (j < n) ⊎ ((k ≤ j) ⊎ (post j ≡ none))
  earlier post n k e f j = elim (Bool-cases (j == n)) [
    | inl q ↦ inr (inr (ap post ((==_iff j n).0 q) ∙ e))
    | inr q ↦ elim (f j) [ inl l ↦ inl (ground arith) | inr r ↦ inr r ]
  ]

  embed_from_lem :
      (post : ℕ → Option (List (ℕ × V))) (left n : ℕ)
      → FirstAnswer post left n (embed_from left n post)
  unfolding embed_from
  embed_from_lem post zero n = inr (refl, λ j. ground arith)
  embed_from_lem post (suc left) n = go (post n) refl (embed_from_lem post left (suc n))
    where
      go :
          (o : Option (List (ℕ × V)))
          → post n ≡ o
          → FirstAnswer post left (suc n) (embed_from left (suc n) post)
          → FirstAnswer post (suc left) n (elim o [
            | none ↦ embed_from left (suc n) post
            | some answer ↦ some (map (λ (d : ℕ × V). d.1) (sort_by_index answer))
          ])
      go none e (inl (k, a, vs, low, high, at, f, r, q)) =
          inl (k, a, vs, omega (arith, low), omega (arith, high), at, earlier post n k e f, r, q)
      go none e (inr (r, f)) = inr (
        r,
        λ j. elim (earlier post n (suc n + left) e f j) [
          | inl l ↦ inl l
          | inr (inl l) ↦ inr (inl (omega (arith, l)))
          | inr (inr q) ↦ inr (inr q)
        ],
      )
      go (some a) e h = inl (
        n,
        a,
        map (λ (d : ℕ × V). d.1) (sort_by_index a),
        omega arith,
        omega arith,
        e,
        (λ j. ground arith),
        refl,
        (sort_by_index a, (refl, (sort-IsSorted a, λ p. count-sort p a))),
      )

  -- A request makes at most three attempts. It returns the vectors of the first one that succeeds, by
  -- rising index and each as often as it was answered; it fails only if all three failed.
  pub embed_lem : (post : ℕ → Option (List (ℕ × V))) → FirstAnswer post 3 0 (embed post)
  unfolding embed
  embed_lem post = embed_from_lem post 3 0
