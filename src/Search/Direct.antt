-- ===== src/Search/Direct.antt =====
-- The direct path of `_search_allowed` and the search of the index give the same answer.
use raggio.Prelude.{
  ℕ, ◌≤◌, ◌≡◌, refl, sym, ap, ap₂, ◌∙◌, Bool, true, ◌||◌, none, some, List, [], ◌∷◌, map, max,
  length, leb, leb→le, ◌==◌, ==_iff, if◌then◌else◌, arith, Bool-cases, Option-cases, inl, inr, All,
}
use raggio.Prelude.Keys.{nat_eq, lookup, has}
use raggio.Ranking.{Scores, top}
use raggio.Ranking.Sorting.{
  Reordered, nil, cons, swap, trans, Reordered-map, Reordered-refl, length-Reordered,
}
use raggio.Ranking.Order.{top-eq}
use raggio.Search.{
  Kernel, rescore_k, add_new, row_of, fp16_vecs, merged, rescore_row, all_candidates, rescore_rows,
  real_hits, search_rescored, search_allowed, answered_rows, first_row, max_of,
}

module _ {V I M Q S : Type 0} (sc : Scores S) (kn : Kernel V I M Q S) (vecs : List (ℕ × V)) where
  open kn use {size, search, decode, dot}

  abbrev pub has_id : ℕ → List ℕ → Bool
  has_id = has (λ (g : ℕ). g)

  -- What is fetched for ids is what each of them has.
  lookup-fp16_vecs :
      (i : ℕ) (ids : List ℕ)
      → lookup i (fp16_vecs sc kn vecs ids) ≡ (if has_id i ids then row_of sc kn vecs i else none)
  unfolding lookup fp16_vecs
  lookup-fp16_vecs i [] = refl
  lookup-fp16_vecs i (j ∷ js) = ground (arith, ==_iff i j, ==_iff j i, lookup-fp16_vecs i js)

  pub has-add_new :
      (i : ℕ) (is seen : List ℕ) → has_id i (add_new is seen) ≡ (has_id i is || has_id i seen)
  unfolding add_new
  has-add_new i [] seen = refl
  has-add_new i (j ∷ is) seen =
      ground (arith, has-add_new i is seen, has-add_new j is seen, ==_iff i j, ==_iff j i)

  length-fp16_vecs : (ids : List ℕ) → length (fp16_vecs sc kn vecs ids) ≤ length ids
  unfolding fp16_vecs
  length-fp16_vecs [] = omega arith
  length-fp16_vecs (i ∷ is) = ground (arith, length-fp16_vecs is)

  fp16_vecs-missing :
      (i : ℕ) (is : List ℕ)
      → row_of sc kn vecs i ≡ none
      → fp16_vecs sc kn vecs (i ∷ is) ≡ fp16_vecs sc kn vecs is
  unfolding fp16_vecs
  fp16_vecs-missing i is e = rw (e, fp16_vecs)

  fp16_vecs-found :
      (i : ℕ) (is : List ℕ) {m : M}
      → row_of sc kn vecs i ≡ some m
      → fp16_vecs sc kn vecs (i ∷ is) ≡ (i, m) ∷ fp16_vecs sc kn vecs is
  unfolding fp16_vecs
  fp16_vecs-found i is e = rw (e, fp16_vecs)

  swapped :
      (i j : ℕ) (is : List ℕ)
      → Reordered (fp16_vecs sc kn vecs (i ∷ j ∷ is)) (fp16_vecs sc kn vecs (j ∷ i ∷ is))
  swapped i j is = elim (Option-cases (row_of sc kn vecs i)) [
    | inl e ↦ rw (fp16_vecs-missing i (j ∷ is) e) (elim (Option-cases (row_of sc kn vecs j)) [
      | inl f ↦ rw (fp16_vecs-missing j is f) (
          rw (fp16_vecs-missing j (i ∷ is) f)
            (rw (fp16_vecs-missing i is e) (Reordered-refl (fp16_vecs sc kn vecs is))))
      | inr (m, f) ↦
          rw (fp16_vecs-found j is f)
            (rw (fp16_vecs-found j (i ∷ is) f) (rw (fp16_vecs-missing i is e) (Reordered-refl _)))
    ])
    | inr (m, e) ↦ rw (fp16_vecs-found i (j ∷ is) e) (elim (Option-cases (row_of sc kn vecs j)) [
      | inl f ↦
          rw (fp16_vecs-missing j is f)
            (rw (fp16_vecs-missing j (i ∷ is) f) (rw (fp16_vecs-found i is e) (Reordered-refl _)))
      | inr (k, f) ↦ rw (fp16_vecs-found j is f) (
          rw (fp16_vecs-found j (i ∷ is) f)
            (rw (fp16_vecs-found i is e) (swap (i, m) (j, k) (fp16_vecs sc kn vecs is))))
    ])
  ]

  Reordered-fp16_vecs :
      {ids others : List ℕ}
      → Reordered ids others
      → Reordered (fp16_vecs sc kn vecs ids) (fp16_vecs sc kn vecs others)
  unfolding fp16_vecs
  Reordered-fp16_vecs nil = nil
  Reordered-fp16_vecs (cons {xs} {ys} i p) = elim (Option-cases (row_of sc kn vecs i)) [
    | inl e ↦ rw (fp16_vecs-missing i xs e) (rw (fp16_vecs-missing i ys e) (Reordered-fp16_vecs p))
    | inr (m, e) ↦
        rw (fp16_vecs-found i xs e)
          (rw (fp16_vecs-found i ys e) (cons (i, m) (Reordered-fp16_vecs p)))
  ]
  Reordered-fp16_vecs (swap i j is) = swapped i j is
  Reordered-fp16_vecs (trans p q) = trans (Reordered-fp16_vecs p) (Reordered-fp16_vecs q)

  abbrev pub hit_ids : List (ℕ × S) → List ℕ
  hit_ids = map (λ h. h.0)

  length-ids : (hits : List (ℕ × S)) → length (hit_ids hits) ≡ length hits
  length-ids [] = refl
  length-ids (h ∷ hs) = omega (arith, length-ids hs)

  abbrev exact : Q → ℕ × M → ℕ × S
  exact q f = (f.0, dot f.1 q)

  -- Where every candidate has a row, no quantised score is left.
  map-merged :
      (q : Q) (hits : List (ℕ × S)) (found : List (ℕ × M))
      → All (λ (h : ℕ × S). lookup h.0 found ≡ row_of sc kn vecs h.0) hits
      → length (fp16_vecs sc kn vecs (hit_ids hits)) ≡ length hits
      → map (merged sc kn vecs found q) hits ≡ map (exact q) (fp16_vecs sc kn vecs (hit_ids hits))
  unfolding fp16_vecs merged
  map-merged q [] found known all_found = refl
  map-merged q ((i, s) ∷ hits) found known all_found = elim (Option-cases (row_of sc kn vecs i)) [
    | inl e ↦ absurd (
        omega (
          arith,
          rw (fp16_vecs-missing i (hit_ids hits) e) at all_found,
          length-fp16_vecs (hit_ids hits),
          length-ids hits,
        ))
    | inr (m, e) ↦ rw (fp16_vecs-found i (hit_ids hits) e) (
        ap₂ ◌∷◌ (rw (known.0 ∙ e, merged)) (
          map-merged q hits found known.1
            (omega (arith, rw (fp16_vecs-found i (hit_ids hits) e) at all_found))))
  ]

  pub self_known :
      (hits : List (ℕ × S)) (ids : List ℕ)
      → ((i : ℕ) → has_id i (hit_ids hits) ≡ true → has_id i ids ≡ true)
      → All (λ (h : ℕ × S). lookup h.0 (fp16_vecs sc kn vecs ids) ≡ row_of sc kn vecs h.0) hits
  self_known [] ids sub = tt
  self_known ((i, s) ∷ hits) ids sub = (
    lookup-fp16_vecs i ids ∙ ground (arith, sub i, ==_iff i i),
    self_known hits ids (λ j h. sub j (ground (arith, h))),
  )

  module _ (bit_width : ℕ) (index : I) (q : Q) (n : ℕ) (allow : List ℕ) where
    -- The real hits of the masked search for the one query.
    abbrev pub masked_hits : List (ℕ × S)
    masked_hits =
        real_hits sc kn vecs
          (search index (q ∷ []) (rescore_k bit_width (size index) n) (some allow) 0)

    max_zero : (k : ℕ) → max k 0 ≡ k
    max_zero k = omega arith

    rescored_lem :
        first_row sc kn vecs
          (search_rescored sc kn vecs bit_width index (q ∷ []) (n ∷ []) (some allow))
        ≡ top sc n (
            map
              (merged sc kn vecs (fp16_vecs sc kn vecs (add_new (hit_ids masked_hits) [])) q)
              masked_hits)
    unfolding search_rescored first_row rescore_rows rescore_row all_candidates answered_rows max_of
    rescored_lem = rw (max_zero n) refl

    direct_lem :
        Reordered (hit_ids masked_hits) allow
        → length (fp16_vecs sc kn vecs allow) ≡ length allow
        → first_row sc kn vecs
            (search_rescored sc kn vecs bit_width index (q ∷ []) (n ∷ []) (some allow))
          ≡ top sc n (map (exact q) (fp16_vecs sc kn vecs allow))
    direct_lem p complete =
        let ids = hit_ids masked_hits in
        let found = Reordered-fp16_vecs p in
        let known =
          self_known masked_hits (add_new ids [])
            (λ i h. ground (arith, has-add_new i ids [], h)) in
        let full : length (fp16_vecs sc kn vecs ids) ≡ length masked_hits =
          omega
            (arith, length-Reordered found, length-Reordered p, length-ids masked_hits, complete) in
        rescored_lem
        ∙ (ap (top sc n)
              (map-merged q masked_hits (fp16_vecs sc kn vecs (add_new ids [])) known full)
            ∙ top-eq sc n (Reordered-map (exact q) found))

    -- The direct path of a search over an allowlist gives the ids, scores and order of the search
    -- through the index, whichever of the two the code takes. Assumes that a masked search as deep as
    -- its allowlist returns every id of the allowlist once.
    pub search_allowed-rescored :
        (length allow ≤ rescore_k bit_width (size index) n → Reordered (hit_ids masked_hits) allow)
        → search_allowed sc kn vecs bit_width index q n allow
          ≡ first_row sc kn vecs
              (search_rescored sc kn vecs bit_width index (q ∷ []) (n ∷ []) (some allow))
    unfolding search_allowed
    search_allowed-rescored returns_all =
        elim (Bool-cases (leb (length allow) (rescore_k bit_width (size index) n))) [
          | inr e ↦ rw e
          | inl e ↦ elim (Bool-cases (length (fp16_vecs sc kn vecs allow) == length allow)) [
            | inr f ↦ rw e (rw f)
            | inl f ↦ rw e (rw f (sym (direct_lem (returns_all (leb→le _ _ e)) ((==_iff _ _).0 f))))
          ]
        ]
