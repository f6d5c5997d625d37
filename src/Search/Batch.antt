-- ===== src/Search/Batch.antt =====
-- A batch that is rescored with one fetch gives each query what it gets alone.
use raggio.Prelude.{
  ℕ, ◌≡◌, refl, sym, ap, ap₂, ◌∙◌, true, none, some, List, [], ◌∷◌, map, arith, All,
}
use raggio.Prelude.Keys.{nat_eq, lookup}
use raggio.Ranking.{Scores, top}
use raggio.Search.{
  Kernel, add_new, Candidates, row_of, fp16_vecs, merged, rescore_row, all_candidates, rescore_rows,
  first_row,
}
use raggio.Search.Direct.{has_id, hit_ids, has-add_new, self_known}

module _ {V I M Q S : Type 0} (sc : Scores S) (kn : Kernel V I M Q S) (vecs : List (ℕ × V)) where
  open kn use {dot}

  -- The exact score where there is a row.
  best_known : Q → ℕ × S → ℕ × S
  best_known q (i, s) = elim (row_of sc kn vecs i) [ none ↦ (i, s) | some m ↦ (i, dot m q) ]

  map-merged :
      (q : Q) (hits : List (ℕ × S)) (found : List (ℕ × M))
      → All (λ (h : ℕ × S). lookup h.0 found ≡ row_of sc kn vecs h.0) hits
      → map (merged sc kn vecs found q) hits ≡ map (best_known q) hits
  unfolding merged best_known
  map-merged q [] found known = refl
  map-merged q ((i, s) ∷ hits) found known =
      ap₂ ◌∷◌ (rw (known.0, merged) refl) (map-merged q hits found known.1)

  rescore_row_lem :
      (c : Candidates Q S) (ids : List ℕ)
      → ((i : ℕ)
          → has_id sc kn vecs i (hit_ids sc kn vecs c.hits) ≡ true
          → has_id sc kn vecs i ids ≡ true)
      → rescore_row sc kn vecs (fp16_vecs sc kn vecs ids) c
        ≡ top sc c.depth (map (best_known c.query) c.hits)
  unfolding rescore_row
  rescore_row_lem c ids sub =
      ap (top sc c.depth) (
        map-merged c.query c.hits (fp16_vecs sc kn vecs ids) (self_known sc kn vecs c.hits ids sub))

  in_new :
      (c : Candidates Q S) (others : List ℕ) (i : ℕ)
      → has_id sc kn vecs i (hit_ids sc kn vecs c.hits) ≡ true
      → has_id sc kn vecs i (add_new (hit_ids sc kn vecs c.hits) others) ≡ true
  in_new c others i h =
      ground (arith, has-add_new sc kn vecs i (hit_ids sc kn vecs c.hits) others, h)

  rescore_all :
      (rows : List (Candidates Q S)) (ids : List ℕ)
      → ((i : ℕ)
          → has_id sc kn vecs i (all_candidates sc kn vecs rows) ≡ true
          → has_id sc kn vecs i ids ≡ true)
      → map (rescore_row sc kn vecs (fp16_vecs sc kn vecs ids)) rows
        ≡ map (λ c. first_row sc kn vecs (rescore_rows sc kn vecs (c ∷ []))) rows
  unfolding all_candidates rescore_rows first_row
  rescore_all [] ids sub = refl
  rescore_all (c ∷ cs) ids sub =
      ap₂ ◌∷◌
        (rescore_row_lem c ids (λ i h. sub i (in_new c (all_candidates sc kn vecs cs) i h))
          ∙ sym (rescore_row_lem c (add_new (hit_ids sc kn vecs c.hits) []) (in_new c [])))
        (rescore_all cs ids (λ i h. sub i (
          ground (
            arith,
            has-add_new sc kn vecs i (hit_ids sc kn vecs c.hits) (all_candidates sc kn vecs cs),
            h,
          ))))

  -- The queries of a batch, rescored together with one fetch of their candidates' rows, get the ids,
  -- scores and order that each gets alone.
  pub rescore_rows-alone :
      (rows : List (Candidates Q S))
      → rescore_rows sc kn vecs rows
        ≡ map (λ c. first_row sc kn vecs (rescore_rows sc kn vecs (c ∷ []))) rows
  unfolding rescore_rows
  rescore_rows-alone rows = rescore_all rows (all_candidates sc kn vecs rows) (λ i h. h)
