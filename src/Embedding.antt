-- ===== src/Embedding.antt =====
-- How missing vectors are fetched: `Embedder.embed` of src/raggio/embeddings.py, and the batches of
-- `_process_job` of src/raggio/store.py.
--
-- The endpoint is a parameter: what it answers to the n-th attempt, nothing where the request or the
-- reading of its answer raises. The sleeps between attempts are left out.
pub mod Retry
pub mod Batches
mod Examples
use raggio.Prelude.{
  ℕ, zero, suc, String, Option, none, some, List, [], ◌∷◌, ◌++◌, map, leb, length, if◌then◌else◌,
}
use raggio.Rows.{Row}
use raggio.Slices.{slices}

module _ {V : Type 0} where
  -- `data.sort(key=lambda d: d["index"])`, which is stable.
  pub insert_by_index : ℕ × V → List (ℕ × V) → List (ℕ × V)
  insert_by_index d [] = d ∷ []
  insert_by_index d (e ∷ es) =
      let rest = insert_by_index d es in if leb d.0 e.0 then d ∷ e ∷ es else e ∷ rest

  pub sort_by_index : List (ℕ × V) → List (ℕ × V)
  unfolding insert_by_index
  sort_by_index [] = []
  sort_by_index (d ∷ ds) = insert_by_index d (sort_by_index ds)

  -- The loop from attempt `n` on, with so many attempts left; none is the `RuntimeError`.
  pub embed_from : ℕ → ℕ → (ℕ → Option (List (ℕ × V))) → Option (List V)
  unfolding sort_by_index
  embed_from zero n post = none
  embed_from (suc left) n post = elim (post n) [
    | none ↦ embed_from left (suc n) post
    | some answer ↦ some (map (λ (d : ℕ × V). d.1) (sort_by_index answer))
  ]

  pub embed : (ℕ → Option (List (ℕ × V))) → Option (List V)
  unfolding embed_from
  embed post = embed_from 3 0 post

  -- The texts of the rows that have no vector.
  pub need : List (Row V) → List (Option String)
  need [] = []
  need (r ∷ rs) = elim r.vector [ some v ↦ need rs | none ↦ r.text ∷ need rs ]

  -- `zip(batch, vecs)`: a text for which no vector came back keeps none.
  pub zip_batch : List (Option String) → List V → List (Option V)
  zip_batch [] vs = []
  zip_batch (t ∷ ts) [] = none ∷ zip_batch ts []
  zip_batch (t ∷ ts) (v ∷ vs) = some v ∷ zip_batch ts vs

  -- One request per batch, in order; the first that raises ends the job.
  pub embed_batches :
      (List (Option String) → Option (List V))
      → List (List (Option String))
      → Option (List (Option V))
  unfolding zip_batch
  embed_batches request [] = some []
  embed_batches request (ts ∷ tss) = elim (request ts) [
    | none ↦ none
    | some vs ↦ elim (embed_batches request tss) [
      | none ↦ none
      | some ws ↦ some (zip_batch ts vs ++ ws)
    ]
  ]

  -- The rows that lack a vector take those that came back, in order.
  pub fill : List (Row V) → List (Option V) → List (Row V)
  fill [] ws = []
  fill (r ∷ rs) ws = elim r.vector [
    | some v ↦ r ∷ fill rs ws
    | none ↦ elim ws [ [] ↦ r ∷ fill rs [] | w ∷ ws' ↦ record r { vector = w } ∷ fill rs ws' ]
  ]

  pub embed_rows : (List (Option String) → Option (List V)) → List (Row V) → Option (List (Row V))
  unfolding need embed_batches fill
  embed_rows request rows = elim (embed_batches request (slices 64 (need rows))) [
    | none ↦ none
    | some ws ↦ some (fill rows ws)
  ]
