-- ===== src/Embedding/Batches.antt =====
-- Batching changes nothing: each row gets the vector of its own text.
use raggio.Prelude.{
  ◌≡◌, refl, sym, ap, ap₂, ◌∙◌, String, Option, none, some, List, [], ◌∷◌, ◌++◌, map, arith,
}
use raggio.Rows.{Row}
use raggio.Slices.{slices, concat, concat-slices}
use raggio.Embedding.{need, zip_batch, embed_batches, fill, embed_rows}

map-append {ℓ κ} :
    {A : Type ℓ} {B : Type κ} (f : A → B) (xs ys : List A) → map f (xs ++ ys) ≡ map f xs ++ map f ys
map-append f [] ys = refl
map-append f (x ∷ xs) ys = ap (◌∷◌ (f x)) (map-append f xs ys)

module _ {V : Type 0} (f : Option String → V) where
  -- An endpoint that answers each text by itself.
  abbrev pub answers : List (Option String) → Option (List V)
  answers ts = some (map f ts)

  -- The row with its vector, its own or that of its text.
  pub with_vector : Row V → Row V
  with_vector r = elim r.vector [ some v ↦ r | none ↦ record r { vector = some (f r.text) } ]

  zip_batch-map : (ts : List (Option String)) → zip_batch ts (map f ts) ≡ map (λ t. some (f t)) ts
  unfolding zip_batch
  zip_batch-map [] = refl
  zip_batch-map (t ∷ ts) = ap (◌∷◌ (some (f t))) (zip_batch-map ts)

  embed_batches-concat :
      (tss : List (List (Option String)))
      → embed_batches answers tss ≡ some (map (λ t. some (f t)) (concat tss))
  unfolding embed_batches concat
  embed_batches-concat [] = refl
  embed_batches-concat (ts ∷ tss) = rw (embed_batches-concat tss) (
      ap some
        (ap₂ ◌++◌ (zip_batch-map ts) refl ∙ sym (map-append (λ t. some (f t)) ts (concat tss))))

  fill-need :
      (rows : List (Row V)) → fill rows (map (λ t. some (f t)) (need rows)) ≡ map with_vector rows
  unfolding fill need with_vector
  fill-need [] = refl
  fill-need (r ∷ rows) = ground (arith, fill-need rows)

  -- With an endpoint that answers each text by itself, a job's rows come out each with its own vector
  -- or, where it had none, with that of its text; how they are cut into batches does not matter.
  pub embed_rows_lem : (rows : List (Row V)) → embed_rows answers rows ≡ some (map with_vector rows)
  unfolding embed_rows
  embed_rows_lem rows =
      rw (embed_batches-concat (slices 64 (need rows)), embed_rows)
        (ap some (
          ap (λ (ts : List (Option String)). fill rows (map (λ t. some (f t)) ts))
            (concat-slices 64 (need rows) (omega arith))
          ∙ fill-need rows))
