-- ===== src/Embedding/Examples.antt =====
-- An endpoint that fails once, and rows of which one has a vector.
use raggio.Prelude.{ℕ, zero, suc, ◌≡◌, String, Option, none, some, List, [], ◌∷◌, map}
use raggio.Rows.{Row, chunk}
use raggio.Embedding.{embed_rows}
use raggio.Embedding.Batches.{answers, with_vector, embed_rows_lem}

abbrev second_time : ℕ → Option (List (ℕ × ℕ))
second_time zero = none
second_time (suc n) = some ((1, 20) ∷ (0, 10) ∷ [])

abbrev row : String → Option ℕ → Row ℕ
row t v = record {
  external_id = t;
  doc_id = "d";
  kind = chunk;
  position = none;
  text = some t;
  metadata = none;
  vector = v;
}

abbrev rows : List (Row ℕ)
rows = row "a" none ∷ row "b" (some 5) ∷ row "c" none ∷ []

abbrev seven : Option String → ℕ
seven t = 7

embed_rows_lem_example : embed_rows (answers seven) rows ≡ some (map (with_vector seven) rows)
embed_rows_lem_example = embed_rows_lem seven rows
