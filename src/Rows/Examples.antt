-- ===== src/Rows/Examples.antt =====
-- A payload that gives one external id twice.
use raggio.Prelude.{ℕ, ◌≡◌, String, none, some, List, [], ◌∷◌}
use raggio.Prelude.Keys.{string_eq, Distinct}
use raggio.Rows.{ChunkIn, DocumentIn, all_rows, payload_rows}
use raggio.Rows.Unique.{row_id, find_row, last_row, payload_rows-last}

abbrev chunk_of : String → ChunkIn ℕ
chunk_of t = record {
  content = record { text = some t; vector = some 1; metadata = none };
  id = "c";
  position = none;
}

abbrev twice : List (DocumentIn ℕ)
twice =
    record { doc_id = "d"; summary_in = none; chunks = chunk_of "old" ∷ chunk_of "new" ∷ [] } ∷ []

payload_rows-last_example :
    Distinct row_id (payload_rows twice)
    × ((k : String) → find_row k (payload_rows twice) ≡ last_row k (all_rows twice))
payload_rows-last_example = payload_rows-last twice
