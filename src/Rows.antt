-- ===== src/Rows.antt =====
-- `RecordIn`, `ChunkIn`, `DocumentIn` of src/raggio/app.py and `_payload_rows` of src/raggio/store.py:
-- an ingest payload and the record rows that it stands for.
--
-- `V` is the type of vectors. Metadata is a JSON object, as its list of fields.
pub mod Unique
mod Examples
use raggio.Prelude.{ℕ, suc, String, Bool, Option, none, some, List, [], ◌∷◌, ◌++◌, map}
use raggio.Prelude.Keys.{Eq, string_eq, insert}
use raggio.Json.{Json}

-- A position is a Python `int`; `negsuc n` is -(n + 1).
pub data ℤ : Type 0 where
  pos : ℕ → ℤ
  negsuc : ℕ → ℤ

abbrev pub Metadata : Type 0
Metadata = List (String × Json)

pub data Kind : Type 0 where
  chunk summary : Kind

pub record RecordIn (V : Type 0) : Type 0 where
  pub text : Option String
  pub vector : Option V
  pub metadata : Option Metadata

pub record ChunkIn (V : Type 0) : Type 0 where
  pub content : RecordIn V
  pub open content use *
  pub id : String
  pub position : Option ℤ

pub record DocumentIn (V : Type 0) : Type 0 where
  pub doc_id : String
  pub summary_in : Option (RecordIn V)
  pub chunks : List (ChunkIn V)

-- [external_id, doc_id, type, position, text, metadata, vector]
pub record Row (V : Type 0) : Type 0 where
  pub external_id : String
  pub doc_id : String
  pub kind : Kind
  pub position : Option ℤ
  pub text : Option String
  pub metadata : Option Metadata
  pub vector : Option V

-- A chunk with no position takes its place in the document.
pub position_or : ℕ → Option ℤ → ℤ
position_or i none = pos i
position_or i (some p) = p

module _ {V : Type 0} where
  pub summary_rows : String → Option (RecordIn V) → List (Row V)
  summary_rows doc_id none = []
  summary_rows doc_id (some s) =
      record {
        external_id = doc_id;
        doc_id = doc_id;
        kind = summary;
        position = none;
        text = s.text;
        metadata = s.metadata;
        vector = s.vector;
      }
      ∷ []

  -- `i` is the counter of `enumerate`.
  pub chunk_rows : String → ℕ → List (ChunkIn V) → List (Row V)
  unfolding position_or
  chunk_rows doc_id i [] = []
  chunk_rows doc_id i (c ∷ cs) =
      record {
        external_id = c.id;
        doc_id = doc_id;
        kind = chunk;
        position = some (position_or i c.position);
        text = c.content.text;
        metadata = c.content.metadata;
        vector = c.content.vector;
      }
      ∷ chunk_rows doc_id (suc i) cs

  pub all_rows : List (DocumentIn V) → List (Row V)
  unfolding summary_rows chunk_rows
  all_rows [] = []
  all_rows (d ∷ ds) =
      summary_rows d.doc_id d.summary_in ++ (chunk_rows d.doc_id 0 d.chunks ++ all_rows ds)

  -- `{r[0]: r for r in rows}`, from the dictionary so far.
  pub by_external_id : List (String × Row V) → List (Row V) → List (String × Row V)
  unfolding insert
  by_external_id m [] = m
  by_external_id m (r ∷ rs) = by_external_id (insert r.external_id r m) rs

  pub payload_rows : List (DocumentIn V) → List (Row V)
  unfolding all_rows by_external_id
  payload_rows docs = map (λ e. e.1) (by_external_id [] (all_rows docs))
