-- ===== src/Collection/Replay.antt =====
-- What a reader sees of the records, and what a restart does: `_reconcile_ghosts`, and the replay of
-- jobs that were not finished (src/raggio/store.py).
pub mod Contents
pub mod Lag
pub mod Recovery
use raggio.Prelude.{
  ℕ, String, Bool, true, false, not, Option, none, some, List, [], ◌∷◌, keep, ltb, length,
  if◌then◌else◌,
}
use raggio.Prelude.Keys.{Eq, ◌=?◌, nat_eq, string_eq, has}
use raggio.Prelude.Result.{Result, ok, ◌>>=◌}
use raggio.Rows.{ℤ, Kind, chunk, summary, Metadata, Row}
use raggio.Collection.{
  VectorIndex, Record, Counts, Failed, State, metadata_or_empty, indexed_ids, remove_ids,
  sync_or_raise,
}
use raggio.Collection.Counting.{kind_count}
use raggio.Collection.Writes.{process_rows}

-- A record without its number, as `_hydrate` shows it.
pub record Content : Type 0 where
  pub doc_id : String
  pub kind : Kind
  pub position : Option ℤ
  pub text : Option String
  pub metadata : Metadata

pub of_record : Record → Content
of_record r = record {
  doc_id = r.doc_id;
  kind = r.kind;
  position = r.position;
  text = r.text;
  metadata = r.metadata;
}

pub of_row : {V : Type 0} → Row V → Content
unfolding metadata_or_empty
of_row w = record {
  doc_id = w.doc_id;
  kind = w.kind;
  position = w.position;
  text = w.text;
  metadata = metadata_or_empty w.metadata;
}

-- The content under an external id.
pub content_of : String → List Record → Option Content
unfolding of_record
content_of k [] = none
content_of k (r ∷ rs) = if r.external_id =? k then some (of_record r) else content_of k rs

module _ {V : Type 0} (vi : VectorIndex V) where
  open vi use {Index, all_ids}

  -- The ids of the index that no indexed record has.
  pub ghosts : State V Index → List ℕ
  ghosts s = keep (λ x. not (has (λ (g : ℕ). g) x (indexed_ids s.records))) (all_ids s.index)

  -- They leave the index, which is written if there were any: an exception of that fails the
  -- opening of the collection. (The code's early return on an empty index finds no ghosts either.)
  pub reconcile_ghosts : Bool → State V Index → Result (Failed (State V Index)) (State V Index)
  unfolding ghosts remove_ids sync_or_raise
  reconcile_ghosts lands s =
      let gone = ghosts s in
      let s' = record s { index = remove_ids vi gone s.index } in
      if ltb 0 (length gone) then sync_or_raise vi lands s' else ok s'

  -- A restart reads the index that was last written, and counts the committed records anew.
  pub reopen : State V Index → State V Index
  reopen s = record s {
    index = s.file;
    removed_since_sync = 0;
    indexed_counts = record {
      chunks = kind_count chunk s.records;
      summaries = kind_count summary s.records;
    };
  }

  -- `Collection()` on what is on disk, as far as the index goes.
  pub open_collection : Bool → State V Index → Result (Failed (State V Index)) (State V Index)
  unfolding reconcile_ghosts reopen
  open_collection lands s = reconcile_ghosts lands (reopen s)

  -- The worker's ingest jobs in order, each with its rows and their vectors; the index is written by
  -- their batch.
  pub run_jobs :
      (Metadata → String)
      → Bool
      → Bool
      → List (List (Row V) × List V)
      → State V Index
      → Result (Failed (State V Index)) (State V Index)
  run_jobs suffix room armed [] s = ok s
  run_jobs suffix room armed ((rows, mat) ∷ jobs) s = do
    s' ← process_rows vi suffix true room armed false false rows mat s
    run_jobs suffix room armed jobs s'
