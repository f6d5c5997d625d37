-- ===== src/Collection/Examples.antt =====
-- A collection over an index that is the list of its ids, and the theorems at it.
use raggio.Prelude.{
  ℕ, ◌≡◌, refl, String, true, false, none, some, List, [], ◌∷◌, arith, ==_iff, keep, length, ltb,
  not, ◌&&◌, if◌then◌else◌,
}
use raggio.Prelude.Keys.{nat_eq, string_eq, Distinct}
use raggio.Prelude.Result.{ok, err}
use raggio.Rows.{Row, chunk, summary, Metadata}
use raggio.Collection.IdList.{id_list}
use raggio.Collection.{State, sync_raised}
use raggio.Collection.Membership.{indexed_in}
use raggio.Collection.Counting.{of_kind, kind_count}
use raggio.Collection.Writes.{process_rows, delete_document, of_document}
use raggio.Collection.Writes.Invariant.{IsSound, row_ext}
use raggio.Collection.Writes.Keeps.{IsValid, process_rows-IsValid, delete_document-IsValid}
use raggio.Collection.Replay.Contents.{contents, override, contents-process_rows}

abbrev no_suffix : Metadata → String
no_suffix m = ""

-- One chunk is stored and indexed; the file still holds a ghost, and lacks the chunk.
abbrev stored : State ℕ (List ℕ)
stored = record {
  records =
      record {
        id = 4;
        external_id = "c";
        doc_id = "d";
        kind = chunk;
        position = none;
        text = some "old";
        metadata = [];
        indexed = true;
        fts_metadata = "";
      }
      ∷ [];
  vecs = (4, 1) ∷ [];
  index = 4 ∷ [];
  file = 3 ∷ [];
  removed_since_sync = 0;
  indexed_counts = record { chunks = 1; summaries = 0 };
  allow_gen = 0;
  df_cache_churn = 0;
}

abbrev rows : List (Row ℕ)
rows =
    record {
      external_id = "c";
      doc_id = "d";
      kind = chunk;
      position = none;
      text = some "new";
      metadata = none;
      vector = some 2;
    }
    ∷ []

rows-Distinct : Distinct row_ext rows
rows-Distinct = (refl, tt)

stored-IsSound : IsSound no_suffix stored.records stored.indexed_counts
unfolding kind_count
stored-IsSound = record {
  unique_ids = (refl, tt);
  unique_external_ids = (refl, tt);
  counted = λ k. elim k as (λ k. of_kind k stored.indexed_counts ≡ kind_count k stored.records) [
    | chunk ↦ refl
    | summary ↦ refl
  ];
  suffixes = (refl, tt);
}

stored-IsValid : IsValid id_list no_suffix stored
unfolding indexed_in
stored-IsValid = record { sound = stored-IsSound; in_step = λ x. ground (arith, ==_iff 4 x) }

-- The last sync raises.
process_rows-IsValid_example :
    (s' : State ℕ (List ℕ)) × (process_rows id_list no_suffix true true false true false rows
        (2 ∷ [])
        stored
      ≡ err (sync_raised s'))
    × IsValid id_list no_suffix s'
process_rows-IsValid_example =
    process_rows-IsValid id_list no_suffix rows (2 ∷ []) stored true false true false rows-Distinct
      refl (omega arith) stored-IsValid

delete_document-IsValid_example :
    (s' : State ℕ (List ℕ)) × (delete_document id_list false true false "d" stored ≡ (
      if ltb 0 (length (keep (of_document "d") stored.records)) && not false
      then err (sync_raised s')
      else ok (length (keep (of_document "d") stored.records), s')))
    × IsValid id_list no_suffix s'
    × (keep (of_document "d") s'.records ≡ [])
delete_document-IsValid_example =
    delete_document-IsValid id_list no_suffix false "d" stored stored-IsValid

-- The job of `rows` once, and once more.
first_run :
    (s' : State ℕ (List ℕ)) × (process_rows id_list no_suffix true true false true true rows
        (2 ∷ [])
        stored
      ≡ ok s')
    × IsValid id_list no_suffix s'
first_run =
    process_rows-IsValid id_list no_suffix rows (2 ∷ []) stored true false true true rows-Distinct
      refl (omega arith) stored-IsValid

contents-process_rows_example : contents first_run.0 "c" ≡ override rows (contents stored) "c"
contents-process_rows_example =
    contents-process_rows id_list no_suffix rows (2 ∷ []) stored true false true true (refl, tt)
      first_run.1 "c"
