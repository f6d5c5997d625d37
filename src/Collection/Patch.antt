-- ===== src/Collection/Patch.antt =====
-- `patch_metadata` with `_patch_rows`, src/raggio/store.py. `json_patch` is SQLite's, on metadata
-- objects.
pub mod Suffixes
mod Examples
use raggio.Prelude.{
  ℕ, ◌+◌, String, Bool, true, false, ◌&&◌, ◌||◌, List, [], ◌∷◌, map, any, count, ltb, if◌then◌else◌,
}
use raggio.Prelude.Keys.{Eq, ◌=?◌, string_eq, has, key}
use raggio.Prelude.Result.{Result, ok, err}
use raggio.Json.{Json}
use raggio.Rows.{Kind, chunk, summary, Metadata}
use raggio.Fts.{fts_metadata}
use raggio.Collection.{Record, Failed, rolled_back, State}

abbrev pub is_summary : Kind → Bool
is_summary chunk = false
is_summary summary = true

-- `WHERE doc_id=?`, and the summaries only unless the chunks are patched too.
pub is_patched : String → Bool → Record → Bool
is_patched doc_id apply_to_chunks r = r.doc_id =? doc_id && (apply_to_chunks || is_summary r.kind)

-- `any(k in patch for k in self.cfg.fts_keys)`
pub reindexes : List String → Metadata → Bool
reindexes keys patch = any (λ k. has key k patch) keys

module _ (text_of : Json → String) (json_patch : Metadata → Metadata → Metadata)
    (keys : List String) where
  pub patched_record : Metadata → Record → Record
  unfolding reindexes
  patched_record patch r =
      let m = json_patch r.metadata patch in
      record r {
        metadata = m;
        fts_metadata = if reindexes keys patch then fts_metadata text_of m keys else r.fts_metadata;
      }

  pub patched_records : String → Metadata → Bool → List Record → List Record
  unfolding is_patched patched_record
  patched_records doc_id patch apply_to_chunks rs =
      map (λ r. if is_patched doc_id apply_to_chunks r then patched_record patch r else r) rs

  -- The number of updated rows beside the new state.
  pub patch_rows :
      {V I : Type 0}
      → Bool
      → String
      → Metadata
      → Bool
      → State V I
      → Result (Failed (State V I)) (ℕ × State V I)
  unfolding patched_records reindexes
  patch_rows commits doc_id patch apply_to_chunks s =
      let rowcount = count (is_patched doc_id apply_to_chunks) s.records in
      if commits
      then ok (
        rowcount,
        record s {
          records = patched_records doc_id patch apply_to_chunks s.records;
          allow_gen = s.allow_gen + 1;
          df_cache_churn = if ltb 0 rowcount && reindexes keys patch then 0 else s.df_cache_churn;
        },
      )
      else err rolled_back
