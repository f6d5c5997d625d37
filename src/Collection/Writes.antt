-- ===== src/Collection/Writes.antt =====
-- The write section of `_process_job`, and `delete_document` with `_delete_doc_rows`
-- (src/raggio/store.py).
pub mod Invariant
pub mod Indexed
pub mod Keeps
use Prim.Native.String.{String}
use raggio.Prelude.{
  ℕ, zero, suc, ◌+◌, ◌-◌, ◌≡◌, Bool, true, false, not, ◌&&◌, ◌||◌, Option, none, some, List, [],
  ◌∷◌, ◌++◌, map, max, ◌==◌, ltb, length, keep, any, if◌then◌else◌,
}
use raggio.Prelude.Keys.{Eq, ◌=?◌, nat_eq, string_eq, insert, remove, has}
use raggio.Prelude.Result.{Result, ok, err, ◌>>=◌}
use raggio.Json.{Json}
use raggio.Rows.{ℤ, Kind, chunk, summary, Metadata, Row}
use raggio.Slices.{slices}
use raggio.Collection.{
  VectorIndex, Record, Counts, Failed, closed, rolled_back, State, Upserted, upsert_rows, with_ids,
  ids_of, indexed_ids, delete_vecs, uncount, unindex, sync_index, sync_or_raise,
}

-- The removals that one index sync may carry when jobs pile them up.
abbrev pub sync_max_removals : ℕ
sync_max_removals = 512

abbrev pub cal_threshold : ℕ
cal_threshold = 10000

-- `WHERE doc_id=?`
unfoldable pub of_document : String → Record → Bool
of_document doc_id r = r.doc_id =? doc_id

module _ {V : Type 0} (vi : VectorIndex V) where
  open vi use {Index, contains, add_with_ids, remove_id}

  pub add_slices : List (List (ℕ × V)) → Index → Index
  add_slices [] i = i
  add_slices (b ∷ bs) i = add_slices bs (add_with_ids i b)

  -- Earlier jobs' removals are written first when this job would take the count over the cap.
  pub make_room : Bool → ℕ → State V Index → State V Index
  unfolding sync_index
  make_room syncs n s =
      if ltb 0 s.removed_since_sync && ltb sync_max_removals (s.removed_since_sync + n)
      then sync_index vi syncs s
      else s

  -- The rows that the job replaced leave the index.
  pub leave_index : Bool → List ℕ → State V Index → State V Index
  unfolding make_room unindex
  leave_index syncs [] s = s
  leave_index syncs (x ∷ xs) s = unindex vi (x ∷ xs) (make_room syncs (length (x ∷ xs)) s)

  -- What follows the upsert, up to the last sync: the replaced rows leave the index and the new ones
  -- enter it. `armed` is a reservoir that still samples, which cuts the adds into slices.
  pub indexed_rows : Bool → Bool → List V → Upserted × State V Index → State V Index
  unfolding leave_index add_slices with_ids
  indexed_rows room armed mat (u, s1) =
      let s2 = leave_index room u.replaced s1 in
      let step = if armed then cal_threshold else length mat in
      record s2 { index = add_slices (slices step (with_ids u.first mat)) s2.index }

  -- With `sync`, the index is written at the end, and an exception of that leaves the operation.
  pub index_rows :
      Bool
      → Bool
      → Bool
      → Bool
      → List V
      → Upserted × State V Index
      → Result (Failed (State V Index)) (State V Index)
  unfolding indexed_rows sync_or_raise
  index_rows room armed sync lands mat q =
      if sync
      then sync_or_raise vi lands (indexed_rows room armed mat q)
      else ok (indexed_rows room armed mat q)

  -- The write section of `_process_job`. `commits` is what SQLite does, `room` and `lands` what
  -- `index.sync` does at the removal cap, where an exception is caught, and at the end.
  unfoldable pub process_rows :
      (Metadata → String)
      → Bool
      → Bool
      → Bool
      → Bool
      → Bool
      → List (Row V)
      → List V
      → State V Index
      → Result (Failed (State V Index)) (State V Index)
  unfolding upsert_rows index_rows
  process_rows suffix commits room armed sync lands rows mat s = do
    done ← upsert_rows suffix commits rows mat s
    index_rows room armed sync lands mat done

  -- `_delete_doc_rows`: the number of deleted records beside the new state.
  pub deleted_doc : String → State V Index → ℕ × State V Index
  unfolding of_document delete_vecs uncount unindex
  deleted_doc doc_id s =
      let rows = keep (of_document doc_id) s.records in
      (
        length rows,
        unindex vi (indexed_ids rows) (record s {
          records = keep (λ r. not (of_document doc_id r)) s.records;
          vecs = delete_vecs (ids_of rows) s.vecs;
          indexed_counts = uncount rows s.indexed_counts;
          allow_gen = s.allow_gen + 1;
          df_cache_churn = s.df_cache_churn + length rows;
        }),
      )

  pub delete_doc_rows :
      Bool → String → State V Index → Result (Failed (State V Index)) (ℕ × State V Index)
  unfolding deleted_doc
  delete_doc_rows commits doc_id s = if commits then ok (deleted_doc doc_id s) else err rolled_back

  -- A collection that stop() has closed is refused. The index is written if a record was deleted; an
  -- exception of that leaves the operation.
  pub delete_document :
      Bool
      → Bool
      → Bool
      → String
      → State V Index
      → Result (Failed (State V Index)) (ℕ × State V Index)
  unfolding delete_doc_rows sync_or_raise
  delete_document is_closed commits lands doc_id s = do
    _ ← if is_closed then err closed else ok tt
    (deleted, s1) ← delete_doc_rows commits doc_id s
    s2 ← if ltb 0 deleted then sync_or_raise vi lands s1 else ok s1
    ok (deleted, s2)
