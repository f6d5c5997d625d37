-- ===== src/Collection/Writes/Keeps.antt =====
-- The write section of an ingest job and the deletion of a document keep a collection valid.
use raggio.Prelude.{
  ℕ, ◌+◌, ◌<◌, String, ◌≡◌, refl, sym, ap, ◌∙◌, Bool, true, false, not, ◌||◌, ◌&&◌, List, [], ◌∷◌,
  arith, length, keep, ltb, if◌then◌else◌,
}
use raggio.Prelude.Keys.{nat_eq, string_eq, has, Distinct}
use raggio.Prelude.Result.{ok, err}
use raggio.Rows.{Metadata, Row}
use raggio.Collection.{
  VectorIndex, max_id, State, is_replaced, upserted, upsert_rows, new_records, with_ids,
  indexed_ids, unindex, sync_index, sync_raised,
}
use raggio.Collection.Membership.{
  self, indexed_in, indexed_in-keep, indexed_in-append, indexed_in-new_records, delete_ids-keep,
}
use raggio.Collection.Writes.{
  indexed_rows, index_rows, process_rows, of_document, deleted_doc, delete_doc_rows,
  delete_document,
}
use raggio.Collection.Writes.Indexed.{
  records-indexed_rows, contains-indexed_rows, sync_keeps, sync_if_lem, counted_sync_lem,
}
use raggio.Collection.Writes.Invariant.{
  IsSound, keep-IsSound, upsert-IsSound, row_ext, InStep, keep-InStep,
}

keep-keep-not {ℓ} :
    {A : Type ℓ} (p : A → Bool) (xs : List A) → keep p (keep (λ x. not (p x)) xs) ≡ []
keep-keep-not p [] = refl
keep-keep-not p (x ∷ xs) = ground (arith, keep-keep-not p xs)

module _ {V : Type 0} (vi : VectorIndex V) (suffix : Metadata → String) where
  open vi use {Index, contains}

  pub record IsValid (s : State V Index) : Type 0 where
    pub sound : IsSound suffix s.records s.indexed_counts
    pub in_step : InStep vi s.index s.records

  sync_keeps-IsValid :
      (writes lands : Bool) (s : State V Index)
      → IsValid s
      → IsValid (if writes then sync_index vi lands s else s)
  sync_keeps-IsValid writes lands s v =
      let same = sync_keeps vi writes lands s in
      record { sound = rw (same.0, same.1) v.sound; in_step = rw (same.0, same.2) v.in_step }

  module _ (rows : List (Row V)) (mat : List V) (s : State V Index) where
    pub upserted-InStep :
        (x : ℕ)
        → length rows ≡ length mat
        → IsValid s
        → (has (λ (e : ℕ × V). e.0) x (with_ids (max_id s.records + 1) mat)
            || (if has self x (indexed_ids (keep (is_replaced rows) s.records))
                then false
                else contains s.index x))
          ≡ indexed_in x (upserted suffix rows mat s).1.records
    unfolding upserted
    upserted-InStep x h v =
        let old = is_replaced rows in
        rw (delete_ids-keep old s.records v.sound.unique_ids) (
          ground (
            arith,
            indexed_in-append x (keep (λ r. not (old r)) s.records)
                (new_records suffix (max_id s.records + 1) rows),
            indexed_in-keep old x s.records v.sound.unique_ids,
            v.in_step x,
            indexed_in-new_records suffix x (max_id s.records + 1) rows mat h,
          ))

    pub upserted-IsSound :
        Distinct row_ext rows
        → IsValid s
        → IsSound suffix
            (upserted suffix rows mat s).1.records
            (upserted suffix rows mat s).1.indexed_counts
    unfolding upserted
    upserted-IsSound d v = upsert-IsSound suffix s.records s.indexed_counts v.sound rows d

    -- The write section of an ingest job whose transaction commits returns a state, or raises if it is
    -- to write the index at its end and that sync raises, whatever the sync at the removal cap does
    -- and however the adds are cut. The state that it returns, and the one that the exception leaves,
    -- is valid if the collection was: ids and external ids stay unique, the counts stay exact, every
    -- record has its full-text suffix, and the index holds exactly the ids of the indexed records.
    -- The rows have distinct external ids and one vector each, and there is at least one.
    pub process_rows-IsValid :
        (room armed sync lands : Bool)
        → Distinct row_ext rows
        → length rows ≡ length mat
        → 0 < length mat
        → IsValid s
        → (s' : State V Index) × (process_rows vi suffix true room armed sync lands rows mat s
            ≡ (if sync && not lands then err (sync_raised s') else ok s'))
          × IsValid s'
    unfolding process_rows upsert_rows index_rows
    process_rows-IsValid room armed sync lands d h p v =
        let q = upserted suffix rows mat s in
        let t = indexed_rows vi room armed mat q in
        let same = records-indexed_rows vi room armed mat q.0 q.1 in
        (
          (if sync then sync_index vi lands t else t),
          sync_if_lem vi sync lands t,
          sync_keeps-IsValid sync lands t (record {
            sound = rw (same.0, same.1) (upserted-IsSound d v);
            in_step = λ x.
                contains-indexed_rows vi room armed mat q.0 q.1 x p
                ∙ (unfold upserted in upserted-InStep x h v ∙ ap (indexed_in x) (sym same.0));
          }),
        )

  deleted_doc-IsValid :
      (doc_id : String) (s : State V Index) → IsValid s → IsValid (deleted_doc vi doc_id s).1
  unfolding deleted_doc unindex
  deleted_doc-IsValid doc_id s v = record {
    sound = keep-IsSound suffix s.records s.indexed_counts v.sound (of_document doc_id);
    in_step = keep-InStep vi (of_document doc_id) s.index s.records v.sound.unique_ids v.in_step;
  }

  -- A committed deletion of a document from an open collection returns a state and the number of deleted records, or raises if
  -- there were any and the sync does. Either way it leaves a valid collection valid, with no record of
  -- the document left.
  pub delete_document-IsValid :
      (lands : Bool) (doc_id : String) (s : State V Index)
      → IsValid s
      → (s' : State V Index) × (delete_document vi false true lands doc_id s ≡ (
          if ltb 0 (length (keep (of_document doc_id) s.records)) && not lands
          then err (sync_raised s')
          else ok (length (keep (of_document doc_id) s.records), s')))
        × IsValid s'
        × (keep (of_document doc_id) s'.records ≡ [])
  unfolding delete_document delete_doc_rows
  delete_document-IsValid lands doc_id s v =
      let s1 = (deleted_doc vi doc_id s).1 in
      let n = (deleted_doc vi doc_id s).0 in
      let same = sync_keeps vi (ltb 0 n) lands s1 in
      (
        (if ltb 0 n then sync_index vi lands s1 else s1),
        counted_sync_lem vi (ltb 0 n) lands n s1,
        sync_keeps-IsValid (ltb 0 n) lands s1 (deleted_doc-IsValid doc_id s v),
        rw same.0 (unfold deleted_doc unindex in keep-keep-not (of_document doc_id) s.records),
      )
