-- ===== src/Collection/Writes/Invariant.antt =====
-- What every write keeps: unique ids and external ids, exact counts, and an index that holds exactly
-- the ids of the indexed records.
use raggio.Prelude.{
  ℕ, suc, ◌+◌, String, ◌≡◌, refl, sym, ap, ◌∙◌, Bool, false, not, ◌||◌, List, [], ◌∷◌, ◌++◌, arith,
  keep, All, All-append, All-map, keep-All, if◌then◌else◌,
}
use raggio.Prelude.Keys.{
  nat_eq, string_eq, has, Distinct, has-append, keep-Distinct, append-Distinct,
}
use raggio.Slices.{concat}
use raggio.Rows.{Kind, Metadata, Row}
use raggio.Collection.{
  VectorIndex, Record, Counts, max_id, is_replaced, new_records, delete_ids, ids_of, indexed_ids,
  uncount, recount, remove_ids,
}
use raggio.Collection.Membership.{
  record_id, record_ext, self, indexed_in, indexed_in-keep, delete_ids-keep, new_records-Distinct,
  new_records-Disjoint, new_records-Distinct_ext, new_records-Disjoint_ext,
}
use raggio.Collection.Counting.{
  of_kind, kind_count, of_kind-uncount, of_kind-recount, kind_count-append, kind_count-keep,
}
use raggio.Collection.Writes.{add_slices}

-- The records agree with the counts, and each has its suffix.
pub record IsSound (suffix : Metadata → String) (rs : List Record) (c : Counts) : Type 0 where
  pub unique_ids : Distinct record_id rs
  pub unique_external_ids : Distinct record_ext rs
  pub counted : (k : Kind) → of_kind k c ≡ kind_count k rs
  pub suffixes : All (λ r. r.fts_metadata ≡ suffix r.metadata) rs

new_records-suffixes :
    {V : Type 0} (suffix : Metadata → String) (i : ℕ) (rows : List (Row V))
    → All (λ (r : Record). r.fts_metadata ≡ suffix r.metadata) (new_records suffix i rows)
unfolding new_records
new_records-suffixes suffix i [] = tt
new_records-suffixes suffix i (r ∷ rows) = (refl, new_records-suffixes suffix (suc i) rows)

abbrev pub row_ext : {V : Type 0} → Row V → String
row_ext r = r.external_id

module _ (suffix : Metadata → String) (rs : List Record) (c : Counts)
    (v : IsSound suffix rs c) where
  -- Records that go take their counts with them.
  pub keep-IsSound :
      (p : Record → Bool) → IsSound suffix (keep (λ r. not (p r)) rs) (uncount (keep p rs) c)
  keep-IsSound p = record {
    unique_ids = keep-Distinct record_id _ rs v.unique_ids;
    unique_external_ids = keep-Distinct record_ext _ rs v.unique_external_ids;
    counted =
        λ k. omega (arith, of_kind-uncount k (keep p rs) c, v.counted k, kind_count-keep k p rs);
    suffixes = All-map _ _ _ (λ r h. h.0) (keep-All _ (λ r. not (p r)) rs v.suffixes);
  }

  -- The rows of a job replace the records with their external ids.
  pub upsert-IsSound :
      {V : Type 0} (rows : List (Row V))
      → Distinct row_ext rows
      → IsSound suffix
          (delete_ids (ids_of (keep (is_replaced rows) rs)) rs
            ++ new_records suffix (max_id rs + 1) rows)
          (recount rows (uncount (keep (is_replaced rows) rs) c))
  upsert-IsSound rows d =
      let i = max_id rs + 1 in
      let stay = keep (λ r. not (is_replaced rows r)) rs in
      let new = new_records suffix i rows in
      let w = keep-IsSound (is_replaced rows) in
      rw (delete_ids-keep (is_replaced rows) rs v.unique_ids) (record {
        unique_ids =
            append-Distinct record_id stay new w.unique_ids (new_records-Distinct suffix i rows)
              (new_records-Disjoint suffix _ i rows rs (omega arith));
        unique_external_ids =
            append-Distinct record_ext stay new w.unique_external_ids
              (new_records-Distinct_ext suffix i rows d)
              (new_records-Disjoint_ext suffix i rows rs);
        counted = λ k. omega (
          arith,
          of_kind-recount k suffix i rows (uncount (keep (is_replaced rows) rs) c),
          w.counted k,
          kind_count-append k stay new,
        );
        suffixes = All-append _ stay new w.suffixes (new_records-suffixes suffix i rows);
      })

module _ {V : Type 0} (vi : VectorIndex V) where
  open vi use {Index, contains, add_with_ids, remove_id, contains-add, contains-remove}

  -- The index holds exactly the ids of the indexed records.
  abbrev pub InStep : Index → List Record → Type 0
  InStep i rs = (x : ℕ) → contains i x ≡ indexed_in x rs

  pub contains-remove_ids :
      (xs : List ℕ) (i : Index) (x : ℕ)
      → contains (remove_ids vi xs i) x ≡ (if has self x xs then false else contains i x)
  unfolding remove_ids
  contains-remove_ids [] i x = refl
  contains-remove_ids (y ∷ xs) i x =
      ground (arith, contains-remove_ids xs (remove_id i y) x, contains-remove i y x)

  pub contains-add_slices :
      (bs : List (List (ℕ × V))) (i : Index) (x : ℕ)
      → contains (add_slices vi bs i) x ≡ (has (λ (e : ℕ × V). e.0) x (concat bs) || contains i x)
  unfolding add_slices concat
  contains-add_slices [] i x = refl
  contains-add_slices (b ∷ bs) i x = ground (
    arith,
    contains-add_slices bs (add_with_ids i b) x,
    contains-add i b x,
    has-append (λ (e : ℕ × V). e.0) x b (concat bs),
  )

  -- The index after the removals of a delete.
  pub keep-InStep :
      (p : Record → Bool) (i : Index) (rs : List Record)
      → Distinct record_id rs
      → InStep i rs
      → InStep (remove_ids vi (indexed_ids (keep p rs)) i) (keep (λ r. not (p r)) rs)
  keep-InStep p i rs d h x =
      contains-remove_ids (indexed_ids (keep p rs)) i x
      ∙ (ap (λ (b : Bool). if has self x (indexed_ids (keep p rs)) then false else b) (h x)
          ∙ sym (indexed_in-keep p x rs d))
