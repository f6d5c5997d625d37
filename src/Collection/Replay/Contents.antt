-- ===== src/Collection/Replay/Contents.antt =====
-- An ingest job overrides the contents under its external ids, and doing it twice changes nothing more.
use raggio.Prelude.{
  ℕ, suc, ◌+◌, String, ◌≡◌, refl, ap, ◌∙◌, Bool, true, not, Option, none, some, List, [], ◌∷◌, ◌++◌,
  arith, keep, if◌then◌else◌,
}
use raggio.Prelude.Keys.{nat_eq, string_eq, has, Distinct}
use raggio.Prelude.Result.{ok}
use raggio.Rows.{Metadata, Row}
use raggio.Rows.Unique.{find_row}
use raggio.Collection.{
  VectorIndex, Record, max_id, State, is_replaced, upserted, upsert_rows, new_records,
}
use raggio.Collection.Membership.{record_id, delete_ids-keep}
use raggio.Collection.Writes.{process_rows}
use raggio.Collection.Writes.Indexed.{records-index_rows}
use raggio.Collection.Writes.Invariant.{row_ext}
use raggio.Collection.Replay.{Content, of_record, of_row, content_of}

-- The abstract collection: what stands under each external id.
abbrev pub Contents : Type 0
Contents = String → Option Content

unfoldable pub contents : {V I : Type 0} → State V I → Contents
contents s k = content_of k s.records

-- A job's rows win over what was there.
unfoldable pub override : {V : Type 0} → List (Row V) → Contents → Contents
override rows c k = elim (find_row k rows) [ some w ↦ some (of_row w) | none ↦ c k ]

abbrev or_else : Option Content → Option Content → Option Content
or_else (some c) o = some c
or_else none o = o

abbrev content_row : {V : Type 0} → Option (Row V) → Option Content
content_row none = none
content_row (some w) = some (of_row w)

content_of-append :
    (k : String) (rs qs : List Record)
    → content_of k (rs ++ qs) ≡ or_else (content_of k rs) (content_of k qs)
unfolding content_of
content_of-append k [] qs = refl
content_of-append k (r ∷ rs) qs = ground (arith, content_of-append k rs qs)

module _ {V : Type 0} (k : String) where
  content_of-keep :
      (rows : List (Row V)) (rs : List Record)
      → content_of k (keep (λ r. not (is_replaced rows r)) rs)
        ≡ (if has row_ext k rows then none else content_of k rs)
  unfolding content_of is_replaced
  content_of-keep rows [] = ground arith
  content_of-keep rows (r ∷ rs) =
      ground (arith, content_of-keep rows rs, string_eq.beq_iff r.external_id k)

  content_of-new_records :
      (suffix : Metadata → String) (i : ℕ) (rows : List (Row V))
      → content_of k (new_records suffix i rows) ≡ content_row (find_row k rows)
  unfolding content_of new_records find_row of_row of_record
  content_of-new_records suffix i [] = refl
  content_of-new_records suffix i (r ∷ rows) =
      ground (arith, content_of-new_records suffix (suc i) rows)

  has-find_row :
      (rows : List (Row V)) (o : Option Content)
      → or_else (if has row_ext k rows then none else o) (content_row (find_row k rows))
        ≡ elim (find_row k rows) [ some w ↦ some (of_row w) | none ↦ o ]
  unfolding find_row
  has-find_row [] o = ground arith
  has-find_row (r ∷ rows) o = ground (arith, has-find_row rows o)

module _ {V : Type 0} (vi : VectorIndex V) (suffix : Metadata → String) where
  open vi use {Index}

  module _ (rows : List (Row V)) (mat : List V) (s : State V Index) where
    content_of-upserted :
        (k : String)
        → Distinct record_id s.records
        → content_of k (upserted suffix rows mat s).1.records ≡ override rows (contents s) k
    unfolding upserted override contents
    content_of-upserted k d =
        let stay = keep (λ r. not (is_replaced rows r)) s.records in
        let new = new_records suffix (max_id s.records + 1) rows in
        rw (delete_ids-keep (is_replaced rows) s.records d) (
          content_of-append k stay new
          ∙ (cc (
            content_of-keep k rows s.records,
            content_of-new_records k suffix (max_id s.records + 1) rows,
          )
              ∙ has-find_row k rows (content_of k s.records)))

    -- After an ingest job whose transaction committed, a reader finds under each external id of the
    -- job the content of the job's row, and under every other one what was there before. The ids of
    -- the records are distinct.
    pub contents-process_rows :
        (room armed sync lands : Bool) {s' : State V Index}
        → Distinct record_id s.records
        → process_rows vi suffix true room armed sync lands rows mat s ≡ ok s'
        → (k : String) → contents s' k ≡ override rows (contents s) k
    unfolding process_rows upsert_rows
    contents-process_rows room armed sync lands {s'} d e k =
        let q = upserted suffix rows mat s in
        let same = records-index_rows vi room armed sync lands mat q.0 q.1 e in
        unfold contents in ap (content_of k) same ∙ content_of-upserted k d
