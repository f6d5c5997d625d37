-- ===== src/Listing.antt =====
-- `get_document` and `list_records` of src/raggio/store.py.
--
-- The ids are read from one snapshot of the records and the records from another, as the code reads
-- them. NULL comes first in SQLite's order.
pub mod Order
pub mod Contents
pub mod Pages
mod Examples
use text.Mathlib.Text.{◌==◌ as str_eq}
use raggio.Prelude.{
  take, drop, count, ℕ, ◌≡◌, String, Bool, true, false, Option, none, some, List, [], ◌∷◌, map,
  keep, ltb, leb, if◌then◌else◌,
}
use raggio.Prelude.Result.{Result, ok, err, ◌>>=◌}
use raggio.Ranking.{sort}
use raggio.Rows.{ℤ, pos, negsuc, Kind, chunk, summary}
use raggio.Collection.{Record}
use raggio.Collection.Writes.{of_document}
use raggio.Fusion.{row_with}

pub int_lt : ℤ → ℤ → Bool
int_lt (pos m) (pos n) = ltb m n
int_lt (pos m) (negsuc n) = false
int_lt (negsuc m) (pos n) = true
int_lt (negsuc m) (negsuc n) = ltb n m

pub position_lt : Option ℤ → Option ℤ → Bool
unfolding int_lt
position_lt none none = false
position_lt none (some q) = true
position_lt (some p) none = false
position_lt (some p) (some q) = int_lt p q

-- The order of the texts 'summary' and 'chunk', descending.
pub kind_lt : Kind → Kind → Bool
kind_lt summary chunk = true
kind_lt summary summary = false
kind_lt chunk k = false

-- By a first key, and where that is level by the rest.
pub then_by : {A : Type 0} → (A → A → Bool) → (A → A → Bool) → A → A → Bool
then_by lt le x y = if lt x y then true else if lt y x then false else le x y

-- ORDER BY type DESC, position, id
pub document_order : Record → Record → Bool
unfolding then_by kind_lt position_lt
document_order =
    then_by (λ r s. kind_lt r.kind s.kind)
      (then_by (λ r s. position_lt r.position s.position) (λ r s. leb r.id s.id))

pub shows_chunk : Record → Bool
shows_chunk r = elim r.kind [ chunk ↦ true | summary ↦ false ]

pub shows_summary : Record → Bool
shows_summary r = elim r.kind [ chunk ↦ false | summary ↦ true ]

pub document_ids : String → List Record → List ℕ
unfolding sort document_order
document_ids d records = map (λ r. r.id) (sort document_order (keep (of_document d) records))

-- `_hydrate` of ids without scores.
pub hydrate_ids : List Record → List ℕ → List Record
unfolding row_with
hydrate_ids records [] = []
hydrate_ids records (i ∷ is) = elim (row_with i records) [
  | none ↦ hydrate_ids records is
  | some r ↦ r ∷ hydrate_ids records is
]

pub record Document : Type 0 where
  pub doc_id : String
  pub summary_hit : Option Record
  pub chunks : List Record

pub first_summary : List Record → Option Record
unfolding shows_summary
first_summary [] = none
first_summary (r ∷ rs) = let rest = first_summary rs in if shows_summary r then some r else rest

pub document_of : String → List Record → Document
unfolding shows_chunk first_summary
document_of d recs = record {
  doc_id = d;
  summary_hit = first_summary recs;
  chunks = keep shows_chunk recs;
}

-- None where there is no id.
pub document_at : String → List Record → List ℕ → Option Document
unfolding hydrate_ids document_of
document_at d later [] = none
document_at d later (i ∷ is) = some (document_of d (hydrate_ids later (i ∷ is)))

-- `earlier` are the records when the ids are read, `later` those when the records are.
pub get_document : String → List Record → List Record → Option Document
unfolding document_ids document_at
get_document d earlier later = document_at d later (document_ids d earlier)

pub data ListError : Type 0 where
  bad_sort : ListError

pub record Page : Type 0 where
  pub records : List Record
  pub total : ℕ

-- `matches` is the test of a sort key, `key_lt` the order of the metadata values under a key, with its
-- direction, and `holds` the WHERE clause.
module _ (matches : String → Bool) (key_lt : String → Record → Record → Bool)
    (holds : Record → Bool) where
  pub order_of : Option String → Result ListError (Record → Record → Bool)
  unfolding then_by
  order_of none = ok (λ r s. leb r.id s.id)
  order_of (some key) =
      if str_eq key ""
      then ok (λ r s. leb r.id s.id)
      else if matches key
      then ok (then_by (key_lt key) (λ r s. leb r.id s.id))
      else err bad_sort

  pub page_ids : (Record → Record → Bool) → ℕ → ℕ → List Record → List ℕ
  unfolding sort
  page_ids le limit offset records =
      take limit (drop offset (map (λ r. r.id) (sort le (keep holds records))))

  -- The total is counted in one snapshot, the ids are read from a second and the records from a third.
  pub list_records :
      Option String → ℕ → ℕ → List Record → List Record → List Record → Result ListError Page
  unfolding order_of page_ids hydrate_ids
  list_records key limit offset counted earlier later = do
    le ← order_of key
    ok (record {
      records = hydrate_ids later (page_ids le limit offset earlier);
      total = count holds counted;
    })
