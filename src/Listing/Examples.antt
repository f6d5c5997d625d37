-- ===== src/Listing/Examples.antt =====
-- A document whose chunks were not stored in their order.
use raggio.Prelude.{
  Bool, false, keep, leb, arith, ℕ, ◌≡◌, refl, String, true, Option, none, some, List, [], ◌∷◌,
}
use raggio.Prelude.Keys.{nat_eq, Distinct}
use raggio.Rows.{ℤ, pos, negsuc, Kind, chunk, summary}
use raggio.Collection.{Record}
use raggio.Collection.Membership.{record_id}
use raggio.Collection.Writes.{of_document}
use raggio.Prelude.Result.{ok, err}
use raggio.Ranking.Sorting.{Reordered, IsSorted}
use raggio.Listing.Order.{WeakOrder}
use raggio.Listing.Pages.{read_pages, read_pages_total}
use raggio.Listing.{
  list_records, order_of, bad_sort, get_document, document_ids, document_at, hydrate_ids,
  document_of,
}
use raggio.Listing.Contents.{Answers, get_document-Answers}

abbrev stored : ℕ → String → Kind → Option ℤ → Record
stored i d k p = record {
  id = i;
  external_id = "e";
  doc_id = d;
  kind = k;
  position = p;
  text = none;
  metadata = [];
  indexed = true;
  fts_metadata = "";
}

abbrev second : Record
second = stored 1 "a" chunk (some (pos 5))

abbrev other : Record
other = stored 2 "b" chunk (some (pos 0))

abbrev head : Record
head = stored 3 "a" summary none

abbrev first : Record
first = stored 4 "a" chunk (some (negsuc 0))

abbrev table : List Record
table = second ∷ other ∷ head ∷ first ∷ []

shown_in_order :
    get_document "a" table table
    ≡ some (record { doc_id = "a"; summary_hit = some head; chunks = first ∷ second ∷ [] })
unfolding get_document of_document document_ids document_at hydrate_ids document_of
shown_in_order = refl

-- The second chunk is deleted between the reads.
chunk_lost :
    get_document "a" table (other ∷ head ∷ first ∷ [])
    ≡ some (record { doc_id = "a"; summary_hit = some head; chunks = first ∷ [] })
unfolding get_document of_document document_ids document_at hydrate_ids document_of
chunk_lost = refl

table-Distinct : Distinct record_id table
table-Distinct = (refl, (refl, (refl, (refl, tt))))

get_document-Answers_example : Answers "a" table (get_document "a" table table)
get_document-Answers_example = get_document-Answers "a" table table-Distinct

-- No key of the metadata tells the records apart, and each is matched by the filter.
abbrev no_key : String → Record → Record → Bool
no_key k r s = false

abbrev all_match : Record → Bool
all_match r = true

abbrev any_key : String → Bool
any_key k = true

no_key-WeakOrder : (k : String) → WeakOrder (no_key k)
no_key-WeakOrder k = record { lt_asym = λ r s h. refl; not_lt_trans = λ r s t h g. refl }

bad_sort_refused :
    list_records (λ k. false) no_key all_match (some "a b") 2 0 table table table ≡ err bad_sort
unfolding list_records order_of
bad_sort_refused = refl

by_id_order : order_of any_key no_key all_match none ≡ ok (λ r s. leb r.id s.id)
unfolding order_of
by_id_order = refl

-- Four records, in two pages of two.
read_pages_total_example :
    (all : List Record) × (read_pages any_key no_key all_match none 2 table 2 0 ≡ ok all)
    × Reordered all (keep all_match table)
    × IsSorted (λ r s. leb r.id s.id) all
read_pages_total_example =
    read_pages_total any_key no_key all_match none 2 table (λ r s. leb r.id s.id) 2 table-Distinct
      no_key-WeakOrder by_id_order (omega arith)
