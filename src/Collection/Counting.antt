-- ===== src/Collection/Counting.antt =====
-- `indexed_counts` against the records.
use raggio.Prelude.{
  ℕ, suc, ◌+◌, ◌-◌, ◌≡◌, Bool, true, false, not, ◌&&◌, List, [], ◌∷◌, ◌++◌, arith, keep, count,
  count-append, String, if◌then◌else◌,
}
use raggio.Rows.{Kind, chunk, summary, Metadata, Row}
use raggio.Collection.{Record, Counts, bump, drop_one, new_records, uncount, recount}

abbrev pub same_kind : Kind → Kind → Bool
same_kind chunk chunk = true
same_kind summary summary = true
same_kind chunk summary = false
same_kind summary chunk = false

abbrev pub of_kind : Kind → Counts → ℕ
of_kind chunk c = c.chunks
of_kind summary c = c.summaries

-- The indexed records of a kind.
unfoldable pub kind_count : Kind → List Record → ℕ
kind_count k rs = count (λ r. r.indexed && same_kind r.kind k) rs

module _ (k : Kind) where
  of_kind-drop_one :
      (j : Kind) (c : Counts)
      → of_kind k (drop_one j c) ≡ (if same_kind j k then of_kind k c - 1 else of_kind k c)
  unfolding drop_one
  of_kind-drop_one j c = ground arith

  pub of_kind-uncount :
      (rs : List Record) (c : Counts) → of_kind k (uncount rs c) ≡ of_kind k c - kind_count k rs
  unfolding uncount kind_count
  of_kind-uncount [] c = omega arith
  of_kind-uncount (r ∷ rs) c = ground (
    arith,
    of_kind-uncount rs (if r.indexed then drop_one r.kind c else c),
    of_kind-drop_one r.kind c,
  )

  of_kind-bump :
      (j : Kind) (c : Counts)
      → of_kind k (bump j c) ≡ (if same_kind j k then of_kind k c + 1 else of_kind k c)
  unfolding bump
  of_kind-bump j c = ground arith

  pub of_kind-recount :
      {V : Type 0} (suffix : Metadata → String) (i : ℕ) (rows : List (Row V)) (c : Counts)
      → of_kind k (recount rows c) ≡ of_kind k c + kind_count k (new_records suffix i rows)
  unfolding recount kind_count new_records
  of_kind-recount suffix i [] c = omega arith
  of_kind-recount suffix i (r ∷ rows) c =
      ground (arith, of_kind-recount suffix (suc i) rows (bump r.kind c), of_kind-bump r.kind c)

  pub kind_count-append :
      (rs qs : List Record) → kind_count k (rs ++ qs) ≡ kind_count k rs + kind_count k qs
  unfolding kind_count
  kind_count-append rs qs = count-append _ rs qs

  -- The records are those that go and those that stay.
  pub kind_count-keep :
      (p : Record → Bool) (rs : List Record)
      → kind_count k (keep p rs) + kind_count k (keep (λ r. not (p r)) rs) ≡ kind_count k rs
  unfolding kind_count
  kind_count-keep p [] = omega arith
  kind_count-keep p (r ∷ rs) = ground (arith, kind_count-keep p rs)
