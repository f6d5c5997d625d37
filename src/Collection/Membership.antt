-- ===== src/Collection/Membership.antt =====
-- Ids and external ids of the records that stay, and of those that are new.
use raggio.Prelude.{
  ℕ, suc, ◌<◌, String, ◌≡◌, refl, ap, ◌∙◌, Bool, false, not, ◌&&◌, ◌||◌, List, [], ◌∷◌, ◌++◌, arith,
  inl, inr, Bool-cases, ◌==◌, ==_iff, length, keep, any, if◌then◌else◌,
}
use raggio.Prelude.Keys.{nat_eq, string_eq, has, Distinct, Disjoint}
use raggio.Rows.{Metadata, Row}
use raggio.Collection.{
  Record, max_id, new_records, with_ids, is_replaced, delete_ids, ids_of, indexed_ids,
}

abbrev pub record_id : Record → ℕ
record_id r = r.id

abbrev pub record_ext : Record → String
record_ext r = r.external_id

abbrev pub self : ℕ → ℕ
self x = x

-- Some indexed record has the id `x`.
unfoldable pub indexed_in : ℕ → List Record → Bool
indexed_in x rs = any (λ r. r.id == x && r.indexed) rs

module _ (p : Record → Bool) where
  indexed_in_absent :
      (x : ℕ) (rs : List Record) → has record_id x rs ≡ false → indexed_in x rs ≡ false
  unfolding indexed_in
  indexed_in_absent x [] h = refl
  indexed_in_absent x (r ∷ rs) h = ground (arith, indexed_in_absent x rs)

  has-ids_of_absent :
      (x : ℕ) (rs : List Record)
      → has record_id x rs ≡ false
      → has self x (ids_of (keep p rs)) ≡ false
  has-ids_of_absent x [] h = refl
  has-ids_of_absent x (r ∷ rs) h = ground (arith, has-ids_of_absent x rs)

  has-indexed_ids_absent :
      (x : ℕ) (rs : List Record)
      → has record_id x rs ≡ false
      → has self x (indexed_ids (keep p rs)) ≡ false
  has-indexed_ids_absent x [] h = refl
  has-indexed_ids_absent x (r ∷ rs) h = ground (arith, has-indexed_ids_absent x rs)

  -- The indexed ids of the records that stay are the old ones less the indexed ones that go.
  pub indexed_in-keep :
      (x : ℕ) (rs : List Record)
      → Distinct record_id rs
      → indexed_in x (keep (λ r. not (p r)) rs)
        ≡ (if has self x (indexed_ids (keep p rs)) then false else indexed_in x rs)
  unfolding indexed_in
  indexed_in-keep x [] d = refl
  indexed_in-keep x (r ∷ rs) d = ground (
    arith,
    indexed_in-keep x rs d.1,
    indexed_in_absent x rs,
    has-indexed_ids_absent x rs,
    ==_iff r.id x,
  )

  has-ids_of_head :
      (r : Record) (rs : List Record)
      → has record_id r.id rs ≡ false
      → has self r.id (ids_of (keep p (r ∷ rs))) ≡ p r
  has-ids_of_head r rs h = ground (arith, has-ids_of_absent r.id rs, ==_iff r.id r.id)

  -- Records whose ids differ from `i` do not see `i` among the ids to delete.
  delete_other :
      (i : ℕ) (gone : List ℕ) (rs : List Record)
      → has record_id i rs ≡ false
      → delete_ids (i ∷ gone) rs ≡ delete_ids gone rs
  unfolding delete_ids
  delete_other i gone [] h = refl
  delete_other i gone (r ∷ rs) h =
      ground (arith, delete_other i gone rs, ==_iff i r.id, ==_iff r.id i)

  delete_head :
      (r : Record) (gone : List ℕ) (rs : List Record)
      → delete_ids (r.id ∷ gone) (r ∷ rs) ≡ delete_ids (r.id ∷ gone) rs
  unfolding delete_ids
  delete_head r gone rs = ground (arith, ==_iff r.id r.id)

  keep_head :
      (r : Record) (gone : List ℕ) (rs : List Record)
      → has self r.id gone ≡ false
      → delete_ids gone (r ∷ rs) ≡ r ∷ delete_ids gone rs
  unfolding delete_ids
  keep_head r gone rs h = rw h

  -- To delete the ids of the records that fit `p` is to keep those that do not.
  pub delete_ids-keep :
      (rs : List Record)
      → Distinct record_id rs
      → delete_ids (ids_of (keep p rs)) rs ≡ keep (λ r. not (p r)) rs
  delete_ids-keep [] d = unfold delete_ids in refl
  delete_ids-keep (r ∷ rs) d = elim (Bool-cases (p r)) [
    | inl e ↦ rw e (
        delete_head r (ids_of (keep p rs)) rs
        ∙ (delete_other r.id (ids_of (keep p rs)) rs d.0 ∙ delete_ids-keep rs d.1))
    | inr e ↦ rw e (
        keep_head r (ids_of (keep p rs)) rs (has-ids_of_absent r.id rs d.0)
        ∙ ap (◌∷◌ r) (delete_ids-keep rs d.1))
  ]

absent_above : (x : ℕ) (rs : List Record) → max_id rs < x → has record_id x rs ≡ false
unfolding max_id
absent_above x [] h = refl
absent_above x (r ∷ rs) h = ground (arith, absent_above x rs)

module _ {V : Type 0} (suffix : Metadata → String) where
  absent_below :
      (x i : ℕ) (rows : List (Row V)) → x < i → has record_id x (new_records suffix i rows) ≡ false
  unfolding new_records
  absent_below x i [] h = refl
  absent_below x i (r ∷ rows) h = ground (arith, absent_below x (suc i) rows)

  pub new_records-Distinct :
      (i : ℕ) (rows : List (Row V)) → Distinct record_id (new_records suffix i rows)
  unfolding new_records
  new_records-Distinct i [] = tt
  new_records-Distinct i (r ∷ rows) =
      (absent_below i (suc i) rows (omega arith), new_records-Distinct (suc i) rows)

  pub new_records-Disjoint :
      (p : Record → Bool) (i : ℕ) (rows : List (Row V)) (rs : List Record)
      → max_id rs < i
      → Disjoint record_id (keep p rs) (new_records suffix i rows)
  unfolding max_id
  new_records-Disjoint p i rows [] h = tt
  new_records-Disjoint p i rows (r ∷ rs) h =
      ground (arith, new_records-Disjoint p i rows rs, absent_below r.id i rows)

  -- A new record is in the index under its id, and nothing else is new.
  pub indexed_in-new_records :
      (x i : ℕ) (rows : List (Row V)) (mat : List V)
      → length rows ≡ length mat
      → indexed_in x (new_records suffix i rows) ≡ has (λ (e : ℕ × V). e.0) x (with_ids i mat)
  unfolding new_records with_ids indexed_in
  indexed_in-new_records x i [] [] h = refl
  indexed_in-new_records x i [] (v ∷ mat) h = absurd (omega arith)
  indexed_in-new_records x i (r ∷ rows) [] h = absurd (omega arith)
  indexed_in-new_records x i (r ∷ rows) (v ∷ mat) h =
      ground (arith, indexed_in-new_records x (suc i) rows mat)

  abbrev row_ext : Row V → String
  row_ext r = r.external_id

  pub has-new_records :
      (k : String) (i : ℕ) (rows : List (Row V))
      → has record_ext k (new_records suffix i rows) ≡ has row_ext k rows
  unfolding new_records
  has-new_records k i [] = refl
  has-new_records k i (r ∷ rows) = ground (arith, has-new_records k (suc i) rows)

  pub new_records-Distinct_ext :
      (i : ℕ) (rows : List (Row V))
      → Distinct row_ext rows
      → Distinct record_ext (new_records suffix i rows)
  unfolding new_records
  new_records-Distinct_ext i [] d = tt
  new_records-Distinct_ext i (r ∷ rows) d =
      (has-new_records r.external_id (suc i) rows ∙ d.0, new_records-Distinct_ext (suc i) rows d.1)

  -- No record that stays has the external id of a new one.
  pub new_records-Disjoint_ext :
      (i : ℕ) (rows : List (Row V)) (rs : List Record)
      → Disjoint record_ext (keep (λ r. not (is_replaced rows r)) rs) (new_records suffix i rows)
  unfolding is_replaced
  new_records-Disjoint_ext i rows [] = tt
  new_records-Disjoint_ext i rows (r ∷ rs) =
      ground (arith, new_records-Disjoint_ext i rows rs, has-new_records r.external_id i rows)

pub indexed_in-append :
    (x : ℕ) (rs qs : List Record) → indexed_in x (rs ++ qs) ≡ (indexed_in x rs || indexed_in x qs)
unfolding indexed_in
indexed_in-append x [] qs = refl
indexed_in-append x (r ∷ rs) qs = ground (arith, indexed_in-append x rs qs)
