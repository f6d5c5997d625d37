-- ===== src/Rows/Unique.antt =====
-- One row for each external id: the last of the payload.
use raggio.Prelude.{
  String, ◌≡◌, refl, ◌∙◌, Option, none, some, List, [], ◌∷◌, map, arith, if◌then◌else◌, All,
}
use raggio.Prelude.Keys.{
  ◌=?◌, string_eq, insert, lookup, lookup-insert, key, has, Distinct, insert-Distinct,
}
use raggio.Rows.{Row, DocumentIn, all_rows, by_external_id, payload_rows}

module _ {V : Type 0} where
  abbrev pub row_id : Row V → String
  row_id r = r.external_id

  -- The first row with an external id.
  unfoldable pub find_row : String → List (Row V) → Option (Row V)
  find_row k [] = none
  find_row k (r ∷ rs) = if r.external_id =? k then some r else find_row k rs

  -- The last row with an external id.
  unfoldable pub last_row : String → List (Row V) → Option (Row V)
  last_row k [] = none
  last_row k (r ∷ rs) = elim (last_row k rs) [
    | some found ↦ some found
    | none ↦ if r.external_id =? k then some r else none
  ]

  -- A later row, or what the dictionary held.
  abbrev or_else : Option (Row V) → Option (Row V) → Option (Row V)
  or_else (some r) o = some r
  or_else none o = o

  or_else_none : (k : String) (o : Option (Row V)) → or_else o (lookup k []) ≡ o
  unfolding lookup
  or_else_none k none = refl
  or_else_none k (some r) = refl

  lookup-by_external_id :
      (k : String) (m : List (String × Row V)) (rs : List (Row V))
      → lookup k (by_external_id m rs) ≡ or_else (last_row k rs) (lookup k m)
  unfolding by_external_id last_row
  lookup-by_external_id k m [] = refl
  lookup-by_external_id k m (r ∷ rs) = ground (
    arith,
    lookup-by_external_id k (insert r.external_id r m) rs,
    lookup-insert r.external_id k r m,
  )

  -- Each entry is stored under its row's external id.
  abbrev IsKeyed : List (String × Row V) → Type 0
  IsKeyed = All (λ e. e.0 ≡ e.1.external_id)

  insert-IsKeyed :
      (r : Row V) (m : List (String × Row V)) → IsKeyed m → IsKeyed (insert r.external_id r m)
  unfolding insert
  insert-IsKeyed r [] h = (refl, tt)
  insert-IsKeyed r ((j, w) ∷ m) h =
      ground (arith, insert-IsKeyed r m h.1, string_eq.beq_iff j r.external_id)

  by_external_id-IsKeyed :
      (m : List (String × Row V)) (rs : List (Row V)) → IsKeyed m → IsKeyed (by_external_id m rs)
  unfolding by_external_id
  by_external_id-IsKeyed m [] h = h
  by_external_id-IsKeyed m (r ∷ rs) h =
      by_external_id-IsKeyed (insert r.external_id r m) rs (insert-IsKeyed r m h)

  by_external_id-Distinct :
      (m : List (String × Row V)) (rs : List (Row V))
      → Distinct key m
      → Distinct key (by_external_id m rs)
  unfolding by_external_id
  by_external_id-Distinct m [] d = d
  by_external_id-Distinct m (r ∷ rs) d =
      by_external_id-Distinct (insert r.external_id r m) rs (insert-Distinct r.external_id r m d)

  find-values :
      (k : String) (m : List (String × Row V))
      → IsKeyed m
      → find_row k (map (λ e. e.1) m) ≡ lookup k m
  unfolding find_row lookup
  find-values k [] h = refl
  find-values k ((j, r) ∷ m) h = ground (arith, find-values k m h.1)

  has-values :
      (k : String) (m : List (String × Row V))
      → IsKeyed m
      → has row_id k (map (λ e. e.1) m) ≡ has key k m
  has-values k [] h = refl
  has-values k ((j, r) ∷ m) h = ground (arith, has-values k m h.1)

  values-Distinct :
      (m : List (String × Row V)) → IsKeyed m → Distinct key m → Distinct row_id (map (λ e. e.1) m)
  values-Distinct [] h d = tt
  values-Distinct ((j, r) ∷ m) h d =
      (ground (arith, has-values r.external_id m h.1), values-Distinct m h.1 d.1)

  -- The rows of a payload have distinct external ids, and for each external id the row is the last
  -- one that the documents give for it.
  pub payload_rows-last :
      (docs : List (DocumentIn V))
      → Distinct row_id (payload_rows docs)
        × ((k : String) → find_row k (payload_rows docs) ≡ last_row k (all_rows docs))
  unfolding payload_rows
  payload_rows-last docs =
      let keyed = by_external_id-IsKeyed [] (all_rows docs) tt in
      (
        values-Distinct _ keyed (by_external_id-Distinct [] (all_rows docs) tt),
        λ k. find-values k _ keyed ∙ (lookup-by_external_id k [] (all_rows docs) ∙ or_none k),
      )
    where
      or_none :
          (k : String)
          → or_else (last_row k (all_rows docs)) (lookup {V = Row V} k [])
            ≡ last_row k (all_rows docs)
      or_none k = or_else_none k (last_row k (all_rows docs))
