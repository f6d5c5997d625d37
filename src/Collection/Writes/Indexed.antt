-- ===== src/Collection/Writes/Indexed.antt =====
-- What the steps of `_process_job` after the upsert, and a write of the index, leave of the state.
use raggio.Prelude.{
  ℕ, ◌<◌, ◌≡◌, refl, sym, ap, ap₂, ◌∙◌, Bool, true, false, not, ◌||◌, ◌&&◌, List, [], ◌∷◌, arith,
  length, if◌then◌else◌,
}
use raggio.Prelude.Keys.{nat_eq, string_eq, has}
use raggio.Prelude.Result.{ok_once, ok, err, ◌>>=◌}
use raggio.Slices.{slices, concat-slices}
use raggio.Collection.{
  VectorIndex, State, Upserted, with_ids, remove_ids, sync_index, sync_or_raise, sync_raised,
}
use raggio.Collection.Membership.{self}
use raggio.Collection.Writes.{cal_threshold, leave_index, add_slices, indexed_rows, index_rows}
use raggio.Collection.Writes.Invariant.{contains-remove_ids, contains-add_slices}

module _ {V : Type 0} (vi : VectorIndex V) where
  open vi use {Index, contains}

  index-leave_index :
      (syncs : Bool) (xs : List ℕ) (s : State V Index)
      → (leave_index vi syncs xs s).index ≡ remove_ids vi xs s.index
  unfolding leave_index remove_ids
  index-leave_index syncs [] s = refl
  index-leave_index syncs (x ∷ xs) s = ground arith

  records-leave_index :
      (syncs : Bool) (xs : List ℕ) (s : State V Index)
      → ((leave_index vi syncs xs s).records ≡ s.records)
        × ((leave_index vi syncs xs s).indexed_counts ≡ s.indexed_counts)
  unfolding leave_index
  records-leave_index syncs [] s = (refl, refl)
  records-leave_index syncs (x ∷ xs) s = ground arith

  module _ (room armed : Bool) (mat : List V) (u : Upserted) (s : State V Index) where
    pub records-indexed_rows :
        ((indexed_rows vi room armed mat (u, s)).records ≡ s.records)
        × ((indexed_rows vi room armed mat (u, s)).indexed_counts ≡ s.indexed_counts)
    unfolding indexed_rows
    records-indexed_rows = ground (arith, records-leave_index room u.replaced s)

    step : ℕ
    step = if armed then cal_threshold else length mat

    index-indexed_rows :
        (indexed_rows vi room armed mat (u, s)).index
        ≡ add_slices vi
            (slices step (with_ids u.first mat))
            (leave_index vi room u.replaced s).index
    unfolding indexed_rows step
    index-indexed_rows = ground arith

    step_pos : 0 < length mat → 0 < step
    unfolding step
    step_pos h = ground arith

    pub contains-indexed_rows :
        (x : ℕ)
        → 0 < length mat
        → contains (indexed_rows vi room armed mat (u, s)).index x ≡ (
            has (λ (e : ℕ × V). e.0) x (with_ids u.first mat)
            || (if has self x u.replaced then false else contains s.index x))
    contains-indexed_rows x h =
        let entries = with_ids u.first mat in
        ap (λ (i : Index). contains i x) index-indexed_rows
        ∙ (contains-add_slices vi (slices step entries) (leave_index vi room u.replaced s).index x
            ∙ ap₂ (λ (es : List (ℕ × V)) (b : Bool). has (λ (e : ℕ × V). e.0) x es || b)
                (concat-slices step entries (step_pos h))
                (ap (λ (i : Index). contains i x) (index-leave_index room u.replaced s)
                  ∙ contains-remove_ids vi u.replaced s.index x))

  pub sync_keeps :
      (writes lands : Bool) (s : State V Index)
      → let s' = if writes then sync_index vi lands s else s in
        (s'.records ≡ s.records) × (s'.indexed_counts ≡ s.indexed_counts) × (s'.index ≡ s.index)
  unfolding sync_index
  sync_keeps true true s = (refl, refl, refl)
  sync_keeps true false s = (refl, refl, refl)
  sync_keeps false lands s = (refl, refl, refl)

  -- A write of the index that may be due: what it leaves, and whether it raises.
  pub sync_if_lem :
      (writes lands : Bool) (s : State V Index)
      → (if writes then sync_or_raise vi lands s else ok s) ≡ (
          let s' = if writes then sync_index vi lands s else s in
          if writes && not lands then err (sync_raised s') else ok s')
  unfolding sync_or_raise
  sync_if_lem true true s = refl
  sync_if_lem true false s = refl
  sync_if_lem false lands s = refl

  pub index_rows_unsynced :
      (room armed lands : Bool) (mat : List V) (q : Upserted × State V Index)
      → index_rows vi room armed false lands mat q ≡ ok (indexed_rows vi room armed mat q)
  unfolding index_rows
  index_rows_unsynced room armed lands mat q = refl

  -- The records of the state that is returned are those of the upsert.
  pub records-index_rows :
      (room armed sync lands : Bool) (mat : List V) (u : Upserted) (s : State V Index)
      {s' : State V Index}
      → index_rows vi room armed sync lands mat (u, s) ≡ ok s'
      → s'.records ≡ s.records
  unfolding index_rows sync_or_raise sync_index
  records-index_rows room armed true true mat u s e =
      ap (λ (t : State V Index). t.records) (sym (ok_once _ refl e))
      ∙ (records-indexed_rows room armed mat u s).0
  records-index_rows room armed true false mat u s e = absurd (cc e)
  records-index_rows room armed false lands mat u s e =
      ap (λ (t : State V Index). t.records) (sym (ok_once _ refl e))
      ∙ (records-indexed_rows room armed mat u s).0

  -- The same, with a number beside the state.
  pub counted_sync_lem :
      (writes lands : Bool) (n : ℕ) (s : State V Index)
      → ◌>>=◌ {B = ℕ × State V Index}
          (if writes then sync_or_raise vi lands s else ok s)
          (λ s2. ok (n, s2))
        ≡ (let s' = if writes then sync_index vi lands s else s in
            if writes && not lands then err (sync_raised s') else ok (n, s'))
  unfolding sync_or_raise
  counted_sync_lem true true n s = refl
  counted_sync_lem true false n s = refl
  counted_sync_lem false lands n s = refl
