-- ===== src/Collection/Replay/Lag.antt =====
-- How far the index may lag behind the records while jobs are replayed.
use raggio.Prelude.{
  ℕ, ◌+◌, String, ◌≡◌, refl, sym, ◌∙◌, Bool, true, false, not, ◌||◌, ◌&&◌, inl, inr, List, [], ◌∷◌,
  ◌++◌, arith, length, keep, All, All-append, All-map, All-both, keep-All, any, ◌==◌, ==_iff,
  Bool-cases, if◌then◌else◌,
}
use raggio.Prelude.Keys.{nat_eq, string_eq, has, Distinct}
use raggio.Rows.{Metadata, Row}
use raggio.Collection.{
  VectorIndex, Record, max_id, State, is_replaced, new_records, with_ids, indexed_ids, remove_ids,
}
use raggio.Collection.Membership.{
  record_id, self, indexed_in, indexed_in-keep, indexed_in-append, indexed_in-new_records,
}
use raggio.Collection.Writes.Invariant.{InStep, contains-remove_ids}
use raggio.Collection.Replay.{ghosts}

has-indexed_ids : (x : ℕ) (rs : List Record) → has self x (indexed_ids rs) ≡ indexed_in x rs
unfolding indexed_in
has-indexed_ids x [] = refl
has-indexed_ids x (r ∷ rs) = ground (arith, has-indexed_ids x rs)

pub has-keep :
    (p : ℕ → Bool) (x : ℕ) (xs : List ℕ) → has self x (keep p xs) ≡ (p x && has self x xs)
has-keep p x [] = ground arith
has-keep p x (y ∷ xs) = ground (arith, has-keep p x xs, ==_iff y x)

module _ {V : Type 0} (vi : VectorIndex V) where
  open vi use {Index, contains, all_ids, has-all_ids}

  pub contains-without_ghosts :
      (s : State V Index) (x : ℕ)
      → contains (remove_ids vi (ghosts vi s) s.index) x
        ≡ (contains s.index x && indexed_in x s.records)
  unfolding ghosts
  contains-without_ghosts s x = ground (
    arith,
    contains-remove_ids vi (ghosts vi s) s.index x,
    has-keep (λ y. not (has self y (indexed_ids s.records))) x (all_ids s.index),
    has-all_ids s.index x,
    has-indexed_ids x s.records,
  )

-- Some job of the list replaces the record.
abbrev pub replaced_by : {V : Type 0} → List (List (Row V)) → Record → Bool
replaced_by jobs r = any (λ rows. is_replaced rows r) jobs

pub indexed_in_self :
    (rs : List Record) → All (λ r. r.indexed ≡ true → indexed_in r.id rs ≡ true) rs
unfolding indexed_in
indexed_in_self [] = tt
indexed_in_self (r ∷ rs) = (
  λ h. ground (arith, ==_iff r.id r.id),
  All-map _ _ rs (λ q k h. ground (arith, k h)) (indexed_in_self rs),
)

module _ {V : Type 0} (vi : VectorIndex V) where
  open vi use {Index, contains}

  -- The index has no id but those of indexed records, and an indexed record that it lacks is
  -- replaced by a job that is still to run.
  pub record Lags (jobs : List (List (Row V))) (i : Index) (rs : List Record) : Type 0 where
    pub no_ghosts : (x : ℕ) → contains i x ≡ true → indexed_in x rs ≡ true
    pub covered :
        All (λ r. r.indexed ≡ true → contains i r.id ≡ false → replaced_by jobs r ≡ true) rs

  indexed_in-false :
      (i : Index) (x : ℕ) (rs : List Record)
      → contains i x ≡ false
      → All (λ r. r.indexed ≡ true → contains i r.id ≡ true) rs
      → indexed_in x rs ≡ false
  unfolding indexed_in
  indexed_in-false i x [] h a = refl
  indexed_in-false i x (r ∷ rs) h a =
      let head = a.0 in
      let rest = indexed_in-false i x rs h a.1 in
      elim (Bool-cases (r.id == x)) [
        | inl e ↦
            let same : r.id ≡ x = (==_iff r.id x).0 e in
            let there : contains i r.id ≡ false = rw same h in ground arith
        | inr e ↦ ground arith
      ]

  -- With no job left to run, the index is in step.
  pub Lags-nil : (i : Index) (rs : List Record) → Lags [] i rs → InStep vi i rs
  Lags-nil i rs l x = elim (Bool-cases (contains i x)) [
    | inl e ↦ e ∙ sym (l.no_ghosts x e)
    | inr e ↦
        e
        ∙ sym (
            indexed_in-false i x rs e (
              All-map _ _ rs
                (λ r k d. elim (Bool-cases (contains i r.id)) [
                  | inl c ↦ c
                  | inr c ↦ absurd (cc (k d c))
                ])
                l.covered))
  ]

  module _ (suffix : Metadata → String) (rows : List (Row V)) (jobs : List (List (Row V)))
      (mat : List V) (rs : List Record) (i i' : Index) (distinct : Distinct record_id rs)
      (lengths : length rows ≡ length mat)
      (ids : (x : ℕ)
        → contains i' x ≡ (
            has (λ (e : ℕ × V). e.0) x (with_ids (max_id rs + 1) mat)
            || (if has self x (indexed_ids (keep (is_replaced rows) rs))
                then false
                else contains i x))) where
    abbrev stay : List Record
    stay = keep (λ r. not (is_replaced rows r)) rs

    abbrev new : List Record
    new = new_records suffix (max_id rs + 1) rows

    stay_covered :
        (r : Record)
        → (r.indexed ≡ true → contains i r.id ≡ false → replaced_by (rows ∷ jobs) r ≡ true)
        → not (is_replaced rows r) ≡ true
        → (r.indexed ≡ true → indexed_in r.id stay ≡ true)
        → r.indexed ≡ true
        → contains i' r.id ≡ false
        → replaced_by jobs r ≡ true
    stay_covered r k n self_in d c =
        let lacks : contains i r.id ≡ false =
          ground
            (arith, ids r.id, indexed_in-keep (is_replaced rows) r.id rs distinct, self_in d) in
        ground (arith, k d lacks)

    -- One job of the replay leaves an index that lags by the other jobs only.
    pub Lags-step : Lags (rows ∷ jobs) i rs → Lags jobs i' (stay ++ new)
    Lags-step l = record {
      no_ghosts = λ x h. ground (
        arith,
        ids x,
        l.no_ghosts x,
        indexed_in-append x stay new,
        indexed_in-keep (is_replaced rows) x rs distinct,
        indexed_in-new_records suffix x (max_id rs + 1) rows mat lengths,
      );
      covered =
          All-append _ stay new
            (All-map _ _ stay (λ r h. stay_covered r h.0.0 h.0.1 h.1)
              (All-both _ _ stay (keep-All _ (λ r. not (is_replaced rows r)) rs l.covered)
                (indexed_in_self stay)))
            (All-map _ _ new (λ r h d c. absurd (cc (new_there r (h d), c))) (indexed_in_self new));
    }
      where
        new_there : (r : Record) → indexed_in r.id new ≡ true → contains i' r.id ≡ true
        new_there r h =
            ground
              (arith, ids r.id, indexed_in-new_records suffix r.id (max_id rs + 1) rows mat lengths)
