-- ===== src/Collection/Patch/Suffixes.antt =====
-- A patch keeps every record's full-text suffix in step with its metadata.
use raggio.Prelude.{
  ℕ, String, ◌≡◌, refl, sym, subst, ◌∙◌, Bool, true, false, List, [], ◌∷◌, arith, any, All,
  Bool-cases, inl, inr,
}
use raggio.Prelude.Keys.{string_eq, lookup, has, key}
use raggio.Prelude.Result.{Result, ok, err}
use raggio.Json.{Json}
use raggio.Rows.{Metadata}
use raggio.Fts.{fts_metadata}
use raggio.Fts.Suffix.{AgreeOn, fts_metadata-local}
use raggio.Collection.{Record, Failed, State}
use raggio.Collection.Patch.{is_patched, reindexes, patched_record, patched_records, patch_rows}

-- RFC 7396 at the top level: a key that the patch lacks keeps its value.
abbrev pub KeepsOthers : (Metadata → Metadata → Metadata) → Type 0
KeepsOthers json_patch =
    (m p : Metadata) (k : String) → has key k p ≡ false → lookup k (json_patch m p) ≡ lookup k m

module _ (text_of : Json → String) (json_patch : Metadata → Metadata → Metadata)
    (keys : List String) where
  -- Every record's suffix is that of its metadata.
  abbrev pub HasSuffix : Record → Type 0
  HasSuffix r = r.fts_metadata ≡ fts_metadata text_of r.metadata keys

  agree :
      (law : KeepsOthers json_patch) (m p : Metadata) (ks : List String)
      → any (λ k. has key k p) ks ≡ false
      → AgreeOn ks (json_patch m p) m
  agree law m p [] h = tt
  agree law m p (k ∷ ks) h = (law m p k (ground arith), agree law m p ks (ground arith))

  patched-HasSuffix :
      (law : KeepsOthers json_patch) (patch : Metadata) (r : Record)
      → HasSuffix r
      → HasSuffix (patched_record text_of json_patch keys patch r)
  unfolding patched_record reindexes
  patched-HasSuffix law patch r h = elim (Bool-cases (any (λ k. has key k patch) keys)) [
    | inl e ↦ rw e refl
    | inr e ↦
        rw e (h ∙ sym (fts_metadata-local text_of keys _ _ (agree law r.metadata patch keys e)))
  ]

  All-patched :
      (law : KeepsOthers json_patch) (doc_id : String) (patch : Metadata) (chunks : Bool)
      (rs : List Record)
      → All HasSuffix rs
      → All HasSuffix (patched_records text_of json_patch keys doc_id patch chunks rs)
  unfolding patched_records
  All-patched law doc_id patch chunks [] h = tt
  All-patched law doc_id patch chunks (r ∷ rs) h =
      let rest = All-patched law doc_id patch chunks rs h.1 in
      elim (Bool-cases (is_patched doc_id chunks r)) [
        | inl e ↦ rw e (patched-HasSuffix law patch r h.0, rest)
        | inr e ↦ rw e (h.0, rest)
      ]

  -- A committed patch leaves every record with the suffix of its metadata, also where it does not
  -- touch the suffixes because the patch has none of the indexed keys. A key that the patch lacks
  -- keeps its value.
  pub patch_rows-HasSuffix :
      {V I : Type 0} (law : KeepsOthers json_patch) (doc_id : String) (patch : Metadata)
      (chunks : Bool) (s : State V I) {n : ℕ} {s' : State V I}
      → All HasSuffix s.records
      → patch_rows text_of json_patch keys true doc_id patch chunks s ≡ ok (n, s')
      → All HasSuffix s'.records
  unfolding patch_rows
  patch_rows-HasSuffix {V = V} {I = I} law doc_id patch chunks s h e =
      subst Good e (All-patched law doc_id patch chunks s.records h)
    where
      Good : Result (Failed (State V I)) (ℕ × State V I) → Type 0
      Good (ok (k, t)) = All HasSuffix t.records
      Good (err x) = Unit
