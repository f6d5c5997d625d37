-- ===== src/Collection/Patch/Examples.antt =====
-- A patch of a summary under a key that is not indexed.
use raggio.Prelude.{ℕ, ◌≡◌, refl, String, true, false, none, some, List, [], ◌∷◌, ◌++◌, All, arith}
use raggio.Prelude.Keys.{string_eq, lookup}
use raggio.Prelude.Result.{ok}
use raggio.Json.{Json, str}
use raggio.Rows.{Metadata, summary}
use raggio.Fts.{fts_metadata}
use raggio.Collection.{Record, State}
use raggio.Collection.Patch.{patch_rows}
use raggio.Collection.Patch.Suffixes.{HasSuffix, KeepsOthers, patch_rows-HasSuffix}

abbrev text_of : Json → String
text_of (str s) = s
text_of _ = ""

-- The patch's entries come first and hide the old ones.
abbrev in_front : Metadata → Metadata → Metadata
in_front m p = p ++ m

in_front-KeepsOthers : KeepsOthers in_front
unfolding lookup
in_front-KeepsOthers m [] k h = refl
in_front-KeepsOthers m (e ∷ p) k h = ground (arith, in_front-KeepsOthers m p k)

abbrev titled : Record
titled = record {
  id = 1;
  external_id = "d";
  doc_id = "d";
  kind = summary;
  position = none;
  text = some "body";
  metadata = ("title", str "Casa") ∷ [];
  indexed = true;
  fts_metadata = fts_metadata text_of (("title", str "Casa") ∷ []) ("title" ∷ []);
}

abbrev stored : State ℕ (List ℕ)
stored = record {
  records = titled ∷ [];
  vecs = [];
  index = 1 ∷ [];
  file = 1 ∷ [];
  removed_since_sync = 0;
  indexed_counts = record { chunks = 0; summaries = 1 };
  allow_gen = 0;
  df_cache_churn = 3;
}

abbrev patched : State ℕ (List ℕ)
patched = record stored {
  records = record titled { metadata = ("state", str "final") ∷ ("title", str "Casa") ∷ [] } ∷ [];
  allow_gen = 1;
}

patch_accepted :
    patch_rows text_of in_front ("title" ∷ []) true "d" (("state", str "final") ∷ []) false stored
    ≡ ok (1, patched)
unfolding patch_rows
patch_accepted = refl

patch_rows-HasSuffix_example : All (HasSuffix text_of in_front ("title" ∷ [])) patched.records
patch_rows-HasSuffix_example =
    patch_rows-HasSuffix text_of in_front ("title" ∷ []) in_front-KeepsOthers "d"
      (("state", str "final") ∷ []) false stored (refl, tt) patch_accepted
