-- ===== src/Fts/Suffix.antt =====
-- The suffix depends on the metadata under the configured keys only.
use mathlib.Core.Path.{ap₂}
use Prim.Native.String.{◌++◌ as str_append}
use raggio.Prelude.{String, ◌≡◌, refl, List, [], ◌∷◌, All}
use raggio.Prelude.Keys.{string_eq, lookup}
use raggio.Json.{Json}
use raggio.Rows.{Metadata}
use raggio.Fts.{fts_metadata}

abbrev pub AgreeOn : List String → Metadata → Metadata → Type 0
AgreeOn keys m n = All (λ k. lookup k m ≡ lookup k n) keys

-- Two metadata objects that agree under every indexed key add the same text.
pub fts_metadata-local :
    (f : Json → String) (keys : List String) (m n : Metadata)
    → AgreeOn keys m n
    → fts_metadata f m keys ≡ fts_metadata f n keys
unfolding fts_metadata
fts_metadata-local f [] m n h = refl
fts_metadata-local f (k ∷ keys) m n h = ap₂ str_append (rw h.0) (fts_metadata-local f keys m n h.1)
