-- ===== src/Fts/Examples.antt =====
-- Metadata that differ under a key that is not indexed.
use raggio.Prelude.{refl, String, [], ◌∷◌}
use raggio.Prelude.Keys.{string_eq, lookup}
use raggio.Json.{Json, str}
use raggio.Rows.{Metadata}
use raggio.Fts.Suffix.{AgreeOn}

abbrev text_of : Json → String
text_of (str s) = s
text_of _ = ""

abbrev draft : Metadata
draft = ("title", str "Casa") ∷ ("state", str "draft") ∷ []

abbrev final : Metadata
final = ("state", str "final") ∷ ("title", str "Casa") ∷ []

same_title : AgreeOn ("title" ∷ []) draft final
unfolding lookup
same_title = (refl, tt)
