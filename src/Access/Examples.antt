-- ===== src/Access/Examples.antt =====
-- Requests with a root key and with a collection's key.
use raggio.Prelude.{◌≡◌, ◌≢◌, ◌↔◌, ◌⊎◌, refl, String, Option, some, List, [], ◌∷◌, ◌++◌}
use raggio.Prelude.Keys.{string_eq, lookup}
use raggio.Access.{Text, granted, require_collection, request_key, bearer}
use raggio.Access.Keys.{require_collection-granted, bearer_key}

abbrev root : Text
root = b'r' ∷ []

-- A hash that marks the key's text.
abbrev hash : Text → Text
hash key = b'#' ∷ key

-- The collection "docs" with the key "k".
abbrev catalog : List (String × Option Text)
catalog = ("docs", some (hash (b'k' ∷ []))) ∷ []

hash-nonempty : hash (b'k' ∷ []) ≢ []
hash-nonempty e = cc

require_collection-granted_example :
    (require_collection root hash "docs" (b'k' ∷ []) catalog ≡ granted)
    ↔ ((b'k' ∷ [] ≡ root) ⊎ (lookup "docs" catalog ≡ some (some (hash (b'k' ∷ [])))))
require_collection-granted_example =
    require_collection-granted root hash "docs" (b'k' ∷ []) catalog refl refl refl hash-nonempty

bearer_key_example : request_key [] (bearer ++ b'k' ∷ []) ≡ b'k' ∷ []
bearer_key_example = bearer_key (b'k' ∷ [])
