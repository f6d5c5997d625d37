-- ===== src/Access.antt =====
-- Who may do what: `request_key`, `is_root`, `require_root`, `require_collection` of
-- src/raggio/app.py.
--
-- A text is its list of code points. `hash_key`, SHA-256 in hexadecimal, is a parameter.
pub mod Keys
mod Examples
use raggio.Prelude.{
  ℕ, ◌+◌, ◌<◌, String, Bool, true, false, not, ◌&&◌, Option, none, some, List, [], ◌∷◌, ltb, leb,
  ◌==◌, take, drop, any, map, length, if◌then◌else◌,
}
use raggio.Prelude.Keys.{Eq, ◌=?◌, string_eq, nat_eq, lookup}

abbrev pub Text : Type 0
Text = List ℕ

pub same_text : Text → Text → Bool
same_text [] [] = true
same_text (c ∷ cs) (d ∷ ds) = if c == d then same_text cs ds else false
same_text _ _ = false

-- `auth.lower()`, on the letters that the test looks at.
pub to_lower : ℕ → ℕ
to_lower c = if leb b'A' c && leb c b'Z' then c + 32 else c

-- "bearer "
abbrev pub bearer : Text
bearer = b'b' ∷ b'e' ∷ b'a' ∷ b'r' ∷ b'e' ∷ b'r' ∷ 32 ∷ []

-- The headers `x-api-key` and `authorization`, empty where they are missing.
pub request_key : Text → Text → Text
unfolding same_text to_lower
request_key [] auth = if same_text (take 7 (map to_lower auth)) bearer then drop 7 auth else []
request_key (c ∷ cs) auth = c ∷ cs

pub data Answer : Type 0 where
  granted : Answer
  -- HTTPException(401)
  refused : Answer
  -- the `TypeError` of `hmac.compare_digest`, which becomes a 500
  server_error : Answer

abbrev pub is_ascii : Text → Bool
is_ascii t = not (any (λ c. leb 128 c) t)

-- `hmac.compare_digest` on two `str`: none where it raises, for a text that is not ASCII.
pub compare_digest : Text → Text → Option Bool
unfolding same_text
compare_digest a b = if is_ascii a && is_ascii b then some (same_text a b) else none

module _ (root_api_key : Text) where
  pub is_root : Text → Option Bool
  unfolding compare_digest
  is_root key = compare_digest key root_api_key

  pub require_root : Text → Answer
  unfolding is_root
  require_root key = elim (is_root key) [
    | none ↦ server_error
    | some true ↦ granted
    | some false ↦ refused
  ]

  module _ (hash_key : Text → Text) where
    -- `cfg and cfg.key_hash and hmac.compare_digest(hash_key(key), cfg.key_hash)`
    pub by_collection_key : Text → Option (Option Text) → Answer
    unfolding compare_digest
    by_collection_key key none = refused
    by_collection_key key (some none) = refused
    by_collection_key key (some (some [])) = refused
    by_collection_key key (some (some (c ∷ cs))) = elim (compare_digest (hash_key key) (c ∷ cs)) [
      | none ↦ server_error
      | some true ↦ granted
      | some false ↦ refused
    ]

    -- The catalog gives each collection its `key_hash`.
    pub require_collection : String → Text → List (String × Option Text) → Answer
    unfolding is_root by_collection_key lookup
    require_collection name key catalog = elim (is_root key) [
      | none ↦ server_error
      | some true ↦ granted
      | some false ↦ by_collection_key key (lookup name catalog)
    ]
