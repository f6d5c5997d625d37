-- ===== src/Fts.antt =====
-- `_validate_fts_keys` and `_fts_metadata` of src/raggio/store.py: the metadata keys that a
-- collection indexes for full-text search, and the text that they add to a record.
--
-- Python's `str()` of a scalar is the section's parameter `text_of`.
pub mod Suffix
mod Examples
use Prim.Native.String.{◌++◌ as str_append}
use Prim.Native.Char.{Char, code}
use text.Mathlib.Text.{◌==◌ as str_eq}
use raggio.Prelude.{
  ℕ, ◌≤◌, String, Bool, true, false, not, ◌&&◌, ◌||◌, Option, none, some, List, [], ◌∷◌, ltb, leb,
  ◌==◌, length, any, if◌then◌else◌,
}
use raggio.Prelude.Keys.{Eq, ◌=?◌, string_eq, lookup, has}
use raggio.Json.{Json, null, bool, num, str, arr, obj, members, is_nested}
use raggio.Rows.{Metadata}

-- The code points of a text.
abbrev pub codes : String → List ℕ
codes Prim.Native.String.String.[] = []
codes (Prim.Native.String.String.◌∷◌ c s) = code c ∷ codes s

-- [A-Za-z0-9_.-]
pub is_key_char : ℕ → Bool
is_key_char c =
    (leb b'A' c && leb c b'Z')
    || (leb b'a' c && leb c b'z')
    || (leb b'0' c && leb c b'9')
    || c == b'_'
    || c == b'.'
    || c == b'-'

-- The pattern of 1 to 64 such characters.
pub is_key : String → Bool
unfolding is_key_char
is_key k =
    let cs = codes k in
    leb 1 (length cs) && leb (length cs) 64 && not (any (λ c. not (is_key_char c)) cs)

-- `len(set(keys)) != len(keys)`
pub has_repeats : List String → Bool
has_repeats [] = false
has_repeats (k ∷ ks) = has (λ (j : String). j) k ks || has_repeats ks

-- True where the code returns, false where it raises its `ValueError`.
pub validate_fts_keys : Option (List String) → Bool
unfolding is_key has_repeats
validate_fts_keys none = true
validate_fts_keys (some keys) =
    not (
      ltb 8 (length keys)
      || any (λ k. not (is_key k) || str_eq k "doc_id") keys
      || has_repeats keys)

-- `" ".join(...)`
pub join_spaces : List String → String
join_spaces [] = ""
join_spaces (s ∷ []) = s
join_spaces (s ∷ t ∷ ss) = str_append s (str_append " " (join_spaces (t ∷ ss)))

module _ (text_of : Json → String) where
  -- `str(v) for v in value if v is not None`
  pub texts : List Json → List String
  texts [] = []
  texts (null ∷ vs) = texts vs
  texts (v ∷ vs) = text_of v ∷ texts vs

  -- What one value adds: a list of scalars is joined; null, objects and nested lists add nothing.
  pub value_part : Option Json → String
  unfolding members is_nested join_spaces texts
  value_part none = ""
  value_part (some null) = ""
  value_part (some (obj fs)) = ""
  value_part (some (arr xs)) =
      if any is_nested (members xs) then "" else str_append "\n" (join_spaces (texts (members xs)))
  value_part (some v) = str_append "\n" (text_of v)

  pub fts_metadata : Metadata → List String → String
  unfolding value_part lookup
  fts_metadata metadata [] = ""
  fts_metadata metadata (key ∷ keys) =
      str_append (value_part (lookup key metadata)) (fts_metadata metadata keys)
