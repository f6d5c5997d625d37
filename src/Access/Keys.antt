-- ===== src/Access/Keys.antt =====
-- Which keys open which collections.
use raggio.Prelude.{
  String, ◌≡◌, ◌≢◌, ◌↔◌, refl, true, false, ◌⊎◌, Option, none, some, List, [], ◌∷◌, ◌++◌, arith,
  ==_iff,
}
use raggio.Prelude.Keys.{string_eq, lookup}
use raggio.Access.{
  Text, same_text, bearer, request_key, granted, server_error, is_ascii, is_root, by_collection_key,
  require_collection,
}

same_text_sound : (a b : Text) → same_text a b ≡ true → a ≡ b
unfolding same_text
same_text_sound [] [] h = refl
same_text_sound [] (d ∷ ds) h = cc
same_text_sound (c ∷ cs) [] h = cc
same_text_sound (c ∷ cs) (d ∷ ds) h = ground (arith, same_text_sound cs ds, ==_iff c d)

same_text_refl : (a : Text) → same_text a a ≡ true
unfolding same_text
same_text_refl [] = refl
same_text_refl (c ∷ cs) = ground (arith, same_text_refl cs, ==_iff c c)

module _ (root : Text) (hash : Text → Text) where
  -- The root key, if it is ASCII, opens every collection, known or not; any other ASCII key opens
  -- exactly the collections whose stored hash is that key's own (hashes are non-empty ASCII texts).
  pub require_collection-granted :
      (name : String) (key : Text) (catalog : List (String × Option Text))
      → is_ascii root ≡ true
      → is_ascii key ≡ true
      → is_ascii (hash key) ≡ true
      → hash key ≢ []
      → (require_collection root hash name key catalog ≡ granted)
        ↔ ((key ≡ root) ⊎ (lookup name catalog ≡ some (some (hash key))))
  unfolding require_collection by_collection_key
  require_collection-granted name key catalog ra ka ha hn =
      by_case (same_text_sound key root) (same_text_refl root) (lookup name catalog)
    where
      by_case :
          (same_text key root ≡ true → key ≡ root)
          → same_text root root ≡ true
          → (found : Option (Option Text))
          → (elim (is_root root key) [
            | none ↦ server_error
            | some true ↦ granted
            | some false ↦ by_collection_key root hash key found
          ]
              ≡ granted)
            ↔ ((key ≡ root) ⊎ (found ≡ some (some (hash key))))
      by_case sound same none = ground (arith, ra, ka)
      by_case sound same (some none) = ground (arith, ra, ka)
      by_case sound same (some (some [])) = ground (arith, ra, ka, hn)
      by_case sound same (some (some (c ∷ cs))) =
          ground (arith, ra, ka, ha, same_text_sound (hash key) (c ∷ cs), same_text_refl (hash key))

-- A key that comes as a bearer token is read as it would be from the key header.
pub bearer_key : (key : Text) → request_key [] (bearer ++ key) ≡ key
unfolding request_key
bearer_key key = refl
