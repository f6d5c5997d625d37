-- ===== src/Json.antt =====
-- JSON values as the code receives them from `json.loads`: an object is a list of fields in order,
-- and a number is the text of its literal, which the modelled code passes on and never computes with.
use raggio.Prelude.{String, Bool, true, false, List, [], ◌∷◌}

mutual
  pub data Json : Type 0 where
    null : Json
    bool : Bool → Json
    num : String → Json
    str : String → Json
    arr : Items → Json
    obj : Fields → Json

  pub data Items : Type 0 where
    nil : Items
    cons : Json → Items → Items

  pub data Fields : Type 0 where
    end : Fields
    field : String → Json → Fields → Fields

-- The members of an array, as a list.
unfoldable pub members : Items → List Json
members nil = []
members (cons x xs) = x ∷ members xs

-- `val.items()`
unfoldable pub entries : Fields → List (String × Json)
entries end = []
entries (field k v fs) = (k, v) ∷ entries fs

-- `isinstance(b, (list, dict))`
unfoldable pub is_nested : Json → Bool
is_nested (arr xs) = true
is_nested (obj fs) = true
is_nested _ = false
