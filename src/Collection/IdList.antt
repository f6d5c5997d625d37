-- ===== src/Collection/IdList.antt =====
-- A vector index that is the list of its ids: the interface `VectorIndex` can be filled.
use raggio.Prelude.{
  ℕ, ◌≡◌, refl, Bool, false, not, ◌||◌, List, [], ◌∷◌, ◌++◌, map, arith, ◌==◌, keep, if◌then◌else◌,
}
use raggio.Prelude.Keys.{nat_eq, has}
use raggio.Collection.{VectorIndex}

abbrev pub ids : List ℕ → ℕ → Bool
ids i x = has (λ (g : ℕ). g) x i

pub ids-add :
    (i : List ℕ) (es : List (ℕ × ℕ)) (x : ℕ)
    → ids (map (λ (e : ℕ × ℕ). e.0) es ++ i) x ≡ (has (λ (e : ℕ × ℕ). e.0) x es || ids i x)
ids-add i [] x = refl
ids-add i (e ∷ es) x = ground (arith, ids-add i es x)

pub ids-remove :
    (i : List ℕ) (y x : ℕ)
    → ids (keep (λ g. not (g == y)) i) x ≡ (if y == x then false else ids i x)
ids-remove [] y x = ground arith
ids-remove (g ∷ i) y x = ground (arith, ids-remove i y x)

abbrev pub id_list : VectorIndex ℕ
id_list = record {
  Index = List ℕ;
  contains = ids;
  add_with_ids = λ i es. map (λ (e : ℕ × ℕ). e.0) es ++ i;
  remove_id = λ i y. keep (λ g. not (g == y)) i;
  contains-add = ids-add;
  contains-remove = ids-remove;
  all_ids = λ i. i;
  has-all_ids = λ i x. refl;
}
