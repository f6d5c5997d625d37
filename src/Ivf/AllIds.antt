-- ===== src/Ivf/AllIds.antt =====
-- `all_ids` of `_IvfIndex`, which the ghost reconcile reads.
use raggio.Prelude.{◌≡◌, ◌⊎◌, none, some}
use raggio.Prelude.Keys.{nat_eq}
use raggio.Collection.{VectorIndex}
use raggio.Ivf.{Shard}

module _ {V : Type 0} (vi : VectorIndex V) where
  open vi use {Index, contains, all_ids, has-all_ids}

  -- The cached ids, if any, are those that the shard holds.
  abbrev pub IsCurrent : Shard Index → Type 0
  IsCurrent s = (s.id_cache ≡ none) ⊎ (s.id_cache ≡ some (all_ids s.memory))
