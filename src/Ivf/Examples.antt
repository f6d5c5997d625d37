-- ===== src/Ivf/Examples.antt =====
-- Two shards over lists of ids, and a probe that a write overtakes.
use raggio.Prelude.{
  ℕ, ◌<◌, ◌≡◌, ◌⊎◌, refl, true, false, none, some, List, [], ◌∷◌, arith, length, All, if◌then◌else◌,
  ◌==◌, map,
}
use raggio.Prelude.Keys.{nat_eq}
use raggio.Collection.IdList.{id_list}
use raggio.Ivf.{Shard, ShardSync, shard_written, sync, ivf_add, ivf_remove, store_ids}
use raggio.Ivf.Shards.{IsApart}
use raggio.Ivf.Cache.{
  Race, Reach, here, next, no_probe, modifies, writes, reads_gen, reads_ids, stores,
  cached_ids_current,
}

abbrev shard_of : List ℕ → Shard (List ℕ)
shard_of ids = record { memory = ids; file = some ids; dirty = false; gen = 0; id_cache = none }

-- Even numbers in the first shard, odd ones in the second.
abbrev shards : List (Shard (List ℕ))
shards = shard_of (2 ∷ 4 ∷ []) ∷ shard_of (3 ∷ []) ∷ []

shards-IsApart : IsApart id_list shards
shards-IsApart x = ground arith

-- The vector 0 is closest to the first centroid, every other one to the second.
abbrev closest : ℕ → ℕ
closest v = if v == 0 then 0 else 1

abbrev entries : List (ℕ × ℕ)
entries = (6, 0) ∷ (7, 1) ∷ []

entries_in_range : All (λ e. closest e.1 < length shards) entries
entries_in_range = (omega arith, (omega arith, tt))

-- Both syncs land, and a write changes the second shard after its file was written.
abbrev raced_once : ℕ → ShardSync (List ℕ)
raced_once j = record { lands = true; before = []; after = if j == 1 then (9 ∷ []) ∷ [] else [] }

abbrev written : List (Shard (List ℕ))
written = ivf_remove id_list 4 (ivf_add id_list closest entries shards)

second_stays_dirty :
    map (λ (s : Shard (List ℕ)). s.dirty) (sync raced_once written).0 ≡ false ∷ true ∷ []
unfolding sync ivf_remove ivf_add
second_stays_dirty = refl

-- A reader reads the generation and the ids, a write changes the shard, the reader stores its ids.
abbrev overtaken : Race id_list
overtaken = record {
  shard =
      store_ids id_list (0, 3 ∷ [])
        (shard_written (record (shard_of (3 ∷ [])) { memory = 5 ∷ [] }));
  reader = no_probe;
  writing = false;
}

overtaken_reached : Reach id_list overtaken
unfolding store_ids shard_written
overtaken_reached =
    next
      (next
        (next (next (next (here (shard_of (3 ∷ [])) refl) reads_gen) (reads_ids 0 refl))
          (modifies (5 ∷ []) refl))
        (writes refl))
      (stores 0 (3 ∷ []) refl)

cached_ids_current_example :
    (overtaken.shard.id_cache ≡ none) ⊎ (overtaken.shard.id_cache ≡ some overtaken.shard.memory)
cached_ids_current_example = cached_ids_current id_list overtaken_reached refl

-- The first shard's ids are cached, the second's are not.
abbrev half_cached : List (Shard (List ℕ))
half_cached =
    record (shard_of (2 ∷ 4 ∷ [])) { id_cache = some (2 ∷ 4 ∷ []) } ∷ shard_of (3 ∷ []) ∷ []
