-- ===== src/Ivf.antt =====
-- `_IvfIndex` of src/raggio/store.py: an index that is cut into shards, with its dirty set, its files
-- and its cache of shard ids.
--
-- The code's parallel lists `shards`, `_id_gen`, `_id_cache` and its set `_dirty` are one record per
-- shard here. A shard is an index of the interface `VectorIndex`; `assign` is the position of the
-- closest centroid.
pub mod Shards
pub mod Sync
pub mod Cache
pub mod AllIds
mod Examples
use raggio.Prelude.{
  ℕ, zero, suc, ◌+◌, ◌<◌, ◌≡◌, Bool, true, false, not, ◌&&◌, Option, none, some, List, [], ◌∷◌,
  ◌++◌, ◌==◌, ltb, keep, any, length, if◌then◌else◌,
}
use raggio.Collection.{VectorIndex}

pub record Shard (I : Type 0) : Type 0 where
  pub memory : I
  pub file : Option I
  pub dirty : Bool
  pub gen : ℕ
  pub id_cache : Option (List ℕ)

-- Every write to a shard calls this after it changed the shard.
unfoldable pub shard_written : {I : Type 0} → Shard I → Shard I
shard_written s = record s { gen = s.gen + 1; id_cache = none; dirty = true }

abbrev pub has_file : {I : Type 0} → Shard I → Bool
has_file s = elim s.file [ none ↦ false | some i ↦ true ]

-- What becomes of one shard's file while `sync` is at it: whether the shard's own sync lands, and the
-- contents that racing writes leave, before the file is written and after. A write changes the
-- shard and calls `_shard_written` in one.
pub record ShardSync (I : Type 0) : Type 0 where
  pub lands : Bool
  pub before : List I
  pub after : List I

pub written_by : {I : Type 0} → List I → Shard I → Shard I
unfolding shard_written
written_by [] s = s
written_by (i ∷ is) s = written_by is (shard_written (record s { memory = i }))

-- `if gen == self._id_gen[j]: self._dirty.discard(j)`
pub clear_dirty : {I : Type 0} → ℕ → Shard I → Shard I
clear_dirty gen s = if gen == s.gen then record s { dirty = false } else s

-- The generation is read, the file is written, and the flag is cleared if no write came in between. A
-- sync that raises leaves the file and the flag as they were.
pub sync_shard : {I : Type 0} → ShardSync I → Shard I → Shard I
unfolding written_by clear_dirty
sync_shard o s =
    let s1 = written_by o.before s in
    if o.lands
    then clear_dirty s.gen (written_by o.after (record s1 { file = some s1.memory }))
    else written_by o.after s1

-- `sync` from shard `j` on, and whether it came to its end: the first sync that raises ends the call.
pub sync_from : {I : Type 0} → (ℕ → ShardSync I) → ℕ → List (Shard I) → List (Shard I) × Bool
unfolding sync_shard
sync_from syncs j [] = ([], true)
sync_from syncs j (s ∷ ss) =
    let rest = sync_from syncs (suc j) ss in
    if not s.dirty && has_file s
    then (s ∷ rest.0, rest.1)
    else if (syncs j).lands
    then (sync_shard (syncs j) s ∷ rest.0, rest.1)
    else (sync_shard (syncs j) s ∷ ss, false)

pub sync : {I : Type 0} → (ℕ → ShardSync I) → List (Shard I) → List (Shard I) × Bool
unfolding sync_from
sync syncs ss = sync_from syncs 0 ss

-- A shard of `load` has its file's contents, or those of an empty index, and is not dirty.
pub load_shard : {I : Type 0} → I → Option I → Shard I
load_shard empty none = record {
  memory = empty;
  file = none;
  dirty = false;
  gen = 0;
  id_cache = none;
}
load_shard empty (some i) = record {
  memory = i;
  file = some i;
  dirty = false;
  gen = 0;
  id_cache = none;
}

module _ {V : Type 0} (vi : VectorIndex V) where
  open vi use {Index, contains, add_with_ids, remove_id, all_ids}

  abbrev pub in_shard : ℕ → Shard Index → Bool
  in_shard rid s = contains s.memory rid

  pub ivf_contains : ℕ → List (Shard Index) → Bool
  ivf_contains rid ss = any (in_shard rid) ss

  pub add_entries : List (ℕ × V) → Shard Index → Shard Index
  unfolding shard_written
  add_entries [] s = s
  add_entries (e ∷ es) s = shard_written (record s { memory = add_with_ids s.memory (e ∷ es) })

  -- The entries that are assigned to shard `j` or a later one go to their shards.
  pub ivf_add_from : (V → ℕ) → ℕ → List (ℕ × V) → List (Shard Index) → List (Shard Index)
  unfolding add_entries
  ivf_add_from assign j entries [] = []
  ivf_add_from assign j entries (s ∷ ss) =
      add_entries (keep (λ e. assign e.1 == j) entries) s ∷ ivf_add_from assign (suc j) entries ss

  pub ivf_add : (V → ℕ) → List (ℕ × V) → List (Shard Index) → List (Shard Index)
  unfolding ivf_add_from
  ivf_add assign entries ss = ivf_add_from assign 0 entries ss

  -- The first shard that holds the id loses it.
  pub ivf_remove : ℕ → List (Shard Index) → List (Shard Index)
  unfolding shard_written
  ivf_remove rid [] = []
  ivf_remove rid (s ∷ ss) =
      let rest = ivf_remove rid ss in
      if in_shard rid s
      then shard_written (record s { memory = remove_id s.memory rid }) ∷ ss
      else s ∷ rest

  -- `_shard_ids` reads the generation and then the ids; it caches them only if it finds the same
  -- generation afterwards.
  pub store_ids : ℕ × List ℕ → Shard Index → Shard Index
  store_ids (g, ids) s = if g == s.gen then record s { id_cache = some ids } else s

  pub shard_ids : Shard Index → List ℕ × Shard Index
  unfolding store_ids
  shard_ids s = elim s.id_cache [
    | some ids ↦ (ids, s)
    | none ↦ (all_ids s.memory, store_ids (s.gen, all_ids s.memory) s)
  ]

  pub ivf_all_ids : List (Shard Index) → List ℕ
  unfolding shard_ids
  ivf_all_ids [] = []
  ivf_all_ids (s ∷ ss) = (shard_ids s).0 ++ ivf_all_ids ss
