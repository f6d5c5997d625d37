-- ===== src/Build.antt =====
-- Attaching and detaching an index of shards: `request_index`, `request_index_drop`,
-- `_iter_vec_blocks`, `_backfill_vecs`, `_attach_index` and `_detach_index` of src/raggio/store.py, and
-- the choice of the index in `Collection.__init__`.
--
-- Both kinds of index are the interface `VectorIndex` here. What the database holds when a step reads
-- it is an argument of the step, since deletes land during a build; the memory check is a Boolean, and
-- the number of shards that fits a size is a function.
pub mod Contents
pub mod Disk
mod Examples
use Prim.Native.String.{String}
use raggio.Prelude.{
  ℕ, zero, suc, ◌+◌, ◌*◌, ◌≡◌, Bool, true, false, not, ◌&&◌, ◌||◌, Option, none, some, List, [],
  ◌∷◌, ◌++◌, map, take, length, ltb, leb, keep, any, if◌then◌else◌,
}
use raggio.Prelude.Keys.{nat_eq, has, key}
use raggio.Prelude.Result.{Result, ok, err, ◌>>=◌}
use raggio.Collection.{VectorIndex, remove_ids}
use raggio.Ranking.{sort}
use raggio.Slices.{slices, concat}

pub data BuildError : Type 0 where
  too_few_records too_many_shards no_headroom no_text no_vector no_index : BuildError

abbrev pub ivf_min_rows : ℕ
ivf_min_rows = 1024

abbrev pub ivf_default_nprobe : ℕ
ivf_default_nprobe = 16

abbrev pub backfill_batch : ℕ
backfill_batch = 64

-- `None` and 0 alike.
pub given : Option ℕ → Option ℕ
given none = none
given (some zero) = none
given (some (suc n)) = some (suc n)

pub is_given : Option ℕ → Bool
unfolding given
is_given o = elim (given o) [ none ↦ false | some n ↦ true ]

-- `nlist is None and nprobe and isinstance(self.index, _IvfIndex)`
pub is_retune : Bool → Option ℕ → Option ℕ → Bool
unfolding is_given
is_retune is_ivf nlist nprobe = elim nlist [ none ↦ is_given nprobe && is_ivf | some n ↦ false ]

-- What `request_index` refuses before it queues the job.
pub request_index : Bool → ℕ → Option ℕ → Option ℕ → Result BuildError (Unit {0})
unfolding is_retune
request_index is_ivf n nlist nprobe =
    if is_retune is_ivf nlist nprobe
    then ok tt
    else if ltb n ivf_min_rows
    then err too_few_records
    else elim nlist [ none ↦ ok tt | some m ↦ if ltb n (8 * m) then err too_many_shards else ok tt ]

pub request_index_drop : Bool → Result BuildError (Unit {0})
request_index_drop is_ivf = if is_ivf then ok tt else err no_index

-- What `_attach_index` refuses before it reads anything, and the number of shards.
pub attach_nlist : (ℕ → ℕ) → (ℕ → Bool) → ℕ → Option ℕ → Result BuildError ℕ
unfolding given
attach_nlist auto_nlist has_room n nlist =
    let m : ℕ = elim (given nlist) [ none ↦ auto_nlist n | some k ↦ k ] in
    if ltb n ivf_min_rows
    then err too_few_records
    else if ltb n (8 * m)
    then err too_many_shards
    else if has_room m
    then ok m
    else err no_headroom

module _ {V : Type 0} where
  -- The id of a block's last row.
  pub last_id : ℕ → List (ℕ × V) → ℕ
  last_id i [] = i
  last_id i ((j, v) ∷ rows) = last_id j rows

  -- `WHERE r.indexed=1 AND r.id>? ORDER BY r.id LIMIT ?` over the rows that have a vector.
  pub select_block : ℕ → ℕ → List (ℕ × V) → List (ℕ × V)
  unfolding sort
  select_block limit last rows =
      take limit (sort (λ x y. leb x.0 y.0) (keep (λ (e : ℕ × V). ltb last e.0) rows))

  -- The blocks of `_iter_vec_blocks` from a round on, where `rows r` is what the SELECT of round `r`
  -- sees; a block is followed by one of larger ids, so the largest id is fuel enough.
  pub vec_blocks : ℕ → ℕ → ℕ → ℕ → (ℕ → List (ℕ × V)) → List (List (ℕ × V))
  unfolding select_block last_id
  vec_blocks zero limit round last rows = []
  vec_blocks (suc fuel) limit round last rows = elim (select_block limit last (rows round)) [
    | [] ↦ []
    | e ∷ es ↦ (e ∷ es) ∷ vec_blocks fuel limit (suc round) (last_id last (e ∷ es)) rows
  ]

-- `np.setdiff1d`
pub setdiff : List ℕ → List ℕ → List ℕ
setdiff xs ys = keep (λ x. not (has (λ (y : ℕ). y) x ys)) xs

-- Some record of these has no text, or an empty one.
pub lacks_text : List (ℕ × Option String) → Bool
lacks_text rows =
    any
      (λ (r : ℕ × Option String). elim r.1 [ none ↦ true | some String.[] ↦ true | some _ ↦ false ])
      rows

-- The texts of a batch, a missing one empty.
pub batch_texts : List (ℕ × Option String) → List String
batch_texts = map (λ (r : ℕ × Option String). elim r.1 [ none ↦ "" | some t ↦ t ])

-- `zip(batch, vecs16)`
pub zip_rows : {V : Type 0} → List (ℕ × Option String) → List V → List (ℕ × V)
zip_rows (r ∷ rs) (v ∷ vs) = (r.0, v) ∷ zip_rows rs vs
zip_rows _ _ = []

-- The batches of `_backfill_vecs` for the rows that it read, as they go to `add`.
pub backfill :
    {V : Type 0}
    → (List String → List V)
    → List (ℕ × Option String)
    → Result BuildError (List (List (ℕ × V)))
unfolding lacks_text batch_texts zip_rows slices
backfill embed rows =
    if lacks_text rows
    then err no_text
    else ok (map (λ batch. zip_rows batch (embed (batch_texts batch))) (slices backfill_batch rows))

module _ {V : Type 0} (vi : VectorIndex V) where
  open vi use {Index, contains, add_with_ids, remove_id}

  pub add_blocks : List (List (ℕ × V)) → Index → Index
  add_blocks [] i = i
  add_blocks (b ∷ bs) i = add_blocks bs (add_with_ids i b)

  pub seen_ids : List (List (ℕ × V)) → List ℕ
  unfolding concat
  seen_ids blocks = concat (map (map key) blocks)

  -- `swap` in memory: ids that were deleted during the build leave the new index.
  pub without_deleted : List (List (ℕ × V)) → List ℕ → Index → Index
  unfolding seen_ids setdiff remove_ids
  without_deleted blocks live i = remove_ids vi (setdiff (seen_ids blocks) live) i

  -- The index of `_attach_index`, from the empty one that was trained: the streamed blocks, then the
  -- batches of the live rows that the stream skipped. `live` are the ids read after the stream, `texts`
  -- what `_backfill_vecs` reads for ids, and `live_at_swap` the ids read under the write lock.
  pub attached_index :
      (List String → List V)
      → (List ℕ → List (ℕ × Option String))
      → List (List (ℕ × V))
      → List ℕ
      → List ℕ
      → Index
      → Result BuildError Index
  unfolding add_blocks seen_ids setdiff backfill without_deleted
  attached_index embed texts blocks live live_at_swap empty =
      backfill embed (texts (setdiff live (seen_ids blocks))) >>= (λ filled. ok (
        without_deleted (blocks ++ filled) live_at_swap
          (add_blocks filled (add_blocks blocks empty))))

  -- The index of `_detach_index`, which refuses live rows that the stream skipped.
  pub detached_index : List (List (ℕ × V)) → List ℕ → List ℕ → Index → Result BuildError Index
  unfolding add_blocks seen_ids setdiff without_deleted
  detached_index blocks live live_at_swap empty = elim (setdiff live (seen_ids blocks)) [
    | x ∷ xs ↦ err no_vector
    | [] ↦ ok (without_deleted blocks live_at_swap (add_blocks blocks empty))
  ]
