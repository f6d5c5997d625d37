-- ===== src/Collection.antt =====
-- The records of one collection and its vector index: `Collection` of src/raggio/store.py, with
-- `_upsert_rows`, `_unindex`, `_sync_index`, `_delete_doc_rows`, `_patch_rows` and the write section of
-- `_process_job`.
--
-- A table is the list of its rows in the order of insertion. A statement of SQLite that fails is an
-- argument of the transaction: it rolls back. turbovec's index is the interface `VectorIndex`; what
-- `index.sync` wrote to disk is `file`. Texts are stored as they come, vectors as `V`.
pub mod Membership
pub mod Counting
pub mod Writes
pub mod Replay
pub mod IdList
pub mod Patch
mod Examples
use Prim.Native.String.{String}
use raggio.Prelude.{
  ℕ, zero, suc, ◌+◌, ◌-◌, ◌≡◌, Bool, true, false, not, ◌&&◌, ◌||◌, Option, none, some, List, [],
  ◌∷◌, ◌++◌, map, max, ◌==◌, ltb, length, keep, any, if◌then◌else◌,
}
use raggio.Prelude.Keys.{Eq, ◌=?◌, nat_eq, string_eq, insert, remove, has}
use raggio.Prelude.Result.{Result, ok, err, ◌>>=◌}
use raggio.Json.{Json}
use raggio.Rows.{ℤ, Kind, chunk, summary, Metadata, Row}
use raggio.Slices.{slices}

-- What the code relies on of turbovec's `IdMapIndex`: it holds ids, and `add_with_ids` and `remove`
-- change which.
pub record VectorIndex (V : Type 0) : Type 1 where
  pub Index : Type 0
  pub contains : Index → ℕ → Bool
  pub add_with_ids : Index → List (ℕ × V) → Index
  pub remove_id : Index → ℕ → Index
  pub contains-add :
      (i : Index) (entries : List (ℕ × V)) (x : ℕ)
      → contains (add_with_ids i entries) x ≡ (has (λ (e : ℕ × V). e.0) x entries || contains i x)
  pub contains-remove :
      (i : Index) (y x : ℕ) → contains (remove_id i y) x ≡ (if y == x then false else contains i x)
  -- Every id, which the code reads by a search with `k=len(index)`.
  pub all_ids : Index → List ℕ
  pub has-all_ids : (i : Index) (x : ℕ) → has (λ (g : ℕ). g) x (all_ids i) ≡ contains i x

-- A row of `records`.
pub record Record : Type 0 where
  pub id : ℕ
  pub external_id : String
  pub doc_id : String
  pub kind : Kind
  pub position : Option ℤ
  pub text : Option String
  pub metadata : Metadata
  pub indexed : Bool
  pub fts_metadata : String

-- `indexed_counts`, one number for each type.
pub record Counts : Type 0 where
  pub chunks : ℕ
  pub summaries : ℕ

pub bump : Kind → Counts → Counts
bump chunk c = record c { chunks = c.chunks + 1 }
bump summary c = record c { summaries = c.summaries + 1 }

pub drop_one : Kind → Counts → Counts
drop_one chunk c = record c { chunks = c.chunks - 1 }
drop_one summary c = record c { summaries = c.summaries - 1 }

-- `COALESCE(MAX(id),0)`
pub max_id : List Record → ℕ
max_id [] = 0
max_id (r ∷ rs) = max r.id (max_id rs)

-- How an operation on a collection of states `S` fails: the collection was closed, or SQLite refused the
-- transaction, and the state is as it was; or the transaction committed and `index.sync` raised, in
-- the state that is left.
pub data Failed (S : Type 0) : Type 0 where
  closed : Failed S
  rolled_back : Failed S
  sync_raised : S → Failed S

-- `r[5] or {}`
pub metadata_or_empty : Option Metadata → Metadata
metadata_or_empty none = []
metadata_or_empty (some m) = m

module _ {V : Type 0} where
  -- `zip(ids, rows, metas)`, with `indexed` 1: the rows to insert, from the id `i` on.
  pub new_records : (Metadata → String) → ℕ → List (Row V) → List Record
  unfolding metadata_or_empty
  new_records suffix i [] = []
  new_records suffix i (r ∷ rs) =
      let metadata = metadata_or_empty r.metadata in
      record {
        id = i;
        external_id = r.external_id;
        doc_id = r.doc_id;
        kind = r.kind;
        position = r.position;
        text = r.text;
        metadata = metadata;
        indexed = true;
        fts_metadata = suffix metadata;
      }
      ∷ new_records suffix (suc i) rs

  -- `zip(ids, blobs)`
  pub with_ids : ℕ → List V → List (ℕ × V)
  with_ids i [] = []
  with_ids i (v ∷ vs) = (i, v) ∷ with_ids (suc i) vs

  -- `external_id IN (...)`
  pub is_replaced : List (Row V) → Record → Bool
  is_replaced rows r = has (λ (w : Row V). w.external_id) r.external_id rows

-- `DELETE FROM records WHERE id=?` for each of the ids.
pub delete_ids : List ℕ → List Record → List Record
delete_ids gone rs = keep (λ r. not (has (λ (g : ℕ). g) r.id gone)) rs

module _ {V : Type 0} where
  pub delete_vecs : List ℕ → List (ℕ × V) → List (ℕ × V)
  delete_vecs gone vs = keep (λ (e : ℕ × V). not (has (λ (g : ℕ). g) e.0 gone)) vs

  -- `INSERT OR REPLACE INTO vecs`
  pub replace_vecs : List (ℕ × V) → List (ℕ × V) → List (ℕ × V)
  unfolding insert
  replace_vecs [] vs = vs
  replace_vecs ((i, v) ∷ es) vs = replace_vecs es (insert i v vs)

abbrev pub ids_of : List Record → List ℕ
ids_of = map (λ r. r.id)

abbrev pub indexed_ids : List Record → List ℕ
indexed_ids rs = ids_of (keep (λ r. r.indexed) rs)

-- The counts without the indexed ones of `gone`.
pub uncount : List Record → Counts → Counts
unfolding drop_one
uncount [] c = c
uncount (r ∷ rs) c = uncount rs (if r.indexed then drop_one r.kind c else c)

module _ {V : Type 0} where
  pub recount : List (Row V) → Counts → Counts
  unfolding bump
  recount [] c = c
  recount (r ∷ rs) c = recount rs (bump r.kind c)

pub record State (V I : Type 0) : Type 0 where
  pub records : List Record
  pub vecs : List (ℕ × V)
  pub index : I
  pub file : I
  pub removed_since_sync : ℕ
  pub indexed_counts : Counts
  pub allow_gen : ℕ
  pub df_cache_churn : ℕ

-- `(ids, fresh, replaced)`; `ids` are the consecutive ones from `first` on.
pub record Upserted : Type 0 where
  pub first : ℕ
  pub fresh : List Bool
  pub replaced : List ℕ

module _ {V I : Type 0} (suffix : Metadata → String) where
  -- What the transaction commits, and the counts published after it.
  pub upserted : List (Row V) → List V → State V I → Upserted × State V I
  unfolding max_id new_records with_ids is_replaced delete_ids delete_vecs replace_vecs uncount
      recount
  upserted rows mat s =
      let old = keep (is_replaced rows) s.records in
      let gone = ids_of old in
      let first = max_id s.records + 1 in
      (
        record {
          first = first;
          fresh = map (λ r. not (has (λ (o : Record). o.external_id) r.external_id old)) rows;
          replaced = indexed_ids old;
        },
        record s {
          records = delete_ids gone s.records ++ new_records suffix first rows;
          vecs = replace_vecs (with_ids first mat) (delete_vecs gone s.vecs);
          indexed_counts = recount rows (uncount old s.indexed_counts);
          allow_gen = s.allow_gen + 1;
          df_cache_churn = s.df_cache_churn + length rows;
        },
      )

  pub upsert_rows :
      Bool → List (Row V) → List V → State V I → Result (Failed (State V I)) (Upserted × State V I)
  unfolding upserted
  upsert_rows commits rows mat s = if commits then ok (upserted rows mat s) else err rolled_back

module _ {V : Type 0} (vi : VectorIndex V) where
  open vi use {Index, contains, add_with_ids, remove_id}

  -- `for rid in rids: self.index.remove(rid)`
  unfoldable pub remove_ids : List ℕ → Index → Index
  remove_ids [] i = i
  remove_ids (x ∷ xs) i = remove_ids xs (remove_id i x)

  pub unindex : List ℕ → State V Index → State V Index
  unfolding remove_ids
  unindex rids s = record s {
    removed_since_sync = s.removed_since_sync + length rids;
    index = remove_ids rids s.index;
  }

  -- What `_sync_index` leaves. True: the file was written. False: `index.sync` raised, and nothing was
  -- reset.
  pub sync_index : Bool → State V Index → State V Index
  sync_index true s = record s { file = s.index; removed_since_sync = 0 }
  sync_index false s = s

  -- `_sync_index` where nothing catches its exception.
  unfoldable pub sync_or_raise :
      Bool → State V Index → Result (Failed (State V Index)) (State V Index)
  unfolding sync_index
  sync_or_raise true s = ok (sync_index true s)
  sync_or_raise false s = err (sync_raised (sync_index false s))
