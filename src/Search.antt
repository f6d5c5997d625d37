-- ===== src/Search.antt =====
-- Vector search of src/raggio/store.py: `_rescore_k`, `_fp16_vecs`, `_rescore_rows`,
-- `_search_rescored` and `_search_allowed`.
--
-- What the code calls of the index and of numpy is the record `Kernel`. A float32 row is `M`, a query
-- `Q`, a blob of `vecs` is `V`.
pub mod Direct
pub mod Allow
pub mod Batch
mod Examples
use raggio.Prelude.{
  ℕ, zero, suc, ◌*◌, ◌≡◌, Bool, true, false, Option, none, some, List, [], ◌∷◌, ◌++◌, map, min, max,
  length, ltb, leb, ◌==◌, ◌&&◌, if◌then◌else◌, any,
}
use raggio.Prelude.Keys.{nat_eq, lookup, has}
use raggio.Ranking.{Scores, top}
use raggio.Filter.{Scope, chunks, summaries, both}
use raggio.Collection.{Counts}

pub record Kernel (V I M Q S : Type 0) : Type 0 where
  -- `len(self.index)`
  pub size : I → ℕ
  -- `self.index.search(queries, k=k, allowlist=allow)`: the answers' matrices have a row
  -- for each query, and the last argument is a row's number. A missing score is the -inf that pads
  -- a short row.
  pub search : I → List Q → ℕ → Option (List ℕ) → ℕ → List (ℕ × Option S)
  -- A blob of the right size as a unit-norm row.
  pub decode : V → Option M
  pub dot : M → Q → S

abbrev pub rescore_mult : ℕ
rescore_mult = 2

-- RESCORE_FLOOR.get(bit_width, RESCORE_FLOOR[4])
pub rescore_floor : ℕ → ℕ
rescore_floor bit_width = if bit_width == 2 then 200 else 50

abbrev pub rescore_cap : ℕ
rescore_cap = 2000

pub rescore_k : ℕ → ℕ → ℕ → ℕ
unfolding rescore_floor
rescore_k bit_width size n =
    max 1 (min (min (max (rescore_floor bit_width) (rescore_mult * n)) rescore_cap) size)

-- `{rid for ids, _, _ in rows for rid in ids}`
pub add_new : List ℕ → List ℕ → List ℕ
add_new [] seen = seen
add_new (i ∷ is) seen =
    let rest = add_new is seen in if has (λ (g : ℕ). g) i rest then rest else i ∷ rest

-- One query of `_rescore_rows`: the query, its candidates with their quantised scores, and the depth.
pub record Candidates (Q S : Type 0) : Type 0 where
  pub query : Q
  pub hits : List (ℕ × S)
  pub depth : ℕ

module _ {V I M Q S : Type 0} (sc : Scores S) (kn : Kernel V I M Q S) (vecs : List (ℕ × V)) where
  open kn use {size, search, decode, dot}

  pub row_of : ℕ → Option M
  unfolding lookup
  row_of rid = elim (lookup rid vecs) [ none ↦ none | some blob ↦ decode blob ]

  -- The ids that have a valid blob, with their rows.
  pub fp16_vecs : List ℕ → List (ℕ × M)
  unfolding row_of
  fp16_vecs [] = []
  fp16_vecs (i ∷ is) = elim (row_of i) [ none ↦ fp16_vecs is | some m ↦ (i, m) ∷ fp16_vecs is ]

  -- A candidate without a row keeps its quantised score.
  pub merged : List (ℕ × M) → Q → ℕ × S → ℕ × S
  unfolding lookup
  merged found q (i, s) = elim (lookup i found) [ none ↦ (i, s) | some m ↦ (i, dot m q) ]

  pub rescore_row : List (ℕ × M) → Candidates Q S → List (ℕ × S)
  unfolding merged top
  rescore_row found c = top sc c.depth (map (merged found c.query) c.hits)

  pub all_candidates : List (Candidates Q S) → List ℕ
  unfolding add_new
  all_candidates [] = []
  all_candidates (c ∷ cs) = add_new (map (λ (h : ℕ × S). h.0) c.hits) (all_candidates cs)

  pub rescore_rows : List (Candidates Q S) → List (List (ℕ × S))
  unfolding fp16_vecs rescore_row all_candidates
  rescore_rows rows = map (rescore_row (fp16_vecs (all_candidates rows))) rows

  -- The hits of a row that are no padding.
  pub real_hits : List (ℕ × Option S) → List (ℕ × S)
  real_hits [] = []
  real_hits ((i, none) ∷ hs) = real_hits hs
  real_hits ((i, some s) ∷ hs) = (i, s) ∷ real_hits hs

  -- `for row, n in enumerate(ns)`, from the row `row` on, with the queries.
  pub answered_rows : ℕ → List Q → List ℕ → (ℕ → List (ℕ × Option S)) → List (Candidates Q S)
  unfolding real_hits
  answered_rows row (q ∷ qs) (n ∷ ns) answer =
      record { query = q; hits = real_hits (answer row); depth = n }
      ∷ answered_rows (suc row) qs ns answer
  answered_rows row _ _ answer = []

  pub max_of : List ℕ → ℕ
  max_of [] = 0
  max_of (n ∷ ns) = max n (max_of ns)

  pub search_rescored : ℕ → I → List Q → List ℕ → Option (List ℕ) → List (List (ℕ × S))
  unfolding rescore_k max_of answered_rows rescore_rows
  search_rescored bit_width index queries ns allow = rescore_rows (
      answered_rows 0 queries ns
        (search index queries (rescore_k bit_width (size index) (max_of ns)) allow))

  pub first_row : List (List (ℕ × S)) → List (ℕ × S)
  first_row [] = []
  first_row (r ∷ rs) = r

  pub search_allowed : ℕ → I → Q → ℕ → List ℕ → List (ℕ × S)
  unfolding rescore_k fp16_vecs search_rescored first_row top
  search_allowed bit_width index q n allow =
      let found = fp16_vecs allow in
      let rescored = first_row (search_rescored bit_width index (q ∷ []) (n ∷ []) (some allow)) in
      if leb (length allow) (rescore_k bit_width (size index) n)
      then (if length found == length allow
          then top sc n (map (λ (f : ℕ × M). (f.0, dot f.1 q)) found)
          else rescored)
      else rescored

  -- `run` of `_vector_ids`, from the allowlist on.
  pub search_listed : ℕ → I → Q → ℕ → List ℕ → List (ℕ × S)
  unfolding search_allowed
  search_listed bit_width index q n [] = []
  search_listed bit_width index q n (i ∷ is) = search_allowed bit_width index q n (i ∷ is)

-- The way that `_vector_ids` takes: no search, `_scan_batched`, `_scan_scoped` with an allowlist and a
-- depth, or a search in a thread of its own.
pub data Route : Type 0 where
  nothing full_scan own_scan : Route
  shared_scan : List ℕ → ℕ → Route

-- `self.indexed_counts.get(other, 0)`
pub other_count : Scope → Counts → ℕ
other_count chunks c = c.summaries
other_count summaries c = c.chunks
other_count both c = 0

-- `not filt`
pub is_unfiltered : {X : Type 0} → Option (List X) → Bool
is_unfiltered none = true
is_unfiltered (some []) = true
is_unfiltered (some (x ∷ xs)) = false

-- `cached` is the scope's entry of `_allow_cache`, `depth` is `_rescore_k(n)`.
pub vector_route : {X : Type 0} → ℕ → Counts → Scope → Option (List X) → Option (List ℕ) → ℕ → Route
unfolding other_count is_unfiltered
vector_route size counts scope filt cached depth =
    if size == 0
    then nothing
    else if is_unfiltered filt && (other_count scope counts == 0)
    then full_scan
    else elim filt [
      | some _ ↦ own_scan
      | none ↦ elim cached [
        | none ↦ own_scan
        | some allow ↦ if ltb depth (length allow) then shared_scan allow depth else own_scan
      ]
    ]
