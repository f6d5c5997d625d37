-- ===== src/Search/Examples.antt =====
-- Three vectors, one of them without a row, and an index that ranks by id.
use Prim.Native.String.{String}
use raggio.Prelude.{ℕ, ◌*◌, ◌≤◌, ◌≡◌, refl, none, some, List, [], ◌∷◌, map, length}
use raggio.Prelude.Keys.{string_eq, lookup}
use raggio.Filter.{summaries, both}
use raggio.Ranking.Order.{nat_scores}
use raggio.Ranking.Sorting.{swap}
use raggio.Search.{
  Kernel, Candidates, rescore_k, rescore_rows, search_rescored, search_allowed, first_row,
  real_hits, vector_route, full_scan, own_scan,
}
use raggio.Search.Direct.{search_allowed-rescored}
use raggio.Search.Batch.{rescore_rows-alone}
use raggio.Search.Allow.{
  Traffic, Reach, here, next, misses, reads_ids, stores, store_allow, allow_cache_current,
  allow_cache_size,
}

-- The index answers with its allowlist backwards, and pads each row; a blob is its vector.
abbrev kernel : Kernel ℕ ℕ ℕ ℕ ℕ
kernel = record {
  size = λ i. i;
  search = λ i qs k allow row. elim allow [
    | none ↦ (9, none) ∷ []
    | some ids ↦ (2, some 1) ∷ (1, some 1) ∷ (0, none) ∷ []
  ];
  decode = λ v. some v;
  dot = λ m q. m * q;
}

abbrev vecs : List (ℕ × ℕ)
vecs = (1, 40) ∷ (2, 30) ∷ (3, 50) ∷ []

both_paths : search_allowed nat_scores kernel vecs 4 3 2 5 (1 ∷ 2 ∷ []) ≡ (1, 80) ∷ (2, 60) ∷ []
unfolding search_allowed
both_paths = refl

small_index : rescore_k 4 3 100 ≡ 3
unfolding rescore_k
small_index = refl

large_index : rescore_k 2 1000000 20 ≡ 200
unfolding rescore_k
large_index = refl

search_allowed-rescored_example :
    search_allowed nat_scores kernel vecs 4 3 2 5 (1 ∷ 2 ∷ [])
    ≡ first_row nat_scores kernel vecs
        (search_rescored nat_scores kernel vecs 4 3 (2 ∷ []) (5 ∷ []) (some (1 ∷ 2 ∷ [])))
unfolding real_hits rescore_k
search_allowed-rescored_example =
    search_allowed-rescored nat_scores kernel vecs 4 3 2 5 (1 ∷ 2 ∷ []) (λ h. swap 2 1 [])

abbrev batch : List (Candidates ℕ ℕ)
batch =
    record { query = 2; hits = (1, 7) ∷ (4, 100) ∷ []; depth = 5 }
    ∷ record { query = 1; hits = (3, 0) ∷ (1, 0) ∷ []; depth = 1 }
    ∷ []

batch_rescored :
    rescore_rows nat_scores kernel vecs batch ≡ ((4, 100) ∷ (1, 80) ∷ []) ∷ ((3, 50) ∷ []) ∷ []
unfolding rescore_rows
batch_rescored = refl

rescore_rows-alone_example :
    rescore_rows nat_scores kernel vecs batch
    ≡ map
        (λ c. first_row nat_scores kernel vecs (rescore_rows nat_scores kernel vecs (c ∷ [])))
        batch
rescore_rows-alone_example = rescore_rows-alone nat_scores kernel vecs batch

-- A table is the list of its ids, whatever the key.
abbrev select : List ℕ → String → List ℕ
select t key = t

abbrev traffic : Traffic (List ℕ)
unfolding store_allow
traffic = record {
  table = 1 ∷ 2 ∷ [];
  lists = store_allow 0 "both|null" (1 ∷ 2 ∷ []) (record { cache = []; gen = 0 });
  fetches = [];
  uncleared = 0;
}

traffic_reached : Reach select traffic
unfolding traffic
traffic_reached =
    next (next (next (here (1 ∷ 2 ∷ [])) (misses "both|null")) (reads_ids [] "both|null" 0 [] refl))
      (stores [] "both|null" 0 (1 ∷ 2 ∷ []) [] refl)

allow_cache_current_example :
    (length traffic.lists.cache ≤ allow_cache_size)
    × ((key : String) (ids : List ℕ)
        → traffic.uncleared ≡ 0
        → lookup key traffic.lists.cache ≡ some ids
        → ids ≡ select traffic.table key)
allow_cache_current_example = allow_cache_current select traffic_reached

unfiltered_route :
    vector_route {X = ℕ} 3 (record { chunks = 5; summaries = 0 }) both none none 50 ≡ full_scan
unfolding vector_route
unfiltered_route = refl

summaries_route :
    vector_route {X = ℕ} 3 (record { chunks = 5; summaries = 0 }) summaries none none 50 ≡ own_scan
unfolding vector_route
summaries_route = refl
