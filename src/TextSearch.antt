-- ===== src/TextSearch.antt =====
-- Full-text search of src/raggio/store.py: `_df`, `_prune_common`; `_bm25_topn`, `_bm25_rescore` and
-- `_text_ids` are in TextSearch/Stages.antt.
--
-- The texts' Unicode handling (`_fold`, the tokens of a text), what SQLite's FTS5 answers and the
-- floating point of a score are parameters. The MATCH expressions are their lists of tokens: any of
-- them (`_or_query`) or all of them (`_and_query`).
pub mod Budget
mod Examples
pub mod Stages
use Prim.Native.String.{String}
use raggio.Prelude.{
  ℕ, zero, suc, ◌+◌, ◌/◌, ◌≡◌, Bool, true, false, not, ◌&&◌, ◌||◌, Option, none, some, List, [],
  ◌∷◌, ◌++◌, map, max, min, length, take, ltb, leb, ◌==◌, if◌then◌else◌, keep,
}
use raggio.Prelude.Keys.{string_eq, lookup, insert, has, key}
use raggio.Ranking.{sort}

abbrev pub fts_scan_budget_min_rows : ℕ
fts_scan_budget_min_rows = 1000

abbrev pub df_cache_size : ℕ
df_cache_size = 65536

abbrev pub max_tokens : ℕ
max_tokens = 100

-- `_df_cache`, `_avgdl_cache` and `_df_cache_churn`; a mean length is `L`.
pub record TextCaches (L : Type 0) : Type 0 where
  pub dfs : List (String × ℕ)
  pub avgdl : Option L
  pub churn : ℕ

-- The document frequency of a key, and the cache after it. `vocab` is the lookup in `records_fts_v`,
-- 0 where it has no row.
pub df : (String → ℕ) → String → List (String × ℕ) → ℕ × List (String × ℕ)
unfolding lookup insert
df vocab k cache = elim (lookup k cache) [
  | some d ↦ (d, cache)
  | none ↦ (vocab k, insert k (vocab k) (if leb df_cache_size (length cache) then [] else cache))
]

-- The frequencies of the keys, each once, and the cache after them.
pub collect_dfs :
    (String → ℕ)
    → List String
    → List (String × ℕ)
    → List (String × ℕ)
    → List (String × ℕ) × List (String × ℕ)
unfolding df
collect_dfs vocab [] found cache = (found, cache)
collect_dfs vocab (k ∷ ks) found cache =
    if has key k found
    then collect_dfs vocab ks found cache
    else (let d = df vocab k cache in collect_dfs vocab ks (found ++ (k, d.0) ∷ []) d.1)

-- After enough churn the caches start anew.
pub refresh : {L : Type 0} → ℕ → TextCaches L → TextCaches L
refresh total c =
    if ltb (max 1000 (total / 4)) c.churn then record { dfs = []; avgdl = none; churn = 0 } else c

-- The order of `sorted(dfs, key=dfs.get)`.
abbrev pub no_more_common : String × ℕ → String × ℕ → Bool
no_more_common x y = leb x.1 y.1

-- The loop over the sorted keys: what was spent, and whether a key of the index was kept.
pub within_budget : ℕ → ℕ → Bool → List (String × ℕ) → List (String × ℕ)
within_budget budget spent have_real [] = []
within_budget budget spent have_real ((k, d) ∷ ks) =
    let rest = within_budget budget (spent + d) (have_real || ltb 0 d) ks in
    if (ltb 0 d && have_real) && ltb budget (spent + d) then [] else (k, d) ∷ rest

pub kept_keys : ℕ → List (String × ℕ) → List (String × ℕ)
unfolding sort within_budget
kept_keys budget dfs = within_budget budget 0 false (sort no_more_common dfs)

-- `max(FTS_SCAN_BUDGET_MIN_ROWS, int(FTS_SCAN_BUDGET * total))`, where `share` is the product.
pub scan_budget : (ℕ → ℕ) → ℕ → ℕ
scan_budget share total = max fts_scan_budget_min_rows (share total)

-- What the code calls on texts, and a trigram collection's mark.
pub record Texts : Type 0 where
  pub is_trigram : Bool
  -- `re.findall(r"\w+", text)`
  pub word_tokens : String → List String
  pub fold_tokens : String → List String
  pub fold : String → String

module _ (tx : Texts) where
  open tx use {is_trigram, word_tokens, fold_tokens, fold}

  pub query_tokens : String → List String
  query_tokens qtext = take max_tokens (if is_trigram then word_tokens qtext else fold_tokens qtext)

  -- For the query's tokens: the kept ones, and the caches after it.
  pub prune_tokens :
      {L : Type 0}
      → (String → ℕ)
      → (ℕ → ℕ)
      → ℕ
      → List String
      → TextCaches L
      → List String × TextCaches L
  unfolding refresh collect_dfs kept_keys scan_budget
  prune_tokens vocab share total [] c = ([], c)
  prune_tokens vocab share total (t ∷ ts) c =
      let c' = refresh total c in
      let found = collect_dfs vocab (map fold (t ∷ ts)) [] c'.dfs in
      let kept = kept_keys (scan_budget share total) found.0 in
      (keep (λ tok. has key (fold tok) kept) (t ∷ ts), record c' { dfs = found.1 })

  -- `(kept, all)`, and the caches after it.
  pub prune_common :
      {L : Type 0}
      → (String → ℕ)
      → (ℕ → ℕ)
      → ℕ
      → String
      → TextCaches L
      → (List String × List String) × TextCaches L
  unfolding query_tokens prune_tokens
  prune_common vocab share total qtext c =
      let toks = query_tokens qtext in
      let pruned = prune_tokens vocab share total toks c in ((pruned.0, toks), pruned.1)
