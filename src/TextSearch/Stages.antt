-- ===== src/TextSearch/Stages.antt =====
-- The ranking of candidates, `_bm25_topn` and `_bm25_rescore`, and the stages of `_text_ids`.
pub mod Results
use Prim.Native.String.{String}
use raggio.Prelude.{
  ℕ, zero, suc, ◌+◌, ◌≡◌, Bool, true, false, not, ◌&&◌, ◌||◌, Option, none, some, List, [], ◌∷◌,
  ◌++◌, map, max, min, length, take, ltb, leb, ◌==◌, if◌then◌else◌, any, keep, arith,
}
use raggio.Prelude.Keys.{Eq, nat_eq, string_eq, lookup, insert, has, key}
use raggio.Ranking.{Scores, top}
use raggio.TextSearch.{Texts, TextCaches, max_tokens, collect_dfs, prune_common}

-- A count goes up by one, from 0 where there is none.
pub count_one : {K : Type 0} ⦃e : Eq K⦄ → K → List (K × ℕ) → List (K × ℕ)
unfolding lookup insert
count_one ⦃e⦄ k m = elim (lookup ⦃e = e⦄ k m) [ none ↦ insert k 1 m | some n ↦ insert k (n + 1) m ]

-- How often each of the keys occurs among the tokens.
pub frequencies : {K : Type 0} ⦃e : Eq K⦄ → List K → List K → List (K × ℕ) → List (K × ℕ)
unfolding count_one
frequencies ⦃e⦄ keys [] m = m
frequencies ⦃e⦄ keys (t ∷ ts) m =
    frequencies keys ts (if any (λ k. e.beq k t) keys then count_one ⦃e = e⦄ t m else m)

-- `zip(toks, toks[1:])`
pub bigrams : List String → List (String × String)
bigrams [] = []
bigrams (x ∷ []) = []
bigrams (x ∷ y ∷ ts) = (x, y) ∷ bigrams (y ∷ ts)

-- The query's bigrams of two different tokens.
pub query_pairs : List String → List (String × String)
unfolding bigrams
query_pairs qtoks = keep (λ (p : String × String). not (string_eq.beq p.0 p.1)) (bigrams qtoks)

instance abbrev pair_eq : Eq (String × String)
pair_eq = record {
  beq = λ p q. string_eq.beq p.0 q.0 && string_eq.beq p.1 q.1;
  beq_iff = λ p q. ground (arith, string_eq.beq_iff p.0 q.0, string_eq.beq_iff p.1 q.1);
}

-- `dict.fromkeys`
pub from_keys : {K : Type 0} ⦃e : Eq K⦄ → List K → List K
from_keys [] = []
from_keys ⦃e⦄ (x ∷ xs) = x ∷ keep (λ y. not (e.beq x y)) (from_keys xs)

abbrev pub text_or_cand : ℕ
text_or_cand = 500

abbrev pub text_and_cand : ℕ
text_and_cand = 1000

abbrev pub text_direct_max : ℕ
text_direct_max = 1000

-- What SQLite answers. `plain` is the query without the join to `records`.
pub record Fts (S : Type 0) : Type 0 where
  -- `SELECT id FROM records WHERE {where} LIMIT ?`
  pub scoped_ids : ℕ → List ℕ
  -- The records that have any of the tokens, the best first.
  pub ranked : Bool → List String → ℕ → List (ℕ × S)
  -- The records that have all of them.
  pub containing_all : Bool → List String → ℕ → List ℕ
  -- The texts of records.
  pub texts : List ℕ → List (ℕ × Option String)

-- `_avgdl`: the cached mean length, or that of a sample, which is cached.
pub avgdl : {L : Type 0} → L → TextCaches L → L × TextCaches L
avgdl sample c = elim c.avgdl [
  | some a ↦ (a, c)
  | none ↦ (sample, record c { avgdl = some sample })
]

module _ {S L : Type 0} (sc : Scores S) (tx : Texts)
    -- The floating point of a score, from the query's frequencies in the index, the mean
    -- length, the length of a text, and its counts of tokens and of bigrams.
    (score : List (String × ℕ) → L → ℕ → List (String × ℕ) → List ((String × String) × ℕ) → S)
    (positive : S → Bool) (vocab : String → ℕ) (share : ℕ → ℕ) (total : ℕ) (sample : L)
    (sql : Fts S) where
  open tx use {is_trigram, fold_tokens}
  open sql use {scoped_ids, ranked, containing_all, texts}

  -- The score of a text, in which a missing one is empty.
  pub text_score : List (String × ℕ) → L → List String → Option String → S
  unfolding frequencies query_pairs bigrams
  text_score dfs mean qtoks text =
      let toks : List String = elim text [ none ↦ fold_tokens "" | some t ↦ fold_tokens t ] in
      score dfs mean (max 1 (length toks)) (frequencies qtoks toks [])
        (frequencies (query_pairs qtoks) (bigrams toks) [])

  pub bm25_topn : List (String × ℕ) → L → List String → List (ℕ × Option String) → ℕ → List (ℕ × S)
  unfolding text_score top
  bm25_topn dfs mean [] cand n = []
  bm25_topn dfs mean (q ∷ qs) cand n =
      top sc n (map (λ (c : ℕ × Option String). (c.0, text_score dfs mean (q ∷ qs) c.1)) cand)

  -- For the query's tokens: the hits, and the caches after it. The cached frequencies may be stale, so
  -- none exceeds `total`.
  pub rescore_tokens :
      List String → List (ℕ × Option String) → ℕ → TextCaches L → List (ℕ × S) × TextCaches L
  unfolding collect_dfs bm25_topn from_keys avgdl
  rescore_tokens [] cand n c = ([], c)
  rescore_tokens (q ∷ qs) [] n c = ([], c)
  rescore_tokens (q ∷ qs) (d ∷ ds) n c =
      let found = collect_dfs vocab (from_keys (q ∷ qs)) [] c.dfs in
      let dfs : List (String × ℕ) = map (λ (f : String × ℕ). (f.0, min f.1 total)) found.0 in
      let mean = avgdl sample (record c { dfs = found.1 }) in
      (bm25_topn dfs mean.0 (q ∷ qs) (d ∷ ds) n, mean.1)

  pub bm25_rescore :
      String → List (ℕ × Option String) → ℕ → TextCaches L → List (ℕ × S) × TextCaches L
  unfolding rescore_tokens
  bm25_rescore qtext cand n c = rescore_tokens (take max_tokens (fold_tokens qtext)) cand n c

  -- The general path: FTS5 ranks, or gives candidates where tokens were dropped.
  pub fts_ids :
      Bool → List String → List String → String → ℕ → TextCaches L → List (ℕ × S) × TextCaches L
  unfolding bm25_rescore from_keys lookup
  fts_ids plain kept toks qtext n c =
      if ltb (length kept) (length toks)
      then (let rows = ranked plain kept text_or_cand in
          let cand = from_keys (map key rows ++ containing_all plain toks text_and_cand) in
          let found = texts cand in
          bm25_rescore qtext
            (map (λ i. (i, elim (lookup i found) [ none ↦ none | some t ↦ t ])) cand) n c)
      else (ranked plain kept n, c)

  -- `_text_ids` for the kept tokens and all of them.
  pub routed_ids :
      Bool
      → Bool
      → List String
      → List String
      → String
      → ℕ
      → TextCaches L
      → List (ℕ × S) × TextCaches L
  unfolding bm25_rescore fts_ids
  routed_ids plain doc_scoped [] toks qtext n c = ([], c)
  routed_ids plain doc_scoped (k ∷ ks) toks qtext n c =
      let ids = scoped_ids (text_direct_max + 1) in
      let direct = bm25_rescore qtext (texts ids) n c in
      if (doc_scoped && not is_trigram) && leb (length ids) text_direct_max
      then (keep (λ (h : ℕ × S). positive h.1) direct.0, direct.1)
      else fts_ids plain (k ∷ ks) toks qtext n c

  unfoldable pub text_ids : Bool → Bool → String → ℕ → TextCaches L → List (ℕ × S) × TextCaches L
  unfolding prune_common routed_ids
  text_ids plain doc_scoped qtext n c =
      let pruned = prune_common tx vocab share total qtext c in
      routed_ids plain doc_scoped pruned.0.0 pruned.0.1 qtext n pruned.1
