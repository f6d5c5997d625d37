-- ===== src/Fusion.antt =====
-- `_rrf` and `_relative` of src/raggio/store.py, `Collection.search` over its legs, and `_hydrate`.
--
-- The arithmetic of scores is the record `Arithmetic`; a weight is `W`. A leg of a search is its hits,
-- the two lists of the code zipped.
pub mod Hits
mod Examples
use raggio.Prelude.{
  ℕ, zero, suc, ◌+◌, ◌≡◌, Bool, true, false, not, ◌&&◌, ◌||◌, Option, none, some, List, [], ◌∷◌,
  ◌++◌, map, take, max, if◌then◌else◌, ◌==◌,
}
use raggio.Prelude.Keys.{nat_eq, lookup, insert}
use raggio.Ranking.{Scores, sort}
use raggio.Collection.{Record}

pub record Arithmetic (S W : Type 0) : Type 0 where
  pub zero_score : S
  pub plus : S → S → S
  -- 1.0 / (RRF_K + rank)
  pub reciprocal : ℕ → S
  -- weight * ((s - lo) / (hi - lo))
  pub scaled : W → S → S → S → S
  -- weight * 1.0
  pub whole : W → S

abbrev pub rrf_k : ℕ
rrf_k = 60

abbrev pub hybrid_depth : ℕ
hybrid_depth = 100

module _ {S W : Type 0} (sc : Scores S) (ar : Arithmetic S W) where
  open sc use {above}
  open ar use {zero_score, plus, reciprocal, scaled, whole}

  -- The order of `sorted` by the key `-score`, which keeps the order of equal scores.
  pub not_below : ℕ × S → ℕ × S → Bool
  not_below x y = not (above y.1 x.1)

  -- scores[rid] = scores.get(rid, 0.0) + s
  pub add_score : ℕ → S → List (ℕ × S) → List (ℕ × S)
  unfolding lookup insert
  add_score rid s scores = elim (lookup rid scores) [
    | none ↦ insert rid (plus zero_score s) scores
    | some t ↦ insert rid (plus t s) scores
  ]

  -- The k best of the scores.
  pub best : ℕ → List (ℕ × S) → List (ℕ × S)
  unfolding sort not_below
  best k scores = take k (sort not_below scores)

  pub add_ranking : ℕ → List ℕ → List (ℕ × S) → List (ℕ × S)
  unfolding add_score
  add_ranking rank [] scores = scores
  add_ranking rank (i ∷ is) scores =
      add_ranking (suc rank) is (add_score i (reciprocal (rrf_k + rank)) scores)

  pub add_rankings : List (List ℕ) → List (ℕ × S) → List (ℕ × S)
  unfolding add_ranking
  add_rankings [] scores = scores
  add_rankings (r ∷ rs) scores = add_rankings rs (add_ranking 1 r scores)

  pub rrf : ℕ → List (List ℕ) → List (ℕ × S)
  unfolding best add_rankings
  rrf k rankings = best k (add_rankings rankings [])

  pub lowest : S → List (ℕ × S) → S
  lowest lo [] = lo
  lowest lo ((i, s) ∷ hs) = lowest (if above lo s then s else lo) hs

  pub highest : S → List (ℕ × S) → S
  highest hi [] = hi
  highest hi ((i, s) ∷ hs) = highest (if above s hi then s else hi) hs

  pub add_scaled : W → S → S → List (ℕ × S) → List (ℕ × S) → List (ℕ × S)
  unfolding add_score
  add_scaled weight lo hi [] scores = scores
  add_scaled weight lo hi ((i, s) ∷ hs) scores =
      add_scaled weight lo hi hs
        (add_score i (if above hi lo then scaled weight lo hi s else whole weight) scores)

  pub add_leg : W → List (ℕ × S) → List (ℕ × S) → List (ℕ × S)
  unfolding lowest highest add_scaled
  add_leg weight [] scores = scores
  add_leg weight ((i, s) ∷ hs) scores =
      add_scaled weight (lowest s hs) (highest s hs) ((i, s) ∷ hs) scores

  -- The weights are `alpha` and `1 - alpha`.
  pub relative : ℕ → W → W → List (ℕ × S) → List (ℕ × S) → List (ℕ × S)
  unfolding best add_leg
  relative k alpha rest vec text = best k (add_leg rest text (add_leg alpha vec []))

  -- The mode of a search. A relative fusion has its two weights, and whether each is positive.
  pub data Mode : Type 0 where
    vector text hybrid_rrf : Mode
    hybrid_relative : W → W → Bool → Bool → Mode

  -- `search` up to `_hydrate`: the legs are functions of their depth.
  pub search_ids : Mode → ℕ → (ℕ → List (ℕ × S)) → (ℕ → List (ℕ × S)) → List (ℕ × S)
  unfolding rrf relative
  search_ids vector k vec txt = vec k
  search_ids text k vec txt = txt k
  search_ids hybrid_rrf k vec txt =
      let n = max hybrid_depth k in
      rrf k (map (λ (h : ℕ × S). h.0) (vec n) ∷ map (λ (h : ℕ × S). h.0) (txt n) ∷ [])
  search_ids (hybrid_relative alpha rest has_vec has_text) k vec txt =
      let n = max hybrid_depth k in
      relative k alpha rest (if has_vec then vec n else []) (if has_text then txt n else [])

-- The record of an id.
unfoldable pub row_with : ℕ → List Record → Option Record
row_with i [] = none
row_with i (r ∷ rs) = let rest = row_with i rs in if r.id == i then some r else rest

-- `_hydrate`: the records of the hits, with their scores; an id without a record is left out.
pub hydrate : {S : Type 0} → List Record → List (ℕ × S) → List (Record × S)
unfolding row_with
hydrate records [] = []
hydrate records ((i, s) ∷ hs) = elim (row_with i records) [
  | none ↦ hydrate records hs
  | some r ↦ (r, s) ∷ hydrate records hs
]
