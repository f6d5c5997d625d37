-- ===== src/TextSearch/Examples.antt =====
-- A query of a common token, a rare one and an unknown one.
use Prim.Native.String.{String}
use raggio.Prelude.{
  ℕ, ◌/◌, ◌≤◌, ◌<◌, ◌≡◌, ◌⊎◌, refl, Bool, true, false, none, some, List, [], ◌∷◌, take, length,
  length-take, ltb, arith, if◌then◌else◌,
}
use raggio.Prelude.Keys.{nat_eq, string_eq, key}
use raggio.Ranking.Order.{nat_scores}
use raggio.Ranking.Distinctness.{take-Distinct}
use raggio.TextSearch.{Texts, TextCaches, kept_keys}
use raggio.TextSearch.Budget.{Elem, cost, matching, kept_keys_budget, kept_keys_survive}
use raggio.TextSearch.Stages.{Fts, text_ids}
use raggio.TextSearch.Stages.Results.{FtsLaws, AreHits, text_ids-AreHits}

abbrev dfs : List (String × ℕ)
dfs = ("the", 90000) ∷ ("zebra", 40) ∷ ("zbera", 0) ∷ []

common_dropped : kept_keys 1000 dfs ≡ ("zbera", 0) ∷ ("zebra", 40) ∷ []
unfolding kept_keys
common_dropped = refl

kept_keys_budget_example : (cost (kept_keys 1000 dfs) ≤ 1000) ⊎ (matching (kept_keys 1000 dfs) ≡ 1)
kept_keys_budget_example = kept_keys_budget 1000 dfs

kept_keys_survive_example :
    ((x : String × ℕ)
      → Elem x dfs
      → 0 < x.1
      → (y : String × ℕ) × Elem y (kept_keys 10 dfs) × (0 < y.1) × (y.1 ≤ x.1))
    × ((k : String) → Elem (k, 0) dfs → Elem (k, 0) (kept_keys 10 dfs))
kept_keys_survive_example = kept_keys_survive 10 dfs

-- Texts of one token.
abbrev texts : Texts
texts = record {
  is_trigram = false;
  word_tokens = λ t. t ∷ [];
  fold_tokens = λ t. t ∷ [];
  fold = λ t. t;
}

abbrev caches : TextCaches ℕ
caches = record { dfs = []; avgdl = none; churn = 0 }

abbrev vocab : String → ℕ
vocab k = if string_eq.beq k "zebra" then 40 else 0

abbrev ranking : List (ℕ × ℕ)
ranking = (2, 9) ∷ (1, 7) ∷ []

abbrev sql : Fts ℕ
sql = record {
  scoped_ids = λ n. take n (1 ∷ 2 ∷ []);
  ranked = λ plain toks n. take n ranking;
  containing_all = λ plain toks n. [];
  texts = λ ids. (1, some "zebra") ∷ (2, none) ∷ [];
}

sql_laws : FtsLaws sql
sql_laws = record {
  length-ranked = λ plain toks n. omega (arith, length-take n ranking);
  ranked-Distinct = λ plain toks n. take-Distinct key n ranking (refl, (refl, tt));
  texts-Distinct = λ ids. (refl, (refl, tt));
}

-- A score that counts the query's tokens.
abbrev score : List (String × ℕ) → ℕ → ℕ → List (String × ℕ) → List ((String × String) × ℕ) → ℕ
score found mean dl tf tf2 = length tf

abbrev positive : ℕ → Bool
positive s = ltb 0 s

direct_hits :
    (text_ids nat_scores texts score positive vocab
      (λ n. n / 50)
      1000
      3
      sql
      true
      true
      "zebra"
      5
      caches).0
    ≡ (1, 1) ∷ []
unfolding text_ids
direct_hits = refl

text_ids-AreHits_example :
    AreHits nat_scores texts score positive vocab
      (λ n. n / 50)
      1000
      3
      sql
      5
      (text_ids nat_scores texts score positive vocab
        (λ n. n / 50)
        1000
        3
        sql
        true
        true
        "zebra"
        5
        caches).0
text_ids-AreHits_example =
    text_ids-AreHits nat_scores texts score positive vocab (λ n. n / 50) 1000 3 sql sql_laws true
      true "zebra" 5 caches
