-- ===== src/TextSearch/Stages/Results.antt =====
-- What `_text_ids` returns on each of its paths.
use Prim.Native.String.{String}
use raggio.Prelude.{
  ℕ, ◌+◌, ◌≤◌, ◌≡◌, refl, Bool, false, not, ◌&&◌, Option, List, [], ◌∷◌, ◌++◌, map, take, length,
  ltb, leb, keep, length-keep, arith, Bool-cases, inl, inr,
}
use raggio.Prelude.Keys.{Eq, nat_eq, has, Distinct, key, keep-Distinct}
use raggio.Ranking.{Scores}
use raggio.Ranking.Order.{length-top}
use raggio.Ranking.Distinctness.{top-Distinct, map-Distinct}
use raggio.TextSearch.{Texts, TextCaches, prune_common, max_tokens}
use raggio.TextSearch.Stages.{
  Fts, from_keys, text_score, bm25_topn, rescore_tokens, routed_ids, text_direct_max, bm25_rescore,
  fts_ids, text_ids, text_or_cand, text_and_cand,
}

module _ {K : Type 0} ⦃e : Eq K⦄ where
  absent_of_rest :
      (x : K) (ys : List K) → has (λ (y : K). y) x (keep (λ y. not (e.beq x y)) ys) ≡ false
  absent_of_rest x [] = refl
  absent_of_rest x (y ∷ ys) = ground (arith, absent_of_rest x ys, e.beq_iff x y, e.beq_iff y x)

  pub from_keys-Distinct : (xs : List K) → Distinct (λ (y : K). y) (from_keys xs)
  unfolding from_keys
  from_keys-Distinct [] = tt
  from_keys-Distinct (x ∷ xs) = (
    absent_of_rest x (from_keys xs),
    keep-Distinct (λ (y : K). y) (λ y. not (e.beq x y)) (from_keys xs) (from_keys-Distinct xs),
  )

-- What SQLite's statements promise: a LIMIT, and rows of different records.
pub record FtsLaws {S : Type 0} (sql : Fts S) : Type 0 where
  pub length-ranked :
      (plain : Bool) (toks : List String) (n : ℕ) → length (sql.ranked plain toks n) ≤ n
  pub ranked-Distinct :
      (plain : Bool) (toks : List String) (n : ℕ) → Distinct key (sql.ranked plain toks n)
  pub texts-Distinct : (ids : List ℕ) → Distinct key (sql.texts ids)

module _ {S L : Type 0} (sc : Scores S) (tx : Texts)
    (score : List (String × ℕ) → L → ℕ → List (String × ℕ) → List ((String × String) × ℕ) → S)
    (positive : S → Bool) (vocab : String → ℕ) (share : ℕ → ℕ) (total : ℕ) (sample : L)
    (sql : Fts S) where
  -- Hits of different records, and no more than were asked for.
  abbrev pub AreHits : ℕ → List (ℕ × S) → Type 0
  AreHits n hits = (length hits ≤ n) × Distinct key hits

  bm25_topn-AreHits :
      (dfs : List (String × ℕ)) (mean : L) (toks : List String) (cand : List (ℕ × Option String))
      (n : ℕ)
      → Distinct key cand
      → AreHits n (bm25_topn sc tx score positive vocab share total sample sql dfs mean toks cand n)
  unfolding bm25_topn
  bm25_topn-AreHits dfs mean [] cand n d = (omega arith, tt)
  bm25_topn-AreHits dfs mean (q ∷ qs) cand n d =
      let scored : ℕ × Option String → ℕ × S = λ y.
        (y.0, text_score sc tx score positive vocab share total sample sql dfs mean (q ∷ qs) y.1) in
      (
        omega (arith, length-top sc n (map scored cand)),
        top-Distinct sc n (map scored cand) (map-Distinct key key scored (λ y. refl) cand d),
      )

  rescore_tokens-AreHits :
      (toks : List String) (cand : List (ℕ × Option String)) (n : ℕ) (c : TextCaches L)
      → Distinct key cand
      → AreHits n (rescore_tokens sc tx score positive vocab share total sample sql toks cand n c).0
  unfolding rescore_tokens
  rescore_tokens-AreHits [] cand n c d = (omega arith, tt)
  rescore_tokens-AreHits (q ∷ qs) [] n c d = (omega arith, tt)
  rescore_tokens-AreHits (q ∷ qs) (x ∷ xs) n c d = bm25_topn-AreHits _ _ (q ∷ qs) (x ∷ xs) n d

  module _ (laws : FtsLaws sql) where
    open laws use {length-ranked, ranked-Distinct, texts-Distinct}

    fts_ids-AreHits :
        (plain : Bool) (kept toks : List String) (qtext : String) (n : ℕ) (c : TextCaches L)
        → AreHits n
            (fts_ids sc tx score positive vocab share total sample sql plain kept toks qtext n c).0
    unfolding fts_ids bm25_rescore
    fts_ids-AreHits plain kept toks qtext n c =
        elim (Bool-cases (ltb (length kept) (length toks))) [
          | inr e ↦ rw e (length-ranked plain kept n, ranked-Distinct plain kept n)
          | inl e ↦
              let cand : List ℕ = from_keys (
                map key (sql.ranked plain kept text_or_cand)
                ++ sql.containing_all plain toks text_and_cand) in
              rw e (
                rescore_tokens-AreHits (take max_tokens (tx.fold_tokens qtext)) _ n c (
                  map-Distinct (λ (i : ℕ). i) key _ (λ i. refl) cand
                    (from_keys-Distinct (
                      map key (sql.ranked plain kept text_or_cand)
                      ++ sql.containing_all plain toks text_and_cand))))
        ]

    keep-AreHits :
        (n : ℕ) (p : ℕ × S → Bool) (hits : List (ℕ × S)) → AreHits n hits → AreHits n (keep p hits)
    keep-AreHits n p hits h = (omega (arith, length-keep p hits, h.0), keep-Distinct key p hits h.1)

    routed_ids-AreHits :
        (plain doc_scoped : Bool) (kept toks : List String) (qtext : String) (n : ℕ)
        (c : TextCaches L)
        → AreHits n
            (routed_ids sc tx score positive vocab share total sample sql plain doc_scoped kept toks
              qtext n c).0
    unfolding routed_ids bm25_rescore
    routed_ids-AreHits plain doc_scoped [] toks qtext n c = (omega arith, tt)
    routed_ids-AreHits plain doc_scoped (k ∷ ks) toks qtext n c =
        let ids = sql.scoped_ids (text_direct_max + 1) in
        let direct =
          rescore_tokens-AreHits (take max_tokens (tx.fold_tokens qtext)) (sql.texts ids) n c
            (texts-Distinct ids) in
        elim (Bool-cases ((doc_scoped && not tx.is_trigram) && leb (length ids) text_direct_max)) [
          | inl e ↦ rw e (keep-AreHits n (λ (h : ℕ × S). positive h.1) _ direct)
          | inr e ↦ rw e (fts_ids-AreHits plain (k ∷ ks) toks qtext n c)
        ]

    -- A text search returns at most as many hits as were asked for, of different records, on each of
    -- its paths: FTS5's ranking, the two stages, and the direct scoring of a document's records.
    -- Assumes that SQLite respects a LIMIT and returns a record once.
    pub text_ids-AreHits :
        (plain doc_scoped : Bool) (qtext : String) (n : ℕ) (c : TextCaches L)
        → AreHits n
            (text_ids sc tx score positive vocab share total sample sql plain doc_scoped qtext n
              c).0
    unfolding text_ids
    text_ids-AreHits plain doc_scoped qtext n c =
        let pruned = prune_common tx vocab share total qtext c in
        routed_ids-AreHits plain doc_scoped pruned.0.0 pruned.0.1 qtext n pruned.1
