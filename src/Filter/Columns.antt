-- ===== src/Filter/Columns.antt =====
-- Which columns a clause reads, and which operators are refused.
use text.Mathlib.Text.{◌==◌ as str_eq}
use text.Mathlib.TextEquality.{eq_iff}
use raggio.Prelude.{
  String, ◌≡◌, refl, Bool, false, ◌||◌, Option, none, some, List, [], ◌∷◌, ◌++◌, arith, ap, sym,
  subst, Bool-cases, inl, inr, ◌∙◌, ◌⊎◌, any,
}
use raggio.Prelude.Result.{Result, ok, err}
use raggio.Json.{Json}
use raggio.Filter.{
  Piece, raw, qmark, Sql, Clause, FilterError, column, qmarks, scalars, compare_clause, in_clause,
  op_clause, doc_id_operator,
}

abbrev is_path : Piece → Bool
is_path (raw t) = str_eq t "json_extract(metadata, "
is_path qmark = false

unfoldable pub reads_metadata : Sql → Bool
reads_metadata s = any is_path s

any-append : (s t : Sql) → any is_path (s ++ t) ≡ (any is_path s || any is_path t)
any-append [] t = refl
any-append (x ∷ s) t = ground (arith, any-append s t)

any-qmarks : (bs : List Json) → any is_path (qmarks bs) ≡ false
unfolding qmarks
any-qmarks [] = refl
any-qmarks (b ∷ []) = refl
any-qmarks (b ∷ c ∷ bs) = any-qmarks (c ∷ bs)

in_clause-reads :
    (key : String) (o : Option (List Json)) {c : Clause}
    → in_clause (column "doc_id") key o ≡ ok c
    → any is_path c.sql ≡ false
unfolding in_clause column
in_clause-reads key none h = cc
in_clause-reads key (some bs) {c} h =
    subst (λ (r : Result FilterError Clause). Reads r) h
      (any-append (qmarks bs) (raw ")" ∷ []) ∙ ap (λ (x : Bool). x || false) (any-qmarks bs))
  where
    Reads : Result FilterError Clause → Type 0
    Reads (ok c) = any is_path c.sql ≡ false
    Reads (err e) = Unit

doc_id-eq :
    (f : Json → String) (bound : Json)
    → op_clause f "doc_id" "eq" bound ≡ ok (compare_clause (column "doc_id") "=" bound)
unfolding op_clause
doc_id-eq f bound = refl

doc_id_eq_reads :
    (f : Json → String) (bound : Json) (c : Clause)
    → op_clause f "doc_id" "eq" bound ≡ ok c
    → any is_path c.sql ≡ false
unfolding compare_clause column
doc_id_eq_reads f bound c h =
    let e : c ≡ compare_clause (column "doc_id") "=" bound = cc (doc_id-eq f bound) in rw e

doc_id-in :
    (f : Json → String) (bound : Json)
    → op_clause f "doc_id" "in" bound ≡ in_clause (column "doc_id") "doc_id" (scalars bound)
unfolding op_clause
doc_id-in f bound = refl

doc_id-other :
    (f : Json → String) (op : String) (bound : Json)
    → str_eq op "eq" ≡ false
    → str_eq op "in" ≡ false
    → op_clause f "doc_id" op bound ≡ err (doc_id_operator op)
unfolding op_clause
doc_id-other f op bound h k = rw (h, k)

-- Whichever operator a clause on `doc_id` was asked for: if it is accepted, the operator is `eq` or
-- `in`, and the clause compares the records column and never reads a row's metadata.
pub doc_id_reads_column :
    (f : Json → String) (op : String) (bound : Json) {c : Clause}
    → op_clause f "doc_id" op bound ≡ ok c
    → (reads_metadata c.sql ≡ false) × ((op ≡ "eq") ⊎ (op ≡ "in"))
unfolding reads_metadata
doc_id_reads_column f op bound {c} h = elim (Bool-cases (str_eq op "eq")) [
  | inl e ↦
      (doc_id_eq_reads f bound c (subst Gives ((eq_iff op "eq").0 e) h), inl ((eq_iff op "eq").0 e))
  | inr n ↦ elim (Bool-cases (str_eq op "in")) [
    | inl i ↦ (
      in_clause-reads "doc_id" (scalars bound)
          (sym (doc_id-in f bound) ∙ subst Gives ((eq_iff op "in").0 i) h),
      inr ((eq_iff op "in").0 i),
    )
    | inr m ↦ absurd (cc (doc_id-other f op bound n m, h))
  ]
]
  where
    Gives : String → Type 0
    Gives o = op_clause f "doc_id" o bound ≡ ok c
