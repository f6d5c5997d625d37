-- ===== src/Filter/Examples.antt =====
-- Filters and their clauses.
use raggio.Prelude.{◌≡◌, refl, String, some, List, [], ◌∷◌, length}
use raggio.Prelude.Result.{ok}
use raggio.Json.{Json, str, arr, cons, nil}
use raggio.Filter.{Clause, raw, qmark, chunks, filter_sql, op_clause}
use raggio.Filter.Alignment.{placeholders, placeholders-filter_sql}

-- `str(v)`, for the strings that the examples hold.
abbrev text_of : Json → String
text_of (str s) = s
text_of _ = ""

-- {"lang": ["it", "en"]}
abbrev languages : List (String × Json)
languages = ("lang", arr (cons (str "it") (cons (str "en") nil))) ∷ []

abbrev in_languages : Clause
in_languages = record {
  sql =
      raw "indexed = 1"
      ∷ raw " AND "
      ∷ raw "type = 'chunk'"
      ∷ raw " AND "
      ∷ raw "json_extract(metadata, "
      ∷ qmark
      ∷ raw ")"
      ∷ raw " IN ("
      ∷ qmark
      ∷ raw ","
      ∷ qmark
      ∷ raw ")"
      ∷ [];
  params = str "$.lang" ∷ str "it" ∷ str "en" ∷ [];
}

languages_accepted : filter_sql text_of chunks (some languages) ≡ ok in_languages
unfolding filter_sql op_clause
languages_accepted = refl

placeholders-filter_sql_example : placeholders in_languages.sql ≡ length in_languages.params
placeholders-filter_sql_example =
    placeholders-filter_sql text_of chunks (some languages) languages_accepted

abbrev two_ids : Json
two_ids = arr (cons (str "a") (cons (str "b") nil))

abbrev in_ : String
in_ = "in"

abbrev among_ids : Clause
among_ids = record {
  sql = raw "doc_id" ∷ raw " IN (" ∷ qmark ∷ raw "," ∷ qmark ∷ raw ")" ∷ [];
  params = str "a" ∷ str "b" ∷ [];
}

two_ids_accepted : op_clause text_of "doc_id" "in" two_ids ≡ ok among_ids
unfolding op_clause
two_ids_accepted = refl
