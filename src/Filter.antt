-- ===== src/Filter.antt =====
-- `_filter_sql` of src/raggio/store.py: the WHERE clause of a scope and a metadata filter.
--
-- The clause text is kept as pieces, with each `?` a piece of its own, so that placeholders and
-- parameters can be matched. Python's `str(bound)` is the section's parameter `text_of`.
pub mod Alignment
pub mod Columns
mod Examples
use Prim.Native.String.{◌++◌ as str_append}
use text.Mathlib.Text.{◌==◌ as str_eq}
use raggio.Prelude.{
  ℕ, String, Bool, true, false, not, ◌&&◌, ◌||◌, Option, none, some, List, [], ◌∷◌, ◌++◌, length,
  ltb, any, if◌then◌else◌,
}
use raggio.Prelude.Result.{Result, ok, err, ◌>>=◌}
use raggio.Json.{Json, null, bool, num, str, arr, obj, members, entries, is_nested}

pub data Piece : Type 0 where
  raw : String → Piece
  qmark : Piece

abbrev pub Sql : Type 0
Sql = List Piece

pub data Scope : Type 0 where
  chunks summaries both : Scope

-- The `ValueError`s, one for each message.
pub data FilterError : Type 0 where
  doc_id_operator : String → FilterError
  in_needs_scalars : String → FilterError
  contains_any_needs_scalars : String → FilterError
  contains_any_too_long : String → FilterError
  unsupported : String → FilterError

abbrev pub contains_any_max : ℕ
contains_any_max = 256

-- RANGE_OPS
pub range_op : String → Option String
range_op op =
    if str_eq op "gte"
    then some ">="
    else if str_eq op "lte"
    then some "<="
    else if str_eq op "gt"
    then some ">"
    else if str_eq op "lt"
    then some "<"
    else none

-- A clause with the parameters of its placeholders.
pub record Clause : Type 0 where
  pub sql : Sql
  pub params : List Json

-- The column of a key with its own parameter: `doc_id`, or the metadata path.
pub column : String → Clause
column key =
    if str_eq key "doc_id" then record { sql = raw "doc_id" ∷ []; params = [] } else record {
      sql = raw "json_extract(metadata, " ∷ qmark ∷ raw ")" ∷ [];
      params = str (str_append "$." key) ∷ [];
    }

-- `','.join('?' * n)`
pub qmarks : List Json → Sql
qmarks [] = []
qmarks (b ∷ []) = qmark ∷ []
qmarks (b ∷ c ∷ bs) = qmark ∷ raw "," ∷ qmarks (c ∷ bs)

-- `instr(lower({col}), lower(?)) > 0`
pub contains_sql : Sql → Sql
contains_sql col = raw "instr(lower(" ∷ (col ++ raw "), lower(" ∷ qmark ∷ raw ")) > 0" ∷ [])

-- The same for each value, joined by ` OR `.
pub any_sql : Sql → List Json → Sql
unfolding contains_sql
any_sql col [] = []
any_sql col (b ∷ []) = contains_sql col
any_sql col (b ∷ c ∷ bs) = contains_sql col ++ (raw " OR " ∷ any_sql col (c ∷ bs))

-- A non-empty list of scalars, as `in` and `contains_any` want it.
pub nonempty_scalars : List Json → Option (List Json)
unfolding is_nested
nonempty_scalars [] = none
nonempty_scalars (b ∷ bs) = if any is_nested (b ∷ bs) then none else some (b ∷ bs)

pub scalars : Json → Option (List Json)
unfolding members nonempty_scalars
scalars (arr xs) = nonempty_scalars (members xs)
scalars _ = none

-- An object gives its operators, a list means `in`, and a scalar means `eq`.
pub key_ops : Json → List (String × Json)
unfolding entries
key_ops (obj fs) = entries fs
key_ops (arr xs) = ("in", arr xs) ∷ []
key_ops v = ("eq", v) ∷ []

pub compare_clause : Clause → String → Json → Clause
compare_clause col sign bound = record {
  sql = col.sql ++ (raw " " ∷ raw sign ∷ raw " " ∷ qmark ∷ []);
  params = col.params ++ (bound ∷ []);
}

pub in_clause : Clause → String → Option (List Json) → Result FilterError Clause
unfolding qmarks
in_clause col key none = err (in_needs_scalars key)
in_clause col key (some bs) = ok (record {
  sql = col.sql ++ (raw " IN (" ∷ (qmarks bs ++ (raw ")" ∷ [])));
  params = col.params ++ bs;
})

module _ (text_of : Json → String) where
  -- `for b in bound: params.extend([*cparams, str(b)])`
  pub any_params : List Json → List Json → List Json
  any_params cparams [] = []
  any_params cparams (b ∷ bs) = cparams ++ (str (text_of b) ∷ any_params cparams bs)

  pub contains_any_clause : Clause → String → Option (List Json) → Result FilterError Clause
  unfolding any_sql any_params
  contains_any_clause col key none = err (contains_any_needs_scalars key)
  contains_any_clause col key (some bs) =
      if ltb contains_any_max (length bs)
      then err (contains_any_too_long key)
      else ok (record {
        sql = raw "(" ∷ (any_sql col.sql bs ++ (raw ")" ∷ []));
        params = any_params col.params bs;
      })

  -- The operators that are no comparison.
  pub list_clause : Clause → String → String → Json → Result FilterError Clause
  unfolding scalars in_clause contains_sql contains_any_clause
  list_clause col key op bound =
      if str_eq op "in"
      then in_clause col key (scalars bound)
      else if str_eq op "contains"
      then ok
          (record { sql = contains_sql col.sql; params = col.params ++ (str (text_of bound) ∷ []) })
      else if str_eq op "contains_any"
      then contains_any_clause col key (scalars bound)
      else err (unsupported op)

  pub range_clause : Clause → String → String → Json → Option String → Result FilterError Clause
  unfolding compare_clause list_clause
  range_clause col key op bound (some sign) = ok (compare_clause col sign bound)
  range_clause col key op bound none = list_clause col key op bound

  -- The body of the inner loop: the refusal for `doc_id`, then the chain on the operator.
  pub op_clause : String → String → Json → Result FilterError Clause
  unfolding column compare_clause range_op range_clause
  op_clause key op bound =
      if str_eq key "doc_id" && not (str_eq op "eq" || str_eq op "in")
      then err (doc_id_operator op)
      else if str_eq op "eq"
      then ok (compare_clause (column key) "=" bound)
      else range_clause (column key) key op bound (range_op op)

  -- The inner loop: the clauses of one key, in order, up to the first error.
  pub op_clauses : String → List (String × Json) → Result FilterError (List Clause)
  op_clauses key [] = ok []
  op_clauses key ((op, bound) ∷ ops) = do
    c ← op_clause key op bound
    cs ← op_clauses key ops
    ok (c ∷ cs)

  pub filter_clauses : List (String × Json) → Result FilterError (List Clause)
  unfolding key_ops op_clauses
  filter_clauses [] = ok []
  filter_clauses ((key, val) ∷ rest) = do
    cs ← op_clauses key (key_ops val)
    ds ← filter_clauses rest
    ok (cs ++ ds)

pub scope_clauses : Scope → List Clause
scope_clauses chunks = record { sql = raw "type = 'chunk'" ∷ []; params = [] } ∷ []
scope_clauses summaries = record { sql = raw "type = 'summary'" ∷ []; params = [] } ∷ []
scope_clauses both = []

-- `" AND ".join(clauses)`, and the parameters in the same order.
pub join_and : List Clause → Clause
join_and [] = record { sql = []; params = [] }
join_and (c ∷ []) = c
join_and (c ∷ d ∷ cs) =
    let rest = join_and (d ∷ cs) in
    record { sql = c.sql ++ (raw " AND " ∷ rest.sql); params = c.params ++ rest.params }

-- `filt or {}`
pub filter_entries : Option (List (String × Json)) → List (String × Json)
filter_entries none = []
filter_entries (some m) = m

pub filter_sql : (Json → String) → Scope → Option (List (String × Json)) → Result FilterError Clause
unfolding join_and scope_clauses filter_clauses filter_entries
filter_sql text_of scope filt = do
  cs ← filter_clauses text_of (filter_entries filt)
  ok (join_and (record { sql = raw "indexed = 1" ∷ []; params = [] } ∷ (scope_clauses scope ++ cs)))
