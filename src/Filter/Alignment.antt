-- ===== src/Filter/Alignment.antt =====
-- Every placeholder of the clause has its parameter.
use raggio.Prelude.{
  ℕ, suc, ◌+◌, String, ◌≡◌, refl, Option, none, some, List, [], ◌∷◌, ◌++◌, arith, length, All,
  All-append, subst, ltb, inl, inr, Bool-cases, length-append,
}
use raggio.Prelude.Result.{Result, ok, err, ◌>>=◌}
use raggio.Json.{Json, str}
use raggio.Filter.{
  raw, qmark, Sql, Clause, Scope, FilterError, column, qmarks, contains_sql, any_sql, any_params,
  key_ops, scalars, filter_entries, compare_clause, in_clause, contains_any_max,
  contains_any_clause, list_clause, range_op, range_clause, op_clause, op_clauses, filter_clauses,
  scope_clauses, join_and, filter_sql,
}

unfoldable pub placeholders : Sql → ℕ
placeholders [] = 0
placeholders (qmark ∷ s) = suc (placeholders s)
placeholders (raw t ∷ s) = placeholders s

placeholders-append : (s t : Sql) → placeholders (s ++ t) ≡ placeholders s + placeholders t
unfolding placeholders
placeholders-append [] t = omega arith
placeholders-append (qmark ∷ s) t = omega (arith, placeholders-append s t)
placeholders-append (raw x ∷ s) t = omega (arith, placeholders-append s t)

abbrev IsAligned : Clause → Type 0
IsAligned c = placeholders c.sql ≡ length c.params

column-IsAligned : (key : String) → IsAligned (column key)
unfolding column placeholders
column-IsAligned key = ground arith

placeholders-qmarks : (bs : List Json) → placeholders (qmarks bs) ≡ length bs
unfolding placeholders qmarks
placeholders-qmarks [] = refl
placeholders-qmarks (b ∷ []) = refl
placeholders-qmarks (b ∷ c ∷ bs) = omega (arith, placeholders-qmarks (c ∷ bs))

placeholders-contains_sql : (s : Sql) → placeholders (contains_sql s) ≡ placeholders s + 1
unfolding placeholders contains_sql
placeholders-contains_sql s =
    omega (arith, placeholders-append s (raw "), lower(" ∷ qmark ∷ raw ")) > 0" ∷ []))

module _ (f : Json → String) where
  any-IsAligned :
      (col : Clause) (bs : List Json)
      → IsAligned col
      → placeholders (any_sql col.sql bs) ≡ length (any_params f col.params bs)
  unfolding placeholders any_sql any_params
  any-IsAligned col [] h = refl
  any-IsAligned col (b ∷ []) h =
      omega
        (arith, h, placeholders-contains_sql col.sql, length-append {0} col.params (str (f b) ∷ []))
  any-IsAligned col (b ∷ c ∷ bs) h = omega (
    arith,
    h,
    placeholders-contains_sql col.sql,
    placeholders-append (contains_sql col.sql) (raw " OR " ∷ any_sql col.sql (c ∷ bs)),
    any-IsAligned col (c ∷ bs) h,
    length-append {0} col.params (str (f b) ∷ any_params f col.params (c ∷ bs)),
  )

  -- What the loops keep of a result: whatever it returns is aligned.
  abbrev Aligned : Result FilterError Clause → Type 0
  Aligned (ok c) = IsAligned c
  Aligned (err e) = Unit

  compare_clause-IsAligned :
      (col : Clause) (sign : String) (b : Json)
      → IsAligned col
      → IsAligned (compare_clause col sign b)
  unfolding compare_clause placeholders
  compare_clause-IsAligned col sign b h = omega (
    arith,
    h,
    placeholders-append col.sql (raw " " ∷ raw sign ∷ raw " " ∷ qmark ∷ []),
    length-append {0} col.params (b ∷ []),
  )

  in_clause-Aligned :
      (col : Clause) (key : String) (o : Option (List Json))
      → IsAligned col
      → Aligned (in_clause col key o)
  unfolding in_clause placeholders
  in_clause-Aligned col key none h = tt
  in_clause-Aligned col key (some bs) h = omega (
    arith,
    h,
    placeholders-append col.sql (raw " IN (" ∷ (qmarks bs ++ (raw ")" ∷ []))),
    placeholders-append (qmarks bs) (raw ")" ∷ []),
    placeholders-qmarks bs,
    length-append {0} col.params bs,
  )

  contains_any_clause-Aligned :
      (col : Clause) (key : String) (o : Option (List Json))
      → IsAligned col
      → Aligned (contains_any_clause f col key o)
  unfolding contains_any_clause placeholders
  contains_any_clause-Aligned col key none h = tt
  contains_any_clause-Aligned col key (some bs) h =
      elim (Bool-cases (ltb contains_any_max (length bs))) [
        | inl long ↦ rw long tt
        | inr fits ↦ rw fits (
            omega (
              arith,
              any-IsAligned col bs h,
              placeholders-append (any_sql col.sql bs) (raw ")" ∷ []),
            ))
      ]

  list_clause-Aligned :
      (col : Clause) (key op : String) (b : Json)
      → IsAligned col
      → Aligned (list_clause f col key op b)
  unfolding list_clause
  list_clause-Aligned col key op b h = ground (
    arith,
    in_clause-Aligned col key (scalars b) h,
    contains_any_clause-Aligned col key (scalars b) h,
    placeholders-contains_sql col.sql,
    length-append {0} col.params (str (f b) ∷ []),
  )

  range_clause-Aligned :
      (col : Clause) (key op : String) (b : Json) (sign : Option String)
      → IsAligned col
      → Aligned (range_clause f col key op b sign)
  unfolding range_clause
  range_clause-Aligned col key op b none h = list_clause-Aligned col key op b h
  range_clause-Aligned col key op b (some sign) h = compare_clause-IsAligned col sign b h

  op_clause-Aligned : (key op : String) (b : Json) → Aligned (op_clause f key op b)
  unfolding op_clause
  op_clause-Aligned key op b =
      let h = column-IsAligned key in
      ground (
        arith,
        compare_clause-IsAligned (column key) "=" b h,
        range_clause-Aligned (column key) key op b (range_op op) h,
      )

  -- All clauses of a result.
  abbrev AllAligned : Result FilterError (List Clause) → Type 0
  AllAligned (ok cs) = All IsAligned cs
  AllAligned (err e) = Unit

  cons-AllAligned :
      (c : Result FilterError Clause) (cs : Result FilterError (List Clause))
      → Aligned c
      → AllAligned cs
      → AllAligned (c >>= λ x. cs >>= λ xs. ok (x ∷ xs))
  cons-AllAligned (ok c) (ok cs) h hs = (h, hs)
  cons-AllAligned (ok c) (err e) h hs = tt
  cons-AllAligned (err e) _ h hs = tt

  append-AllAligned :
      (cs ds : Result FilterError (List Clause))
      → AllAligned cs
      → AllAligned ds
      → AllAligned (cs >>= λ xs. ds >>= λ ys. ok (xs ++ ys))
  append-AllAligned (ok cs) (ok ds) h hs = All-append IsAligned cs ds h hs
  append-AllAligned (ok cs) (err e) h hs = tt
  append-AllAligned (err e) _ h hs = tt

  op_clauses-AllAligned :
      (key : String) (ops : List (String × Json)) → AllAligned (op_clauses f key ops)
  unfolding op_clauses
  op_clauses-AllAligned key [] = tt
  op_clauses-AllAligned key ((op, b) ∷ ops) =
      cons-AllAligned (op_clause f key op b) (op_clauses f key ops) (op_clause-Aligned key op b)
        (op_clauses-AllAligned key ops)

  filter_clauses-AllAligned : (m : List (String × Json)) → AllAligned (filter_clauses f m)
  unfolding filter_clauses
  filter_clauses-AllAligned [] = tt
  filter_clauses-AllAligned ((key, val) ∷ m) =
      append-AllAligned (op_clauses f key (key_ops val)) (filter_clauses f m)
        (op_clauses-AllAligned key (key_ops val)) (filter_clauses-AllAligned m)

scope_clauses-IsAligned : (scope : Scope) → All IsAligned (scope_clauses scope)
unfolding scope_clauses placeholders
scope_clauses-IsAligned Scope.chunks = (refl, tt)
scope_clauses-IsAligned Scope.summaries = (refl, tt)
scope_clauses-IsAligned Scope.both = tt

join_and-IsAligned : (cs : List Clause) → All IsAligned cs → IsAligned (join_and cs)
unfolding join_and placeholders
join_and-IsAligned [] h = refl
join_and-IsAligned (c ∷ []) h = h.0
join_and-IsAligned (c ∷ d ∷ cs) h =
    let rest = join_and (d ∷ cs) in
    omega (
      arith,
      h.0,
      join_and-IsAligned (d ∷ cs) h.1,
      placeholders-append c.sql (raw " AND " ∷ rest.sql),
      length-append {0} c.params rest.params,
    )

filter_sql-Aligned :
    (f : Json → String) (scope : Scope) (filt : Option (List (String × Json)))
    → Aligned f (filter_sql f scope filt)
unfolding filter_sql placeholders
filter_sql-Aligned f scope filt =
    finish (filter_clauses f (filter_entries filt))
      (filter_clauses-AllAligned f (filter_entries filt))
  where
    first : Clause
    first = record { sql = raw "indexed = 1" ∷ []; params = [] }

    finish :
        (r : Result FilterError (List Clause))
        → AllAligned f r
        → Aligned f (r >>= λ cs. ok (join_and (first ∷ (scope_clauses scope ++ cs))))
    finish (err e) h = tt
    finish (ok cs) h =
        join_and-IsAligned (first ∷ (scope_clauses scope ++ cs))
          (refl, All-append IsAligned (scope_clauses scope) cs (scope_clauses-IsAligned scope) h)

-- Whenever a scope and a filter are accepted, the WHERE clause has exactly as many placeholders as
-- there are parameters.
pub placeholders-filter_sql :
    (f : Json → String) (scope : Scope) (filt : Option (List (String × Json))) {c : Clause}
    → filter_sql f scope filt ≡ ok c
    → placeholders c.sql ≡ length c.params
placeholders-filter_sql f scope filt e = subst (Aligned f) e (filter_sql-Aligned f scope filt)
