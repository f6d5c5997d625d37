-- ===== src/Ivf/Shards.antt =====
-- What the shards hold after adds and removals.
use raggio.Prelude.{
  ℕ, suc, ◌+◌, ◌-◌, ◌≤◌, ◌<◌, ◌≡◌, refl, ap, ◌∙◌, Bool, false, ◌&&◌, ◌||◌, List, [], ◌∷◌, arith,
  ◌==◌, ==_iff, leb, ltb, keep, count, length, All, if◌then◌else◌,
}
use raggio.Prelude.Keys.{nat_eq, has, key}
use raggio.Collection.{VectorIndex}
use raggio.Ivf.{
  Shard, shard_written, in_shard, ivf_contains, add_entries, ivf_add_from, ivf_add, ivf_remove,
}

module _ {V : Type 0} (vi : VectorIndex V) where
  open vi use {Index, contains, add_with_ids, remove_id, contains-add, contains-remove}

  -- No id is in two shards.
  abbrev pub IsApart : List (Shard Index) → Type 0
  IsApart ss = (x : ℕ) → count (in_shard vi x) ss ≤ 1

  contains-count :
      (x : ℕ) (ss : List (Shard Index)) → ivf_contains vi x ss ≡ ltb 0 (count (in_shard vi x) ss)
  unfolding ivf_contains
  contains-count x [] = refl
  contains-count x (s ∷ ss) = ground (arith, contains-count x ss)

  count-ivf_remove :
      (rid x : ℕ) (ss : List (Shard Index))
      → count (in_shard vi x) (ivf_remove vi rid ss)
        ≡ (if rid == x then count (in_shard vi x) ss - 1 else count (in_shard vi x) ss)
  unfolding ivf_remove
  count-ivf_remove rid x [] = ground arith
  count-ivf_remove rid x (s ∷ ss) =
      ground (arith, count-ivf_remove rid x ss, contains-remove s.memory rid x, ==_iff rid x)

  -- From shards that share no id a removal takes the id, and no other, and they share none after it.
  pub ivf_remove_lem :
      (rid : ℕ) (ss : List (Shard Index))
      → IsApart ss
      → IsApart (ivf_remove vi rid ss)
        × ((x : ℕ)
            → ivf_contains vi x (ivf_remove vi rid ss)
              ≡ (if rid == x then false else ivf_contains vi x ss))
  ivf_remove_lem rid ss a = (
    (λ x. ground (arith, a x, count-ivf_remove rid x ss)),
    λ x. ground (
      arith,
      a x,
      count-ivf_remove rid x ss,
      contains-count x ss,
      contains-count x (ivf_remove vi rid ss),
    ),
  )

  -- The entries for the shards from `j` on, of which there are `n`.
  abbrev falls : (V → ℕ) → ℕ → ℕ → ℕ × V → Bool
  falls assign j n e = leb j (assign e.1) && ltb (assign e.1) (j + n)

  add_entries-contains :
      (x : ℕ) (es : List (ℕ × V)) (s : Shard Index)
      → contains (add_entries vi es s).memory x ≡ (has key x es || contains s.memory x)
  unfolding add_entries shard_written
  add_entries-contains x [] s = refl
  add_entries-contains x (e ∷ es) s = contains-add s.memory (e ∷ es) x

  falls-split :
      (assign : V → ℕ) (j n x : ℕ) (es : List (ℕ × V))
      → has key x (keep (falls assign j (suc n)) es) ≡ (
          has key x (keep (λ e. assign e.1 == j) es)
          || has key x (keep (falls assign (suc j) n) es))
  falls-split assign j n x [] = refl
  falls-split assign j n x (e ∷ es) = ground (arith, falls-split assign j n x es)

  falls-none :
      (assign : V → ℕ) (j x : ℕ) (es : List (ℕ × V))
      → has key x (keep (falls assign j 0) es) ≡ false
  falls-none assign j x [] = refl
  falls-none assign j x (e ∷ es) = ground (arith, falls-none assign j x es)

  contains-ivf_add_from :
      (assign : V → ℕ) (j x : ℕ) (es : List (ℕ × V)) (ss : List (Shard Index))
      → ivf_contains vi x (ivf_add_from vi assign j es ss)
        ≡ (has key x (keep (falls assign j (length ss)) es) || ivf_contains vi x ss)
  unfolding ivf_contains ivf_add_from
  contains-ivf_add_from assign j x es [] = ground (arith, falls-none assign j x es)
  contains-ivf_add_from assign j x es (s ∷ ss) = ground (
    arith,
    contains-ivf_add_from assign (suc j) x es ss,
    add_entries-contains x (keep (λ e. assign e.1 == j) es) s,
    falls-split assign j (length ss) x es,
  )

  in_range :
      (assign : V → ℕ) (n : ℕ) (es : List (ℕ × V))
      → All (λ e. assign e.1 < n) es
      → keep (falls assign 0 n) es ≡ es
  in_range assign n [] h = refl
  in_range assign n (e ∷ es) h = ground (arith, h.0, in_range assign n es h.1)

  -- An add puts every id of its entries into the index, and takes none out, where each vector's shard
  -- exists.
  pub contains-ivf_add :
      (assign : V → ℕ) (x : ℕ) (es : List (ℕ × V)) (ss : List (Shard Index))
      → All (λ e. assign e.1 < length ss) es
      → ivf_contains vi x (ivf_add vi assign es ss) ≡ (has key x es || ivf_contains vi x ss)
  unfolding ivf_add
  contains-ivf_add assign x es ss h =
      contains-ivf_add_from assign 0 x es ss
      ∙ ap (λ (l : List (ℕ × V)). has key x l || ivf_contains vi x ss)
          (in_range assign (length ss) es h)
