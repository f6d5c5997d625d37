-- ===== src/Listing/Pages.antt =====
-- The pages of a listing, read one after the other.
use text.Mathlib.Text.{◌==◌ as str_eq}
use raggio.Prelude.{
  subst, Bool-cases, inl, inr, ℕ, zero, suc, ◌+◌, ◌*◌, ◌≤◌, ◌≡◌, refl, sym, ap, ◌∙◌, String, Bool,
  Option, none, some, List, [], ◌∷◌, ◌++◌, map, keep, take, drop, length, count, All,
  take-append-drop, arith,
}
use raggio.Prelude.Keys.{nat_eq, Distinct}
use raggio.Prelude.Result.{ok_once, Result, ok, ◌>>=◌}
use raggio.Ranking.{sort}
use raggio.Ranking.Sorting.{
  Reordered, TotalPreorder, IsSorted, sort-perm, sort-IsSorted, length-sort,
}
use raggio.Collection.{Record}
use raggio.Collection.Membership.{record_id}
use raggio.Listing.{hydrate_ids, ListError, order_of, page_ids, list_records}
use raggio.Listing.Order.{WeakOrder, then_by-TotalPreorder, by_id-TotalPreorder}
use raggio.Listing.Contents.{IsFound, All-IsFound, All-Reordered, keep-below, hydrate_ids-map}

suc_plus : (m n : ℕ) → suc (m + n) ≡ suc m + n
suc_plus m n = omega arith

module _ {A : Type 0} where
  drop_nil : (n : ℕ) → drop {A = A} n [] ≡ []
  drop_nil zero = refl
  drop_nil (suc n) = refl

  drop-drop : (m n : ℕ) (xs : List A) → drop n (drop m xs) ≡ drop (m + n) xs
  drop-drop zero n xs = ap (λ k. drop k xs) (omega arith)
  drop-drop (suc m) n [] = drop_nil n ∙ sym (drop_nil (suc m + n))
  drop-drop (suc m) n (x ∷ xs) = drop-drop m n xs ∙ ap (λ k. drop k (x ∷ xs)) (suc_plus m n)

  drop_past : (n : ℕ) (xs : List A) → length xs ≤ n → drop n xs ≡ []
  drop_past zero [] h = refl
  drop_past zero (x ∷ xs) h = absurd (omega (arith, h))
  drop_past (suc n) [] h = refl
  drop_past (suc n) (x ∷ xs) h = drop_past n xs (omega (arith, h))

  slice-All : (P : A → Type 0) (m n : ℕ) (xs : List A) → All P xs → All P (take m (drop n xs))
  slice-All P zero n xs h = tt
  slice-All P (suc m) zero [] h = tt
  slice-All P (suc m) zero (x ∷ xs) h = (h.0, slice-All P m zero xs h.1)
  slice-All P (suc m) (suc n) [] h = tt
  slice-All P (suc m) (suc n) (x ∷ xs) h = slice-All P (suc m) n xs h.1

  length-keep-count : (p : A → Bool) (xs : List A) → length (keep p xs) ≡ count p xs
  length-keep-count p [] = refl
  length-keep-count p (x ∷ xs) = ground (arith, length-keep-count p xs)

slice-map :
    {A B : Type 0} (f : A → B) (m n : ℕ) (xs : List A)
    → take m (drop n (map f xs)) ≡ map f (take m (drop n xs))
slice-map f zero n xs = refl
slice-map f (suc m) zero [] = refl
slice-map f (suc m) zero (x ∷ xs) = ap (◌∷◌ (f x)) (slice-map f m zero xs)
slice-map f (suc m) (suc n) [] = refl
slice-map f (suc m) (suc n) (x ∷ xs) = slice-map f (suc m) n xs

order_of-TotalPreorder :
    (matches : String → Bool) (key_lt : String → Record → Record → Bool) (holds : Record → Bool)
    → ((k : String) → WeakOrder (key_lt k))
    → (key : Option String) {le : Record → Record → Bool}
    → order_of matches key_lt holds key ≡ ok le
    → TotalPreorder le
unfolding order_of
order_of-TotalPreorder matches key_lt holds w none e =
    subst TotalPreorder (ok_once _ refl e) by_id-TotalPreorder
order_of-TotalPreorder matches key_lt holds w (some key) e = elim (Bool-cases (str_eq key "")) [
  | inl f ↦ subst TotalPreorder (ok_once _ (rw f refl) e) by_id-TotalPreorder
  | inr f ↦ elim (Bool-cases (matches key)) [
    | inl g ↦
        subst TotalPreorder (ok_once _ (rw (f, g) refl) e)
          (then_by-TotalPreorder _ _ (w key) by_id-TotalPreorder)
    | inr g ↦ absurd (ground (arith, f, g, e))
  ]
]

module _ (matches : String → Bool) (key_lt : String → Record → Record → Bool)
    (holds : Record → Bool) (key : Option String) (limit : ℕ) (rs : List Record) where
  -- `n` pages from an offset on.
  abbrev pub read_pages : ℕ → ℕ → Result ListError (List Record)
  read_pages zero offset = ok []
  read_pages (suc n) offset = do
    p ← list_records matches key_lt holds key limit offset rs rs rs
    rest ← read_pages n (offset + limit)
    ok (p.records ++ rest)

  module _ (le : Record → Record → Bool) where
    abbrev matching : List Record
    matching = sort le (keep holds rs)

    page_lem :
        (offset : ℕ)
        → Distinct record_id rs
        → hydrate_ids rs (page_ids matches key_lt holds le limit offset rs)
          ≡ take limit (drop offset matching)
    unfolding page_ids
    page_lem offset u =
        ap (hydrate_ids rs) (slice-map record_id limit offset matching)
        ∙ hydrate_ids-map rs (take limit (drop offset matching)) (
            slice-All (IsFound rs) limit offset matching (
              All-Reordered _ (sort-perm le (keep holds rs))
                (keep-below holds (IsFound rs) rs (All-IsFound rs u))))

    read_pages_lem :
        (n offset : ℕ)
        → Distinct record_id rs
        → order_of matches key_lt holds key ≡ ok le
        → length matching ≤ offset + n * limit
        → read_pages n offset ≡ ok (drop offset matching)
    unfolding list_records
    read_pages_lem zero offset u e h = ap ok (sym (drop_past offset matching (omega (arith, h))))
    read_pages_lem (suc n) offset u e h =
        rw
          (
            e,
            page_lem offset u,
            read_pages_lem n (offset + limit) u e (omega (arith, h)),
            sym (drop-drop offset limit matching),
          )
          (ap ok (take-append-drop limit (drop offset matching)))

    -- With no write in between, as many pages as reach the total are the whole listing: each record that
    -- the filter holds for is on one of them, once, and the records come in the order asked for,
    -- that of ids where no key is given. Assumes distinct ids, a sort key that is accepted, and that
    -- the order of the metadata values under a key is a strict weak order.
    pub read_pages_total :
        (n : ℕ)
        → Distinct record_id rs
        → ((k : String) → WeakOrder (key_lt k))
        → order_of matches key_lt holds key ≡ ok le
        → count holds rs ≤ n * limit
        → (all : List Record) × (read_pages n 0 ≡ ok all)
          × Reordered all (keep holds rs)
          × IsSorted le all
    read_pages_total n u w e h = (
      matching,
      read_pages_lem n 0 u e
          (omega (arith, h, length-sort le (keep holds rs), length-keep-count holds rs)),
      sort-perm le (keep holds rs),
      sort-IsSorted le (order_of-TotalPreorder matches key_lt holds w key e) (keep holds rs),
    )
