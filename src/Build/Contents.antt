-- ===== src/Build/Contents.antt =====
-- An index that was built holds the records that are live at the swap, and no other id.
use Prim.Native.String.{String}
use raggio.Prelude.{
  List-cases, ℕ, ◌≡◌, refl, sym, ap, ◌∙◌, Bool, true, false, not, ◌&&◌, ◌||◌, Option, List, [], ◌∷◌,
  ◌++◌, map, length, if◌then◌else◌, arith, Bool-cases, ◌⊎◌, inl, inr, ==_iff,
}
use raggio.Prelude.Keys.{nat_eq, has, key, has-append}
use raggio.Prelude.Result.{ok, err}
use raggio.Collection.{VectorIndex}
use raggio.Collection.Writes.Invariant.{contains-remove_ids}
use raggio.Slices.{slices, concat, concat-slices}
use raggio.Build.{
  no_text, no_vector, setdiff, lacks_text, batch_texts, zip_rows, backfill, add_blocks, seen_ids,
  without_deleted, attached_index, detached_index, backfill_batch,
}

abbrev pub is_in : ℕ → List ℕ → Bool
is_in = has (λ (y : ℕ). y)

is_in-setdiff :
    (x : ℕ) (xs ys : List ℕ) → is_in x (setdiff xs ys) ≡ (is_in x xs && not (is_in x ys))
unfolding setdiff
is_in-setdiff x [] ys = refl
is_in-setdiff x (z ∷ xs) ys = ground (arith, is_in-setdiff x xs ys, ==_iff z x)

is_in-keys : {B : Type 0} (x : ℕ) (b : List (ℕ × B)) → is_in x (map key b) ≡ has key x b
is_in-keys x [] = refl
is_in-keys x (e ∷ b) = ground (arith, is_in-keys x b)

module _ {V : Type 0} (vi : VectorIndex V) where
  open vi use {Index, contains, contains-add}

  contains-add_blocks :
      (x : ℕ) (blocks : List (List (ℕ × V))) (i : Index)
      → contains (add_blocks vi blocks i) x ≡ (is_in x (seen_ids vi blocks) || contains i x)
  unfolding add_blocks seen_ids concat
  contains-add_blocks x [] i = refl
  contains-add_blocks x (b ∷ bs) i = ground (
    arith,
    contains-add_blocks x bs (vi.add_with_ids i b),
    contains-add i b x,
    has-append (λ (y : ℕ). y) x (map key b) (seen_ids vi bs),
    is_in-keys x b,
  )

  seen_ids-append :
      (x : ℕ) (bs cs : List (List (ℕ × V)))
      → is_in x (seen_ids vi (bs ++ cs)) ≡ (is_in x (seen_ids vi bs) || is_in x (seen_ids vi cs))
  unfolding seen_ids concat
  seen_ids-append x [] cs = refl
  seen_ids-append x (b ∷ bs) cs = ground (
    arith,
    seen_ids-append x bs cs,
    has-append (λ (y : ℕ). y) x (map key b) (seen_ids vi bs),
    has-append (λ (y : ℕ). y) x (map key b) (seen_ids vi (bs ++ cs)),
  )

  contains-without_deleted :
      (x : ℕ) (blocks : List (List (ℕ × V))) (live : List ℕ) (i : Index)
      → contains (without_deleted vi blocks live i) x
        ≡ (if is_in x (seen_ids vi blocks) && not (is_in x live) then false else contains i x)
  unfolding without_deleted
  contains-without_deleted x blocks live i =
      contains-remove_ids vi (setdiff (seen_ids vi blocks) live) i x
      ∙ rw (is_in-setdiff x (seen_ids vi blocks) live) refl

  -- What is left is live, and was there before.
  swapped :
      (x : ℕ) (blocks : List (List (ℕ × V))) (live : List ℕ) (empty : Index)
      → contains empty x ≡ false
      → (is_in x live ≡ true → is_in x (seen_ids vi blocks) ≡ true)
      → contains (without_deleted vi blocks live (add_blocks vi blocks empty)) x ≡ is_in x live
  swapped x blocks live empty none_yet covers =
      contains-without_deleted x blocks live (add_blocks vi blocks empty)
      ∙ ground (arith, contains-add_blocks x blocks empty, none_yet, covers)

  add_blocks-append :
      (bs cs : List (List (ℕ × V))) (i : Index)
      → add_blocks vi (bs ++ cs) i ≡ add_blocks vi cs (add_blocks vi bs i)
  unfolding add_blocks
  add_blocks-append [] cs i = refl
  add_blocks-append (b ∷ bs) cs i = add_blocks-append bs cs (vi.add_with_ids i b)

  module _ (embed : List String → List V)
      (one_each : (ts : List String) → length (embed ts) ≡ length ts) where
    keys-zip_rows :
        (rows : List (ℕ × Option String)) (vs : List V)
        → length vs ≡ length (batch_texts rows)
        → map key (zip_rows rows vs) ≡ map key rows
    unfolding zip_rows batch_texts
    keys-zip_rows [] vs l = refl
    keys-zip_rows (r ∷ rows) [] l = absurd (omega arith)
    keys-zip_rows (r ∷ rows) (v ∷ vs) l = ap (◌∷◌ r.0) (keys-zip_rows rows vs (omega arith))

    is_in-batches :
        (x : ℕ) (batches : List (List (ℕ × Option String)))
        → is_in x (seen_ids vi (map (λ b. zip_rows b (embed (batch_texts b))) batches))
          ≡ is_in x (map key (concat batches))
    unfolding seen_ids concat
    is_in-batches x [] = refl
    is_in-batches x (b ∷ bs) =
        let row_keys = keys-zip_rows b (embed (batch_texts b)) (one_each (batch_texts b)) in
        rw row_keys (
          ground (
            arith,
            is_in-batches x bs,
            has-append (λ (y : ℕ). y) x (map key b)
                (seen_ids vi (map (λ c. zip_rows c (embed (batch_texts c))) bs)),
            is_in-keys x (b ++ concat bs),
            has-append key x b (concat bs),
            is_in-keys x b,
            is_in-keys x (concat bs),
          ))

    module _ (texts : List ℕ → List (ℕ × Option String)) (blocks : List (List (ℕ × V)))
        (live live_at_swap : List ℕ) (empty : Index) (none_yet : (x : ℕ) → contains empty x ≡ false)
        (only_deletes : (x : ℕ) → is_in x live_at_swap ≡ true → is_in x live ≡ true)
        (reads : (ids : List ℕ) (x : ℕ)
          → is_in x ids ≡ true
          → is_in x live_at_swap ≡ true
          → is_in x (map key (texts ids)) ≡ true) where
      abbrev skipped : List (ℕ × Option String)
      skipped = texts (setdiff live (seen_ids vi blocks))

      abbrev filled : List (List (ℕ × V))
      filled = map (λ b. zip_rows b (embed (batch_texts b))) (slices backfill_batch skipped)

      covered :
          (x : ℕ) → is_in x live_at_swap ≡ true → is_in x (seen_ids vi (blocks ++ filled)) ≡ true
      covered x h =
          let all_rows = is_in-batches x (slices backfill_batch skipped) in
          let whole =
            ap (λ rows. is_in x (map key rows))
              (concat-slices backfill_batch skipped (omega arith)) in
          ground (
            arith,
            seen_ids-append x blocks filled,
            all_rows,
            whole,
            only_deletes x h,
            h,
            is_in-setdiff x live (seen_ids vi blocks),
            reads (setdiff live (seen_ids vi blocks)) x,
          )

      -- An attach whose build meets a record with neither a vector nor a text fails; any other gives an
      -- index that holds the ids which are live at the swap and no other, whatever was deleted during the
      -- build. Assumes that the new index starts empty, that records are only deleted during the build,
      -- that the texts of all live records are read, and that a vector comes back for each text.
      pub attached_index_lem :
          ((lacks_text skipped ≡ true)
            × (attached_index vi embed texts blocks live live_at_swap empty ≡ err no_text))
          ⊎ ((i : Index) × (attached_index vi embed texts blocks live live_at_swap empty ≡ ok i)
              × ((x : ℕ) → contains i x ≡ is_in x live_at_swap))
      unfolding attached_index backfill
      attached_index_lem = elim (Bool-cases (lacks_text skipped)) [
        | inl e ↦ inl (e, rw (e, backfill))
        | inr e ↦ inr (
          without_deleted vi (blocks ++ filled) live_at_swap
              (add_blocks vi filled (add_blocks vi blocks empty)),
          rw (e, backfill),
          λ x.
              ap (λ j. contains (without_deleted vi (blocks ++ filled) live_at_swap j) x)
                (sym (add_blocks-append blocks filled empty))
              ∙ swapped x (blocks ++ filled) live_at_swap empty (none_yet x) (covered x),
        )
      ]

  -- A detach that finds a live record without a vector fails; any other gives an index that holds
  -- the ids which are live at the swap and no other. Assumes that the new index starts empty and that
  -- records are only deleted during the build.
  pub detached_index_lem :
      (blocks : List (List (ℕ × V))) (live live_at_swap : List ℕ) (empty : Index)
      → ((x : ℕ) → contains empty x ≡ false)
      → ((x : ℕ) → is_in x live_at_swap ≡ true → is_in x live ≡ true)
      → (((x : ℕ) × (is_in x live ≡ true) × (is_in x (seen_ids vi blocks) ≡ false))
          × (detached_index vi blocks live live_at_swap empty ≡ err no_vector))
        ⊎ ((i : Index) × (detached_index vi blocks live live_at_swap empty ≡ ok i)
            × ((x : ℕ) → contains i x ≡ is_in x live_at_swap))
  unfolding detached_index
  detached_index_lem blocks live live_at_swap empty none_yet only_deletes =
      elim (List-cases (setdiff live (seen_ids vi blocks))) [
        | inl e ↦ inr (
          without_deleted vi blocks live_at_swap (add_blocks vi blocks empty),
          rw (e, detached_index),
          λ x. swapped x blocks live_at_swap empty (none_yet x) (λ h.
              ground (
                arith,
                is_in-setdiff x live (seen_ids vi blocks),
                ap (is_in x) e,
                only_deletes x h,
              )),
        )
        | inr (y, ys, e) ↦
            let diff = is_in-setdiff y live (seen_ids vi blocks) in
            let first = ap (is_in y) e in
            inl (
              (y, ground (arith, diff, first, ==_iff y y), ground (arith, diff, first, ==_iff y y)),
              rw (e, detached_index),
            )
      ]
