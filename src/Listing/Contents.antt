-- ===== src/Listing/Contents.antt =====
-- A document is shown with all of its records, its chunks in order.
use raggio.Prelude.{
  ◌≡◌, ◌≢◌, refl, sym, ap, ◌∙◌, subst, String, Bool, true, false, Option, none, some, List, [], ◌∷◌,
  map, keep, any, All, All-map, keep-All, arith, Bool-cases, inl, inr, if◌then◌else◌,
}
use raggio.Prelude.Keys.{nat_eq, has, Distinct}
use raggio.Ranking.{sort}
use raggio.Ranking.Sorting.{
  Reordered, Reordered-refl, nil, cons, swap, trans, IsSorted, sort-perm, sort-IsSorted,
}
use raggio.Collection.{Record}
use raggio.Collection.Membership.{record_id}
use raggio.Collection.Writes.{of_document}
use raggio.Fusion.{row_with}
use raggio.Listing.{
  document_order, shows_chunk, shows_summary, document_ids, hydrate_ids, Document, first_summary,
  document_of, document_at, get_document,
}
use raggio.Listing.Order.{document_order-TotalPreorder}

module _ {A : Type 0} (p : A → Bool) where
  keep_two :
      (x y : A) (ks : List A)
      → Reordered
          (if p x then x ∷ (if p y then y ∷ ks else ks) else (if p y then y ∷ ks else ks))
          (if p y then y ∷ (if p x then x ∷ ks else ks) else (if p x then x ∷ ks else ks))
  keep_two x y ks = elim (Bool-cases (p x)) [
    | inl e ↦ elim (Bool-cases (p y)) [
      | inl f ↦ rw (e, f) (swap x y ks)
      | inr f ↦ rw (e, f) (Reordered-refl (x ∷ ks))
    ]
    | inr e ↦ rw e (Reordered-refl _)
  ]

  keep-Reordered : {xs ys : List A} → Reordered xs ys → Reordered (keep p xs) (keep p ys)
  keep-Reordered nil = nil
  keep-Reordered (cons x h) = elim (Bool-cases (p x)) [
    | inl e ↦ rw e (cons x (keep-Reordered h))
    | inr e ↦ rw e (keep-Reordered h)
  ]
  keep-Reordered (swap x y xs) = keep_two x y (keep p xs)
  keep-Reordered (trans h k) = trans (keep-Reordered h) (keep-Reordered k)

  any-Reordered : {xs ys : List A} → Reordered xs ys → any p xs ≡ any p ys
  any-Reordered nil = refl
  any-Reordered (cons x h) = ground (arith, any-Reordered h)
  any-Reordered (swap x y xs) = ground arith
  any-Reordered (trans h k) = any-Reordered h ∙ any-Reordered k

  pub keep-below : (Q : A → Type 0) (xs : List A) → All Q xs → All Q (keep p xs)
  keep-below Q xs h = All-map _ Q (keep p xs) (λ x q. q.0) (keep-All Q p xs h)

  keep-IsSorted : (le : A → A → Bool) (xs : List A) → IsSorted le xs → IsSorted le (keep p xs)
  keep-IsSorted le [] h = tt
  keep-IsSorted le (x ∷ xs) h = elim (Bool-cases (p x)) [
    | inl e ↦ rw e (keep-below (λ y. le x y ≡ true) xs h.0, keep-IsSorted le xs h.1)
    | inr e ↦ rw e (keep-IsSorted le xs h.1)
  ]

pub All-Reordered :
    {A : Type 0} (P : A → Type 0) {xs ys : List A} → Reordered xs ys → All P ys → All P xs
All-Reordered P nil h = tt
All-Reordered P (cons x r) h = (h.0, All-Reordered P r h.1)
All-Reordered P (swap x y xs) h = (h.1.0, (h.0, h.1.1))
All-Reordered P (trans r s) h = All-Reordered P r (All-Reordered P s h)

-- Under its id a record of the table is found.
abbrev pub IsFound : List Record → Record → Type 0
IsFound rs r = row_with r.id rs ≡ some r

IsFound-weaken :
    (x : Record) (rs xs : List Record)
    → has record_id x.id xs ≡ false
    → All (IsFound rs) xs
    → All (IsFound (x ∷ rs)) xs
unfolding row_with
IsFound-weaken x rs [] h k = tt
IsFound-weaken x rs (y ∷ ys) h k =
    (ground (arith, h, k.0), IsFound-weaken x rs ys (ground (arith, h)) k.1)

pub All-IsFound : (rs : List Record) → Distinct record_id rs → All (IsFound rs) rs
unfolding row_with
All-IsFound [] d = tt
All-IsFound (r ∷ rs) d = (ground arith, IsFound-weaken r rs rs d.0 (All-IsFound rs d.1))

pub hydrate_ids-map :
    (rs xs : List Record) → All (IsFound rs) xs → hydrate_ids rs (map (λ r. r.id) xs) ≡ xs
unfolding hydrate_ids
hydrate_ids-map rs [] h = refl
hydrate_ids-map rs (x ∷ xs) h = rw (h.0, hydrate_ids) (ap (◌∷◌ x) (hydrate_ids-map rs xs h.1))

-- The first summary of a list: there is none, or it is a member.
abbrev IsFirst : (Record → Type 0) → List Record → Option Record → Type 0
IsFirst P xs none = any shows_summary xs ≡ false
IsFirst P xs (some s) = P s × (shows_summary s ≡ true)

IsFirst-skip :
    (P : Record → Type 0) (x : Record) (xs : List Record) (s : Option Record)
    → shows_summary x ≡ false
    → IsFirst P xs s
    → IsFirst P (x ∷ xs) s
IsFirst-skip P x xs none e h = rw e h
IsFirst-skip P x xs (some s) e h = h

first_summary-IsFirst :
    (P : Record → Type 0) (xs : List Record) → All P xs → IsFirst P xs (first_summary xs)
unfolding first_summary
first_summary-IsFirst P [] h = refl
first_summary-IsFirst P (x ∷ xs) h = elim (Bool-cases (shows_summary x)) [
  | inl e ↦ rw e (h.0, e)
  | inr e ↦ rw e (IsFirst-skip P x xs (first_summary xs) e (first_summary-IsFirst P xs h.1))
]

-- The document shows the records of `d`: a summary if there is one, and all chunks in their order.
pub record IsShown (d : String) (rs : List Record) (doc : Document) : Type 0 where
  pub shown_id : doc.doc_id ≡ d
  pub not_empty : keep (of_document d) rs ≢ []
  pub shown_summary :
      IsFirst
        (λ s. IsFound rs s × (of_document d s ≡ true))
        (keep (of_document d) rs)
        doc.summary_hit
  pub shown_chunks : Reordered doc.chunks (keep shows_chunk (keep (of_document d) rs))
  pub in_order : IsSorted document_order doc.chunks

abbrev pub Answers : String → List Record → Option Document → Type 0
Answers d rs none = keep (of_document d) rs ≡ []
Answers d rs (some doc) = IsShown d rs doc

no_members : {A : Type 0} (xs : List A) → any (λ x. true) xs ≡ false → xs ≡ []
no_members [] h = refl
no_members (x ∷ xs) h = absurd (ground (arith, h))

IsFirst-Reordered :
    (P : Record → Type 0) {xs ys : List Record} (s : Option Record)
    → Reordered xs ys
    → IsFirst P xs s
    → IsFirst P ys s
IsFirst-Reordered P none r h = sym (any-Reordered shows_summary r) ∙ h
IsFirst-Reordered P (some s) r h = h

module _ (d : String) (rs : List Record) where
  abbrev mine : List Record
  mine = keep (of_document d) rs

  document_of-IsShown :
      (xs : List Record)
      → xs ≢ []
      → Reordered xs mine
      → IsSorted document_order xs
      → Distinct record_id rs
      → IsShown d rs (document_of d xs)
  unfolding document_of
  document_of-IsShown xs n r o u = record {
    shown_id = refl;
    not_empty = λ e. n (no_members xs (any-Reordered (λ x. true) r ∙ ap (any (λ x. true)) e));
    shown_summary = IsFirst-Reordered _ (first_summary xs) r (
        first_summary-IsFirst _ xs
          (All-Reordered _ r (keep-All (IsFound rs) (of_document d) rs (All-IsFound rs u))));
    shown_chunks = keep-Reordered shows_chunk r;
    in_order = keep-IsSorted shows_chunk document_order xs o;
  }

  get_document_lem :
      (xs : List Record)
      → sort document_order mine ≡ xs
      → get_document d rs rs ≡ document_at d rs (map record_id xs)
  unfolding get_document document_ids
  get_document_lem xs e = ap (λ ys. document_at d rs (map record_id ys)) e

  from_sorted :
      (xs : List Record)
      → sort document_order mine ≡ xs
      → Reordered xs mine
      → IsSorted document_order xs
      → Distinct record_id rs
      → Answers d rs (get_document d rs rs)
  unfolding document_at
  from_sorted [] e r o u =
      subst (Answers d rs) (sym (get_document_lem [] e))
        (no_members mine (sym (any-Reordered (λ x. true) r)))
  from_sorted (x ∷ xs) e r o u =
      subst (Answers d rs)
        (sym (
          get_document_lem (x ∷ xs) e
          ∙ ap (λ ys. some (document_of d ys)) (hydrate_ids-map rs (x ∷ xs) found)))
        (document_of-IsShown (x ∷ xs) (λ e. cc e) r o u)
    where
      found : All (IsFound rs) (x ∷ xs)
      found = All-Reordered _ r (keep-below (of_document d) (IsFound rs) rs (All-IsFound rs u))

  -- With no write between its two reads, and distinct record ids, `get_document` finds no document
  -- exactly where no record has its id. The document it finds has a summary record of that id if there
  -- is one, and all the chunks of that id, once each, in the order of position and id.
  pub get_document-Answers : Distinct record_id rs → Answers d rs (get_document d rs rs)
  get_document-Answers u =
      from_sorted (sort document_order mine) refl (sort-perm document_order mine)
        (sort-IsSorted document_order document_order-TotalPreorder mine) u
