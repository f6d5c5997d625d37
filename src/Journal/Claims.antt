-- ===== src/Journal/Claims.antt =====
-- The claim takes the lowest open job above its cursor, and finds none only when there is none.
use raggio.Prelude.{
  ℕ, ◌≤◌, ◌<◌, ◌≡◌, true, ◌&&◌, Option, none, some, List, [], ◌∷◌, arith, ltb, leb, All, All-map,
  any, ◌==◌, Bool-cases, inl, inr,
}
use raggio.Journal.{Job, Journal, is_open, Claimed, prefer, lowest_open, claim_found, claim_next}

module _ {T : Type 0} (after : ℕ) where
  -- Open and above the cursor.
  abbrev pub IsDue : Job T → Type 0
  IsDue j = (is_open j.status ≡ true) × (after < j.id)

  -- An open job has the id.
  abbrev Holds : ℕ → List (Job T) → Type 0
  Holds id js = any (λ j. is_open j.status && j.id == id) js ≡ true

  abbrev pub Lowest : Option (Job T) → List (Job T) → Type 0
  Lowest none js = All (λ j. ¬ IsDue j) js
  Lowest (some k) js = IsDue k × (Holds k.id js × All (λ j. IsDue j → k.id ≤ j.id) js)

  prefer-Lowest :
      (j : Job T) (js : List (Job T)) (o : Option (Job T))
      → Lowest o js
      → Lowest (prefer after j o) (j ∷ js)
  unfolding prefer
  prefer-Lowest j js none h = elim (Bool-cases (is_open j.status && ltb after j.id)) [
    | inl e ↦ rw e (
      ground arith,
      (ground arith, ((λ d. omega arith), All-map _ _ js (λ k n d. absurd (n d)) h)),
    )
    | inr e ↦ rw e ((λ d. ground arith), h)
  ]
  prefer-Lowest j js (some k) h =
      elim (Bool-cases (is_open j.status && ltb after j.id && leb j.id k.id)) [
        | inl e ↦ rw e (
          ground arith,
          (ground arith, ((λ d. omega arith), All-map _ _ js (λ i n d. ground (arith, n d)) h.1.1)),
        )
        | inr e ↦ rw e (h.0, (ground (arith, h.1.0), ((λ d. ground arith), h.1.1)))
      ]

  lowest_open-Lowest : (js : List (Job T)) → Lowest (lowest_open after js) js
  unfolding lowest_open
  lowest_open-Lowest [] = tt
  lowest_open-Lowest (j ∷ js) = prefer-Lowest j js (lowest_open after js) (lowest_open-Lowest js)

module _ {B T P : Type 0} (decode : B → Option P) (loads : T → Option P) where
  -- What a claim says of the journal: none means that no open job stands above the cursor; a claimed
  -- id is above it, belongs to an open job, and no open job above the cursor has a lower id.
  abbrev pub Claims : ℕ → List (Job T) → Option (ℕ × Claimed P) → Type 0
  Claims after js none = All (λ j. ¬ IsDue after j) js
  Claims after js (some (id, c)) =
      (after < id) × (Holds after id js × All (λ j. IsDue after j → id ≤ j.id) js)

  found-Claims :
      (after : ℕ) (j : Journal B T) (o : Option (Job T))
      → Lowest after o j.jobs
      → Claims after j.jobs (claim_found decode loads o j).0
  unfolding claim_found
  found-Claims after j none h = h
  found-Claims after j (some k) h = (h.0.1, h.1)

  -- A claim that finds none means that no open job stands above the cursor; a claimed id is above the
  -- cursor, belongs to an open job, and no open job above the cursor has a lower one.
  pub claim_next-Claims :
      (after : ℕ) (j : Journal B T) → Claims after j.jobs (claim_next decode loads after j).0
  unfolding claim_next
  claim_next-Claims after j =
      found-Claims after j (lowest_open after j.jobs) (lowest_open-Lowest after j.jobs)

module _ {T : Type 0} (Good : Job T → Type 0) (after : ℕ) where
  abbrev pub OpenAnd : Option (Job T) → Type 0
  OpenAnd none = Unit
  OpenAnd (some k) = Good k × (is_open k.status ≡ true)

  prefer-OpenAnd :
      (j : Job T) (o : Option (Job T)) → Good j → OpenAnd o → OpenAnd (prefer after j o)
  unfolding prefer
  prefer-OpenAnd j none g h = elim (Bool-cases (is_open j.status && ltb after j.id)) [
    | inl e ↦ rw e (g, ground arith)
    | inr e ↦ rw e tt
  ]
  prefer-OpenAnd j (some k) g h =
      elim (Bool-cases (is_open j.status && ltb after j.id && leb j.id k.id)) [
        | inl e ↦ rw e (g, ground arith)
        | inr e ↦ rw e h
      ]

  -- What holds of every job holds of the one that is claimed, and that one is open.
  pub lowest_open-OpenAnd : (js : List (Job T)) → All Good js → OpenAnd (lowest_open after js)
  unfolding lowest_open
  lowest_open-OpenAnd [] h = tt
  lowest_open-OpenAnd (j ∷ js) h =
      prefer-OpenAnd j (lowest_open after js) h.0 (lowest_open-OpenAnd js h.1)
