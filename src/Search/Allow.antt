-- ===== src/Search/Allow.antt =====
-- The cache of allowlists: `_allow_cache` with `_allow_gen` in `_vector_ids`, and `_invalidate_allow`.
--
-- A key stands for a scope and a filter, `T` for what SQLite has committed, and `select` for the
-- SELECT of a key, its ids sorted. Threads are a step relation: a thread that missed the cache reads the
-- generation, then the ids, and then stores them under `_allow_lock`.
use Prim.Native.String.{String}
use raggio.Prelude.{
  ℕ, ◌+◌, ◌-◌, ◌≤◌, ◌<◌, ◌≡◌, sym, subst, ◌⊎◌, inl, inr, some, List, [], ◌∷◌, ◌++◌, leb, length,
  drop, arith, All, All-append, All-map, length-drop, ◌==◌, if◌then◌else◌, Bool-cases,
}
use raggio.Prelude.Keys.{string_eq, lookup, insert}

pub record Allowlists : Type 0 where
  pub cache : List (String × List ℕ)
  pub gen : ℕ

pub invalidate_allow : Allowlists → Allowlists
invalidate_allow a = record { cache = []; gen = a.gen + 1 }

abbrev pub allow_cache_size : ℕ
allow_cache_size = 8

-- An entry of the generation `gen` goes in, and the oldest one out where the cache is full.
unfoldable pub store_allow : ℕ → String → List ℕ → Allowlists → Allowlists
unfolding insert
store_allow gen key ids a =
    if gen == a.gen
    then record a {
      cache =
          insert key ids
            (if leb allow_cache_size (length a.cache) then drop 1 a.cache else a.cache);
    }
    else a

-- A thread that missed the cache for a key.
pub data Fetch : Type 0 where
  has_gen : String → ℕ → Fetch
  has_ids : String → ℕ → List ℕ → Fetch

pub record Traffic (T : Type 0) : Type 0 where
  pub table : T
  pub lists : Allowlists
  pub fetches : List Fetch
  -- Writes that have committed and not yet called `_invalidate_allow`.
  pub uncleared : ℕ

module _ {T : Type 0} (select : T → String → List ℕ) where
  pub data Step (r : Traffic T) : Traffic T → Type 0 where
    commits : (t : T) → Step r (record r { table = t; uncleared = r.uncleared + 1 })
    invalidates :
        0 < r.uncleared
        → Step r (record r { lists = invalidate_allow r.lists; uncleared = r.uncleared - 1 })
    misses : (key : String) → Step r (record r { fetches = has_gen key r.lists.gen ∷ r.fetches })
    reads_ids :
        (fs : List Fetch) (key : String) (g : ℕ) (hs : List Fetch)
        → r.fetches ≡ fs ++ has_gen key g ∷ hs
        → Step r (record r { fetches = fs ++ has_ids key g (select r.table key) ∷ hs })
    stores :
        (fs : List Fetch) (key : String) (g : ℕ) (ids : List ℕ) (hs : List Fetch)
        → r.fetches ≡ fs ++ has_ids key g ids ∷ hs
        → Step r (record r { lists = store_allow g key ids r.lists; fetches = fs ++ hs })

  -- From a collection just opened.
  pub data Reach : Traffic T → Type 0 where
    here :
        (t : T)
        → Reach (record {
          table = t;
          lists = record { cache = []; gen = 0 };
          fetches = [];
          uncleared = 0;
        })
    next : {r r' : Traffic T} → Reach r → Step r r' → Reach r'

  abbrev IsSelected : T → String × List ℕ → Type 0
  IsSelected t e = e.1 ≡ select t e.0

  abbrev IsPast : ℕ → Fetch → Type 0
  IsPast gen (has_gen key g) = g ≤ gen
  IsPast gen (has_ids key g ids) = g ≤ gen

  abbrev IsCurrent : T → ℕ → Fetch → Type 0
  IsCurrent t gen (has_gen key g) = g ≤ gen
  IsCurrent t gen (has_ids key g ids) = (g < gen) ⊎ ((g ≡ gen) × (ids ≡ select t key))

  -- What holds while no committed write waits for its `_invalidate_allow`.
  abbrev IsClear : Traffic T → Type 0
  IsClear r = All (IsSelected r.table) r.lists.cache × All (IsCurrent r.table r.lists.gen) r.fetches

  abbrev IsValid : Traffic T → Type 0
  IsValid r =
      (length r.lists.cache ≤ allow_cache_size)
      × (All (IsPast r.lists.gen) r.fetches × ((r.uncleared ≡ 0 → IsClear r)))

  current-IsPast : (t : T) (gen : ℕ) (f : Fetch) → IsCurrent t gen f → IsPast gen f
  current-IsPast t gen (has_gen key g) h = h
  current-IsPast t gen (has_ids key g ids) h = ground (arith, h)

  past-IsCurrent : (t : T) (gen : ℕ) (f : Fetch) → IsPast gen f → IsCurrent t (gen + 1) f
  past-IsCurrent t gen (has_gen key g) h = omega (arith, h)
  past-IsCurrent t gen (has_ids key g ids) h = inl (omega (arith, h))

  IsPast-next : (gen : ℕ) (f : Fetch) → IsPast gen f → IsPast (gen + 1) f
  IsPast-next gen (has_gen key g) h = omega (arith, h)
  IsPast-next gen (has_ids key g ids) h = omega (arith, h)

  insert-All :
      (P : String × List ℕ → Type 0) (k : String) (v : List ℕ) (m : List (String × List ℕ))
      → P (k, v)
      → All P m
      → All P (insert k v m)
  unfolding insert
  insert-All P k v [] p h = (p, tt)
  insert-All P k v ((j, w) ∷ m) p h = elim (Bool-cases (string_eq.beq j k)) [
    | inl e ↦ rw e (subst (λ x. P (x, v)) (sym ((string_eq.beq_iff j k).0 e)) p, h.1)
    | inr e ↦ rw e (h.0, insert-All P k v m p h.1)
  ]

  length-insert :
      (k : String) (v : List ℕ) (m : List (String × List ℕ)) → length (insert k v m) ≤ length m + 1
  unfolding insert
  length-insert k v [] = omega arith
  length-insert k v ((j, w) ∷ m) = ground (arith, length-insert k v m)

  drop_one-All :
      (P : String × List ℕ → Type 0) (m : List (String × List ℕ)) → All P m → All P (drop 1 m)
  drop_one-All P [] h = tt
  drop_one-All P (e ∷ m) h = h.1

  All-middle :
      (P : Fetch → Type 0) (fs : List Fetch) (f : Fetch) (hs : List Fetch)
      → All P (fs ++ f ∷ hs)
      → All P fs × P f × All P hs
  All-middle P [] f hs h = (tt, h.0, h.1)
  All-middle P (e ∷ fs) f hs h = let (a, b, c) = All-middle P fs f hs h.1 in ((h.0, a), b, c)

  -- The member of a list in the middle is replaced by one that has the property.
  All-replace :
      (P : Fetch → Type 0) (fs : List Fetch) {f : Fetch} (f' : Fetch) (hs : List Fetch)
      → (P f → P f')
      → All P (fs ++ f ∷ hs)
      → All P (fs ++ f' ∷ hs)
  All-replace P fs {f} f' hs g h =
      let (a, b, c) = All-middle P fs f hs h in All-append P fs (f' ∷ hs) a (g b, c)

  All-drop :
      (P : Fetch → Type 0) (fs : List Fetch) (f : Fetch) (hs : List Fetch)
      → All P (fs ++ f ∷ hs)
      → All P (fs ++ hs)
  All-drop P fs f hs h = let (a, b, c) = All-middle P fs f hs h in All-append P fs hs a c

  store_allow-bounded :
      (g : ℕ) (key : String) (ids : List ℕ) (a : Allowlists)
      → length a.cache ≤ allow_cache_size
      → length (store_allow g key ids a).cache ≤ allow_cache_size
  unfolding store_allow
  store_allow-bounded g key ids a h = ground (
    arith,
    length-insert key ids (drop 1 a.cache),
    length-insert key ids a.cache,
    length-drop 1 a.cache,
  )

  store_allow-gen :
      (g : ℕ) (key : String) (ids : List ℕ) (a : Allowlists) → (store_allow g key ids a).gen ≡ a.gen
  unfolding store_allow
  store_allow-gen g key ids a = ground arith

  store_allow-IsSelected :
      (t : T) (g : ℕ) (key : String) (ids : List ℕ) (a : Allowlists)
      → IsCurrent t a.gen (has_ids key g ids)
      → All (IsSelected t) a.cache
      → All (IsSelected t) (store_allow g key ids a).cache
  unfolding store_allow
  store_allow-IsSelected t g key ids a c h = elim (Bool-cases (g == a.gen)) [
    | inr e ↦ rw e h
    | inl e ↦
        let now : ids ≡ select t key = ground (arith, c, e) in
        rw e (
          insert-All (IsSelected t) key ids
            (if leb allow_cache_size (length a.cache) then drop 1 a.cache else a.cache) now
            (elim (Bool-cases (leb allow_cache_size (length a.cache))) [
              | inl f ↦ rw f (drop_one-All (IsSelected t) a.cache h)
              | inr f ↦ rw f h
            ]))
  ]

  Step-IsValid : {r r' : Traffic T} → Step r r' → IsValid r → IsValid r'
  unfolding invalidate_allow
  Step-IsValid {r} (commits t) (b, (p, c)) = (b, (p, λ e. absurd (omega (arith, e))))
  Step-IsValid {r} (invalidates h) (b, (p, c)) = (
    omega arith,
    (
      All-map (IsPast r.lists.gen) (IsPast (r.lists.gen + 1)) r.fetches (IsPast-next r.lists.gen) p,
      λ e. (
        tt,
        All-map (IsPast r.lists.gen) (IsCurrent r.table (r.lists.gen + 1)) r.fetches
            (past-IsCurrent r.table r.lists.gen) p,
      ),
    ),
  )
  Step-IsValid {r} (misses key) (b, (p, c)) =
      (b, ((omega arith, p), λ e. ((c e).0, (omega arith, (c e).1))))
  Step-IsValid {r} (reads_ids fs key g hs q) (b, (p, c)) = (
    b,
    (
      All-replace (IsPast r.lists.gen) fs _ hs (λ h. h) (rw q at p),
      λ e. (
        (c e).0,
        All-replace (IsCurrent r.table r.lists.gen) fs _ hs (λ h. ground (arith, h))
            (rw q at (c e).1),
      ),
    ),
  )
  Step-IsValid {r} (stores fs key g ids hs q) (b, (p, c)) = (
    store_allow-bounded g key ids r.lists b,
    (
      rw (store_allow-gen g key ids r.lists) (All-drop (IsPast r.lists.gen) fs _ hs (rw q at p)),
      λ e.
          let now : All (IsCurrent r.table r.lists.gen) (fs ++ has_ids key g ids ∷ hs) =
            subst (All (IsCurrent r.table r.lists.gen)) q (c e).1 in
          (
            store_allow-IsSelected r.table g key ids r.lists
                (All-middle (IsCurrent r.table r.lists.gen) fs _ hs now).1 (c e).0,
            rw (store_allow-gen g key ids r.lists)
                (All-drop (IsCurrent r.table r.lists.gen) fs _ hs now),
          ),
    ),
  )

  Reach-IsValid : {r : Traffic T} → Reach r → IsValid r
  Reach-IsValid (here t) = (omega arith, (tt, λ e. (tt, tt)))
  Reach-IsValid (next r s) = Step-IsValid s (Reach-IsValid r)

  lookup-All :
      (t : T) (k : String) (m : List (String × List ℕ)) {ids : List ℕ}
      → All (IsSelected t) m
      → lookup k m ≡ some ids
      → ids ≡ select t k
  unfolding lookup
  lookup-All t k [] h e = cc
  lookup-All t k ((j, w) ∷ m) h e = elim (Bool-cases (string_eq.beq j k)) [
    | inl f ↦ cc (rw f at e, h.0, (string_eq.beq_iff j k).0 f)
    | inr f ↦ lookup-All t k m h.1 (rw f at e)
  ]

  -- However commits, searches and `_invalidate_allow` interleave, the cache holds at most eight lists, and
  -- while no commit waits for its `_invalidate_allow`, a cached list is what the SELECT of its key gives.
  pub allow_cache_current :
      {r : Traffic T}
      → Reach r
      → (length r.lists.cache ≤ allow_cache_size)
        × ((key : String) (ids : List ℕ)
            → r.uncleared ≡ 0
            → lookup key r.lists.cache ≡ some ids
            → ids ≡ select r.table key)
  allow_cache_current {r} h =
      let (b, (p, c)) = Reach-IsValid h in
      (b, λ key ids e f. lookup-All r.table key r.lists.cache (c e).0 f)
