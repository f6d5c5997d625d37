-- ===== src/Ivf/Cache.antt =====
-- The cache of a shard's ids under writes and probes that interleave.
use raggio.Prelude.{
  ℕ, ◌+◌, ◌≤◌, ◌<◌, ◌≡◌, refl, sym, ap, subst, Bool, true, false, ◌⊎◌, inl, inr, Option, none, some,
  List, arith, ◌==◌, Bool-cases,
}
use raggio.Collection.{VectorIndex}
use raggio.Ivf.{Shard, shard_written, store_ids}

module _ {V : Type 0} (vi : VectorIndex V) where
  open vi use {Index, all_ids}

  -- A reader that found no cached ids: it has read the generation, then the ids too.
  pub data Probe : Type 0 where
    no_probe : Probe
    has_gen : ℕ → Probe
    has_ids : ℕ → List ℕ → Probe

  -- A shard, one reader, and whether a write has changed the shard and not yet called
  -- `_shard_written`. Writes exclude one another.
  pub record Race : Type 0 where
    pub shard : Shard Index
    pub reader : Probe
    pub writing : Bool

  pub data Step (r : Race) : Race → Type 0 where
    modifies :
        (i : Index)
        → r.writing ≡ false
        → Step r (record r { shard = record r.shard { memory = i }; writing = true })
    writes : r.writing ≡ true → Step r (record r { shard = shard_written r.shard; writing = false })
    reads_gen : Step r (record r { reader = has_gen r.shard.gen })
    reads_ids :
        (g : ℕ)
        → r.reader ≡ has_gen g
        → Step r (record r { reader = has_ids g (all_ids r.shard.memory) })
    stores :
        (g : ℕ) (ids : List ℕ)
        → r.reader ≡ has_ids g ids
        → Step r (record r { shard = store_ids vi (g, ids) r.shard; reader = no_probe })

  -- From a shard that has just been loaded.
  pub data Reach : Race → Type 0 where
    here :
        (s : Shard Index)
        → s.id_cache ≡ none
        → Reach (record { shard = s; reader = no_probe; writing = false })
    next : {r r' : Race} → Reach r → Step r r' → Reach r'

  abbrev pub CacheIs : List ℕ → Option (List ℕ) → Type 0
  CacheIs ids none = Unit
  CacheIs ids (some c) = c ≡ ids

  -- A probe of the current generation has the current ids.
  abbrev IsCurrent : ℕ → List ℕ → Probe → Type 0
  IsCurrent gen ids no_probe = Unit
  IsCurrent gen ids (has_gen g) = g ≤ gen
  IsCurrent gen ids (has_ids g c) = (g < gen) ⊎ ((g ≡ gen) × (c ≡ ids))

  -- No probe is ahead of the generation.
  abbrev IsPast : ℕ → Probe → Type 0
  IsPast gen no_probe = Unit
  IsPast gen (has_gen g) = g ≤ gen
  IsPast gen (has_ids g c) = g ≤ gen

  abbrev IsValid : Race → Type 0
  IsValid r =
      ((r.writing ≡ true) × IsPast r.shard.gen r.reader)
      ⊎ ((r.writing ≡ false)
          × (CacheIs (all_ids r.shard.memory) r.shard.id_cache
              × IsCurrent r.shard.gen (all_ids r.shard.memory) r.reader))

  current-IsPast : (gen : ℕ) (ids : List ℕ) (o : Probe) → IsCurrent gen ids o → IsPast gen o
  current-IsPast gen ids no_probe h = tt
  current-IsPast gen ids (has_gen g) h = h
  current-IsPast gen ids (has_ids g c) h = ground (arith, h)

  past-IsCurrent : (gen : ℕ) (ids : List ℕ) (o : Probe) → IsPast gen o → IsCurrent (gen + 1) ids o
  past-IsCurrent gen ids no_probe h = tt
  past-IsCurrent gen ids (has_gen g) h = omega (arith, h)
  past-IsCurrent gen ids (has_ids g c) h = inl (omega (arith, h))

  Step-IsValid : {r r' : Race} → Step r r' → IsValid r → IsValid r'
  unfolding shard_written store_ids
  Step-IsValid {r} (modifies i e) (inl (w, p)) = absurd (cc (w, e))
  Step-IsValid {r} (modifies i e) (inr (w, (c, p))) = inl (refl, current-IsPast _ _ r.reader p)
  Step-IsValid {r} (writes e) (inl (w, p)) = inr (refl, (tt, past-IsCurrent _ _ r.reader p))
  Step-IsValid {r} (writes e) (inr (w, h)) = absurd (cc (w, e))
  Step-IsValid {r} reads_gen (inl (w, p)) = inl (w, omega arith)
  Step-IsValid {r} reads_gen (inr (w, (c, p))) = inr (w, (c, omega arith))
  Step-IsValid {r} (reads_ids g e) (inl (w, p)) = inl (w, subst (IsPast r.shard.gen) e p)
  Step-IsValid {r} (reads_ids g e) (inr (w, (c, p))) =
      inr (w, (c, with_ids (subst (IsCurrent r.shard.gen (all_ids r.shard.memory)) e p)))
    where
      with_ids :
          g ≤ r.shard.gen
          → (g < r.shard.gen)
            ⊎ ((g ≡ r.shard.gen) × (all_ids r.shard.memory ≡ all_ids r.shard.memory))
      with_ids h = ground (arith, h)
  Step-IsValid {r} (stores g ids e) (inl (w, p)) = inl (w, tt)
  Step-IsValid {r} (stores g ids e) (inr (w, (c, p))) =
      stored (Bool-cases (g == r.shard.gen))
        (subst (IsCurrent r.shard.gen (all_ids r.shard.memory)) e p)
    where
      stored :
          (g == r.shard.gen ≡ true) ⊎ (g == r.shard.gen ≡ false)
          → (g < r.shard.gen) ⊎ ((g ≡ r.shard.gen) × (ids ≡ all_ids r.shard.memory))
          → IsValid (record r { shard = store_ids vi (g, ids) r.shard; reader = no_probe })
      stored (inl q) (inl l) = absurd (ground arith)
      stored (inl q) (inr h) = rw q (inr (w, (h.1, tt)))
      stored (inr q) h = rw q (inr (w, (c, tt)))

  Reach-IsValid : {r : Race} → Reach r → IsValid r
  Reach-IsValid (here s e) = inr (refl, (subst (CacheIs (all_ids s.memory)) (sym e) tt, tt))
  Reach-IsValid (next r s) = Step-IsValid s (Reach-IsValid r)

  -- However writes and probes interleave, whenever no write is under way the cached ids of a shard, if
  -- any, are the ids that it holds.
  pub cached_ids_current :
      {r : Race}
      → Reach r
      → r.writing ≡ false
      → (r.shard.id_cache ≡ none) ⊎ (r.shard.id_cache ≡ some (all_ids r.shard.memory))
  cached_ids_current {r} h e = elim (Reach-IsValid h) [
    | inl (w, p) ↦ absurd (cc (w, e))
    | inr (w, (c, p)) ↦ cached r.shard.id_cache c
  ]
    where
      cached :
          (o : Option (List ℕ))
          → CacheIs (all_ids r.shard.memory) o
          → (o ≡ none) ⊎ (o ≡ some (all_ids r.shard.memory))
      cached none c = inl refl
      cached (some ids) c = inr (ap some c)
