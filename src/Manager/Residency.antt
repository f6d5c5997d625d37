-- ===== src/Manager/Residency.antt =====
-- The cap on residents.
use raggio.Prelude.{
  ℕ, zero, suc, max, ◌≤◌, ◌<◌, String, ◌≡◌, refl, sym, ap, ◌∙◌, subst, true, false, not, ◌⊎◌, inl,
  inr, Option, none, some, List, [], ◌∷◌, ◌++◌, arith, leb, length, length-append, keep, All,
  All-map, All-append, ◌||◌, Bool-cases, if◌then◌else◌,
}
use raggio.Prelude.Keys.{
  ◌=?◌, string_eq, lookup, has-append, keep-Distinct, append-Distinct, Disjoint, has-keep_absent,
}
use raggio.Prelude.Result.{ok, err}
use raggio.Manager.{
  Resident, Manager, key_error, is_idle, victim, evict, make_space, is_resident, use_at, touch,
}
use raggio.Manager.Victim.{
  AllBusy, IsVictim, IsValid, is_busy, victim-IsVictim, victim-IdleAt, evict-busy, length-evict,
}

-- What `make_space` leaves: the residents stay apart, all busy ones are left, and there is room for
-- one more unless nobody who is left is idle.
abbrev pub IsRoomy : ℕ → List Resident → List Resident → Type 0
IsRoomy limit before after =
    IsValid after
    × ((keep is_busy after ≡ keep is_busy before)
        × (((length after < limit) ⊎ AllBusy after)
            × ((k : String) → is_resident k before ≡ false → is_resident k after ≡ false)))

evict-absent :
    (j k : String) (rs : List Resident)
    → is_resident k rs ≡ false
    → is_resident k (evict j rs) ≡ false
unfolding evict is_resident
evict-absent j k rs a = has-keep_absent (λ (r : Resident). r.name) (λ r. not (r.name =? j)) k rs a

-- A round: with the victim evicted, the rounds that follow do the rest.
evict-IsRoomy :
    (limit : ℕ) (rs after : List Resident) (v : Resident)
    → IsValid rs
    → victim rs ≡ some v
    → IsRoomy limit (evict v.name rs) after
    → IsRoomy limit rs after
evict-IsRoomy limit rs after v d e rest = (
  rest.0,
  (
    rest.1.0 ∙ evict-busy v.name rs (victim-IdleAt rs v d e).1,
    (rest.1.1.0, (λ k a. rest.1.1.1 k (evict-absent v.name k rs a))),
  ),
)

make_space-IsRoomy :
    (fuel limit : ℕ) (rs : List Resident)
    → length rs ≤ fuel
    → IsValid rs
    → IsRoomy limit rs (make_space fuel limit rs)
unfolding make_space evict
make_space-IsRoomy zero limit [] h d = (tt, (refl, (inr tt, (λ k a. a))))
make_space-IsRoomy zero limit (r ∷ rs) h d = absurd (omega (arith, h))
make_space-IsRoomy (suc fuel) limit rs h d = elim (Bool-cases (leb limit (length rs))) [
  | inl full ↦
      rw (full, make_space)
        (by_victim (victim rs) refl (λ v. make_space-IsRoomy fuel limit (evict v.name rs)))
  | inr room ↦ rw (room, make_space) (d, (refl, (inl (ground (arith, room)), (λ k a. a))))
]
  where
    by_victim :
        (o : Option Resident)
        → victim rs ≡ o
        → ((v : Resident)
            → length (evict v.name rs) ≤ fuel
            → IsValid (evict v.name rs)
            → IsRoomy limit (evict v.name rs) (make_space fuel limit (evict v.name rs)))
        → IsRoomy limit rs (elim o [ none ↦ rs | some v ↦ make_space fuel limit (evict v.name rs) ])
    by_victim none e ih =
        (d, (refl, (inr (subst (λ o. IsVictim o rs) e (victim-IsVictim rs)), (λ k a. a))))
    by_victim (some v) e ih = evict-IsRoomy limit rs _ v d e (
        ih v (omega (arith, h, length-evict v.name rs (victim-IdleAt rs v d e).0))
          (keep-Distinct (λ (r : Resident). r.name) (λ r. not (r.name =? v.name)) rs d))

-- The busy residents of before are resident after.
abbrev pub KeepsBusy : List Resident → List Resident → Type 0
KeepsBusy before after = All (λ r. is_resident r.name after ≡ true) (keep is_busy before)

All-resident : (rs : List Resident) → All (λ r. is_resident r.name rs ≡ true) rs
unfolding is_resident
All-resident [] = tt
All-resident (r ∷ rs) = (
  ground (arith, string_eq.beq_iff r.name r.name),
  All-map _ _ rs (λ q h. ground (arith, h)) (All-resident rs),
)

keeps_names :
    (before after : List Resident)
    → ((k : String) → is_resident k (keep is_busy before) ≡ true → is_resident k after ≡ true)
    → KeepsBusy before after
keeps_names before after f =
    All-map _ _ (keep is_busy before) (λ r h. f r.name h) (All-resident (keep is_busy before))

-- The cap is kept, unless it was exceeded before or all residents but `name` have open jobs.
abbrev pub IsCapped : String → ℕ → List Resident → List Resident → Type 0
IsCapped name limit before after =
    (length after ≤ max limit (length before))
    ⊎ All (λ r. (r.name =? name ≡ true) ⊎ (is_idle r ≡ false)) after

has-keep :
    (k : String) (rs : List Resident)
    → is_resident k (keep is_busy rs) ≡ true
    → is_resident k rs ≡ true
unfolding is_resident
has-keep k [] h = h
has-keep k (r ∷ rs) h = ground (arith, has-keep k rs)

has-use_at :
    (k name : String) (now : ℕ) (rs : List Resident)
    → is_resident k (use_at name now rs) ≡ is_resident k rs
unfolding is_resident use_at
has-use_at k name now [] = refl
has-use_at k name now (r ∷ rs) = ground (arith, has-use_at k name now rs)

length-use_at :
    (name : String) (now : ℕ) (rs : List Resident) → length (use_at name now rs) ≡ length rs
unfolding use_at
length-use_at name now [] = refl
length-use_at name now (r ∷ rs) = ap suc (length-use_at name now rs)

use_at-IsValid :
    (name : String) (now : ℕ) (rs : List Resident) → IsValid rs → IsValid (use_at name now rs)
unfolding is_resident use_at
use_at-IsValid name now [] d = tt
use_at-IsValid name now (r ∷ rs) d =
    (ground (arith, d.0, has-use_at r.name name now rs), use_at-IsValid name now rs d.1)

absent-Disjoint :
    (r : Resident) (rs : List Resident)
    → is_resident r.name rs ≡ false
    → Disjoint (λ (q : Resident). q.name) rs (r ∷ [])
unfolding is_resident
absent-Disjoint r [] a = tt
absent-Disjoint r (q ∷ rs) a = (
  ground (arith, string_eq.beq_iff r.name q.name, string_eq.beq_iff q.name r.name),
  absent-Disjoint r rs (ground arith),
)

-- What `touch` promises.
abbrev pub IsServed : String → ℕ → List Resident → List Resident → Type 0
IsServed name limit before after =
    (is_resident name after ≡ true)
    × (IsValid after × (KeepsBusy before after × IsCapped name limit before after))

load-IsServed :
    (limit : ℕ) (before space : List Resident) (r : Resident)
    → 1 ≤ limit
    → is_resident r.name before ≡ false
    → IsRoomy limit before space
    → IsServed r.name limit before (space ++ r ∷ [])
unfolding is_resident
load-IsServed limit before space r p a h = (
  is_there,
  (
    append-Distinct (λ (q : Resident). q.name) space (r ∷ []) h.0 (refl, tt)
        (absent-Disjoint r space (h.1.1.1 r.name a)),
    (
      keeps_names before _ (λ k b.
          has-append (λ (q : Resident). q.name) k space (r ∷ [])
          ∙ kept k (has-keep k space (ap (is_resident k) h.1.0 ∙ b))),
      capped h.1.1.0,
    ),
  ),
)
  where
    is_there : is_resident r.name (space ++ r ∷ []) ≡ true
    is_there = ground (
      arith,
      has-append (λ (q : Resident). q.name) r.name space (r ∷ []),
      string_eq.beq_iff r.name r.name,
    )

    kept :
        (k : String)
        → is_resident k space ≡ true
        → (is_resident k space || is_resident k (r ∷ [])) ≡ true
    kept k b = ground arith

    capped : (length space < limit) ⊎ AllBusy space → IsCapped r.name limit before (space ++ r ∷ [])
    capped (inl room) = inl (omega (arith, room, length-append space (r ∷ [])))
    capped (inr busy) = inr (
        All-append _ space (r ∷ []) (All-map _ _ space (λ q b. inr b) busy)
          (inl (ground (arith, string_eq.beq_iff r.name r.name)), tt))

module _ {C : Type 0} where
  touch_outcome :
      (name : String) (now unfinished : ℕ) (m n : Manager C)
      → touch name now unfinished m ≡ ok n
      → ((is_resident name m.resident ≡ true) × (n.resident ≡ use_at name now m.resident))
        ⊎ ((is_resident name m.resident ≡ false)
            × (n.resident
                ≡ make_space (length m.resident) m.max_resident m.resident
                  ++ record { name = name; last_used = now; pending_jobs = unfinished } ∷ []))
  unfolding touch is_resident use_at
  touch_outcome name now unfinished m n e = loaded (lookup name m.catalog) e
    where
      loaded :
          (o : Option C)
          → (if is_resident name m.resident
              then ok (record m { resident = use_at name now m.resident })
              else elim o [
                | none ↦ err (key_error name)
                | some cfg ↦ ok (record m {
                  resident =
                      make_space (length m.resident) m.max_resident m.resident
                      ++ record { name = name; last_used = now; pending_jobs = unfinished } ∷ [];
                })
              ])
            ≡ ok n
          → ((is_resident name m.resident ≡ true) × (n.resident ≡ use_at name now m.resident))
            ⊎ ((is_resident name m.resident ≡ false)
                × (n.resident
                    ≡ make_space (length m.resident) m.max_resident m.resident
                      ++ record { name = name; last_used = now; pending_jobs = unfinished } ∷ []))
      loaded none h = ground arith
      loaded (some cfg) h = ground arith

  -- After a `touch` that succeeds the collection is resident, residents are still named apart, every
  -- resident that had open jobs is still there, and the cap is kept, unless it was exceeded before
  -- or all the other residents have open jobs. Residents were named apart, and the cap is at least one.
  pub touch-IsServed :
      (name : String) (now unfinished : ℕ) (m n : Manager C)
      → 1 ≤ m.max_resident
      → IsValid m.resident
      → touch name now unfinished m ≡ ok n
      → IsServed name m.max_resident m.resident n.resident
  touch-IsServed name now unfinished m n p d e = elim (touch_outcome name now unfinished m n e) [
    | inl (there, q) ↦ subst (IsServed name m.max_resident m.resident) (sym q) (
      has-use_at name name now m.resident ∙ there,
      (
        use_at-IsValid name now m.resident d,
        (
          keeps_names m.resident _
              (λ k h. has-use_at k name now m.resident ∙ has-keep k m.resident h),
          inl (omega (arith, length-use_at name now m.resident)),
        ),
      ),
    )
    | inr (absent, q) ↦ subst (IsServed name m.max_resident m.resident) (sym q) (
        load-IsServed m.max_resident m.resident _ _ p absent
          (make_space-IsRoomy (length m.resident) m.max_resident m.resident (omega arith) d))
  ]
