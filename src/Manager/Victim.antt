-- ===== src/Manager/Victim.antt =====
-- Who is evicted.
use raggio.Prelude.{
  ◌≤◌, ◌<◌, String, ◌≡◌, refl, ap, subst, Bool, true, false, not, ◌⊎◌, inl, inr, Option, none, some,
  List, [], ◌∷◌, arith, leb, length, length-keep, keep, All, All-map, Bool-cases, if◌then◌else◌,
}
use raggio.Prelude.Keys.{◌=?◌, string_eq, Distinct}
use raggio.Manager.{Resident, is_idle, older_of, victim, evict, is_resident}

-- No resident is idle.
abbrev pub AllBusy : List Resident → Type 0
AllBusy rs = All (λ r. is_idle r ≡ false) rs

-- The victim is idle and no idle resident was used before it; without one, all are busy.
abbrev pub IsVictim : Option Resident → List Resident → Type 0
IsVictim none rs = AllBusy rs
IsVictim (some v) rs =
    (is_idle v ≡ true) × All (λ r. is_idle r ≡ true → v.last_used ≤ r.last_used) rs

pub victim-IsVictim : (rs : List Resident) → IsVictim (victim rs) rs
unfolding victim older_of
victim-IsVictim [] = tt
victim-IsVictim (r ∷ rs) = add (victim rs) (victim-IsVictim rs)
  where
    add :
        (o : Option Resident)
        → IsVictim o rs
        → IsVictim (if is_idle r then older_of r o else o) (r ∷ rs)
    add none h = elim (Bool-cases (is_idle r)) [
      | inl e ↦ rw e (e, ((λ _. omega arith), All-map _ _ rs (λ q b i. absurd (cc (b, i))) h))
      | inr e ↦ rw e (e, h)
    ]
    add (some v) h = elim (Bool-cases (is_idle r)) [
      | inl e ↦ rw e (pick e (Bool-cases (leb r.last_used v.last_used)))
      | inr e ↦ rw e (h.0, ((λ i. absurd (cc (e, i))), h.1))
    ]
      where
        pick :
            is_idle r ≡ true
            → (leb r.last_used v.last_used ≡ true) ⊎ (leb r.last_used v.last_used ≡ false)
            → IsVictim (older_of r (some v)) (r ∷ rs)
        pick e (inl b) =
            rw b (e, ((λ _. omega arith), All-map _ _ rs (λ q g i. ground (arith, b, g i)) (h.1)))
        pick e (inr b) = rw b (h.0, ((λ _. above b), h.1))
          where
            above : leb r.last_used v.last_used ≡ false → v.last_used ≤ r.last_used
            above c = ground arith

-- Residents are named apart.
abbrev pub IsValid : List Resident → Type 0
IsValid rs = Distinct (λ (r : Resident). r.name) rs

abbrev pub is_busy : Resident → Bool
is_busy r = not (is_idle r)

-- Every resident of that name is idle.
abbrev pub IdleAt : String → List Resident → Type 0
IdleAt name rs = All (λ r. r.name =? name ≡ true → is_idle r ≡ true) rs

absent-IdleAt : (k : String) (rs : List Resident) → is_resident k rs ≡ false → IdleAt k rs
unfolding is_resident
absent-IdleAt k [] h = tt
absent-IdleAt k (r ∷ rs) h = ((λ e. ground arith), absent-IdleAt k rs (ground arith))

picked :
    (r : Resident) (o : Option Resident) (v : Resident)
    → (if is_idle r then older_of r o else o) ≡ some v
    → ((is_idle r ≡ true) × (r ≡ v)) ⊎ (o ≡ some v)
unfolding older_of
picked r none v e = ground arith
picked r (some q) v e = ground arith

-- The victim is one of the residents, and with names apart the only one of its name.
pub victim-IdleAt :
    (rs : List Resident) (v : Resident)
    → IsValid rs
    → victim rs ≡ some v
    → (is_resident v.name rs ≡ true) × IdleAt v.name rs
unfolding victim older_of is_resident
victim-IdleAt [] v d e = cc
victim-IdleAt (r ∷ rs) v d e = elim (picked r (victim rs) v e) [
  | inl p ↦ own p.0 p.1
  | inr p ↦ other (victim-IdleAt rs v d.1 p)
]
  where
    Goal : Resident → Type 0
    Goal u = (is_resident u.name (r ∷ rs) ≡ true) × IdleAt u.name (r ∷ rs)

    own : is_idle r ≡ true → r ≡ v → Goal v
    own i q =
        subst Goal q
          (ground (arith, string_eq.beq_iff r.name r.name), ((λ _. i), absent-IdleAt r.name rs d.0))

    other : (is_resident v.name rs ≡ true) × IdleAt v.name rs → Goal v
    other h = (ground (arith, h.0), ((λ n. absurd (apart n)), h.1))
      where
        apart : r.name =? v.name ≡ true → ⊥
        apart n = cc (h.0, d.0, ap (λ k. is_resident k rs) ((string_eq.beq_iff r.name v.name).0 n))

pub evict-busy :
    (k : String) (rs : List Resident) → IdleAt k rs → keep is_busy (evict k rs) ≡ keep is_busy rs
unfolding evict
evict-busy k [] h = refl
evict-busy k (r ∷ rs) h = ground (arith, h.0, evict-busy k rs h.1)

pub length-evict :
    (k : String) (rs : List Resident) → is_resident k rs ≡ true → length (evict k rs) < length rs
unfolding evict is_resident
length-evict k [] h = cc
length-evict k (r ∷ rs) h =
    ground (arith, length-evict k rs, length-keep (λ (q : Resident). not (q.name =? k)) rs)
