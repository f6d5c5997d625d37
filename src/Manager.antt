-- ===== src/Manager.antt =====
-- Residency of collections: `touch`, `_evict`, `_register`, the pass of `housekeeping` and
-- `delete_collection` of `CollectionManager`, src/raggio/store.py.
--
-- A resident collection is its name, when it was last used, and its open jobs. The waits inside
-- `_load_lock` are taken as one step: other requests of that time find their collection resident or
-- queue on the lock.
pub mod Victim
pub mod Residency
mod Examples
use raggio.Prelude.{
  ℕ, zero, suc, ◌+◌, ◌≤◌, String, Bool, true, false, not, ◌&&◌, Option, none, some, List, [], ◌∷◌,
  ◌++◌, ltb, leb, ◌==◌, length, keep, map, if◌then◌else◌,
}
use raggio.Prelude.Keys.{Eq, ◌=?◌, string_eq, lookup, remove, has}
use raggio.Prelude.Result.{Result, ok, err}

pub record Resident : Type 0 where
  pub name : String
  pub last_used : ℕ
  pub pending_jobs : ℕ

-- The catalog keeps a configuration `C` for each name.
pub record Manager (C : Type 0) : Type 0 where
  pub resident : List Resident
  pub catalog : List (String × C)
  pub max_resident : ℕ

pub data TouchError : Type 0 where
  key_error : String → TouchError

abbrev pub is_idle : Resident → Bool
is_idle r = r.pending_jobs == 0

-- `sorted((v for v in ... if v.pending_jobs() == 0), key=last_used)[0]`: the first of the least.
pub older_of : Resident → Option Resident → Option Resident
older_of r none = some r
older_of r (some q) = if leb r.last_used q.last_used then some r else some q

pub victim : List Resident → Option Resident
unfolding older_of
victim [] = none
victim (r ∷ rs) = let rest = victim rs in if is_idle r then older_of r rest else rest

-- `self.resident.pop(name, None)`
pub evict : String → List Resident → List Resident
evict name rs = keep (λ r. not (r.name =? name)) rs

-- The `while` of `touch`; a round evicts one, so the residents are fuel enough.
pub make_space : ℕ → ℕ → List Resident → List Resident
unfolding victim evict
make_space zero limit rs = rs
make_space (suc fuel) limit rs = elim (leb limit (length rs)) [
  | false ↦ rs
  | true ↦ elim (victim rs) [ none ↦ rs | some v ↦ make_space fuel limit (evict v.name rs) ]
]

pub is_resident : String → List Resident → Bool
is_resident name rs = has (λ (r : Resident). r.name) name rs

-- `c.last_used = time.monotonic()`
pub use_at : String → ℕ → List Resident → List Resident
use_at name now rs = map (λ r. if r.name =? name then record r { last_used = now } else r) rs

module _ {C : Type 0} where
  -- `open` is the number of unfinished jobs that the loaded collection finds in its journal.
  pub touch : String → ℕ → ℕ → Manager C → Result TouchError (Manager C)
  unfolding make_space is_resident use_at lookup
  touch name now unfinished m =
      if is_resident name m.resident
      then ok (record m { resident = use_at name now m.resident })
      else elim (lookup name m.catalog) [
        | none ↦ err (key_error name)
        | some cfg ↦
            let space = make_space (length m.resident) m.max_resident m.resident in
            ok (record m {
              resident =
                  space ++ record { name = name; last_used = now; pending_jobs = unfinished } ∷ [];
            })
      ]

  -- One pass of `housekeeping`: the idle residents whose last use lies before the cutoff go.
  pub housekeep : ℕ → Manager C → Manager C
  housekeep cutoff m = record m {
    resident = keep (λ r. not (ltb r.last_used cutoff && is_idle r)) m.resident;
  }

  pub delete_collection : String → Manager C → Manager C
  unfolding evict remove
  delete_collection name m = record m {
    resident = evict name m.resident;
    catalog = remove name m.catalog;
  }
