-- ===== src/Manager/Examples.antt =====
-- Two residents fill the cap, one of them with an open job; a third collection is touched.
use raggio.Prelude.{ℕ, ◌≡◌, refl, [], ◌∷◌, arith}
use raggio.Prelude.Keys.{string_eq}
use raggio.Prelude.Result.{ok}
use raggio.Manager.{Resident, Manager, touch}
use raggio.Manager.Residency.{IsServed, touch-IsServed}

abbrev ingesting : Resident
ingesting = record { name = "a"; last_used = 1; pending_jobs = 3 }

abbrev idle : Resident
idle = record { name = "b"; last_used = 2; pending_jobs = 0 }

abbrev loaded : Resident
loaded = record { name = "c"; last_used = 9; pending_jobs = 0 }

abbrev full : Manager ℕ
full = record {
  resident = ingesting ∷ idle ∷ [];
  catalog = ("a", 0) ∷ ("b", 0) ∷ ("c", 0) ∷ [];
  max_resident = 2;
}

abbrev after_touch : Manager ℕ
after_touch = record full { resident = ingesting ∷ loaded ∷ [] }

touched : touch "c" 9 0 full ≡ ok after_touch
unfolding touch
touched = refl

touch-IsServed_example : IsServed "c" 2 full.resident after_touch.resident
touch-IsServed_example =
    touch-IsServed "c" 9 0 full after_touch (omega arith) (refl, (refl, tt)) touched
