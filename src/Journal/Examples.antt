-- ===== src/Journal/Examples.antt =====
-- A journal with a done job, a claimed one and a pending one.
use raggio.Prelude.{ℕ, none, some, [], ◌∷◌}
use raggio.Journal.{Journal, pending, processing, done, claim_next}
use raggio.Journal.Claims.{Claims, claim_next-Claims}

abbrev journal : Journal ℕ ℕ
journal = record {
  jobs =
      record { id = 3; status = pending; error_text = none; payload = none }
      ∷ record { id = 1; status = done; error_text = none; payload = none }
      ∷ record { id = 2; status = processing; error_text = none; payload = none }
      ∷ [];
  payloads = (2, some 7) ∷ (3, some 8) ∷ [];
}

claim_next-Claims_example :
    Claims {B = ℕ} some some 0 journal.jobs (claim_next some some 0 journal).0
claim_next-Claims_example = claim_next-Claims some some 0 journal
