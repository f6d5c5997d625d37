-- ===== src/Settings/Checks.antt =====
-- What settings that load can be relied on for.
use text.Mathlib.Text.{◌==◌ as str_eq}
use text.Mathlib.TextEquality.{eq_iff}
use raggio.Prelude.{
  ℕ, zero, suc, ◌≡◌, ◌≤◌, refl, String, Bool, true, false, ◌||◌, ◌⊎◌, inl, inr, Option, none, some,
  arith, min, ◌==◌, Bool-cases,
}
use raggio.Prelude.Result.{ok}
use raggio.Rows.{ℤ, pos}
use raggio.Settings.{Settings, is_positive, default_ivf_search_threads, threads_or_default, load}

-- The scorer is one of two, and the numbers that the worker and the shard pool use are in range.
pub record IsUsable {F : Type 0} (nonneg : F → Bool) (s : Settings F) : Type 0 where
  pub scorer : (s.native_bm25 ≡ "auto") ⊎ (s.native_bm25 ≡ "0")
  pub threads : is_positive s.ivf_search_threads ≡ true
  pub batch_jobs : is_positive s.sync_batch_jobs ≡ true
  pub batch_ms : nonneg s.sync_batch_ms ≡ true

suc_not_zero : (n : ℕ) → suc n == 0 ≡ false
suc_not_zero n = ground arith

capped : (n : ℕ) → is_positive (pos (min 12 (suc n))) ≡ true
capped n = by_value (min 12 (suc n)) (omega arith)
  where
    by_value : (m : ℕ) → 1 ≤ m → is_positive (pos m) ≡ true
    by_value zero h = absurd (omega (arith, h))
    by_value (suc m) h = refl

default-positive : (cpu : Option ℕ) → is_positive (default_ivf_search_threads cpu) ≡ true
unfolding default_ivf_search_threads
default-positive none = refl
default-positive (some zero) = refl
default-positive (some (suc n)) = rw (suc_not_zero n) (capped n)

either_text : (a b c : String) → (str_eq a b || str_eq a c) ≡ true → (a ≡ b) ⊎ (a ≡ c)
either_text a b c h = ground (arith, eq_iff a b, eq_iff a c)

module _ {F : Type 0} (int_of : String → Option ℤ) (float_of : String → Option F)
    (nonneg : F → Bool) (cpu_count : Option ℕ) (env : String → Option String) where
  threads-positive :
      (n : ℤ) → is_positive (threads_or_default int_of float_of nonneg cpu_count env n) ≡ true
  unfolding threads_or_default
  threads-positive n = elim (Bool-cases (is_positive n)) [
    | inl e ↦ rw e e
    | inr e ↦ rw e (default-positive cpu_count)
  ]

  -- Settings that load name one of the two scorers, and have at least one search thread, at least one
  -- job per batch, and a batch time for which the test `>= 0` holds.
  pub load-IsUsable :
      {s : Settings F} → load int_of float_of nonneg cpu_count env ≡ ok s → IsUsable nonneg s
  unfolding load
  load-IsUsable h = record {
    scorer = either_text _ _ _ (ground (arith, h));
    threads = grind (arith, threads-positive, h);
    batch_jobs = ground (arith, h);
    batch_ms = ground (arith, h);
  }
