-- ===== src/Settings.antt =====
-- `Settings` and `default_ivf_search_threads` of src/raggio/config.py.
--
-- The environment, `int()` and `float()` of a text, the floats with their test `>= 0`, and the number
-- of processors are parameters.
pub mod Checks
mod Examples
use text.Mathlib.Text.{◌==◌ as str_eq}
use raggio.Prelude.{
  ℕ, zero, suc, String, Bool, true, false, not, ◌||◌, Option, none, some, min, ◌==◌, if◌then◌else◌,
}
use raggio.Prelude.Result.{Result, ok, err, ◌>>=◌}
use raggio.Rows.{ℤ, pos, negsuc}

pub data SettingsError : Type 0 where
  not_a_number : String → SettingsError
  bad_native_bm25 : String → SettingsError
  bad_sync_batch_jobs : ℤ → SettingsError
  bad_sync_batch_ms : SettingsError
  bad_gc_freeze : String → SettingsError

pub record Settings (F : Type 0) : Type 0 where
  pub root_api_key : String
  pub embedding_base_url : String
  pub embedding_api_key : String
  pub embedding_model : String
  pub embedding_dim : Option ℤ
  pub data_dir : String
  pub max_resident_collections : ℤ
  pub collection_idle_ttl : F
  pub native_bm25 : String
  pub ivf_search_threads : ℤ
  pub sync_batch_jobs : ℤ
  pub sync_batch_ms : F
  pub gc_freeze : Bool

abbrev pub is_positive : ℤ → Bool
is_positive (pos zero) = false
is_positive (pos (suc n)) = true
is_positive (negsuc n) = false

-- `min(12, os.cpu_count() or 1)`
pub default_ivf_search_threads : Option ℕ → ℤ
default_ivf_search_threads none = pos 1
default_ivf_search_threads (some n) = if n == 0 then pos 1 else pos (min 12 n)

-- `s or d`, for a text.
pub text_or : String → String → String
text_or s d = if str_eq s "" then d else s

pub require : {E : Type 0} → Bool → E → Result E Bool
require true e = ok true
require false e = err e

module _ {F : Type 0} (int_of : String → Option ℤ) (float_of : String → Option F)
    (nonneg : F → Bool) (cpu_count : Option ℕ) (env : String → Option String) where
  -- `os.environ.get(name, default)`
  pub get : String → String → String
  get name default = elim (env name) [ none ↦ default | some s ↦ s ]

  pub parsed : {A : Type 0} → (String → Option A) → String → Result SettingsError A
  parsed f s = elim (f s) [ none ↦ err (not_a_number s) | some a ↦ ok a ]

  -- `int(s or 0)`
  pub int_or_zero : String → Result SettingsError ℤ
  unfolding parsed
  int_or_zero s = if str_eq s "" then ok (pos 0) else parsed int_of s

  pub optional_dim : String → Result SettingsError (Option ℤ)
  unfolding parsed
  optional_dim s = if str_eq s "" then ok none else parsed int_of s >>= (λ n. ok (some n))

  pub threads_or_default : ℤ → ℤ
  unfolding default_ivf_search_threads
  threads_or_default n = if is_positive n then n else default_ivf_search_threads cpu_count

  pub load : Result SettingsError (Settings F)
  unfolding require
  load = do
    dim ← optional_dim (get "EMBEDDING_DIM" "")
    resident ← parsed int_of (get "MAX_RESIDENT_COLLECTIONS" "4")
    ttl ← parsed float_of (get "COLLECTION_IDLE_TTL" "900")
    let native = text_or (get "NATIVE_BM25" "") "auto"
    _ ← require (str_eq native "auto" || str_eq native "0") (bad_native_bm25 native)
    threads ← int_or_zero (get "IVF_SEARCH_THREADS" "0")
    jobs ← parsed int_of (get "SYNC_BATCH_JOBS" "8")
    ms ← parsed float_of (get "SYNC_BATCH_MS" "1000")
    _ ← require (is_positive jobs) (bad_sync_batch_jobs jobs)
    _ ← require (nonneg ms) bad_sync_batch_ms
    let gc = text_or (get "GC_FREEZE" "") "0"
    _ ← require (str_eq gc "0" || str_eq gc "1") (bad_gc_freeze gc)
    ok (record {
      root_api_key = get "ROOT_API_KEY" "";
      embedding_base_url = get "EMBEDDING_BASE_URL" "";
      embedding_api_key = get "EMBEDDING_API_KEY" "";
      embedding_model = get "EMBEDDING_MODEL" "";
      embedding_dim = dim;
      data_dir = get "DATA_DIR" "/data";
      max_resident_collections = resident;
      collection_idle_ttl = ttl;
      native_bm25 = native;
      ivf_search_threads = threads_or_default threads;
      sync_batch_jobs = jobs;
      sync_batch_ms = ms;
      gc_freeze = str_eq gc "1";
    })
