-- ===== src/Settings/Examples.antt =====
-- An empty environment, and one with a scorer that there is not.
use text.Mathlib.Text.{◌==◌ as str_eq}
use raggio.Prelude.{ℕ, ◌≡◌, refl, String, Bool, true, false, Option, none, some, if◌then◌else◌}
use raggio.Prelude.Result.{ok, err}
use raggio.Rows.{ℤ, pos, negsuc}
use raggio.Settings.{
  Settings, bad_native_bm25, bad_sync_batch_jobs, get, parsed, int_or_zero, optional_dim,
  threads_or_default, text_or, default_ivf_search_threads, load,
}
use raggio.Settings.Checks.{IsUsable, load-IsUsable}

-- The numbers that the defaults are written in.
abbrev int_of : String → Option ℤ
int_of s =
    if str_eq s "0"
    then some (pos 0)
    else if str_eq s "4"
    then some (pos 4)
    else if str_eq s "8"
    then some (pos 8)
    else if str_eq s "-1"
    then some (negsuc 0)
    else none

abbrev float_of : String → Option ℕ
float_of s = if str_eq s "900" then some 900 else if str_eq s "1000" then some 1000 else none

abbrev nonneg : ℕ → Bool
nonneg x = true

abbrev nothing_set : String → Option String
nothing_set name = none

abbrev one_set : String → String → String → Option String
one_set key value name = if str_eq name key then some value else none

abbrev defaults : Settings ℕ
defaults = record {
  root_api_key = "";
  embedding_base_url = "";
  embedding_api_key = "";
  embedding_model = "";
  embedding_dim = none;
  data_dir = "/data";
  max_resident_collections = pos 4;
  collection_idle_ttl = 900;
  native_bm25 = "auto";
  ivf_search_threads = pos 12;
  sync_batch_jobs = pos 8;
  sync_batch_ms = 1000;
  gc_freeze = false;
}

load-defaults : load int_of float_of nonneg (some 20) nothing_set ≡ ok defaults
unfolding load get parsed int_or_zero optional_dim threads_or_default text_or
    default_ivf_search_threads
load-defaults = refl

rust_scorer_refused :
    load int_of float_of nonneg (some 20) (one_set "NATIVE_BM25" "rust")
    ≡ err (bad_native_bm25 "rust")
unfolding load get parsed int_or_zero optional_dim text_or
rust_scorer_refused = refl

no_jobs_refused :
    load int_of float_of nonneg (some 20) (one_set "SYNC_BATCH_JOBS" "-1")
    ≡ err (bad_sync_batch_jobs (negsuc 0))
unfolding load get parsed int_or_zero optional_dim text_or
no_jobs_refused = refl

load-IsUsable_example : IsUsable nonneg defaults
load-IsUsable_example = load-IsUsable int_of float_of nonneg (some 20) nothing_set load-defaults
