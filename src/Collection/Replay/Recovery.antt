-- ===== src/Collection/Replay/Recovery.antt =====
-- A restart from the index file of any earlier moment, and the replay that repairs it.
use raggio.Prelude.{◌<◌, String, ◌≡◌, Bool, ltb, if◌then◌else◌, List, map, length}
use raggio.Prelude.Keys.{nat_eq, string_eq, Distinct}
use raggio.Rows.{Metadata, Row}
use raggio.Collection.{VectorIndex, State, remove_ids, sync_index}
use raggio.Collection.Writes.Invariant.{row_ext}
use raggio.Collection.Replay.{ghosts, reopen}

abbrev pub IsJob : {V : Type 0} → List (Row V) × List V → Type 0
IsJob job = Distinct row_ext job.0 × (length job.0 ≡ length job.1) × (0 < length job.1)

abbrev pub rows_of : {V : Type 0} → List (List (Row V) × List V) → List (List (Row V))
rows_of jobs = map (λ job. job.0) jobs

module _ {V : Type 0} (vi : VectorIndex V) (suffix : Metadata → String) (room armed : Bool) where
  open vi use {Index, contains}

  -- The collection without its ghosts, and after the sync that they make due.
  abbrev cleaned : State V Index → State V Index
  cleaned s = let t = reopen vi s in record t { index = remove_ids vi (ghosts vi t) t.index }

  abbrev has_ghosts : State V Index → Bool
  has_ghosts s = ltb 0 (length (ghosts vi (reopen vi s)))

  abbrev opened : Bool → State V Index → State V Index
  opened lands s = if has_ghosts s then sync_index vi lands (cleaned s) else cleaned s
