-- ===== src/Worker/Stop.antt =====
-- The flush of `stop`, `_sync_and_finish` of src/raggio/store.py, with the worker cancelled.
use raggio.Prelude.{
  ◌≡◌, refl, Bool, true, false, List, [], ◌∷◌, Bool-cases, inl, inr, if◌then◌else◌,
}
use raggio.Journal.{Journal, finish_job}
use raggio.Worker.{Worker, Entry, claim_again, sync_lands, finish_entry}

module _ {B T P : Type 0} where
  -- The loop: `commits` tells the finishes that commit. The first that raises ends the flush, and it
  -- and the later ones stay in the batch.
  pub finish_while : (Entry → Bool) → List Entry → Worker B T P → Worker B T P
  finish_while commits [] w = w
  finish_while commits (e ∷ es) w =
      let rest = finish_while commits es (finish_entry e es w) in if commits e then rest else w

  -- `lands` tells whether the sync landed; if it raised, nothing is finished.
  pub sync_and_finish : Bool → (Entry → Bool) → Worker B T P → Worker B T P
  unfolding finish_while
  sync_and_finish false commits w = w
  sync_and_finish true commits w = finish_while commits w.unsynced (sync_lands claim_again w)

-- The entries before the first whose finish raises, and those from it on.
pub finished_part : (Entry → Bool) → List Entry → List Entry
finished_part commits [] = []
finished_part commits (e ∷ es) =
    let rest = finished_part commits es in if commits e then e ∷ rest else []

pub left_part : (Entry → Bool) → List Entry → List Entry
left_part commits [] = []
left_part commits (e ∷ es) = let rest = left_part commits es in if commits e then rest else e ∷ es

pub finish_all : {B T : Type 0} → List Entry → Journal B T → Journal B T
finish_all [] j = j
finish_all (e ∷ es) j = finish_all es (finish_job e.id e.outcome e.error_text j)

module _ {B T P : Type 0} where
  finish_while_lem :
      (commits : Entry → Bool) (es : List Entry) (w : Worker B T P)
      → w.unsynced ≡ es
      → ((finish_while commits es w).unsynced ≡ left_part commits es)
        × ((finish_while commits es w).journal ≡ finish_all (finished_part commits es) w.journal)
  unfolding finish_while left_part finished_part finish_all finish_entry
  finish_while_lem commits [] w h = (h, refl)
  finish_while_lem commits (e ∷ es) w h =
      let rest = finish_while_lem commits es (finish_entry e es w) refl in
      elim (Bool-cases (commits e)) [ inl c ↦ rw c rest | inr c ↦ rw c (h, refl) ]

  -- When the sync of `stop` lands, exactly the jobs of the batch before the first whose finish raises
  -- are finished in the journal, in claim order, and that one and the later ones stay in the batch.
  pub sync_and_finish_lem :
      (commits : Entry → Bool) (w : Worker B T P)
      → ((sync_and_finish true commits w).unsynced ≡ left_part commits w.unsynced)
        × ((sync_and_finish true commits w).journal
            ≡ finish_all (finished_part commits w.unsynced) w.journal)
  unfolding sync_and_finish sync_lands
  sync_and_finish_lem commits w =
      finish_while_lem commits w.unsynced (sync_lands claim_again w) refl
