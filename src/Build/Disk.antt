-- ===== src/Build/Disk.antt =====
-- The files of a collection's index while an attach or a detach swaps the new one in, and what
-- `Collection.__init__` loads from them after a crash.
use raggio.Prelude.{
  ℕ, zero, suc, ◌≡◌, refl, Bool, true, false, ◌⊎◌, inl, inr, Option, none, some, List, [], ◌∷◌,
  take,
}

pub data Change : Type 0 where
  attaches detaches : Change

-- `config` is whether the catalog names an index of shards. A directory or file is its contents, once
-- its sync came to its end; `ivf_tmp` and `flat_tmp` are never loaded.
pub record Disk (I : Type 0) : Type 0 where
  pub config : Bool
  pub ivf_dir : Option I
  pub ivf_tmp : Option I
  pub flat_file : Option I
  pub flat_tmp : Option I

module _ {I : Type 0} where
  -- The index that is loaded, with the empty one.
  pub load_index : I → Disk I → I
  load_index empty d =
      let flat : I = elim d.flat_file [ none ↦ empty | some i ↦ i ] in
      elim d.config [ false ↦ flat | true ↦ elim d.ivf_dir [ none ↦ flat | some i ↦ i ] ]

  -- What the swap of `_attach_index` does to the files, in its order, for the new index.
  pub attach_steps : I → List (Disk I → Disk I)
  attach_steps new =
      (λ d. record d { ivf_tmp = none })
      ∷ (λ d. record d { ivf_tmp = some new })
      ∷ (λ d. record d { ivf_dir = none })
      ∷ (λ d. record d { ivf_dir = d.ivf_tmp; ivf_tmp = none })
      ∷ (λ d. record d { config = true })
      ∷ (λ d. record d { flat_file = none })
      ∷ []

  -- What the swap of `_detach_index` does.
  pub detach_steps : I → List (Disk I → Disk I)
  detach_steps new =
      (λ d. record d { flat_tmp = none })
      ∷ (λ d. record d { flat_tmp = some new })
      ∷ (λ d. record d { flat_file = d.flat_tmp; flat_tmp = none })
      ∷ (λ d. record d { config = false })
      ∷ (λ d. record d { ivf_dir = none })
      ∷ []

  pub run_steps : List (Disk I → Disk I) → Disk I → Disk I
  run_steps [] d = d
  run_steps (f ∷ fs) d = run_steps fs (f d)

  pub steps : Change → I → List (Disk I → Disk I)
  unfolding attach_steps detach_steps
  steps attaches new = attach_steps new
  steps detaches new = detach_steps new

  -- The index in use is `old`, which is flat before a first attach, and shards before a detach.
  abbrev pub InUse : Change → I → Disk I → Type 0
  InUse attaches old d = (d.config ≡ false) × (d.flat_file ≡ some old)
  InUse detaches old d = (d.config ≡ true) × (d.ivf_dir ≡ some old)

  -- A property of the files before, between and after some steps.
  abbrev Always : (Disk I → Type 0) → List (Disk I → Disk I) → Disk I → Type 0
  Always P [] d = P d
  Always P (f ∷ fs) d = P d × Always P fs (f d)

  Always-take :
      (P : Disk I → Type 0) (fs : List (Disk I → Disk I)) (d : Disk I) (k : ℕ)
      → Always P fs d
      → P (run_steps (take k fs) d)
  unfolding run_steps
  Always-take P [] d zero h = h
  Always-take P [] d (suc k) h = h
  Always-take P (f ∷ fs) d zero h = h.0
  Always-take P (f ∷ fs) d (suc k) h = Always-take P fs (f d) k h.1

  module _ (empty old new : I) where
    abbrev pub LoadsOne : Disk I → Type 0
    LoadsOne d = (load_index empty d ≡ old) ⊎ (load_index empty d ≡ new)

    -- A crash after any number of steps of a first attach or of a detach leaves files from which the
    -- old index or the new one is loaded, and after all steps it is the new one.
    pub load_index-steps :
        (change : Change) (d : Disk I)
        → InUse change old d
        → ((k : ℕ) → LoadsOne (run_steps (take k (steps change new)) d))
          × (load_index empty (run_steps (steps change new) d) ≡ new)
    unfolding load_index steps run_steps
    load_index-steps attaches d (c, f) = (
      λ k. Always-take LoadsOne (steps attaches new) d k (
        inl (rw c (rw f refl)),
        (
          inl (rw c (rw f refl)),
          (
            inl (rw c (rw f refl)),
            (inl (rw c (rw f refl)), (inl (rw c (rw f refl)), (inr refl, inr refl))),
          ),
        ),
      ),
      refl,
    )
    load_index-steps detaches d (c, f) = (
      λ k. Always-take LoadsOne (steps detaches new) d k (
        inl (rw c (rw f refl)),
        (
          inl (rw c (rw f refl)),
          (inl (rw c (rw f refl)), (inl (rw c (rw f refl)), (inr refl, inr refl))),
        ),
      ),
      refl,
    )
