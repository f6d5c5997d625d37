-- ===== src/Ivf/Sync.antt =====
-- The dirty shards, and what `sync` writes.
use raggio.Prelude.{
  ◌+◌, ◌<◌, length, ◌∙◌, ℕ, suc, ◌≡◌, refl, Bool, true, false, not, ◌&&◌, ◌⊎◌, inl, inr, Option,
  none, some, List, [], ◌∷◌, arith, All, Bool-cases,
}
use raggio.Ivf.{
  ShardSync, written_by, clear_dirty, sync_shard, Shard, shard_written, has_file, sync_from,
}

-- A clean shard that has a file has its contents there.
abbrev pub IsTracked : {I : Type 0} → Shard I → Type 0
IsTracked s = (s.dirty ≡ true) ⊎ ((s.file ≡ none) ⊎ (s.file ≡ some s.memory))

-- The file holds what the memory holds, and nothing waits for a sync.
abbrev pub IsSynced : {I : Type 0} → Shard I → Type 0
IsSynced s = (s.file ≡ some s.memory) × (s.dirty ≡ false)

-- No write races the sync.
abbrev pub is_quiet : {I : Type 0} → List I → List I → Bool
is_quiet [] [] = true
is_quiet [] (i ∷ is) = false
is_quiet (i ∷ is) after = false

-- A shard `o` that a landed call has passed, as `n`: synced, with its contents, or still dirty, and that
-- only if a write raced.
abbrev pub IsPassed : {I : Type 0} → Bool → Shard I → Shard I → Type 0
IsPassed true o n = IsSynced n × (n.memory ≡ o.memory)
IsPassed false o n = IsSynced n ⊎ (n.dirty ≡ true)

module _ {I : Type 0} (syncs : ℕ → ShardSync I) where
  -- The shards from `j` on, before and after.
  abbrev pub ArePassed : ℕ → List (Shard I) → List (Shard I) → Type 0
  ArePassed j [] ns = ns ≡ []
  ArePassed j (o ∷ os) ns =
      (n : Shard I) × (rest : List (Shard I)) × (ns ≡ n ∷ rest)
      × IsPassed (is_quiet (syncs j).before (syncs j).after) o n
      × ArePassed (suc j) os rest

  -- After a call that came to its end, and after one that raised.
  abbrev pub SyncedIf : Bool → ℕ → List (Shard I) → List (Shard I) → Type 0
  SyncedIf true j os ns = ArePassed j os ns
  SyncedIf false j os ns = All IsTracked ns

module _ {I : Type 0} where
  skipped : (s : Shard I) → IsTracked s → (not s.dirty && has_file s) ≡ true → IsSynced s
  skipped s t e = by_file s.file refl e t
    where
      by_file :
          (o : Option I)
          → s.file ≡ o
          → (not s.dirty && (elim o [ none ↦ false | some i ↦ true ])) ≡ true
          → IsTracked s
          → IsSynced s
      by_file none q e t = absurd (ground arith)
      by_file (some i) q e (inl d) = absurd (ground arith)
      by_file (some i) q e (inr (inl n)) = absurd (cc (q, n))
      by_file (some i) q e (inr (inr f)) = (f, ground arith)

  dirty-written_by : (is : List I) (s : Shard I) → s.dirty ≡ true → (written_by is s).dirty ≡ true
  unfolding written_by
  dirty-written_by [] s h = h
  dirty-written_by (i ∷ is) s h =
      dirty-written_by is (shard_written (record s { memory = i })) (unfold shard_written in refl)

  gen-written_by : (is : List I) (s : Shard I) → (written_by is s).gen ≡ s.gen + length is
  unfolding written_by
  gen-written_by [] s = omega arith
  gen-written_by (i ∷ is) s =
      let rest = gen-written_by is (shard_written (record s { memory = i })) in
      rest ∙ (unfold shard_written in omega arith)

  written_by-IsTracked : (is : List I) (s : Shard I) → IsTracked s → IsTracked (written_by is s)
  unfolding written_by shard_written
  written_by-IsTracked [] s t = t
  written_by-IsTracked (i ∷ is) s t = inl (dirty-written_by is _ refl)

  -- The flag stays where a write came in between.
  clear_dirty-IsDirty :
      (gen : ℕ) (s : Shard I) → gen < s.gen → s.dirty ≡ true → (clear_dirty gen s).dirty ≡ true
  unfolding clear_dirty
  clear_dirty-IsDirty gen s h d = ground arith

  landed :
      (before after : List I) (s : Shard I)
      → let s1 = written_by before s in
        IsPassed
          (is_quiet before after)
          s
          (clear_dirty s.gen (written_by after (record s1 { file = some s1.memory })))
  unfolding written_by clear_dirty
  landed [] [] s = ground arith
  landed [] (i ∷ is) s = inr (
      clear_dirty-IsDirty s.gen _
        (omega (arith, gen-written_by (i ∷ is) (record s { file = some s.memory })))
        (dirty-written_by is _ (unfold shard_written in refl)))
  landed (i ∷ is) after s =
      let s1 = written_by (i ∷ is) s in
      inr (
        clear_dirty-IsDirty s.gen _
          (omega (
            arith,
            gen-written_by after (record s1 { file = some s1.memory }),
            gen-written_by (i ∷ is) s,
          ))
          (dirty-written_by after _ (dirty-written_by is _ (unfold shard_written in refl))))

module _ {I : Type 0} (syncs : ℕ → ShardSync I) where
  passed-IsTracked : (b : Bool) (o n : Shard I) → IsPassed b o n → IsTracked n
  passed-IsTracked true o n h = inr (inr h.0.0)
  passed-IsTracked false o n (inl h) = inr (inr h.0)
  passed-IsTracked false o n (inr h) = inl h

  skipped-IsPassed : (b : Bool) (s : Shard I) → IsSynced s → IsPassed b s s
  skipped-IsPassed true s h = (h, refl)
  skipped-IsPassed false s h = inl h

  add_passed :
      (b : Bool) (j : ℕ) (o n : Shard I) (os ns : List (Shard I))
      → IsPassed (is_quiet (syncs j).before (syncs j).after) o n
      → SyncedIf syncs b (suc j) os ns
      → SyncedIf syncs b j (o ∷ os) (n ∷ ns)
  add_passed true j o n os ns h k = (n, ns, refl, h, k)
  add_passed false j o n os ns h k = (passed-IsTracked _ o n h, k)

  pub sync-SyncedIf :
      (j : ℕ) (ss : List (Shard I))
      → All IsTracked ss
      → SyncedIf syncs (sync_from syncs j ss).1 j ss (sync_from syncs j ss).0
  unfolding sync_from sync_shard
  sync-SyncedIf j [] h = refl
  sync-SyncedIf j (s ∷ ss) h =
      let rest = sync-SyncedIf (suc j) ss h.1 in
      elim (Bool-cases (not s.dirty && has_file s)) [
        | inl e ↦ rw e (add_passed _ j s s ss _ (skipped-IsPassed _ s (skipped s h.0 e)) rest)
        | inr n ↦ elim (Bool-cases (syncs j).lands) [
          | inl l ↦
              rw (n, l) (add_passed _ j s _ ss _ (landed (syncs j).before (syncs j).after s) rest)
          | inr r ↦
              rw (n, r)
                (
                  written_by-IsTracked (syncs j).after _
                      (written_by-IsTracked (syncs j).before s h.0),
                  h.1,
                )
        ]
      ]
