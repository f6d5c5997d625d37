-- ===== src/Build/Examples.antt =====
-- An index attached while a record is deleted, and one that lacks a vector.
use Prim.Native.String.{String}
use raggio.Prelude.{
  ℕ, ◌≡◌, ◌⊎◌, refl, true, false, Option, none, some, List, [], ◌∷◌, ◌-◌, map, length, take, arith,
}
use raggio.Prelude.Keys.{nat_eq, key}
use raggio.Prelude.Result.{ok, err}
use raggio.Collection.IdList.{id_list}
use raggio.Build.{
  too_few_records, too_many_shards, no_text, no_vector, request_index, attach_nlist, vec_blocks,
  setdiff, seen_ids, lacks_text, attached_index, detached_index,
}
use raggio.Build.Contents.{is_in, attached_index_lem, detached_index_lem}
use raggio.Build.Disk.{Disk, attaches, steps, run_steps, load_index, LoadsOne, load_index-steps}

small_refused : request_index false 1000 none none ≡ err too_few_records
unfolding request_index
small_refused = refl

crowded_refused : attach_nlist (λ n. 16) (λ m. true) 2000 (some 300) ≡ err too_many_shards
unfolding attach_nlist
crowded_refused = refl

-- The third row goes after the first block was read.
shrinking_stream :
    vec_blocks {V = ℕ} 10 2 0 0 (λ r. take (3 - r) ((2, 20) ∷ (5, 50) ∷ (7, 70) ∷ []))
    ≡ ((2, 20) ∷ (5, 50) ∷ []) ∷ []
unfolding vec_blocks
shrinking_stream = refl

abbrev embed : List String → List ℕ
embed ts = map (λ t. 1) ts

embed-each : (ts : List String) → length (embed ts) ≡ length ts
embed-each [] = refl
embed-each (t ∷ ts) = omega (arith, embed-each ts)

-- Every id has a text.
abbrev texts : List ℕ → List (ℕ × Option String)
texts ids = map (λ i. (i, some "text")) ids

texts-keys : (ids : List ℕ) (x : ℕ) → is_in x ids ≡ true → is_in x (map key (texts ids)) ≡ true
texts-keys [] x h = h
texts-keys (i ∷ is) x h = ground (arith, texts-keys is x)

-- The stream saw 1 and 2; 3 has no vector, and 2 is deleted before the swap.
abbrev blocks : List (List (ℕ × ℕ))
blocks = ((1, 10) ∷ (2, 20) ∷ []) ∷ []

attached_ids :
    attached_index id_list embed texts blocks (1 ∷ 2 ∷ 3 ∷ []) (1 ∷ 3 ∷ []) [] ≡ ok (3 ∷ 1 ∷ [])
unfolding attached_index
attached_ids = refl

attached_index_lem_example :
    ((lacks_text (texts (setdiff (1 ∷ 2 ∷ 3 ∷ []) (seen_ids id_list blocks))) ≡ true)
      × (attached_index id_list embed texts blocks (1 ∷ 2 ∷ 3 ∷ []) (1 ∷ 3 ∷ []) [] ≡ err no_text))
    ⊎ ((i : List ℕ) × (attached_index id_list embed texts blocks (1 ∷ 2 ∷ 3 ∷ []) (1 ∷ 3 ∷ []) []
          ≡ ok i)
        × ((x : ℕ) → is_in x i ≡ is_in x (1 ∷ 3 ∷ [])))
attached_index_lem_example =
    attached_index_lem id_list embed embed-each texts blocks (1 ∷ 2 ∷ 3 ∷ []) (1 ∷ 3 ∷ []) []
      (λ x. refl) (λ x h. ground (arith, h)) (λ ids x h k. texts-keys ids x h)

detached_index_lem_example :
    (((x : ℕ) × (is_in x (1 ∷ 3 ∷ []) ≡ true) × (is_in x (seen_ids id_list blocks) ≡ false))
      × (detached_index id_list blocks (1 ∷ 3 ∷ []) (1 ∷ 3 ∷ []) [] ≡ err no_vector))
    ⊎ ((i : List ℕ) × (detached_index id_list blocks (1 ∷ 3 ∷ []) (1 ∷ 3 ∷ []) [] ≡ ok i)
        × ((x : ℕ) → is_in x i ≡ is_in x (1 ∷ 3 ∷ [])))
detached_index_lem_example =
    detached_index_lem id_list blocks (1 ∷ 3 ∷ []) (1 ∷ 3 ∷ []) [] (λ x. refl) (λ x h. h)

abbrev flat : Disk ℕ
flat = record {
  config = false;
  ivf_dir = some 9;
  ivf_tmp = none;
  flat_file = some 1;
  flat_tmp = none;
}

load_index-steps_example :
    ((k : ℕ) → LoadsOne 0 1 2 (run_steps (take k (steps attaches 2)) flat))
    × (load_index 0 (run_steps (steps attaches 2) flat) ≡ 2)
load_index-steps_example = load_index-steps 0 1 2 attaches flat (refl, refl)
