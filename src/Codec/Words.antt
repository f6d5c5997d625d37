-- ===== src/Codec/Words.antt =====
-- Words, rows and the matrix of a payload, read back from their bytes.
use raggio.Prelude.{
  ℕ, zero, suc, ◌+◌, ◌*◌, ◌^◌, ◌<◌, ◌≡◌, refl, sym, ap, ◌∙◌, some, List, [], ◌∷◌, ◌++◌, map, arith,
  length, take, drop, get_elem?, length-append, All, ap₂,
}
use raggio.Codec.{word_bytes, first_word, row_bytes, read_words, matrix_bytes}
use raggio.Slices.{concat}

zero_plus : (b : ℕ) → 0 + b ≡ b
zero_plus b = omega arith

suc_plus : (a b : ℕ) → suc a + b ≡ suc (a + b)
suc_plus a b = omega arith

module _ {A : Type 0} where
  drop-nil : (n : ℕ) → drop n (let xs : List A = [] in xs) ≡ []
  drop-nil zero = refl
  drop-nil (suc n) = refl

  pub drop_add : (a b : ℕ) (xs : List A) → drop (a + b) xs ≡ drop b (drop a xs)
  drop_add zero b xs = rw (zero_plus b)
  drop_add (suc a) b [] = drop-nil (suc a + b) ∙ sym (drop-nil b)
  drop_add (suc a) b (x ∷ xs) = rw (suc_plus a b) (drop_add a b xs)

  pub take_add : (a b : ℕ) (xs : List A) → take (a + b) xs ≡ take a xs ++ take b (drop a xs)
  take_add zero b xs = rw (zero_plus b)
  take_add (suc a) zero [] = rw (suc_plus a 0)
  take_add (suc a) (suc b) [] = rw (suc_plus a (suc b))
  take_add (suc a) b (x ∷ xs) = rw (suc_plus a b) (ap (◌∷◌ x) (take_add a b xs))

  pub drop-length : (xs ys : List A) → drop (length xs) (xs ++ ys) ≡ ys
  drop-length [] ys = refl
  drop-length (x ∷ xs) ys = drop-length xs ys

  pub drop_exactly : {n : ℕ} (xs ys : List A) → length xs ≡ n → drop n (xs ++ ys) ≡ ys
  drop_exactly xs ys h = rw (← h) (drop-length xs ys)

  pub take-length : (xs ys : List A) → take (length xs) (xs ++ ys) ≡ xs
  take-length [] ys = refl
  take-length (x ∷ xs) ys = ap (◌∷◌ x) (take-length xs ys)

pub first_word-word_bytes :
    (w : ℕ) (rest : List ℕ) → w < 2 ^ 32 → first_word (word_bytes w ++ rest) ≡ w
unfolding first_word word_bytes
first_word-word_bytes w rest h = omega arith

pub read_words-row_bytes :
    (ws rest : List ℕ)
    → All (λ w. w < 2 ^ 32) ws
    → read_words (length ws) (row_bytes ws ++ rest) ≡ ws
unfolding read_words row_bytes
read_words-row_bytes [] rest h = refl
read_words-row_bytes (w ∷ ws) rest h =
    ap₂ ◌∷◌ (first_word-word_bytes w (row_bytes ws ++ rest) h.0) (read_words-row_bytes ws rest h.1)

pub length-row_bytes : (ws : List ℕ) → length (row_bytes ws) ≡ 4 * length ws
unfolding row_bytes
length-row_bytes [] = omega arith
length-row_bytes (w ∷ ws) = omega (arith, length-row_bytes ws)

module _ {F : Type 0} (to_f32 : F → ℕ) (dim : ℕ) where
  length-row : (v : List F) → length (map to_f32 v) ≡ length v
  length-row [] = refl
  length-row (x ∷ v) = omega (arith, length-row v)

  pub length-matrix_bytes :
      (vs : List (List F))
      → All (λ v. length v ≡ dim) vs
      → length (matrix_bytes to_f32 vs) ≡ 4 * length vs * dim
  unfolding matrix_bytes concat
  length-matrix_bytes [] h = omega arith
  length-matrix_bytes (v ∷ vs) h = grind (
    arith,
    length-append (row_bytes (map to_f32 v)) (concat (map (λ u. row_bytes (map to_f32 u)) vs)),
    length-row_bytes (map to_f32 v),
    length-row v,
    length-matrix_bytes vs h.1,
  )

  times_zero : (m : ℕ) → m * 0 ≡ 0
  times_zero m = omega arith

  suc_times : (m i : ℕ) → m * suc i ≡ m + m * i
  suc_times m i = grind arith

  row_length : (v : List F) → length v ≡ dim → length (row_bytes (map to_f32 v)) ≡ 4 * dim
  row_length v h = omega (arith, length-row_bytes (map to_f32 v), length-row v)

  row_words : ((x : F) → to_f32 x < 2 ^ 32) → (v : List F) → All (λ w. w < 2 ^ 32) (map to_f32 v)
  row_words h [] = tt
  row_words h (x ∷ v) = (h x, row_words h v)

  -- The i-th row of the matrix, read back.
  pub read_words-matrix_bytes :
      ((x : F) → to_f32 x < 2 ^ 32)
      → (vs : List (List F)) (i : ℕ) {v : List F} → All (λ u. length u ≡ dim) vs
      → get_elem? vs i ≡ some v
      → read_words dim (drop (4 * dim * i) (matrix_bytes to_f32 vs)) ≡ map to_f32 v
  unfolding matrix_bytes concat
  read_words-matrix_bytes small [] i h e = cc
  read_words-matrix_bytes small (u ∷ vs) zero {v = v} h e = rw (times_zero (4 * dim)) (
      cc (
        read_words-row_bytes (map to_f32 u) (matrix_bytes to_f32 vs) (row_words small u),
        length-row u,
        h.0,
        e,
      ))
  read_words-matrix_bytes small (u ∷ vs) (suc i) {v = v} h e = rw (suc_times (4 * dim) i) (
      rw (drop_add (4 * dim) (4 * dim * i) (matrix_bytes to_f32 (u ∷ vs))) (
        rw (drop_exactly (row_bytes (map to_f32 u)) (matrix_bytes to_f32 vs) (row_length u h.0))
          (read_words-matrix_bytes small vs i h.1 e)))
