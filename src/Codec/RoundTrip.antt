-- ===== src/Codec/RoundTrip.antt =====
-- `_decode_payload` reads what `_encode_payload` wrote, and refuses a truncated payload.
use raggio.Prelude.{
  ℕ, zero, suc, ◌+◌, ◌*◌, ◌^◌, ◌-◌, ◌≤◌, ◌<◌, ◌≡◌, ◌≢◌, refl, ap, ◌∙◌, ◌⊎◌, inl, inr, true, false,
  not, Option, some, List, [], ◌∷◌, ◌++◌, map, arith, length, take, drop, any, get_elem?,
  length-append, length-take, All, ltb, lt→ltb, ◌==◌, ==_iff, Bool-cases,
}
use raggio.Prelude.Result.{ok, err}
use raggio.Codec.{
  Payload, Place, same_bytes, truncated, bad_length, job_magic, word_bytes, first_word, pack,
  dim_of, is_rectangular, matrix_bytes, take_payload, encode_payload, read_row, decode_body,
  decode_payload,
}
use raggio.Codec.Words.{
  drop_add, take_add, drop_exactly, drop-length, take-length, first_word-word_bytes,
  length-matrix_bytes, read_words-matrix_bytes,
}
use raggio.Codec.Vectors.{map_payload, put_payload-take}

same_rows :
    {F : Type 0} (dim : ℕ) (vs : List (List F))
    → not (any (λ v. not (length v == dim)) vs) ≡ true
    → All (λ v. length v ≡ dim) vs
same_rows dim [] h = tt
same_rows dim (v ∷ vs) h = elim (Bool-cases (length v == dim)) [
  | inl e ↦ ((==_iff _ _).0 e, same_rows dim vs (rw e at h))
  | inr e ↦ absurd (cc (rw e at h))
]

get_elem?-lt : {A : Type 0} (xs : List A) (i : ℕ) {x : A} → get_elem? xs i ≡ some x → i < length xs
get_elem?-lt [] i h = cc
get_elem?-lt (y ∷ xs) zero h = omega arith
get_elem?-lt (y ∷ xs) (suc i) h = omega (arith, get_elem?-lt xs i h)

-- A payload's bytes, from its parts.
abbrev frame : ℕ → ℕ → ℕ → List ℕ → List ℕ
frame json_len n dim body =
    (job_magic ++ (word_bytes json_len ++ (word_bytes n ++ word_bytes dim))) ++ body

module _ {K : Type 0} (loads : List ℕ → Option (Payload K Place)) where
  decode-magic :
      (bytes : List ℕ)
      → 16 ≤ length bytes
      → same_bytes (take 4 bytes) job_magic ≡ true
      → decode_payload loads bytes
        ≡ decode_body loads
            (first_word (drop 4 bytes))
            (first_word (drop 8 bytes))
            (first_word (drop 12 bytes))
            bytes
  unfolding decode_payload
  decode-magic bytes h e = let long : ltb (length bytes) 16 ≡ false = ground arith in rw long (rw e)

  decode-frame :
      (json_len n dim : ℕ) (body : List ℕ)
      → json_len < 2 ^ 32
      → n < 2 ^ 32
      → dim < 2 ^ 32
      → decode_payload loads (frame json_len n dim body)
        ≡ decode_body loads json_len n dim (frame json_len n dim body)
  unfolding word_bytes same_bytes first_word
  decode-frame json_len n dim body hj hn hd =
      let bytes = frame json_len n dim body in
      decode-magic bytes (omega arith) refl
      ∙ (ap
            (λ j.
              decode_body loads j (first_word (drop 8 bytes)) (first_word (drop 12 bytes)) bytes)
            (first_word-word_bytes json_len (drop 8 bytes) hj)
          ∙ (ap (λ m. decode_body loads json_len m (first_word (drop 12 bytes)) bytes)
                (first_word-word_bytes n (drop 12 bytes) hn)
              ∙ ap (λ d. decode_body loads json_len n d bytes) (first_word-word_bytes dim body hd)))

module _ {K F : Type 0} (to_f32 : F → ℕ) (dumps : Payload K Place → List ℕ)
    (loads : List ℕ → Option (Payload K Place)) (small : (x : F) → to_f32 x < 2 ^ 32) where
  decode_body-frame :
      (header : List ℕ) (p : Payload K (List F))
      → length header ≡ 16
      → loads (dumps (take_payload p).0) ≡ some (take_payload p).0
      → is_rectangular (take_payload p).1 ≡ true
      → (let vs = (take_payload p).1 in
          let meta = dumps (take_payload p).0 in
          decode_body loads
            (length meta)
            (length vs)
            (dim_of vs)
            (header ++ (meta ++ matrix_bytes to_f32 vs))
          ≡ ok (map_payload (map to_f32) p))
  unfolding decode_body is_rectangular
  decode_body-frame header p h parsed r =
      let t = take_payload p in
      let meta = dumps t.0 in
      let matrix = matrix_bytes to_f32 t.1 in
      let rows : All (λ v. length v ≡ dim_of t.1) t.1 = same_rows (dim_of t.1) t.1 r in
      let size : length (header ++ (meta ++ matrix))
          ≡ 16 + length meta + 4 * length t.1 * dim_of t.1 =
        omega (
          arith,
          h,
          length-append header (meta ++ matrix),
          length-append meta matrix,
          length-matrix_bytes to_f32 (dim_of t.1) t.1 rows,
        ) in
      rw ((==_iff _ _).1 size) (
        rw (drop_exactly header (meta ++ matrix) h) (
          rw (take-length meta matrix) (
            rw parsed (
              rw (drop_add 16 (length meta) (header ++ (meta ++ matrix))) (
                rw (drop_exactly header (meta ++ matrix) h) (
                  rw (drop-length meta matrix) (
                    put_payload-take (map to_f32) p (read_row (length t.1) (dim_of t.1) matrix)
                      (λ i v e. rw (lt→ltb _ _ (get_elem?-lt t.1 i e)) (
                        ap ok
                          (read_words-matrix_bytes to_f32 (dim_of t.1) small t.1 i rows e))))))))))

  -- Payloads whose vectors form one matrix, and whose sizes fit the header's words, are encoded; what
  -- is decoded from the bytes is the payload with every number of its vectors rounded to a float32.
  -- Assumes that `json.loads` reads what `json.dumps` wrote and that a float32 has 32 bits.
  pub decode_payload-encode_payload :
      (p : Payload K (List F))
      → loads (dumps (take_payload p).0) ≡ some (take_payload p).0
      → is_rectangular (take_payload p).1 ≡ true
      → length (dumps (take_payload p).0) < 2 ^ 32
      → length (take_payload p).1 < 2 ^ 32
      → dim_of (take_payload p).1 < 2 ^ 32
      → (bytes : List ℕ) × (encode_payload to_f32 dumps p ≡ ok bytes)
        × (decode_payload loads bytes ≡ ok (map_payload (map to_f32) p))
  unfolding encode_payload pack
  decode_payload-encode_payload p parsed r hj hn hd =
      let t = take_payload p in
      let meta = dumps t.0 in
      (
        frame (length meta) (length t.1) (dim_of t.1) (meta ++ matrix_bytes to_f32 t.1),
        rw r (rw (lt→ltb _ _ hj) (rw (lt→ltb _ _ hn) (rw (lt→ltb _ _ hd)))),
        decode-frame loads (length meta) (length t.1) (dim_of t.1) (meta ++ matrix_bytes to_f32 t.1)
              hj hn hd
            ∙ decode_body-frame
                (job_magic
                  ++ (word_bytes (length meta)
                      ++ (word_bytes (length t.1) ++ word_bytes (dim_of t.1))))
                p refl parsed r,
      )

module _ {K F : Type 0} (to_f32 : F → ℕ) (dumps : Payload K Place → List ℕ) (p : Payload K (List F))
    {bytes : List ℕ} (encoded : encode_payload to_f32 dumps p ≡ ok bytes) where
  encoded-frame :
      (n : ℕ) × (j : ℕ) × (d : ℕ) × (body : List ℕ) × (j < 2 ^ 32)
      × (n < 2 ^ 32)
      × (d < 2 ^ 32)
      × (bytes ≡ frame j n d body)
      × (length body ≡ j + 4 * n * d)
  unfolding encode_payload pack is_rectangular
  encoded-frame =
      let t = take_payload p in
      let meta = dumps t.0 in
      (
        length t.1,
        length meta,
        dim_of t.1,
        meta ++ matrix_bytes to_f32 t.1,
        ground arith,
        ground arith,
        ground arith,
        ground arith,
        elim (Bool-cases (is_rectangular t.1)) [
          | inl r ↦ omega (
            arith,
            length-append meta (matrix_bytes to_f32 t.1),
            length-matrix_bytes to_f32 (dim_of t.1) t.1 (same_rows (dim_of t.1) t.1 r),
          )
          | inr r ↦ absurd (cc (rw r at encoded))
        ],
      )

take-frame :
    (k j n d : ℕ) (body : List ℕ) → take (16 + k) (frame j n d body) ≡ frame j n d (take k body)
unfolding word_bytes
take-frame k j n d body = take_add 16 k (frame j n d body)

length-frame : (j n d : ℕ) (body : List ℕ) → length (frame j n d body) ≡ 16 + length body
unfolding word_bytes
length-frame j n d body = omega arith

module _ {K : Type 0} (loads : List ℕ → Option (Payload K Place)) where
  -- A header whose sizes are not those of the data.
  decode-resized :
      (j n d : ℕ) (body : List ℕ)
      → j < 2 ^ 32
      → n < 2 ^ 32
      → d < 2 ^ 32
      → length body ≢ j + 4 * n * d
      → decode_payload loads (frame j n d body) ≡ err bad_length
  unfolding decode_body
  decode-resized j n d body hj hn hd other =
      decode-frame loads j n d body hj hn hd
      ∙ (let differs : (length (frame j n d body) == 16 + j + 4 * n * d) ≡ false =
            ground (arith, other, length-frame j n d body) in
          rw differs)

  decode-short : (bytes : List ℕ) → length bytes < 16 → decode_payload loads bytes ≡ err truncated
  unfolding decode_payload
  decode-short bytes h = rw (lt→ltb _ _ h)

  decode-cut :
      (k j n d : ℕ) (body : List ℕ)
      → j < 2 ^ 32
      → n < 2 ^ 32
      → d < 2 ^ 32
      → length body ≡ j + 4 * n * d
      → k < length (frame j n d body)
      → (decode_payload loads (take k (frame j n d body)) ≡ err truncated)
        ⊎ (decode_payload loads (take k (frame j n d body)) ≡ err bad_length)
  decode-cut k j n d body hj hn hd size cut = elim (Bool-cases (ltb k 16)) [
    | inl s ↦ inl (
        decode-short (take k (frame j n d body))
          (ground (arith, length-take k (frame j n d body), s)))
    | inr s ↦
        let whole : k ≡ 16 + (k - 16) = ground arith in
        let less : length (take (k - 16) body) ≢ j + 4 * n * d = λ e.
          omega (arith, length-take (k - 16) body, length-frame j n d body, e, size, cut, whole) in
        inr (
          rw whole (
            rw (take-frame (k - 16) j n d body)
              (decode-resized j n d (take (k - 16) body) hj hn hd less)))
  ]

  -- A payload that lost bytes at its end is refused, wherever it was cut.
  pub decode_payload-take :
      {F : Type 0} (to_f32 : F → ℕ) (dumps : Payload K Place → List ℕ) (p : Payload K (List F))
      (bytes : List ℕ) (k : ℕ)
      → encode_payload to_f32 dumps p ≡ ok bytes
      → k < length bytes
      → (decode_payload loads (take k bytes) ≡ err truncated)
        ⊎ (decode_payload loads (take k bytes) ≡ err bad_length)
  decode_payload-take to_f32 dumps p bytes k encoded cut =
      let (n, j, d, body, hj, hn, hd, e, size) = encoded-frame to_f32 dumps p encoded in
      rw e (decode-cut k j n d body hj hn hd size (rw e at cut))
