-- ===== src/Codec.antt =====
-- The journal's binary payloads: `_encode_payload` and `_decode_payload` of src/raggio/store.py.
--
-- A payload is its documents beside its other keys, of which only their JSON form matters (`K`). A
-- byte is a number below 256, and a float32 is its bit pattern. `dumps` and `loads` are
-- `json.dumps(payload).encode()` and `json.loads(text.decode())`, `to_f32` is numpy's conversion.
mod Words
mod Vectors
mod RoundTrip
mod Examples
use raggio.Prelude.{
  ℕ, zero, suc, ◌+◌, ◌*◌, ◌/◌, ◌%◌, ◌^◌, Bool, true, false, not, ◌&&◌, ◌||◌, Option, none, some,
  List, [], ◌∷◌, ◌++◌, map, length, take, drop, any, get_elem?, ltb, leb, ◌==◌, if◌then◌else◌,
}
use raggio.Prelude.Result.{Result, ok, err, ◌>>=◌}
use raggio.Rows.{RecordIn, ChunkIn, DocumentIn}
use raggio.Slices.{concat}

pub record Payload (K V : Type 0) : Type 0 where
  pub other_keys : K
  pub documents : Option (List (DocumentIn V))

-- What stands in the JSON at a vector's place: a row's number, or a value that is no int or negative.
pub data Place : Type 0 where
  row_index : ℕ → Place
  no_index : Place

pub data CodecError : Type 0 where
  not_rectangular : CodecError
  -- the `struct.error` of a header field of 2 ^ 32 or more
  header_overflow : CodecError
  truncated : CodecError
  bad_magic : CodecError
  bad_length : CodecError
  bad_json : CodecError
  index_outside : CodecError

-- b"RGJ\x01"
abbrev pub job_magic : List ℕ
job_magic = b'R' ∷ b'G' ∷ b'J' ∷ 1 ∷ []

-- The header's size, `struct.calcsize("<4sIII")`.
abbrev pub header_size : ℕ
header_size = 16

-- A number below 2 ^ 32 in little-endian order.
pub word_bytes : ℕ → List ℕ
word_bytes w = w % 256 ∷ (w / 256) % 256 ∷ (w / 65536) % 256 ∷ (w / 16777216) % 256 ∷ []

-- The first word of some bytes.
pub first_word : List ℕ → ℕ
first_word (a ∷ b ∷ c ∷ d ∷ rest) = a + 256 * b + 65536 * c + 16777216 * d
first_word _ = 0

pub row_bytes : List ℕ → List ℕ
unfolding word_bytes
row_bytes [] = []
row_bytes (w ∷ ws) = word_bytes w ++ row_bytes ws

-- So many words.
pub read_words : ℕ → List ℕ → List ℕ
unfolding first_word
read_words zero bytes = []
read_words (suc n) bytes = first_word bytes ∷ read_words n (drop 4 bytes)

pub pack : ℕ → ℕ → ℕ → Result CodecError (List ℕ)
unfolding word_bytes
pack json_len n dim =
    if ltb json_len (2 ^ 32) && ltb n (2 ^ 32) && ltb dim (2 ^ 32)
    then ok (job_magic ++ (word_bytes json_len ++ (word_bytes n ++ word_bytes dim)))
    else err header_overflow

pub same_bytes : List ℕ → List ℕ → Bool
same_bytes [] [] = true
same_bytes (a ∷ as_) (b ∷ bs) = let rest = same_bytes as_ bs in if a == b then rest else false
same_bytes _ _ = false

module _ {V : Type 0} where
  -- `take`: a vector goes to the end of the list, and its place in the JSON holds its number.
  pub take_record : List V → RecordIn V → RecordIn Place × List V
  take_record vectors r = elim r.vector [
    | none ↦ (record { text = r.text; vector = none; metadata = r.metadata }, vectors)
    | some v ↦ (
      record { text = r.text; vector = some (row_index (length vectors)); metadata = r.metadata },
      vectors ++ v ∷ [],
    )
  ]

  pub take_summary : List V → Option (RecordIn V) → Option (RecordIn Place) × List V
  unfolding take_record
  take_summary vectors none = (none, vectors)
  take_summary vectors (some r) = let t = take_record vectors r in (some t.0, t.1)

  pub take_chunks : List V → List (ChunkIn V) → List (ChunkIn Place) × List V
  unfolding take_record
  take_chunks vectors [] = ([], vectors)
  take_chunks vectors (c ∷ cs) =
      let t = take_record vectors c.content in
      let rest = take_chunks t.1 cs in
      (record { content = t.0; id = c.id; position = c.position } ∷ rest.0, rest.1)

  pub take_documents : List V → List (DocumentIn V) → List (DocumentIn Place) × List V
  unfolding take_summary take_chunks
  take_documents vectors [] = ([], vectors)
  take_documents vectors (d ∷ ds) =
      let s = take_summary vectors d.summary_in in
      let cs = take_chunks s.1 d.chunks in
      let rest = take_documents cs.1 ds in
      (record { doc_id = d.doc_id; summary_in = s.0; chunks = cs.0 } ∷ rest.0, rest.1)

  pub take_payload : {K : Type 0} → Payload K V → Payload K Place × List V
  unfolding take_documents
  take_payload p = elim p.documents [
    | none ↦ (record { other_keys = p.other_keys; documents = none }, [])
    | some ds ↦
        let t = take_documents [] ds in
        (record { other_keys = p.other_keys; documents = some t.0 }, t.1)
  ]

-- The second dimension of `np.asarray(vectors)`, and whether all rows have it.
pub dim_of : {F : Type 0} → List (List F) → ℕ
dim_of [] = 0
dim_of (v ∷ vs) = length v

pub is_rectangular : {F : Type 0} → List (List F) → Bool
unfolding dim_of
is_rectangular vs = not (any (λ v. not (length v == dim_of vs)) vs)

-- `mat.tobytes()`
pub matrix_bytes : {F : Type 0} → (F → ℕ) → List (List F) → List ℕ
unfolding row_bytes concat
matrix_bytes to_f32 vs = concat (map (λ v. row_bytes (map to_f32 v)) vs)

module _ {K F : Type 0} (to_f32 : F → ℕ) (dumps : Payload K Place → List ℕ) where
  pub encode_payload : Payload K (List F) → Result CodecError (List ℕ)
  unfolding take_payload is_rectangular dim_of pack matrix_bytes
  encode_payload p =
      let t = take_payload p in
      let meta = dumps t.0 in
      if is_rectangular t.1
      then pack (length meta) (length t.1) (dim_of t.1)
        >>= (λ header. ok (header ++ (meta ++ matrix_bytes to_f32 t.1)))
      else err not_rectangular

-- `row`: the i-th row of a matrix of `n` rows.
pub read_row : ℕ → ℕ → List ℕ → Place → Result CodecError (List ℕ)
unfolding read_words
read_row n dim block no_index = err index_outside
read_row n dim block (row_index i) =
    if ltb i n then ok (read_words dim (drop (4 * dim * i) block)) else err index_outside

module _ {W : Type 0} (row : Place → Result CodecError W) where
  pub put_record : RecordIn Place → Result CodecError (RecordIn W)
  put_record r = elim r.vector [
    | none ↦ ok (record { text = r.text; vector = none; metadata = r.metadata })
    | some i ↦
        row i >>= (λ v. ok (record { text = r.text; vector = some v; metadata = r.metadata }))
  ]

  pub put_summary : Option (RecordIn Place) → Result CodecError (Option (RecordIn W))
  unfolding put_record
  put_summary none = ok none
  put_summary (some r) = put_record r >>= (λ s. ok (some s))

  pub put_chunks : List (ChunkIn Place) → Result CodecError (List (ChunkIn W))
  unfolding put_record
  put_chunks [] = ok []
  put_chunks (c ∷ cs) = do
    r ← put_record c.content
    rest ← put_chunks cs
    ok (record { content = r; id = c.id; position = c.position } ∷ rest)

  pub put_documents : List (DocumentIn Place) → Result CodecError (List (DocumentIn W))
  unfolding put_summary put_chunks
  put_documents [] = ok []
  put_documents (d ∷ ds) = do
    s ← put_summary d.summary_in
    cs ← put_chunks d.chunks
    rest ← put_documents ds
    ok (record { doc_id = d.doc_id; summary_in = s; chunks = cs } ∷ rest)

  pub put_payload : {K : Type 0} → Payload K Place → Result CodecError (Payload K W)
  unfolding put_documents
  put_payload p = elim p.documents [
    | none ↦ ok (record { other_keys = p.other_keys; documents = none })
    | some ds ↦
        put_documents ds >>= (λ es. ok (record { other_keys = p.other_keys; documents = some es }))
  ]

module _ {K : Type 0} (loads : List ℕ → Option (Payload K Place)) where
  -- The body after the header was read.
  pub decode_body : ℕ → ℕ → ℕ → List ℕ → Result CodecError (Payload K (List ℕ))
  unfolding read_row put_payload
  decode_body json_len n dim bytes =
      let end = header_size + json_len in
      if length bytes == end + 4 * n * dim
      then elim (loads (take json_len (drop header_size bytes))) [
        | none ↦ err bad_json
        | some p ↦ put_payload (read_row n dim (drop end bytes)) p
      ]
      else err bad_length

  pub decode_payload : List ℕ → Result CodecError (Payload K (List ℕ))
  unfolding same_bytes first_word decode_body
  decode_payload bytes =
      if ltb (length bytes) header_size
      then err truncated
      else if same_bytes (take 4 bytes) job_magic
      then decode_body (first_word (drop 4 bytes)) (first_word (drop 8 bytes))
          (first_word (drop 12 bytes)) bytes
      else err bad_magic
