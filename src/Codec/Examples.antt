-- ===== src/Codec/Examples.antt =====
-- A job of one document with two supplied vectors, and its bytes.
use raggio.Prelude.{
  ℕ, ◌≡◌, ◌^◌, ◌%◌, String, refl, Option, none, some, List, [], ◌∷◌, ◌⊎◌, arith, take, map,
}
use raggio.Prelude.Result.{ok, err}
use raggio.Rows.{ChunkIn}
use raggio.Codec.{
  Payload, Place, encode_payload, decode_payload, take_payload, is_rectangular, not_rectangular,
  truncated, bad_length, bad_magic,
}
use raggio.Codec.RoundTrip.{decode_payload-encode_payload, decode_payload-take}
use raggio.Codec.Vectors.{map_payload}

abbrev chunk_of : String → Option (List ℕ) → ChunkIn (List ℕ)
chunk_of id v = record {
  content = record { text = some "text"; vector = v; metadata = none };
  id = id;
  position = none;
}

abbrev job : Payload String (List ℕ)
job = record {
  other_keys = "docs";
  documents = some (
      record {
        doc_id = "doc";
        summary_in = none;
        chunks =
            chunk_of "first" (some (5 ∷ 4294967301 ∷ []))
            ∷ chunk_of "second" none
            ∷ chunk_of "third" (some (258 ∷ 0 ∷ []))
            ∷ [];
      }
      ∷ []);
}

abbrev ragged : Payload String (List ℕ)
ragged = record {
  other_keys = "docs";
  documents = some (
      record {
        doc_id = "doc";
        summary_in = none;
        chunks = chunk_of "a" (some (5 ∷ [])) ∷ chunk_of "b" (some []) ∷ [];
      }
      ∷ []);
}

abbrev to_f32 : ℕ → ℕ
to_f32 x = x % 2 ^ 32

-- A text for the JSON of this one job.
abbrev dumps : Payload String Place → List ℕ
dumps q = b'{' ∷ b'}' ∷ []

abbrev loads : List ℕ → Option (Payload String Place)
unfolding take_payload
loads text = some (take_payload job).0

job_bytes :
    encode_payload to_f32 dumps job
    ≡ ok (
        82 ∷ 71 ∷ 74 ∷ 1 ∷ 2 ∷ 0 ∷ 0 ∷ 0 ∷ 2 ∷ 0 ∷ 0 ∷ 0 ∷ 2 ∷ 0 ∷ 0 ∷ 0 ∷ 123 ∷ 125 ∷ 5 ∷ 0 ∷ 0 ∷ 0
        ∷ 5 ∷ 0 ∷ 0 ∷ 0 ∷ 2 ∷ 1 ∷ 0 ∷ 0 ∷ 0 ∷ 0 ∷ 0 ∷ 0 ∷ [])
unfolding encode_payload
job_bytes = refl

ragged_refused : encode_payload to_f32 dumps ragged ≡ err not_rectangular
unfolding encode_payload
ragged_refused = refl

foreign_bytes :
    decode_payload loads (82 ∷ 71 ∷ 74 ∷ 2 ∷ 0 ∷ 0 ∷ 0 ∷ 0 ∷ 0 ∷ 0 ∷ 0 ∷ 0 ∷ 0 ∷ 0 ∷ 0 ∷ 0 ∷ [])
    ≡ err bad_magic
unfolding decode_payload
foreign_bytes = refl

decode_payload-encode_payload_example :
    (bytes : List ℕ) × (encode_payload to_f32 dumps job ≡ ok bytes)
    × (decode_payload loads bytes ≡ ok (map_payload (map to_f32) job))
unfolding take_payload is_rectangular
decode_payload-encode_payload_example =
    decode_payload-encode_payload to_f32 dumps loads (λ x. omega arith) job refl refl (omega arith)
      (omega arith) (omega arith)

abbrev whole : List ℕ
whole =
    82 ∷ 71 ∷ 74 ∷ 1 ∷ 2 ∷ 0 ∷ 0 ∷ 0 ∷ 2 ∷ 0 ∷ 0 ∷ 0 ∷ 2 ∷ 0 ∷ 0 ∷ 0 ∷ 123 ∷ 125 ∷ 5 ∷ 0 ∷ 0 ∷ 0 ∷ 5
    ∷ 0 ∷ 0 ∷ 0 ∷ 2 ∷ 1 ∷ 0 ∷ 0 ∷ 0 ∷ 0 ∷ 0 ∷ 0 ∷ []

decode_payload-take_example :
    (decode_payload loads (take 20 whole) ≡ err truncated)
    ⊎ (decode_payload loads (take 20 whole) ≡ err bad_length)
decode_payload-take_example =
    decode_payload-take loads to_f32 dumps job whole 20 job_bytes (omega arith)
