-- ===== src/Codec/Vectors.antt =====
-- What `take` moves to the vectors, `row` brings back.
use raggio.Prelude.{
  ℕ, ◌≡◌, refl, sym, ◌∙◌, Option, none, some, List, [], ◌∷◌, ◌++◌, map, length, get_elem?,
  Option-cases, inl, inr,
}
use mathlib.Core.List.{append_assoc, append-nil}
use mathlib.Core.Option as Options
use raggio.Prelude.Result.{Result, ok}
use raggio.Rows.{RecordIn, ChunkIn, DocumentIn}
use raggio.Codec.{
  Payload, Place, row_index, CodecError, take_record, take_summary, take_chunks, take_documents,
  take_payload, put_record, put_summary, put_chunks, put_documents, put_payload,
}

-- A payload whose vectors are changed by `g`, and all else is kept.
module _ {V W : Type 0} (g : V → W) where
  pub map_record : RecordIn V → RecordIn W
  map_record r = record { text = r.text; vector = Options.map g r.vector; metadata = r.metadata }

  pub map_chunk : ChunkIn V → ChunkIn W
  unfolding map_record
  map_chunk c = record { content = map_record c.content; id = c.id; position = c.position }

  pub map_document : DocumentIn V → DocumentIn W
  unfolding map_record map_chunk
  map_document d = record {
    doc_id = d.doc_id;
    summary_in = Options.map map_record d.summary_in;
    chunks = map map_chunk d.chunks;
  }

  pub map_payload : {K : Type 0} → Payload K V → Payload K W
  unfolding map_document
  map_payload p = record {
    other_keys = p.other_keys;
    documents = Options.map (map map_document) p.documents;
  }

-- One list begins with another.
abbrev Prefix : {V : Type 0} → List V → List V → Type 0
Prefix {V} vs all = (ws : List V) × (all ≡ vs ++ ws)

module _ {V : Type 0} (all : List V) where
  Prefix-append : (vs ws : List V) → Prefix (vs ++ ws) all → Prefix vs all
  Prefix-append vs ws p = (ws ++ p.0, p.1 ∙ append_assoc vs ws p.0)

  get_elem?-Prefix :
      (vs : List V) {v : V} {xs : List V}
      → Prefix (vs ++ v ∷ []) xs
      → get_elem? xs (length vs) ≡ some v
  get_elem?-Prefix [] p = rw p.1
  get_elem?-Prefix (u ∷ vs) p = rw p.1 (get_elem?-Prefix vs (p.0, refl))

  take_record-Prefix :
      (vs : List V) (r : RecordIn V) → Prefix (take_record vs r).1 all → Prefix vs all
  unfolding take_record
  take_record-Prefix vs r p = elim (Option-cases r.vector) [
    | inl e ↦ rw e at p
    | inr (v, e) ↦ Prefix-append vs (v ∷ []) (rw e at p)
  ]

  take_summary-Prefix :
      (vs : List V) (s : Option (RecordIn V)) → Prefix (take_summary vs s).1 all → Prefix vs all
  unfolding take_summary
  take_summary-Prefix vs none p = p
  take_summary-Prefix vs (some r) p = take_record-Prefix vs r p

  take_chunks-Prefix :
      (vs : List V) (cs : List (ChunkIn V)) → Prefix (take_chunks vs cs).1 all → Prefix vs all
  unfolding take_chunks
  take_chunks-Prefix vs [] p = p
  take_chunks-Prefix vs (c ∷ cs) p =
      take_record-Prefix vs c.content (take_chunks-Prefix (take_record vs c.content).1 cs p)

  take_documents-Prefix :
      (vs : List V) (ds : List (DocumentIn V)) → Prefix (take_documents vs ds).1 all → Prefix vs all
  unfolding take_documents
  take_documents-Prefix vs [] p = p
  take_documents-Prefix vs (d ∷ ds) p =
      let s = take_summary vs d.summary_in in
      take_summary-Prefix vs d.summary_in
        (take_chunks-Prefix s.1 d.chunks (take_documents-Prefix (take_chunks s.1 d.chunks).1 ds p))

module _ {V W : Type 0} (g : V → W) (all : List V) (row : Place → Result CodecError W)
    (found : (i : ℕ) (v : V) → get_elem? all i ≡ some v → row (row_index i) ≡ ok (g v)) where
  put_record-take :
      (vs : List V) (r : RecordIn V)
      → Prefix (take_record vs r).1 all
      → put_record row (take_record vs r).0 ≡ ok (map_record g r)
  unfolding take_record put_record map_record
  put_record-take vs r p = elim (Option-cases r.vector) [
    | inl e ↦ rw e
    | inr (v, e) ↦ rw e (rw (found (length vs) v (get_elem?-Prefix all vs (rw e at p))))
  ]

  put_summary-take :
      (vs : List V) (s : Option (RecordIn V))
      → Prefix (take_summary vs s).1 all
      → put_summary row (take_summary vs s).0 ≡ ok (Options.map (map_record g) s)
  unfolding take_summary put_summary
  put_summary-take vs none p = refl
  put_summary-take vs (some r) p = rw (put_record-take vs r p)

  put_chunks-take :
      (vs : List V) (cs : List (ChunkIn V))
      → Prefix (take_chunks vs cs).1 all
      → put_chunks row (take_chunks vs cs).0 ≡ ok (map (map_chunk g) cs)
  unfolding take_chunks put_chunks map_chunk
  put_chunks-take vs [] p = refl
  put_chunks-take vs (c ∷ cs) p =
      let t = take_record vs c.content in
      rw (put_record-take vs c.content (take_chunks-Prefix all t.1 cs p))
        (rw (put_chunks-take t.1 cs p))

  put_documents-take :
      (vs : List V) (ds : List (DocumentIn V))
      → Prefix (take_documents vs ds).1 all
      → put_documents row (take_documents vs ds).0 ≡ ok (map (map_document g) ds)
  unfolding take_documents put_documents map_document
  put_documents-take vs [] p = refl
  put_documents-take vs (d ∷ ds) p =
      let s = take_summary vs d.summary_in in
      let t = take_chunks s.1 d.chunks in
      let after_chunks = take_documents-Prefix all t.1 ds p in
      rw (put_summary-take vs d.summary_in (take_chunks-Prefix all s.1 d.chunks after_chunks))
        (rw (put_chunks-take s.1 d.chunks after_chunks) (rw (put_documents-take t.1 ds p)))

-- Rows that give back the vectors taken give back the payload.
pub put_payload-take :
    {K V W : Type 0} (g : V → W) (p : Payload K V) (row : Place → Result CodecError W)
    → ((i : ℕ) (v : V) → get_elem? (take_payload p).1 i ≡ some v → row (row_index i) ≡ ok (g v))
    → put_payload row (take_payload p).0 ≡ ok (map_payload g p)
unfolding take_payload put_payload map_payload
put_payload-take g p row found = elim (Option-cases p.documents) [
  | inl e ↦ rw e
  | inr (ds, e) ↦ rw e (
      rw (
        put_documents-take g (take_documents [] ds).1 row (rw e at found) [] ds
          ([], sym (append-nil _))))
]
