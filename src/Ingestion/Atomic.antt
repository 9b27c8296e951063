-- ===== src/Ingestion/Atomic.antt =====
-- ingestion/service.py: what a call leaves in the vector store and in the sink.
use agentforgev.Common.{
  ℕ, ◌≡◌, ◌≢◌, refl, ◌∙◌, sym, String, Bool, Bool-cases, true, false, Option, none, some, inl, inr,
  List, [], ◌∷◌, ltb, ◌==◌, number_keys, text_keys, length, map, ap,
}
use agentforgev.Common.Int.{ℤ}
use agentforgev.Chunking.{Chunker, Chunk, MarkdownMode, new_chunker, made, normalize_markdown}
use agentforgev.Chunking.Windows.{rebuilt, chunk_round_trip}
use agentforgev.Ingestion.{
  rollback_failed, stuck, Document, Extraction, extracted, timed_out, unreadable, Found, found,
  not_there, lookup_raised, VectorPort, tenant_upsert, plain_upsert, Ports, Upload,
  IngestionOutcome, returned, raised, is_supported, then_write, upsert, upsert_all, document,
  roll_back, finish_writes, commit, embedded, is_blank, extracted_text, looked_up, find_duplicate,
  ingest,
}

-- How many vectors, and which chunks, a state of the ports holds of each document.
module _ {W C : Type 0} (vectors_of : W → ℕ → ℕ) (records_of : W → ℕ → List (Chunk C)) where
  abbrev pub SameVectors : W → W → Type 0
  SameVectors w w' = (d : ℕ) → vectors_of w' d ≡ vectors_of w d

  abbrev pub SameRecords : W → W → Type 0
  SameRecords w w' = (d : ℕ) → records_of w' d ≡ records_of w d

  abbrev pub OtherVectors : ℕ → W → W → Type 0
  OtherVectors doc w w' = (d : ℕ) → doc ≢ d → vectors_of w' d ≡ vectors_of w d

  abbrev pub OtherRecords : ℕ → W → W → Type 0
  OtherRecords doc w w' = (d : ℕ) → doc ≢ d → records_of w' d ≡ records_of w d

  abbrev pub Same : W → W → Type 0
  Same w w' = SameVectors w w' × SameRecords w w'

  Same-trans : (a b c : W) → Same a b → Same b c → Same a c
  Same-trans a b c h k = ((λ d. k.0 d ∙ h.0 d), (λ d. k.1 d ∙ h.1 d))

  -- Only vectors of one document were written.
  abbrev pub Written : ℕ → W → W → Type 0
  Written doc w w' = OtherVectors doc w w' × SameRecords w w'

  Written-trans : (doc : ℕ) (a b c : W) → Written doc a b → Written doc b c → Written doc a c
  Written-trans doc a b c h k = ((λ d n. k.0 d n ∙ h.0 d n), (λ d. k.1 d ∙ h.1 d))

  then_write-Written :
      (doc : ℕ) (w : W) (x : Bool × W) (f : W → Bool × W)
      → Written doc w x.1
      → ((w1 : W) → Written doc w1 (f w1).1)
      → Written doc w (then_write x f).1
  then_write-Written doc w (true, w1) f h k = Written-trans doc w w1 (f w1).1 h (k w1)
  then_write-Written doc w (false, w1) f h k = h

  -- An upsert writes vectors of its document only.
  abbrev pub Upserts : {V : Type 0} → VectorPort W V → Type 0
  Upserts {V} (tenant_upsert f) =
      (id doc : ℕ) (v : V) (org : ℕ) (w : W) → Written doc w (f id doc v org w).1
  Upserts {V} (plain_upsert f) = (id doc : ℕ) (v : V) (w : W) → Written doc w (f id doc v w).1

  -- A deletion that returns leaves no vector of the document, and no deletion touches another.
  abbrev pub Deleted : ℕ → W → Bool × W → Type 0
  Deleted doc w (true, w') = (vectors_of w' doc ≡ 0) × Written doc w w'
  Deleted doc w (false, w') = Written doc w w'

  -- The sink persists the document and all its chunks, or raises and persists nothing.
  abbrev pub Persisted : ℕ → List (Chunk C) → W → Bool × W → Type 0
  Persisted doc cs w (true, w') =
      SameVectors w w' × (records_of w' doc ≡ cs) × OtherRecords doc w w'
  Persisted doc cs w (false, w') = Same w w'

  abbrev pub FindsQuietly : Option (ℕ → String → W → Found × W) → Type 0
  FindsQuietly none = Unit
  FindsQuietly (some find) = (org : ℕ) (h : String) (w : W) → Same w (find org h w).1

  module _ {V B : Type 0} (p : Ports W V B C) (plain : List C → List C) (chunker : Chunker)
      (u : Upload B) where
    -- What the sink holds of the document rebuilds the text that was extracted from the bytes.
    abbrev pub HoldsText : W → Type 0
    HoldsText w' =
        (w1 : W) × (text : List C) × ((p.extract u.content_type u.bytes w1).0 ≡ extracted text)
        × (rebuilt (records_of w' u.new_document_id)
            ≡ normalize_markdown plain chunker.markdown_mode text)

    abbrev pub IsStored : W → ℕ → Bool → W → Type 0
    IsStored w n true w' = Same w w'
    IsStored w n false w' =
        OtherVectors u.new_document_id w w'
        × OtherRecords u.new_document_id w w'
        × (n ≡ length (records_of w' u.new_document_id))
        × HoldsText w'

    abbrev pub IsAtomic : W → IngestionOutcome × W → Type 0
    IsAtomic w (returned r, w') = IsStored w r.chunk_count r.duplicate w'
    IsAtomic w (raised rollback_failed, w') = Written u.new_document_id w w'
    IsAtomic w (raised stuck, w') = ⊥
    IsAtomic w (raised e, w') = Same w w'

  module _ {V B : Type 0} (p : Ports W V B C) (plain : List C → List C) (max_chars overlap : ℤ)
      (mode : MarkdownMode) (chunker : Chunker)
      (constructed : new_chunker max_chars overlap mode ≡ made chunker)
      (finds : FindsQuietly p.find_by_content_hash)
      (extracts : (t : String) (bytes : List B) (w : W) → Same w (p.extract t bytes w).1)
      (embeds : (texts : List (List C)) (w : W) → Same w (p.embed_batch texts w).1)
      (upserts : Upserts p.vectors)
      (deletes : (doc : ℕ) (w : W) → Deleted doc w (p.delete_document doc w))
      (persists : (org : ℕ) (d : Document) (cs : List (Chunk C)) (w : W)
        → Persisted d.id cs w (p.persist org d cs w))
      (max_document_bytes : ℕ) (u : Upload B) where
    upsert_law :
        (port : VectorPort W V)
        → Upserts port
        → (c : Chunk C) (v : V) (w : W)
        → Written u.new_document_id w (upsert p chunker plain max_document_bytes u port c v w).1
    upsert_law (tenant_upsert f) h c v w = h c.id u.new_document_id v u.org_id w
    upsert_law (plain_upsert f) h c v w = h c.id u.new_document_id v w

    upsert_all_law :
        (cs : List (Chunk C)) (vs : List V) (w : W)
        → Written u.new_document_id w (upsert_all p chunker plain max_document_bytes u cs vs w).1
    upsert_all_law [] vs w = ((λ d n. refl), (λ d. refl))
    upsert_all_law (c ∷ cs) [] w = ((λ d n. refl), (λ d. refl))
    upsert_all_law (c ∷ cs) (v ∷ vs) w =
        then_write-Written u.new_document_id w
          (upsert p chunker plain max_document_bytes u p.vectors c v w)
          (λ w1. upsert_all p chunker plain max_document_bytes u cs vs w1)
          (upsert_law p.vectors upserts c v w) (λ w1. upsert_all_law cs vs w1)

    module _ (w0 : W) (new : vectors_of w0 u.new_document_id ≡ 0) where
      -- Once only vectors of the new document are written, deleting them undoes it all.
      roll_back-IsAtomic :
          (w : W) (x : Bool × W)
          → Written u.new_document_id w0 w
          → Deleted u.new_document_id w x
          → IsAtomic p plain chunker u w0 (roll_back p chunker plain max_document_bytes u x)
      roll_back-IsAtomic w (false, w') h d = Written-trans u.new_document_id w0 w w' h d
      roll_back-IsAtomic w (true, w') h (none_left, d) =
          let t = Written-trans u.new_document_id w0 w w' h d in
          (
            (λ k. elim (Bool-cases (u.new_document_id == k)) [
              | inl same ↦
                  (let q : u.new_document_id ≡ k =
                      (number_keys.equals_iff u.new_document_id k).0 same in
                    rw (← q) (none_left ∙ sym new))
              | inr other ↦
                  t.0 k (λ q. cc (other, (number_keys.equals_iff u.new_document_id k).1 q))
            ]),
            t.1,
          )

      finish_writes-IsAtomic :
          (cs : List (Chunk C)) (x : Bool × W)
          → (text : List C) (w1 : W) → (p.extract u.content_type u.bytes w1).0 ≡ extracted text
          → rebuilt cs ≡ normalize_markdown plain chunker.markdown_mode text
          → (w : W) → Written u.new_document_id w0 w
          → Persisted u.new_document_id cs w x
          → IsAtomic p plain chunker u w0 (finish_writes p chunker plain max_document_bytes u cs x)
      finish_writes-IsAtomic cs (true, w') text w1 e r w h k = (
        (λ d n. k.0 d ∙ h.0 d n),
        (λ d n. k.2 d n ∙ h.1 d),
        ap length (sym k.1),
        (w1, text, e, ap rebuilt k.1 ∙ r),
      )
      finish_writes-IsAtomic cs (false, w') text w1 e r w h k =
          roll_back-IsAtomic w' (p.delete_document u.new_document_id w')
            (Written-trans u.new_document_id w0 w w' h ((λ d n. k.0 d), k.1))
            (deletes u.new_document_id w')

      commit-IsAtomic :
          (cs : List (Chunk C)) (vs : List V) (w : W) (text : List C) (w1 : W)
          → (p.extract u.content_type u.bytes w1).0 ≡ extracted text
          → rebuilt cs ≡ normalize_markdown plain chunker.markdown_mode text
          → Same w0 w
          → IsAtomic p plain chunker u w0 (commit p chunker plain max_document_bytes u cs vs w)
      commit-IsAtomic cs vs w text w1 e r h =
          written (upsert_all p chunker plain max_document_bytes u cs vs w) (
            Written-trans u.new_document_id w0 w
              (upsert_all p chunker plain max_document_bytes u cs vs w).1 ((λ d n. h.0 d), h.1)
              (upsert_all_law cs vs w))
        where
          written :
              (x : Bool × W)
              → Written u.new_document_id w0 x.1
              → IsAtomic p plain chunker u w0 (
                  finish_writes p chunker plain max_document_bytes u cs (
                    then_write x (λ w2.
                      p.persist u.org_id (document p chunker plain max_document_bytes u) cs w2)))
          written (false, w2) k =
              roll_back-IsAtomic w2 (p.delete_document u.new_document_id w2) k
                (deletes u.new_document_id w2)
          written (true, w2) k =
              finish_writes-IsAtomic cs
                (p.persist u.org_id (document p chunker plain max_document_bytes u) cs w2) text w1 e
                r w2 k (persists u.org_id (document p chunker plain max_document_bytes u) cs w2)

      embedded-IsAtomic :
          (cs : List (Chunk C)) (x : Option (List V) × W) (text : List C) (w1 : W)
          → (p.extract u.content_type u.bytes w1).0 ≡ extracted text
          → rebuilt cs ≡ normalize_markdown plain chunker.markdown_mode text
          → Same w0 x.1
          → IsAtomic p plain chunker u w0 (embedded p chunker plain max_document_bytes u cs x)
      embedded-IsAtomic cs (none, w) text w1 e r h = h
      embedded-IsAtomic cs (some vs, w) text w1 e r h = commit-IsAtomic cs vs w text w1 e r h

      extracted_text-IsAtomic :
          (w1 : W) (x : Extraction C × W)
          → (p.extract u.content_type u.bytes w1).0 ≡ x.0
          → Same w0 x.1
          → IsAtomic p plain chunker u w0 (extracted_text p chunker plain max_document_bytes u x)
      extracted_text-IsAtomic w1 (timed_out, w) e h = h
      extracted_text-IsAtomic w1 (unreadable, w) e h = h
      extracted_text-IsAtomic w1 (extracted text, w) e h =
          elim (Bool-cases (is_blank p chunker plain max_document_bytes u text)) [
            | inl q ↦ rw q h
            | inr q ↦
                (let (cs, made_of, numbered, overlaps, r, one) =
                    chunk_round_trip plain max_chars overlap mode chunker constructed u.new_chunk_id
                      u.new_document_id text in
                  rw q (
                    rw made_of (
                      embedded-IsAtomic cs (p.embed_batch (map (λ c. c.content) cs) w) text w1 e r (
                        Same-trans w0 w (p.embed_batch (map (λ c. c.content) cs) w).1 h
                          (embeds (map (λ c. c.content) cs) w)))))
          ]

      looked_up-IsAtomic :
          (x : Found × W)
          → Same w0 x.1
          → IsAtomic p plain chunker u w0 (looked_up p chunker plain max_document_bytes u x)
      looked_up-IsAtomic (lookup_raised, w) h = h
      looked_up-IsAtomic (found d, w) h = h
      looked_up-IsAtomic (not_there, w) h =
          extracted_text-IsAtomic w (p.extract u.content_type u.bytes w) refl (
            Same-trans w0 w (p.extract u.content_type u.bytes w).1 h
              (extracts u.content_type u.bytes w))

      find_duplicate-Same :
          (port : Option (ℕ → String → W → Found × W))
          → FindsQuietly port
          → Same w0 (find_duplicate p chunker plain max_document_bytes u port w0).1
      find_duplicate-Same none h = ((λ d. refl), (λ d. refl))
      find_duplicate-Same (some find) h = h u.org_id (p.sha256 u.bytes) w0

      -- Suppose that lookups, extraction and embedding write nothing, an upsert writes vectors of its document
      -- only, the sink persists all or raises and persists nothing, a deletion that returns leaves no vector of
      -- the document, and the new identifier has no vectors yet. Then a call always ends, and it returns or
      -- raises. When it reports a duplicate, or raises for whatever reason (but for a failed deletion), the
      -- vectors and the records of every document are what they were. When it reports a new document, the sink
      -- holds as many chunks of it as the result says, which rebuild the text extracted from the bytes; and
      -- no other document has changed. Only if the deletion fails too may vectors of the new document be left.
      pub ingest-IsAtomic :
          IsAtomic p plain chunker u w0 (ingest p chunker plain max_document_bytes u w0)
      unfolding ingest
      ingest-IsAtomic =
          let same : Same w0 w0 = ((λ d. refl), (λ d. refl)) in
          elim (Bool-cases (ltb max_document_bytes (length u.bytes))) [
            | inl q ↦ rw q same
            | inr q ↦ rw q (elim (Bool-cases (is_supported u.content_type)) [
              | inr r ↦ rw r same
              | inl r ↦ rw r (elim (Bool-cases (length u.bytes == 0)) [
                | inl e ↦ rw e same
                | inr e ↦ rw e (
                    looked_up-IsAtomic
                      (find_duplicate p chunker plain max_document_bytes u p.find_by_content_hash
                        w0)
                      (find_duplicate-Same p.find_by_content_hash finds))
              ])
            ])
          ]
