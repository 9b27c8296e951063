-- ===== src/Ingestion.antt =====
-- ingestion/service.py: the pipeline from the bytes of a document to its vectors and its records. The ports are
-- over a state `W` of theirs: the sink, the vector store, the embedding provider and the extractors.
pub mod Atomic
mod Tests
use agentforgev.Common.{
  ℕ, String, Bool, true, false, not, ◌||◌, Option, none, some, List, [], ◌∷◌, ltb, ◌==◌,
  number_keys, text_keys, length, map, if◌then◌else◌,
}
use agentforgev.Chunking.{Chunker, Chunk, chunk}

-- What the service raises; the last three stand for what the ports raise, and for a chunker that never ends.
pub data IngestionError : Type 0 where
  size_limit unsupported_format empty_document extraction_timeout extraction_failed : IngestionError
  lookup_failed embedding_failed write_failed rollback_failed stuck : IngestionError

pub record IngestionResult : Type 0 where
  pub document_id : ℕ
  pub filename : String
  pub chunk_count : ℕ
  pub status : String
  pub duplicate : Bool

pub record Document : Type 0 where
  pub id : ℕ
  pub filename : String
  pub content_type : String
  pub size_bytes : ℕ
  pub status : String
  pub created_at : ℕ
  pub content_hash : String

pub record DocumentListing : Type 0 where
  pub document_id : ℕ
  pub filename : String
  pub status : String
  pub chunk_count : ℕ

pub data Extraction (C : Type 0) : Type 0 where
  extracted : List C → Extraction C
  timed_out unreadable : Extraction C

pub data Found : Type 0 where
  found : DocumentListing → Found
  not_there lookup_raised : Found

-- The vector store with `upsert_for_org`, or without it. `false` says that a call raised.
pub data VectorPort (W V : Type 0) : Type 0 where
  tenant_upsert : (ℕ → ℕ → V → ℕ → W → Bool × W) → VectorPort W V
  plain_upsert : (ℕ → ℕ → V → W → Bool × W) → VectorPort W V

pub record Ports (W V B C : Type 0) : Type 0 where
  pub sha256 : List B → String
  pub find_by_content_hash : Option (ℕ → String → W → Found × W)
  pub extract : String → List B → W → Extraction C × W
  pub is_space : C → Bool
  pub embed_batch : List (List C) → W → Option (List V) × W
  pub vectors : VectorPort W V
  pub delete_document : ℕ → W → Bool × W
  pub persist : ℕ → Document → List (Chunk C) → W → Bool × W

-- The arguments of a call, with the identifiers and the time that it draws.
pub record Upload (B : Type 0) : Type 0 where
  pub filename : String
  pub content_type : String
  pub bytes : List B
  pub org_id : ℕ
  pub new_document_id : ℕ
  pub new_chunk_id : ℕ → ℕ
  pub now : ℕ

pub data IngestionOutcome : Type 0 where
  returned : IngestionResult → IngestionOutcome
  raised : IngestionError → IngestionOutcome

abbrev pub is_supported : String → Bool
is_supported t = (t == "text/plain") || (t == "application/pdf") || (t == "text/markdown")

abbrev pub existing_result : DocumentListing → IngestionResult
existing_result d = record {
  document_id = d.document_id;
  filename = d.filename;
  chunk_count = d.chunk_count;
  status = d.status;
  duplicate = true;
}

-- One write after another, up to the first that raises.
abbrev pub then_write : {W : Type 0} → Bool × W → (W → Bool × W) → Bool × W
then_write (true, w) f = f w
then_write (false, w) f = (false, w)

module _ {W V B C : Type 0} (p : Ports W V B C) (chunker : Chunker) (plain : List C → List C)
    (max_document_bytes : ℕ) (u : Upload B) where
  abbrev pub upsert : VectorPort W V → Chunk C → V → W → Bool × W
  upsert (tenant_upsert f) c v w = f c.id u.new_document_id v u.org_id w
  upsert (plain_upsert f) c v w = f c.id u.new_document_id v w

  -- for chunk, vector in zip(chunks, vectors)
  abbrev pub upsert_all : List (Chunk C) → List V → W → Bool × W
  upsert_all [] vs w = (true, w)
  upsert_all (c ∷ cs) [] w = (true, w)
  upsert_all (c ∷ cs) (v ∷ vs) w = then_write (upsert p.vectors c v w) (λ w1. upsert_all cs vs w1)

  abbrev pub document : Document
  document = record {
    id = u.new_document_id;
    filename = u.filename;
    content_type = u.content_type;
    size_bytes = length u.bytes;
    status = "ingested";
    created_at = u.now;
    content_hash = p.sha256 u.bytes;
  }

  abbrev pub roll_back : Bool × W → IngestionOutcome × W
  roll_back (true, w) = (raised write_failed, w)
  roll_back (false, w) = (raised rollback_failed, w)

  -- The `except` clause, and the result behind it.
  abbrev pub finish_writes : List (Chunk C) → Bool × W → IngestionOutcome × W
  finish_writes cs (false, w) = roll_back (p.delete_document u.new_document_id w)
  finish_writes cs (true, w) = (
    returned record {
      document_id = u.new_document_id;
      filename = u.filename;
      chunk_count = length cs;
      status = "ingested";
      duplicate = false;
    },
    w,
  )

  abbrev pub commit : List (Chunk C) → List V → W → IngestionOutcome × W
  commit cs vs w =
      finish_writes cs (then_write (upsert_all cs vs w) (λ w1. p.persist u.org_id document cs w1))

  abbrev pub embedded : List (Chunk C) → Option (List V) × W → IngestionOutcome × W
  embedded cs (none, w) = (raised embedding_failed, w)
  embedded cs (some vs, w) = commit cs vs w

  abbrev pub chunked : Option (List (Chunk C)) → W → IngestionOutcome × W
  chunked none w = (raised stuck, w)
  chunked (some cs) w = embedded cs (p.embed_batch (map (λ c. c.content) cs) w)

  -- not text.strip()
  abbrev pub is_blank : List C → Bool
  is_blank [] = true
  is_blank (c ∷ cs) = if p.is_space c then is_blank cs else false

  abbrev pub extracted_text : Extraction C × W → IngestionOutcome × W
  extracted_text (timed_out, w) = (raised extraction_timeout, w)
  extracted_text (unreadable, w) = (raised extraction_failed, w)
  extracted_text (extracted text, w) =
      if is_blank text
      then (raised empty_document, w)
      else chunked (chunk plain chunker u.new_chunk_id u.new_document_id text) w

  abbrev pub looked_up : Found × W → IngestionOutcome × W
  looked_up (lookup_raised, w) = (raised lookup_failed, w)
  looked_up (found d, w) = (returned (existing_result d), w)
  looked_up (not_there, w) = extracted_text (p.extract u.content_type u.bytes w)

  abbrev pub find_duplicate : Option (ℕ → String → W → Found × W) → W → Found × W
  find_duplicate none w = (not_there, w)
  find_duplicate (some find) w = find u.org_id (p.sha256 u.bytes) w

  unfoldable pub ingest : W → IngestionOutcome × W
  ingest w =
      if ltb max_document_bytes (length u.bytes)
      then (raised size_limit, w)
      else if not (is_supported u.content_type)
      then (raised unsupported_format, w)
      else if length u.bytes == 0
      then (raised empty_document, w)
      else looked_up (find_duplicate p.find_by_content_hash w)
