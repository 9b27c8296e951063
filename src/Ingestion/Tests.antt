-- ===== src/Ingestion/Tests.antt =====
-- Runs of ingestion/service.py over ports that keep what they are given in lists.
use agentforgev.Common.{
  ℕ, ◌+◌, ◌≡◌, ◌≢◌, refl, Bool, true, false, none, some, List, [], ◌∷◌, ◌==◌, number_keys,
  if◌then◌else◌, arith,
}
use agentforgev.Common.Int.{pos}
use agentforgev.Chunking.{Chunker, Chunk, preserve, made, new_chunker, chunk}
use agentforgev.Ingestion.{
  Document, extracted, plain_upsert, Ports, Upload, ingest, raised, write_failed,
}
use agentforgev.Ingestion.Atomic.{IsAtomic, ingest-IsAtomic}

-- The number of vectors of each document, and its chunks.
abbrev Kept : Type 0
Kept = (ℕ → ℕ) × (ℕ → List (Chunk ℕ))

abbrev update {ℓ} : {A : Type ℓ} → (ℕ → A) → ℕ → A → ℕ → A
update f k v j = if k == j then v else f j

abbrev is_full : Bool → ℕ → Document → List (Chunk ℕ) → Kept → Bool × Kept
is_full true org d cs w = (false, w)
is_full false org d cs w = (true, (w.0, update w.1 d.id cs))

-- A sink that raises if `full` says so.
abbrev ports : Bool → Ports Kept ℕ ℕ ℕ
ports full = record {
  sha256 = λ bytes. "hash";
  find_by_content_hash = none;
  extract = λ t bytes w. (extracted bytes, w);
  is_space = λ c. c == 32;
  embed_batch = λ texts w. (some (1 ∷ 2 ∷ []), w);
  vectors = plain_upsert (λ id doc v w. (true, (update w.0 doc (w.0 doc + 1), w.1)));
  delete_document = λ doc w. (true, (update w.0 doc 0, w.1));
  persist = is_full full;
}

abbrev chunker : Chunker
chunker = record { max_chars = 4; overlap = 1; markdown_mode = preserve }

abbrev upload : Upload ℕ
upload = record {
  filename = "a.txt";
  content_type = "text/plain";
  bytes = 1 ∷ 2 ∷ 3 ∷ 4 ∷ 5 ∷ [];
  org_id = 7;
  new_document_id = 9;
  new_chunk_id = λ i. 100 + i;
  now = 50;
}

abbrev nothing : Kept
nothing = ((λ d. 0), (λ d. []))

update_other {ℓ} : {A : Type ℓ} (f : ℕ → A) (k : ℕ) (v : A) (j : ℕ) → k ≢ j → update f k v j ≡ f j
update_other f k v j n = ground (arith, n)

update_self {ℓ} : {A : Type ℓ} (f : ℕ → A) (k : ℕ) (v : A) → update f k v k ≡ v
update_self f k v = ground arith

made_so : new_chunker (pos 4) (pos 1) preserve ≡ made chunker
unfolding new_chunker
made_so = refl

ingest-IsAtomic_example :
    IsAtomic
      (λ w. w.0)
      (λ w. w.1)
      (ports true)
      (λ t. t)
      chunker
      upload
      nothing
      (ingest (ports true) chunker (λ t. t) 1000 upload nothing)
ingest-IsAtomic_example =
    ingest-IsAtomic (λ w. w.0) (λ w. w.1) (ports true) (λ t. t) (pos 4) (pos 1) preserve chunker
      made_so tt (λ t bytes w. ((λ d. refl), (λ d. refl))) (λ texts w. ((λ d. refl), (λ d. refl)))
      (λ id doc v w. ((λ d n. update_other w.0 doc _ d n), (λ d. refl)))
      (λ doc w. (update_self w.0 doc 0, ((λ d n. update_other w.0 doc _ d n), (λ d. refl))))
      (λ org d cs w. ((λ k. refl), (λ k. refl))) 1000 upload nothing refl

raises_and_rolls_back :
    (ingest (ports true) chunker (λ t. t) 1000 upload nothing).0 ≡ raised write_failed
unfolding ingest chunk
raises_and_rolls_back = refl

no_vectors_left : (ingest (ports true) chunker (λ t. t) 1000 upload nothing).1.0 9 ≡ 0
unfolding ingest chunk
no_vectors_left = refl
