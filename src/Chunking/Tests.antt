-- ===== src/Chunking/Tests.antt =====
-- A text of seven characters, numbers standing for them, in the windows of chunking/chunker.py.
use agentforgev.Common.{ℕ, ◌≤◌, ◌≡◌, refl, some, List, [], ◌∷◌, length}
use agentforgev.Common.Int.{pos}
use agentforgev.Chunking.{Chunker, Chunk, preserve, new_chunker, made, chunk, normalize_markdown}
use agentforgev.Chunking.Windows.{IsNumbered, AllOverlap, rebuilt, chunk_round_trip}

abbrev chunker : Chunker
chunker = record { max_chars = 4; overlap = 1; markdown_mode = preserve }

abbrev seven : List ℕ
seven = 1 ∷ 2 ∷ 3 ∷ 4 ∷ 5 ∷ 6 ∷ 7 ∷ []

constructs : new_chunker (pos 4) (pos 1) preserve ≡ made chunker
unfolding new_chunker
constructs = refl

cuts :
    chunk (λ t. t) chunker (λ i. i) 9 seven
    ≡ some (
        record {
          id = 0;
          document_id = 9;
          index = 0;
          content = 1 ∷ 2 ∷ 3 ∷ 4 ∷ [];
          overlap_prev = 0;
        }
        ∷ record {
          id = 1;
          document_id = 9;
          index = 1;
          content = 4 ∷ 5 ∷ 6 ∷ 7 ∷ [];
          overlap_prev = 1;
        }
        ∷ [])
unfolding chunk
cuts = refl

chunk_round_trip_example :
    let whole = normalize_markdown (λ t. t) preserve seven in
    (xs : List (Chunk ℕ)) × (chunk (λ t. t) chunker (λ i. i) 9 seven ≡ some xs)
    × IsNumbered chunker 9 0 xs
    × AllOverlap chunker xs
    × (rebuilt xs ≡ whole)
    × (length whole ≤ 4 → length xs ≡ 1)
chunk_round_trip_example =
    chunk_round_trip (λ t. t) (pos 4) (pos 1) preserve chunker constructs (λ i. i) 9 seven
