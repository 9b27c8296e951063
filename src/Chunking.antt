-- ===== src/Chunking.antt =====
-- chunking/chunker.py: the sliding window over the characters of a text. A text is the list of its
-- characters. Rendering Markdown to plain text, which the code does with a library, is a parameter.
pub mod Slices
pub mod Windows
mod Tests
use agentforgev.Common.{
  ℕ, zero, suc, ◌+◌, ◌-◌, min, Bool, true, false, Option, none, some, List, [], ◌∷◌, leb, ltb, ◌==◌,
  number_keys, length, take, drop, if◌then◌else◌,
}
use agentforgev.Common.Int.{ℤ, pos, negsuc}

pub data MarkdownMode : Type 0 where
  preserve strip : MarkdownMode

pub record Chunker : Type 0 where
  pub max_chars : ℕ
  pub overlap : ℕ
  pub markdown_mode : MarkdownMode

pub data ChunkerError : Type 0 where
  max_not_positive overlap_negative overlap_too_large : ChunkerError

pub data NewChunker : Type 0 where
  made : Chunker → NewChunker
  refused : ChunkerError → NewChunker

-- The constructor, with its three refusals in the order of the code.
unfoldable pub new_chunker : ℤ → ℤ → MarkdownMode → NewChunker
new_chunker (negsuc m) overlap mode = refused max_not_positive
new_chunker (pos zero) overlap mode = refused max_not_positive
new_chunker (pos (suc m)) (negsuc o) mode = refused overlap_negative
new_chunker (pos (suc m)) (pos o) mode =
    if leb (suc m) o
    then refused overlap_too_large
    else made (record { max_chars = suc m; overlap = o; markdown_mode = mode })

pub record Chunk (C : Type 0) : Type 0 where
  pub id : ℕ
  pub document_id : ℕ
  pub index : ℕ
  pub content : List C
  pub overlap_prev : ℕ

abbrev pub cons_to {ℓ} : {A : Type ℓ} → A → Option (List A) → Option (List A)
cons_to x none = none
cons_to x (some xs) = some (x ∷ xs)

module _ {C : Type 0} where
  -- text[start:end], with start ≤ end
  abbrev pub slice : ℕ → ℕ → List C → List C
  slice start stop text = take (stop - start) (drop start text)

  -- `normalize_markdown`, given what rendering and extraction make of a text that is not empty.
  unfoldable pub normalize_markdown : (List C → List C) → MarkdownMode → List C → List C
  normalize_markdown plain preserve text = text
  normalize_markdown plain strip [] = []
  normalize_markdown plain strip (x ∷ xs) = plain (x ∷ xs)

  -- The loop of `chunk`, on fuel. `new_id` gives the id that `uuid4` makes for the chunk of an index.
  abbrev pub windows : ℕ → Chunker → (ℕ → ℕ) → ℕ → List C → ℕ → ℕ → ℕ → Option (List (Chunk C))
  windows zero c new_id doc text start index prev_end = none
  windows (suc fuel) c new_id doc text start index prev_end =
      let stop = min (start + c.max_chars) (length text) in
      let here : Chunk C = record {
        id = new_id index;
        document_id = doc;
        index = index;
        content = slice start stop text;
        overlap_prev = if index == 0 then 0 else prev_end - start;
      } in
      let rest =
        windows fuel c new_id doc text (start + (c.max_chars - c.overlap)) (index + 1) stop in
      if stop == length text then some (here ∷ []) else cons_to here rest

  -- `chunk`, of a text that is normalized.
  abbrev pub chunk_normalized : Chunker → (ℕ → ℕ) → ℕ → List C → Option (List (Chunk C))
  chunk_normalized c new_id doc text =
      if leb (length text) c.max_chars
      then some (
          record { id = new_id 0; document_id = doc; index = 0; content = text; overlap_prev = 0 }
          ∷ [])
      else windows (suc (length text)) c new_id doc text 0 0 0

  -- `none` when the fuel runs out.
  unfoldable pub chunk :
      (List C → List C) → Chunker → (ℕ → ℕ) → ℕ → List C → Option (List (Chunk C))
  unfolding normalize_markdown
  chunk plain c new_id doc text =
      chunk_normalized c new_id doc (normalize_markdown plain c.markdown_mode text)
