-- ===== src/Chunking/Windows.antt =====
-- The windows that chunking/chunker.py cuts from a text.
use agentforgev.Common.{
  append_nil, ℕ, zero, suc, ◌+◌, ◌-◌, ◌≤◌, ◌<◌, ◌≡◌, ◌⊎◌, ◌∙◌, inl, inr, refl, sym, ap, min, Option,
  some, List, [], ◌∷◌, ◌++◌, arith, leb, ◌==◌, number_keys, length, take, drop, Bool-cases,
  if◌then◌else◌,
}
use agentforgev.Chunking.{
  Chunker, Chunk, slice, windows, cons_to, chunk, chunk_normalized, normalize_markdown,
  MarkdownMode, new_chunker, made,
}
use agentforgev.Common.Int.{ℤ, pos, negsuc}
use agentforgev.Chunking.Slices.{slice_then_rest, length-slice, slices_overlap, drop-all}

-- What the constructor admits.
pub record IsValid (c : Chunker) : Type 0 where
  pub max_positive : 0 < c.max_chars
  pub overlap_small : c.overlap < c.max_chars

module _ {C : Type 0} where
  -- The chunks put together again, each without its overlap.
  abbrev pub rebuilt : List (Chunk C) → List C
  rebuilt [] = []
  rebuilt (x ∷ xs) = drop x.overlap_prev x.content ++ rebuilt xs

  -- Chunks of one document, numbered from `i`, none too long.
  abbrev pub IsNumbered : Chunker → ℕ → ℕ → List (Chunk C) → Type 0
  IsNumbered c doc i [] = Unit
  IsNumbered c doc i (x ∷ xs) =
      (x.index ≡ i)
      × (x.document_id ≡ doc)
      × (length x.content ≤ c.max_chars)
      × IsNumbered c doc (i + 1) xs

  -- Behind the chunk `x`, every chunk begins with the last characters of the one before it.
  abbrev pub Overlaps : Chunker → Chunk C → List (Chunk C) → Type 0
  Overlaps c x [] = Unit
  Overlaps c x (y ∷ ys) =
      (y.overlap_prev ≡ c.overlap)
      × (take c.overlap y.content ≡ drop (length x.content - c.overlap) x.content)
      × Overlaps c y ys

  abbrev pub AllOverlap : Chunker → List (Chunk C) → Type 0
  AllOverlap c [] = Unit
  AllOverlap c (x ∷ xs) = (x.overlap_prev ≡ 0) × Overlaps c x xs

  module _ (c : Chunker) (valid : IsValid c) (new_id : ℕ → ℕ) (doc : ℕ) (text : List C) where
    -- The loop's variables: the start of a window, its index, and the end of the window before.
    abbrev IsAt : ℕ → ℕ → ℕ → Type 0
    IsAt start index prev_end =
        (start < length text)
        × (prev_end ≤ length text)
        × (((index ≡ 0) × (start ≡ 0) × (prev_end ≡ 0))
            ⊎ ((0 < index) × (prev_end ≡ start + c.overlap) × (prev_end < length text)))

    abbrev window : ℕ → ℕ → ℕ → Chunk C
    window start index prev_end = record {
      id = new_id index;
      document_id = doc;
      index = index;
      content = slice start (min (start + c.max_chars) (length text)) text;
      overlap_prev = if index == 0 then 0 else prev_end - start;
    }

    -- What the loop makes of its variables.
    abbrev Cut : ℕ → ℕ → ℕ → Option (List (Chunk C)) → Type 0
    Cut start index prev_end o =
        (xs : List (Chunk C)) × (o ≡ some (window start index prev_end ∷ xs))
        × IsNumbered c doc (index + 1) xs
        × Overlaps c (window start index prev_end) xs
        × (rebuilt (window start index prev_end ∷ xs) ≡ drop prev_end text)

    next-IsAt :
        (start index prev_end : ℕ)
        → IsAt start index prev_end
        → start + c.max_chars < length text
        → IsAt (start + (c.max_chars - c.overlap)) (index + 1) (start + c.max_chars)
    next-IsAt start index prev_end h more =
        let small = valid.overlap_small in
        (omega arith, omega arith, inr (omega arith, omega arith, omega arith))

    window_overlap :
        (start index prev_end : ℕ)
        → IsAt start index prev_end
        → start + (window start index prev_end).overlap_prev ≡ prev_end
    window_overlap start index prev_end h = ground arith

    rebuilt_window :
        (start index prev_end : ℕ) (rest : List C)
        → IsAt start index prev_end
        → rest ≡ drop (min (start + c.max_chars) (length text)) text
        → drop (window start index prev_end).overlap_prev (window start index prev_end).content
            ++ rest
          ≡ drop prev_end text
    rebuilt_window start index prev_end rest h e =
        let o = (window start index prev_end).overlap_prev in
        let q = window_overlap start index prev_end h in
        let small = valid.overlap_small in
        let fits : start + o ≤ min (start + c.max_chars) (length text) = ground arith in
        ap (λ r. drop o (window start index prev_end).content ++ r) e
        ∙ slice_then_rest start o (min (start + c.max_chars) (length text)) text fits
        ∙ ap (λ k. drop k text) q

    length-window :
        (start index prev_end : ℕ)
        → start < length text
        → length (window start index prev_end).content ≤ c.max_chars
    length-window start index prev_end h =
        let e = length-slice start (min (start + c.max_chars) (length text)) text (omega arith) in
        omega (arith, e)

    window_repeats :
        (start index prev_end index' prev_end' : ℕ)
        → start + c.max_chars < length text
        → take c.overlap (window (start + (c.max_chars - c.overlap)) index' prev_end').content
          ≡ drop
              (length (window start index prev_end).content - c.overlap)
              (window start index prev_end).content
    window_repeats start index prev_end index' prev_end' more =
        let small = valid.overlap_small in
        let stop = min (start + c.max_chars) (length text) in
        let start' = start + (c.max_chars - c.overlap) in
        let stop' = min (start' + c.max_chars) (length text) in
        let whole = length-slice start stop text (omega arith) in
        let width : start' - start ≡ length (slice start stop text) - c.overlap =
          omega (arith, whole) in
        slices_overlap start stop start' stop' c.overlap text (omega arith) (omega arith)
          (omega arith)
        ∙ ap (λ k. drop k (slice start stop text)) width

    -- The windows from `start` on, by the distance to the end of the text.
    windows-Cut :
        (fuel start index prev_end : ℕ)
        → IsAt start index prev_end
        → length text - start < fuel
        → Cut start index prev_end (windows fuel c new_id doc text start index prev_end)
    windows-Cut zero start index prev_end h enough = absurd (omega arith)
    windows-Cut (suc fuel) start index prev_end h enough =
        let stop = min (start + c.max_chars) (length text) in
        elim (Bool-cases (stop == length text)) [
          | inl last ↦
              (let all : drop stop text ≡ [] = drop-all stop text (ground arith) in
                rw last ([], refl, tt, tt, rebuilt_window start index prev_end [] h (sym all)))
          | inr more ↦
              (let inside : start + c.max_chars < length text = ground arith in
                let is_stop : stop ≡ start + c.max_chars = ground arith in
                let small = valid.overlap_small in
                let next = next-IsAt start index prev_end h inside in
                let (xs, e, numbered, overlaps, whole) =
                  windows-Cut fuel (start + (c.max_chars - c.overlap)) (index + 1) stop
                    (rw is_stop next) (omega arith) in
                let here = window start index prev_end in
                let w = window (start + (c.max_chars - c.overlap)) (index + 1) stop in
                rw more (
                  w ∷ xs,
                  ap (cons_to here) e,
                  (
                    refl,
                    refl,
                    length-window (start + (c.max_chars - c.overlap)) (index + 1) stop next.0,
                    numbered,
                  ),
                  (
                    ground arith,
                    window_repeats start index prev_end (index + 1) stop inside,
                    overlaps,
                  ),
                  rebuilt_window start index prev_end (rebuilt (w ∷ xs)) h whole,
                ))
        ]

    chunk_normalized_cut :
        (xs : List (Chunk C)) × (chunk_normalized c new_id doc text ≡ some xs)
        × IsNumbered c doc 0 xs
        × AllOverlap c xs
        × (rebuilt xs ≡ text)
        × (length text ≤ c.max_chars → length xs ≡ 1)
    chunk_normalized_cut =
        let positive = valid.max_positive in
        elim (Bool-cases (leb (length text) c.max_chars)) [
          | inl one ↦
              rw one
                (_, refl, (refl, refl, ground arith, tt), (refl, tt), append_nil text, (λ h. refl))
          | inr more ↦
              (let long : c.max_chars < length text = ground arith in
                let (xs, e, numbered, overlaps, whole) =
                  windows-Cut (suc (length text)) 0 0 0
                    (omega arith, omega arith, inl (refl, refl, refl)) (omega arith) in
                rw more (
                  window 0 0 0 ∷ xs,
                  e,
                  (refl, refl, length-window 0 0 0 (omega arith), numbered),
                  (refl, overlaps),
                  whole,
                  (λ h. absurd (omega arith)),
                ))
        ]

new_chunker-IsValid :
    (max_chars overlap : ℤ) (mode : MarkdownMode) (c : Chunker)
    → new_chunker max_chars overlap mode ≡ made c
    → IsValid c
unfolding new_chunker
new_chunker-IsValid (negsuc m) overlap mode c h = cc
new_chunker-IsValid (pos zero) overlap mode c h = cc
new_chunker-IsValid (pos (suc m)) (negsuc o) mode c h = cc
new_chunker-IsValid (pos (suc m)) (pos o) mode c h = elim (Bool-cases (leb (suc m) o)) [
  | inl large ↦ (let q = rw large at h in cc)
  | inr small ↦
      (let c' : Chunker = record { max_chars = suc m; overlap = o; markdown_mode = mode } in
        let q : made c' ≡ made c = rw small at h in
        let e : c' ≡ c = cc in
        rw (← e) (record { max_positive = omega arith; overlap_small = ground arith }))
]

module _ {C : Type 0} (plain : List C → List C) (max_chars overlap : ℤ) (mode : MarkdownMode)
    (c : Chunker) (constructed : new_chunker max_chars overlap mode ≡ made c) (new_id : ℕ → ℕ)
    (doc : ℕ) (text : List C) where
  -- With whatever settings the constructor admits, chunking ends, and its chunks are numbered from 0 and belong to the document; none is longer
  -- than the maximum; the first overlaps nothing, and each of the others begins with the last characters
  -- of the chunk before it, as many as the overlap says; put together without the overlaps they are
  -- the normalized text; and a text that fits into one chunk is one chunk.
  pub chunk_round_trip :
      let whole = normalize_markdown plain c.markdown_mode text in
      (xs : List (Chunk C)) × (chunk plain c new_id doc text ≡ some xs)
      × IsNumbered c doc 0 xs
      × AllOverlap c xs
      × (rebuilt xs ≡ whole)
      × (length whole ≤ c.max_chars → length xs ≡ 1)
  unfolding chunk
  chunk_round_trip =
      chunk_normalized_cut c (new_chunker-IsValid max_chars overlap mode c constructed) new_id doc
        (normalize_markdown plain c.markdown_mode text)
