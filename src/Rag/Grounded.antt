-- ===== src/Rag/Grounded.antt =====
-- What rag/service.py and retrieval/retriever.py promise of an answer and its citations.
use agentforgev.Common.{
  ℕ, zero, suc, ◌≤◌, ◌≡◌, refl, String, Bool, true, false, Option, Option-cases, none, some, ◌⊎◌,
  inl, inr, List, [], ◌∷◌, arith, text_keys, length, length-take, take, map, All,
}
use agentforgev.Common.Int.{ℤ, pos}
use agentforgev.Common.Dict.{Dict, lookup}
use agentforgev.Common.Sort.{length-map}
use agentforgev.Rag.{
  Match, RetrievedChunk, GroundedAnswer, Prompt, grounding_prompt, general_prompt, RagSeams,
  RagConfig, clamp_k, resolve_k, and_then, with_texts, citation_of, query_store, retrieve,
  answer_from, answer_query,
}

-- A call that raises only if `E`, and returns what satisfies `P`.
abbrev pub Returns : {W A : Type 0} → Type 0 → (A → Type 0) → Option A × W → Type 0
Returns E P (none, w) = E
Returns E P (some a, w) = P a

and_then-Returns :
    {W A B : Type 0} (E : Type 0) (P : A → Type 0) (Q : B → Type 0) (x : Option A × W)
    (f : A → W → Option B × W)
    → Returns E P x
    → ((a : A) (w : W) → P a → Returns E Q (f a w))
    → Returns E Q (and_then x f)
and_then-Returns E P Q (none, w) f h k = h
and_then-Returns E P Q (some a, w) f h k = k a w h

take-All : {A : Type 0} (P : A → Type 0) (n : ℕ) (xs : List A) → All P xs → All P (take n xs)
take-All P zero xs h = tt
take-All P (suc n) [] h = tt
take-All P (suc n) (x ∷ xs) h = (h.0, take-All P n xs h.1)

-- `Owns org id text`: the chunk `id` belongs to a document of the organization, and has this text.
module _ (Owns : ℕ → String → String → Type 0) where
  abbrev pub IsOwned : ℕ → Dict String String → Type 0
  IsOwned org texts = (id t : String) → lookup id texts ≡ some t → Owns org id t

  abbrev pub IsGrounded : ℕ → ℕ → GroundedAnswer → Type 0
  IsGrounded org k a =
      ((a.grounded ≡ false) × (a.citations ≡ []))
      ⊎ ((a.grounded ≡ true)
          × (1 ≤ length a.citations)
          × (length a.citations ≤ k)
          × All (λ c. (t : String) × Owns org c.chunk_id t) a.citations)

  module _ {S : Type 0} where
    abbrev pub IsRetrieved : ℕ → ℕ → List (RetrievedChunk S) → Type 0
    IsRetrieved org k chunks = (length chunks ≤ k) × All (λ c. Owns org c.chunk_id c.content) chunks

    with_texts-All :
        (org : ℕ) (ms : List (Match S)) (texts : Dict String String)
        → IsOwned org texts
        → All (λ c. Owns org c.chunk_id c.content) (with_texts ms texts)
    with_texts-All org [] texts h = tt
    with_texts-All org (m ∷ ms) texts h = elim (Option-cases (lookup m.chunk_id texts)) [
      | inl e ↦ rw e (with_texts-All org ms texts h)
      | inr (t, e) ↦ rw e (h m.chunk_id t e, with_texts-All org ms texts h)
    ]

    citations-All :
        (org : ℕ) (cs : List (RetrievedChunk S))
        → All (λ c. Owns org c.chunk_id c.content) cs
        → All (λ c. (t : String) × Owns org c.chunk_id t) (map citation_of cs)
    citations-All org [] h = tt
    citations-All org (c ∷ cs) h = ((c.content, h.0), citations-All org cs h.1)

  module _ {W V S : Type 0} (E : Type 0) (s : RagSeams W V S)
      (embeds : (q : String) (w : W) → Returns E (λ v. Unit) (s.embed_text q w))
      (finds : (v : V) (k org : ℕ) (w : W)
        → Returns E (λ ms. Unit) (query_store s.vector_store v k org w))
      (scoped : (org : ℕ) (ids : List String) (w : W)
        → Returns E (IsOwned org) (s.get_chunk_texts org ids w))
      (generates : (p : Prompt) (w : W) → Returns E (λ r. Unit) (s.generate p w)) where
    retrieve-IsRetrieved :
        (c : RagConfig) (query : String) (k : ℤ) (org : ℕ) (w : W)
        → Returns E (IsRetrieved org (clamp_k k c.k_min c.k_max)) (retrieve s c query k org w)
    unfolding retrieve
    retrieve-IsRetrieved c query k org w =
        let n = clamp_k k c.k_min c.k_max in
        and_then-Returns E _ (IsRetrieved org n) (s.embed_text query w) _ (embeds query w)
          (λ v w1 _.
            and_then-Returns E _ (IsRetrieved org n) (query_store s.vector_store v n org w1) _
              (finds v n org w1)
              (λ ms w2 _.
                and_then-Returns E (IsOwned org) (IsRetrieved org n)
                  (s.get_chunk_texts org (map (λ m. m.chunk_id) ms) w2) _
                  (scoped org (map (λ m. m.chunk_id) ms) w2)
                  (λ texts w3 h. (
                    omega (arith, length-take n (with_texts ms texts)),
                    take-All (λ d. Owns org d.chunk_id d.content) n (with_texts ms texts)
                        (with_texts-All org ms texts h),
                  ))))

    answer_from-IsGrounded :
        (allow : Bool) (query : String) (org k : ℕ) (chunks : List (RetrievedChunk S)) (w : W)
        → IsRetrieved org k chunks
        → Returns E (IsGrounded org k) (answer_from s allow query chunks w)
    answer_from-IsGrounded true query org k [] w h =
        and_then-Returns E _ (IsGrounded org k) (s.generate (general_prompt query) w) _
          (generates (general_prompt query) w) (λ r w1 _. inl (refl, refl))
    answer_from-IsGrounded false query org k [] w h = inl (refl, refl)
    answer_from-IsGrounded allow query org k (c ∷ cs) w h =
        let p = grounding_prompt query (map (λ d. d.content) (c ∷ cs)) in
        let n : length (map citation_of cs) ≡ length cs = length-map citation_of cs in
        and_then-Returns E _ (IsGrounded org k) (s.generate p w) _ (generates p w)
          (λ r w1 _. inr (refl, omega arith, omega (arith, n, h.0), citations-All org (c ∷ cs) h.1))

    -- Suppose that the source of chunk texts returns only texts of the organization that it is asked for, and
    -- that the four seams raise only if `E` (with an empty `E` they never do). Then `answer_query` raises only if `E`
    -- (with an empty `E` it always returns), and every answer that it returns is one of two: not grounded,
    -- with no citation; or grounded, with at least one citation and at most as many as the clamped count,
    -- and every citation names a chunk of the organization, whatever the vector store has found.
    pub answer_query-IsGrounded :
        (c : RagConfig) (query : String) (top_k : Option ℤ) (org : ℕ) (w : W)
        → Returns E
            (IsGrounded org (clamp_k (pos (resolve_k c top_k)) c.k_min c.k_max))
            (answer_query s c query top_k org w)
    unfolding answer_query
    answer_query-IsGrounded c query top_k org w =
        let k = pos (resolve_k c top_k) in
        let n = clamp_k k c.k_min c.k_max in
        and_then-Returns E (IsRetrieved org n) (IsGrounded org n) (retrieve s c query k org w) _
          (retrieve-IsRetrieved c query k org w)
          (λ chunks w1 h. answer_from-IsGrounded c.allow_ungrounded query org n chunks w1 h)
