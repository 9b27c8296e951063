-- ===== src/Rag.antt =====
-- Retrieval and grounded answers: retrieval/retriever.py and rag/service.py. The embedding provider, the
-- vector store, the source of chunk texts and the language model are the seams, over a state `W` of theirs;
-- a call of them answers `none` when it raises. A vector has any type `V`, a score any type `S`.
pub mod Grounded
mod Tests
use agentforgev.Common.{
  ℕ, suc, min, max, ◌+◌, String, Bool, true, false, Option, none, some, List, [], ◌∷◌, ◌==◌,
  text_keys, take, map, if◌then◌else◌,
}
use agentforgev.Common.Int.{ℤ, pos, negsuc}
use agentforgev.MultiAgent.State.{Citation}
use agentforgev.Common.Dict.{Dict, lookup}

pub record Match (S : Type 0) : Type 0 where
  pub chunk_id : String
  pub document_id : String
  pub score : S

pub record RetrievedChunk (S : Type 0) : Type 0 where
  pub chunk_id : String
  pub document_id : String
  pub content : String
  pub score : S

pub record GenerationResult : Type 0 where
  pub text : String
  pub provider : String

pub record GroundedAnswer : Type 0 where
  pub text : String
  pub citations : List Citation
  pub provider : String
  pub grounded : Bool

-- The two templates, with what is put into them.
pub data Prompt : Type 0 where
  grounding_prompt : String → List String → Prompt
  general_prompt : String → Prompt

-- The vector store with `query_for_org`, or without it.
pub data VectorStore (W V S : Type 0) : Type 0 where
  for_org : (V → ℕ → ℕ → W → Option (List (Match S)) × W) → VectorStore W V S
  for_all : (V → ℕ → W → Option (List (Match S)) × W) → VectorStore W V S

pub record RagSeams (W V S : Type 0) : Type 0 where
  pub embed_text : String → W → Option V × W
  pub vector_store : VectorStore W V S
  pub get_chunk_texts : ℕ → List String → W → Option (Dict String String) × W
  pub generate : Prompt → W → Option GenerationResult × W
  pub llm_name : String

-- The arguments of the constructors of the retriever and of the service.
pub record RagConfig : Type 0 where
  pub k_min : ℕ
  pub k_max : ℕ
  pub top_k_default : ℤ
  pub top_k_min : ℕ
  pub top_k_max : ℕ
  pub allow_ungrounded : Bool

-- max(k_min, min(k, k_max)), where a negative `k` is below both
unfoldable pub clamp_k : ℤ → ℕ → ℕ → ℕ
clamp_k (pos k) k_min k_max = max k_min (min k k_max)
clamp_k (negsuc k) k_min k_max = k_min

unfoldable pub resolve_k : RagConfig → Option ℤ → ℕ
resolve_k c none = clamp_k c.top_k_default c.top_k_min c.top_k_max
resolve_k c (some k) = clamp_k k c.top_k_min c.top_k_max

-- One call after another, up to the first that raises.
abbrev pub and_then : {W A B : Type 0} → Option A × W → (A → W → Option B × W) → Option B × W
and_then (none, w) f = (none, w)
and_then (some a, w) f = f a w

module _ {S : Type 0} where
  abbrev pub with_text : Match S → Option String → List (RetrievedChunk S) → List (RetrievedChunk S)
  with_text m none rest = rest
  with_text m (some t) rest =
      record { chunk_id = m.chunk_id; document_id = m.document_id; content = t; score = m.score }
      ∷ rest

  -- The matches that have a text, in their order.
  abbrev pub with_texts : List (Match S) → Dict String String → List (RetrievedChunk S)
  with_texts [] texts = []
  with_texts (m ∷ ms) texts = with_text m (lookup m.chunk_id texts) (with_texts ms texts)

  abbrev pub citation_of : RetrievedChunk S → Citation
  citation_of c = record { document_id = c.document_id; chunk_id = c.chunk_id }

module _ {W V S : Type 0} where
  abbrev pub query_store : VectorStore W V S → V → ℕ → ℕ → W → Option (List (Match S)) × W
  query_store (for_org query_for_org) v k org w = query_for_org v k org w
  query_store (for_all query) v k org w = query v k w

  unfoldable pub retrieve :
      RagSeams W V S → RagConfig → String → ℤ → ℕ → W → Option (List (RetrievedChunk S)) × W
  retrieve s c query k org w =
      let effective_k = clamp_k k c.k_min c.k_max in
      and_then (s.embed_text query w) (λ v w1.
        and_then (query_store s.vector_store v effective_k org w1) (λ matches w2.
          and_then (s.get_chunk_texts org (map (λ m. m.chunk_id) matches) w2)
            (λ texts w3. (some (take effective_k (with_texts matches texts)), w3))))

  -- What `answer_query` does with the chunks.
  abbrev pub answer_from :
      RagSeams W V S → Bool → String → List (RetrievedChunk S) → W → Option GroundedAnswer × W
  answer_from s true query [] w = and_then (s.generate (general_prompt query) w) (λ r w1.
      (some record { text = r.text; citations = []; provider = r.provider; grounded = false }, w1))
  answer_from s false query [] w = (
    some record {
      text = "No grounding information is available to answer this question.";
      citations = [];
      provider = s.llm_name;
      grounded = false;
    },
    w,
  )
  answer_from s allow query (c ∷ cs) w =
      and_then (s.generate (grounding_prompt query (map (λ d. d.content) (c ∷ cs))) w) (λ r w1. (
        some record {
          text = r.text;
          citations = map citation_of (c ∷ cs);
          provider = r.provider;
          grounded = true;
        },
        w1,
      ))

  unfoldable pub answer_query :
      RagSeams W V S → RagConfig → String → Option ℤ → ℕ → W → Option GroundedAnswer × W
  answer_query s c query top_k org w =
      and_then (retrieve s c query (pos (resolve_k c top_k)) org w)
        (λ chunks w1. answer_from s c.allow_ungrounded query chunks w1)
