-- ===== src/Rag/Tests.antt =====
-- A run of rag/service.py over a vector store that also finds the chunk of another organization.
use agentforgev.Common.{
  ℕ, ◌+◌, ◌≡◌, refl, String, true, false, none, some, List, [], ◌∷◌, ◌==◌, number_keys, text_keys,
  if◌then◌else◌,
}
use agentforgev.Common.Int.{pos}
use agentforgev.Common.Dict.{Dict, lookup}
use agentforgev.Rag.{
  Match, for_all, RagSeams, RagConfig, clamp_k, resolve_k, retrieve, answer_query,
}
use agentforgev.Rag.Grounded.{Returns, IsGrounded, answer_query-IsGrounded}

abbrev texts_for : ℕ → Dict String String
texts_for org = if org == 1 then ("a", "Alpha") ∷ [] else ("b", "Beta") ∷ []

abbrev Owns : ℕ → String → String → Type 0
Owns org id text = lookup id (texts_for org) ≡ some text

abbrev found : List (Match ℕ)
found =
    record { chunk_id = "b"; document_id = "d2"; score = 9 }
    ∷ record { chunk_id = "a"; document_id = "d1"; score = 8 }
    ∷ []

-- The state counts the calls.
abbrev seams : RagSeams ℕ ℕ ℕ
seams = record {
  embed_text = λ q w. (some 0, w + 1);
  vector_store = for_all (λ v k w. (some found, w + 1));
  get_chunk_texts = λ org ids w. (some (texts_for org), w + 1);
  generate = λ p w. (some record { text = "An answer."; provider = "test" }, w + 1);
  llm_name = "test";
}

abbrev config : RagConfig
config = record {
  k_min = 1;
  k_max = 10;
  top_k_default = pos 5;
  top_k_min = 1;
  top_k_max = 10;
  allow_ungrounded = false;
}

answer_query-IsGrounded_example :
    Returns ⊥
      (IsGrounded Owns 1 (clamp_k (pos (resolve_k config none)) 1 10))
      (answer_query seams config "What?" none 1 0)
answer_query-IsGrounded_example =
    answer_query-IsGrounded Owns ⊥ seams (λ q w. tt) (λ v k org w. tt) (λ org ids w id t e. e)
      (λ p w. tt) config "What?" none 1 0

one_citation : answer_query seams config "What?" none 1 0 ≡ (
  some record {
    text = "An answer.";
    citations = record { document_id = "d1"; chunk_id = "a" } ∷ [];
    provider = "test";
    grounded = true;
  },
  4,
)
unfolding answer_query retrieve clamp_k resolve_k
one_citation = refl
