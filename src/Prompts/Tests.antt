-- ===== src/Prompts/Tests.antt =====
-- Runs of the registry of observability/prompt_registry/registry.py.
use agentforgev.Common.{ℕ, ◌+◌, ◌≡◌, refl, String, none, some, List, [], ◌∷◌, length}
use agentforgev.Common.Sort.{sort_by}
use agentforgev.Prompts.{list_versions, get_prompt, create_version}
use agentforgev.Prompts.Versions.{
  Draft, create_all, drafts_for, version_of, version_all, numbers_from, get_elem?, last_of,
  create_version_numbers,
}

abbrev draft : ℕ → ℕ → String → String → Draft
draft id org name body = record {
  id = id;
  now = 100 + id;
  org_id = org;
  template_name = name;
  body = body;
  variables = [];
}

abbrev greet_by_name : Draft
greet_by_name = record {
  id = 4;
  now = 104;
  org_id = 1;
  template_name = "greet";
  body = "Hello {who}";
  variables = "who" ∷ [];
}

-- Two versions of a prompt, with another prompt and another organization between them.
abbrev drafts : List Draft
drafts =
    draft 1 1 "greet" "Hi" ∷ draft 2 1 "bye" "Bye" ∷ draft 3 2 "greet" "Ciao" ∷ greet_by_name ∷ []

create_version_numbers_example :
    (list_versions 1 "greet" (create_all drafts [])
      ≡ numbers_from 1 (length (drafts_for 1 "greet" drafts)))
    × ((i : ℕ)
        → get_prompt 1 "greet" (some (1 + i)) (create_all drafts [])
          ≡ get_elem? i (version_all 1 (drafts_for 1 "greet" drafts)))
    × (get_prompt 1 "greet" (some 0) (create_all drafts []) ≡ none)
    × (get_prompt 1 "greet" none (create_all drafts [])
        ≡ last_of (version_all 1 (drafts_for 1 "greet" drafts)))
create_version_numbers_example = create_version_numbers 1 "greet" drafts

two_versions : list_versions 1 "greet" (create_all drafts []) ≡ 1 ∷ 2 ∷ []
unfolding list_versions create_version sort_by
two_versions = refl

latest_version :
    get_prompt 1 "greet" none (create_all drafts []) ≡ some (version_of 2 greet_by_name)
unfolding get_prompt create_version
latest_version = refl
