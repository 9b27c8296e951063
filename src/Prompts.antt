-- ===== src/Prompts.antt =====
-- The registry of versioned prompts of observability/prompt_registry: registry.py over the in-memory store of
-- store.py, which keeps every version in one list and only appends.
pub mod Versions
mod Tests
use agentforgev.Common.{
  ℕ, max, ◌+◌, String, Bool, ◌&&◌, Option, none, some, List, [], ◌∷◌, ◌++◌, ltb, leb, ◌==◌,
  number_keys, text_keys, filter, map, if◌then◌else◌,
}
use agentforgev.Common.Sort.{sort_by}

pub record PromptVersion : Type 0 where
  pub id : ℕ
  pub org_id : ℕ
  pub template_name : String
  pub version : ℕ
  pub body : String
  pub variables : List String
  pub created_at : ℕ

-- The versions in the order they were added.
abbrev pub PromptStore : Type 0
PromptStore = List PromptVersion

abbrev pub is_for : ℕ → String → ℕ → String → Bool
is_for org name owner template = (owner == org) && (template == name)

-- `_for`
abbrev pub versions_for : ℕ → String → PromptStore → List PromptVersion
versions_for org name store = filter (λ v. is_for org name v.org_id v.template_name) store

-- max(numbers, default=0)
abbrev pub greatest : List ℕ → ℕ
greatest [] = 0
greatest (n ∷ ns) = max n (greatest ns)

abbrev pub next_version_number : ℕ → String → PromptStore → ℕ
next_version_number org name store =
    greatest (map (λ v. v.version) (versions_for org name store)) + 1

abbrev pub add_version : PromptVersion → PromptStore → PromptVersion × PromptStore
add_version v store = (v, store ++ v ∷ [])

abbrev pub first_numbered : ℕ → List PromptVersion → Option PromptVersion
first_numbered n [] = none
first_numbered n (v ∷ vs) = if v.version == n then some v else first_numbered n vs

abbrev pub get_version : ℕ → String → ℕ → PromptStore → Option PromptVersion
get_version org name n store = first_numbered n (versions_for org name store)

-- max(versions, key=lambda v: v.version): the first of the greatest, the best so far in front.
abbrev pub newest : PromptVersion → List PromptVersion → PromptVersion
newest v [] = v
newest v (w ∷ ws) = newest (if ltb v.version w.version then w else v) ws

abbrev pub newest_of : List PromptVersion → Option PromptVersion
newest_of [] = none
newest_of (v ∷ vs) = some (newest v vs)

abbrev pub get_latest : ℕ → String → PromptStore → Option PromptVersion
get_latest org name store = newest_of (versions_for org name store)

unfoldable pub list_versions : ℕ → String → PromptStore → List ℕ
list_versions org name store = sort_by leb (map (λ v. v.version) (versions_for org name store))

-- `Prompt_Registry.create_version`, with the identifier and the time that it draws.
unfoldable pub create_version :
    ℕ → ℕ → ℕ → String → String → List String → PromptStore → PromptVersion × PromptStore
create_version id now org name body variables store =
    add_version
      record {
        id = id;
        org_id = org;
        template_name = name;
        version = next_version_number org name store;
        body = body;
        variables = variables;
        created_at = now;
      }
      store

-- `Prompt_Registry.get`, where `none` is the error `not_found`.
unfoldable pub get_prompt : ℕ → String → Option ℕ → PromptStore → Option PromptVersion
get_prompt org name none store = get_latest org name store
get_prompt org name (some n) store = get_version org name n store
