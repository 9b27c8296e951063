-- ===== src/Tracing.antt =====
-- The in-memory recorder of tracing/recorder.py. The detail of a step, which the recorder only stores, has
-- any type `D`.
pub mod Ordinals
mod Tests
use agentforgev.Common.{
  ℕ, ◌+◌, String, Bool, Option, none, some, List, [], ◌∷◌, ◌++◌, leb, ◌==◌, number_keys, text_keys,
  pair_keys, length, take, filter, map, if◌then◌else◌,
}
use agentforgev.Common.Dict.{Dict, lookup, insert}
use agentforgev.Common.Sort.{sort_by}

-- What is recorded of a step, without its place.
pub record Step (D : Type 0) : Type 0 where
  pub step_type : String
  pub tool_name : Option String
  pub outcome : Option String
  pub detail : D

pub record TraceEntry (D : Type 0) : Type 0 where
  pub run_id : String
  pub ordinal : ℕ
  pub step : Step D

pub record Trace (D : Type 0) : Type 0 where
  pub run_id : String
  pub entries : List (TraceEntry D)

abbrev pub Key : Type 0
Key = ℕ × String

pub record Recorder (D : Type 0) : Type 0 where
  pub entries : Dict Key (List (TraceEntry D))
  pub started_at : Dict Key ℕ

pub record RunSummary : Type 0 where
  pub run_id : String
  pub created_at : ℕ
  pub step_count : ℕ
  pub tool_call_count : ℕ

abbrev pub or_empty {ℓ} : {A : Type ℓ} → Option (List A) → List A
or_empty none = []
or_empty (some xs) = xs

-- d.setdefault(key, value), without its result
abbrev pub set_default {ℓ} : {A : Type ℓ} → Option A → Key → A → Dict Key A → Dict Key A
set_default none k v d = insert k v d
set_default (some old) k v d = d

-- d.get(key, now)
abbrev pub started : Option ℕ → ℕ → ℕ
started none now = now
started (some t) now = t

module _ {D : Type 0} where
  -- The entry that the next call for a run appends.
  abbrev pub next_entry : Key → Step D → List (TraceEntry D) → TraceEntry D
  next_entry key s run_entries = record { run_id = key.1; ordinal = length run_entries; step = s }

  abbrev pub recorded : Key → ℕ → Step D → Recorder D → Recorder D
  recorded key now s r =
      let run_entries = or_empty (lookup key r.entries) in
      record {
        entries = insert key (run_entries ++ next_entry key s run_entries ∷ []) r.entries;
        started_at = set_default (lookup key r.started_at) key now r.started_at;
      }

  -- `record`: the entry and the recorder after the call, at the time `now`.
  unfoldable pub record_entry : ℕ → String → ℕ → Step D → Recorder D → TraceEntry D × Recorder D
  record_entry org run_id now s r =
      let key : Key = (org, run_id) in
      (next_entry key s (or_empty (lookup key r.entries)), recorded key now s r)

  unfoldable pub get_trace : ℕ → String → Recorder D → Trace D
  get_trace org run_id r = record {
    run_id = run_id;
    entries = or_empty (lookup (org, run_id) r.entries);
  }

  abbrev pub summary_of : Recorder D → ℕ → Key × List (TraceEntry D) → RunSummary
  summary_of r now (key, es) = record {
    run_id = key.1;
    created_at = started (lookup key r.started_at) now;
    step_count = length es;
    tool_call_count = length (filter (λ e. e.step.step_type == "tool_call") es);
  }

  unfoldable pub list_runs : ℕ → ℕ → ℕ → Recorder D → List RunSummary
  list_runs org limit now r = take limit (
      sort_by (λ a b. leb b.created_at a.created_at)
        (map (summary_of r now) (filter (λ (key, es). key.0 == org) r.entries)))
