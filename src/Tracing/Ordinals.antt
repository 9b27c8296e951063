-- ===== src/Tracing/Ordinals.antt =====
-- The traces that tracing/recorder.py keeps of several runs, recorded in whatever order.
use agentforgev.Common.{
  ℕ, ◌+◌, ◌≡◌, ◌∙◌, refl, sym, ap, String, Bool-cases, inl, inr, true, false, some, List, [], ◌∷◌,
  ◌++◌, ◌==◌, number_keys, text_keys, pair_keys, length, length-append, append_nil, append_assoc,
  if◌then◌else◌,
}
use agentforgev.Common.Dict.{lookup, lookup-insert}
use agentforgev.Tracing.{
  Step, TraceEntry, Key, Recorder, or_empty, next_entry, recorded, record_entry, get_trace,
}

-- A call of `record`: the organization, the run, the time and the step.
pub record Call (D : Type 0) : Type 0 where
  pub org_id : ℕ
  pub run_id : String
  pub now : ℕ
  pub step : Step D

abbrev pub key_of : {D : Type 0} → Call D → Key
key_of c = (c.org_id, c.run_id)

module _ {D : Type 0} where
  abbrev pub record_all : List (Call D) → Recorder D → Recorder D
  record_all [] r = r
  record_all (c ∷ cs) r = record_all cs ((record_entry c.org_id c.run_id c.now c.step r).1)

  -- The steps of one run, in the order of the calls.
  abbrev pub recorded_steps : Key → List (Call D) → List (Step D)
  recorded_steps k [] = []
  recorded_steps k (c ∷ cs) =
      let rest = recorded_steps k cs in if key_of c == k then c.step ∷ rest else rest

  -- Entries with the ordinals from `n` on.
  abbrev pub numbered : String → ℕ → List (Step D) → List (TraceEntry D)
  numbered run_id n [] = []
  numbered run_id n (s ∷ ss) =
      record { run_id = run_id; ordinal = n; step = s } ∷ numbered run_id (n + 1) ss

  abbrev entries_at : Key → Recorder D → List (TraceEntry D)
  entries_at k r = or_empty (lookup k r.entries)

  entries_after_same :
      (key k : Key) (now : ℕ) (s : Step D) (r : Recorder D)
      → (key == k) ≡ true
      → entries_at k (recorded key now s r)
        ≡ entries_at k r
          ++ record { run_id = k.1; ordinal = length (entries_at k r); step = s } ∷ []
  entries_after_same key k now s r h =
      let same : key ≡ k = (pair_keys.equals_iff key k).0 h in
      let at =
        entries_at key r
        ++ record { run_id = key.1; ordinal = length (entries_at key r); step = s } ∷ [] in
      let q : lookup k (recorded key now s r).entries ≡ some at =
        lookup-insert key k at r.entries ∙ rw h refl in
      ap or_empty q
      ∙ ap
          (λ j.
            entries_at j r
            ++ record { run_id = j.1; ordinal = length (entries_at j r); step = s } ∷ [])
          same

  entries_after_other :
      (key k : Key) (now : ℕ) (s : Step D) (r : Recorder D)
      → (key == k) ≡ false
      → entries_at k (recorded key now s r) ≡ entries_at k r
  entries_after_other key k now s r h =
      let at =
        entries_at key r
        ++ record { run_id = key.1; ordinal = length (entries_at key r); step = s } ∷ [] in
      let q : lookup k (recorded key now s r).entries ≡ lookup k r.entries =
        lookup-insert key k at r.entries ∙ rw h refl in
      ap or_empty q

  entries_after :
      (k : Key) (cs : List (Call D)) (r : Recorder D)
      → entries_at k (record_all cs r)
        ≡ entries_at k r ++ numbered k.1 (length (entries_at k r)) (recorded_steps k cs)
  unfolding record_entry
  entries_after k [] r = sym (append_nil (entries_at k r))
  entries_after k (c ∷ cs) r = elim (Bool-cases (key_of c == k)) [
    | inl same ↦
        (let e = entries_after_same (key_of c) k c.now c.step r same in
          let r' = recorded (key_of c) c.now c.step r in
          let es = entries_at k r in
          let entry = next_entry k c.step es in
          let longer : length (es ++ entry ∷ []) ≡ length es + 1 = length-append es (entry ∷ []) in
          rw same (
            entries_after k cs r'
            ∙ ap (λ xs. xs ++ numbered k.1 (length xs) (recorded_steps k cs)) e
            ∙ ap (λ n. (es ++ entry ∷ []) ++ numbered k.1 n (recorded_steps k cs)) longer
            ∙ append_assoc es (entry ∷ []) (numbered k.1 (length es + 1) (recorded_steps k cs))))
    | inr other ↦
        (let e = entries_after_other (key_of c) k c.now c.step r other in
          rw other (
            entries_after k cs (recorded (key_of c) c.now c.step r)
            ∙ ap (λ es. es ++ numbered k.1 (length es) (recorded_steps k cs)) e))
  ]

  abbrev pub no_runs : Recorder D
  no_runs = record { entries = []; started_at = [] }

  -- Record any steps, for any runs of any organizations in any order, on a recorder that starts empty. The
  -- trace of a run, asked for by an organization, holds exactly the steps recorded under that organization
  -- and that run, in the order of the calls, with the ordinals 0, 1, 2 and so on: no step of another run or
  -- of another organization, none lost, and no gap in the ordinals.
  pub get_trace-record_all :
      (org : ℕ) (run : String) (cs : List (Call D))
      → get_trace org run (record_all cs no_runs)
        ≡ record { run_id = run; entries = numbered run 0 (recorded_steps (org, run) cs) }
  unfolding get_trace
  get_trace-record_all org run cs =
      ap (λ es. record { run_id = run; entries = es }) (entries_after (org, run) cs no_runs)
