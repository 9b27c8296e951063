-- ===== src/Enterprise/Audit/Pages.antt =====
-- Reading the log page by page.
use agentforgev.Common.{
  ℕ, ◌+◌, ◌≡◌, ◌≢◌, refl, sym, ap, ◌∙◌, Bool, true, false, not, ◌&&◌, none, some, List, [], ◌∷◌,
  ◌++◌, take, filter, number_keys, arith, All, Bool-cases, inl, inr,
}
use agentforgev.Common.Sort.{sort_by, All-from_In, all_of_in}
use agentforgev.Common.Sort.Pages.{
  last_of, take-more, filter-filter, filter-sort_by, IsApart, sort_by-IsStrict, filter-IsApart,
  filter-behind,
}
use agentforgev.Enterprise.Audit.{AuditEvent}
use agentforgev.Enterprise.Audit.Log.{
  AuditLog, AuditFilters, cursor_lt, cursor_of, passes_cursor, passes_filters, newer_or_same,
  audit_page,
}

newer_total : (a b : AuditEvent) → newer_or_same a b ≡ false → newer_or_same b a ≡ true
newer_total a b h = ground arith

newer_trans :
    (a b c : AuditEvent)
    → newer_or_same a b ≡ true
    → newer_or_same b c ≡ true
    → newer_or_same a c ≡ true
newer_trans a b c h k = ground arith

-- No id is given twice.
abbrev pub HasDistinctIds : AuditLog → Type 0
HasDistinctIds [] = Unit
HasDistinctIds (e ∷ es) = All (λ f. e.id ≢ f.id) es × HasDistinctIds es

ids_apart : (a b : AuditEvent) → a.id ≢ b.id → (newer_or_same a b && newer_or_same b a) ≡ false
ids_apart a b n = ground arith

distinct-IsApart : (events : AuditLog) → HasDistinctIds events → IsApart newer_or_same events
distinct-IsApart [] h = tt
distinct-IsApart (e ∷ es) h =
    (All-from_In _ es (λ f m. ids_apart e f (all_of_in _ es h.0 f m)), distinct-IsApart es h.1)

filter-same :
    {A : Type 0} (p q : A → Bool) (xs : List A) → ((x : A) → p x ≡ q x) → filter p xs ≡ filter q xs
filter-same p q [] h = refl
filter-same p q (x ∷ xs) h = elim (Bool-cases (q x)) [
  | inl k ↦
      (let k' : p x ≡ true = h x ∙ k in rw k (rw k' (ap (λ ys. x ∷ ys) (filter-same p q xs h))))
  | inr k ↦ (let k' : p x ≡ false = h x ∙ k in rw k (rw k' (filter-same p q xs h)))
]

-- The events that pass the filters, newest first.
abbrev selected : ℕ → AuditFilters → AuditLog → List AuditEvent
selected org by events =
    sort_by newer_or_same (filter (λ e. passes_filters org by e && true) events)

cursor_and_filters : (b c : Bool) → (b && c) ≡ ((b && true) && not (not c))
cursor_and_filters true true = refl
cursor_and_filters true false = refl
cursor_and_filters false c = refl

selected_behind :
    (org : ℕ) (by : AuditFilters) (last : AuditEvent) (events : AuditLog)
    → sort_by newer_or_same
        (filter (λ e. passes_filters org by e && passes_cursor (some (cursor_of last)) e) events)
      ≡ filter (λ e. not (newer_or_same e last)) (selected org by events)
selected_behind org by last events =
    let p = λ (e : AuditEvent). passes_filters org by e && true in
    let q = λ (e : AuditEvent). not (newer_or_same e last) in
    sym (
      filter-sort_by newer_or_same newer_total newer_trans q (filter p events)
      ∙ ap (sort_by newer_or_same) (
          filter-filter p q events
          ∙ sym (
              filter-same _ (λ e. p e && q e) events
                (λ e.
                  cursor_and_filters (passes_filters org by e)
                    (cursor_lt (cursor_of e) (cursor_of last))))))

-- The page behind the last event of a page goes on where that page stopped: both together are the one page of
-- their lengths, so no event is repeated and none is left out, also when events share their time. No two events of
-- the log have the same id.
pub audit_page-behind :
    (org : ℕ) (by : AuditFilters) (n m : ℕ) (last : AuditEvent) (events : AuditLog)
    → HasDistinctIds events
    → last_of (audit_page org by none n events) ≡ some last
    → audit_page org by none n events ++ audit_page org by (some (cursor_of last)) m events
      ≡ audit_page org by none (n + m) events
unfolding audit_page
audit_page-behind org by n m last events distinct h =
    let all = selected org by events in
    let strict =
      sort_by-IsStrict newer_or_same newer_total newer_trans
        (filter (λ e. passes_filters org by e && true) events)
        (filter-IsApart newer_or_same newer_total newer_trans (λ e. passes_filters org by e && true)
          events (distinct-IsApart events distinct)) in
    ap (λ es. take n all ++ take m es)
      (selected_behind org by last events
        ∙ filter-behind newer_or_same newer_total newer_trans n last all strict h)
    ∙ sym (take-more n m all)
