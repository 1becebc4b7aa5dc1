-- ===== src/Source/Events.antt =====
-- src/db/reconciliation.rs: which source state events an environment has not satisfied.
use dbtx.Prelude.{
  ℕ, Bool, true, ◌&&◌, ◌||◌, not, Option, none, some, List, [], ◌∷◌, ◌==◌, nat_eq, string_eq,
  option_eq, ltb, leb, none_or, contains, any, find, where_rows, sort_by,
}
use dbtx.Source.{SourceStateEvent, SourceStateStatus, SourceDb}

abbrev pub is_event_of : ℕ → ℕ → SourceStateEvent → Bool
is_event_of p e ev = ev.project_id == p && ev.environment_id == some e

-- The `LEFT JOIN` with `environment_source_state_status`, whose key allows one row. A `NULL`
-- environment joins nothing.
abbrev pub is_status_of : SourceStateEvent → SourceStateStatus → Bool
is_status_of ev s =
    s.project_id == ev.project_id
    && some s.environment_id == ev.environment_id
    && s.source_key == ev.source_key

abbrev pub latest_satisfied : Option SourceStateStatus → Option ℕ
latest_satisfied none = none
latest_satisfied (some s) = some s.latest_satisfied_event_id

abbrev pub is_unsatisfied : List SourceStateStatus → SourceStateEvent → Bool
is_unsatisfied statuses ev =
    none_or (λ n. ltb n ev.id) (latest_satisfied (find (is_status_of ev) statuses))

abbrev pub is_later_of_key : SourceStateEvent → SourceStateEvent → Bool
is_later_of_key a b = b.source_key == a.source_key && ltb a.id b.id

-- `SELECT DISTINCT ON (source_key) … ORDER BY source_key ASC, id DESC`: ids are unique.
abbrev pub latest_of_each_key : List SourceStateEvent → List SourceStateEvent
latest_of_each_key rows = where_rows (λ a. not (any (is_later_of_key a) rows)) rows

abbrev pub observed_first : SourceStateEvent → SourceStateEvent → Bool
observed_first a b =
    ltb a.observed_at b.observed_at || (a.observed_at == b.observed_at && leb a.id b.id)

abbrev pub unsatisfied_in : ℕ → ℕ → List SourceStateStatus → SourceStateEvent → Bool
unsatisfied_in p e statuses ev = is_event_of p e ev && is_unsatisfied statuses ev

unfoldable pub list_unsatisfied_source_state_events : ℕ → ℕ → SourceDb → List SourceStateEvent
unfolding sort_by
list_unsatisfied_source_state_events p e db =
    sort_by observed_first
      (latest_of_each_key (where_rows (unsatisfied_in p e db.statuses) db.events))

abbrev pub satisfied_unless : List ℕ → Bool → Bool
satisfied_unless [] b = true
satisfied_unless (i ∷ rest) b = not b

unfoldable pub are_source_state_events_satisfied : ℕ → ℕ → List ℕ → SourceDb → Bool
are_source_state_events_satisfied p e ids db = satisfied_unless ids (
    any (λ (ev : SourceStateEvent). unsatisfied_in p e db.statuses ev && contains ev.id ids)
      db.events)
