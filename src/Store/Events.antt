-- ===== src/Store/Events.antt =====
-- internal/store/events.go. `now` is the reading of `time.Now()`.
use network_enumerator.Common.{ℕ, ◌||◌, List, ltb, ◌==◌, Text, if◌then◌else◌, take}
use network_enumerator.Store.Table.{order_by}
use network_enumerator.Store.Schema.{EventRow, event_row}
use network_enumerator.Store.Constraints.{insert_event}
use network_enumerator.Store.Sql.{M, ◌>>=◌, pure, query, statement}

abbrev pub new_event : Text → Text → ℕ → ℕ → ℕ → EventRow
new_event type message entity_id now id = record {
  id = id;
  type = type;
  message = message;
  entity_id = entity_id;
  timestamp = now;
}

unfoldable pub add_event : Text → Text → ℕ → ℕ → M EventRow
add_event type message entity_id now = do
  id ← statement (insert_event (new_event type message entity_id now))
  pure (new_event type message entity_id now id)

-- A limit that is not positive is 0 here.
abbrev pub effective_limit : ℕ → ℕ
effective_limit limit = if (limit == 0) || ltb 1000 limit then 200 else limit

unfoldable pub list_events : ℕ → M (List EventRow)
list_events limit =
    query (λ t. take (effective_limit limit) (order_by (λ r s. ltb s.id r.id) t.events.rows))
