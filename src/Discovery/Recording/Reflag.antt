-- ===== src/Discovery/Recording/Reflag.antt =====
-- `recordOpenPort` and `reflagIfAcknowledged` (internal/discovery/scanner.go): a new port on a host that
-- was acknowledged takes the acknowledgement back.
use network_enumerator.Common.{
  ℕ, suc, ◌≡◌, refl, ap, ◌∙◌, true, false, Option, none, some, Text, text, if◌then◌else◌, find_if,
  Bool-cases, inl, inr,
}
use network_enumerator.Store.Table.{add, is_id, has_id}
use network_enumerator.Store.Table.Find.{any_of_find_none}
use network_enumerator.Store.Schema.{Tables, HostRow, PortRow, host_row}
use network_enumerator.Store.Constraints.{insert_port, insert_event, update_host}
use network_enumerator.Store.Sql.{
  Db, M, Outcome, ok, err, pure, tick, query, exec, statement, after, IsHealthy,
}
use network_enumerator.Store.Sql.Runs.{run->>=, run->>, run-query, run-exec, run-statement}
use network_enumerator.Store.Hosts.{clear_acknowledgement_if_set}
use network_enumerator.Store.Ports.{is_on, new_port, upsert_port}
use network_enumerator.Store.Events.{new_event, add_event}
use network_enumerator.Discovery.Attempt.{attempt}
use network_enumerator.Discovery.Recording.{
  emit, reflag_from, reflag_if_acknowledged, reflag_message, port_recorded, record_open_port,
  new_port_message,
}

abbrev pub with_event : Text → Text → ℕ → ℕ → Tables → Tables
with_event type message id now t = record t {
  events = add (new_event type message id now) t.events;
}

abbrev pub not_acknowledged : HostRow → HostRow
not_acknowledged h = record h { acknowledged = false }

pub run-attempt :
    {A : Type 0} (m : M A) (d : Db) {a : A} {d' : Db} → m d ≡ ok a d' → attempt m d ≡ ok (some a) d'
run-attempt {A} m d e =
    ap
      (λ (o : Outcome A). elim o as (λ _. Outcome (Option A)) [
        | ok a d' ↦ ok (some a) d'
        | err e d' ↦ ok none d'
      ])
      e

pub emit_lem :
    (type message : Text) (id now : ℕ) (d : Db)
    → IsHealthy d
    → emit type message id now d
      ≡ ok tt (record d { tables = with_event type message id now d.tables; clock = suc d.clock })
unfolding emit add_event
emit_lem type message id now d healthy =
    run->> (attempt (add_event type message id now)) (pure tt) d (
      run-attempt (add_event type message id now) d (
        run->>= (statement (insert_event (new_event type message id now))) _ d
          (run-statement (insert_event (new_event type message id now)) d (healthy d.clock) refl)))

module _ (id port : ℕ) (ip service banner product version : Text) (now : ℕ) where
  abbrev pub made : ℕ → PortRow
  made = new_port id port (text "tcp") service banner product version now

  -- The tables after a new port.
  abbrev pub with_port : Tables → Tables
  with_port t =
      with_event (text "new_port") (new_port_message ip port service) id now
        (record t { ports = add made t.ports })

  -- The tables after the host was flagged again.
  abbrev pub reflagged : Tables → Tables
  reflagged t =
      with_event (text "priority_reflag") (reflag_message ip port) id now
        (update_host id not_acknowledged t)

  upsert_port_lem :
      (d : Db)
      → IsHealthy d
      → has_id id d.tables.hosts.rows ≡ true
      → find_if (is_on id port (text "tcp")) d.tables.ports.rows ≡ none
      → upsert_port id port (text "tcp") service banner product version now d
        ≡ ok true (record d {
          tables = record (d.tables) { ports = add made d.tables.ports };
          clock = suc (suc d.clock);
        })
  unfolding upsert_port
  upsert_port_lem d healthy parent free =
      let read = λ (t : Tables). find_if (is_on id port (text "tcp")) t.ports.rows in
      let lands : insert_port made d.tables
          ≡ some (d.tables.ports.next, record (d.tables) { ports = add made d.tables.ports }) =
        rw (parent, any_of_find_none (is_on id port (text "tcp")) d.tables.ports.rows free) refl in
      run->>= (query read) _ d (run-query read d (healthy d.clock))
      ∙ rw free (
          run->>= (statement (insert_port made)) (λ i. pure true) (tick d)
            (run-statement (insert_port made) (tick d) (healthy (suc d.clock)) lands))

  reflag_set :
      (h : HostRow) (d : Db)
      → IsHealthy d
      → find_if (is_id id) d.tables.hosts.rows ≡ some h
      → h.acknowledged ≡ true
      → (after (reflag_if_acknowledged id ip port now d)).tables ≡ reflagged d.tables
  unfolding reflag_if_acknowledged reflag_from clear_acknowledgement_if_set
  reflag_set h d healthy found acked =
      let read = λ (t : Tables). find_if (is_id id) t.hosts.rows in
      let change = update_host id not_acknowledged in
      let d2 : Db = record d { tables = change d.tables; clock = suc (suc d.clock) } in
      let clears : clear_acknowledgement_if_set id d ≡ ok true d2 =
        run->>= (query read) _ d (run-query read d (healthy d.clock))
        ∙ rw (found, acked)
            (run->> (exec change) (pure true) (tick d)
              (run-exec change (tick d) (healthy (suc d.clock)))) in
      ap (λ (o : Outcome (Unit {0})). (after o).tables)
        (run->>= (attempt (clear_acknowledgement_if_set id)) (reflag_from id ip port now) d
            (run-attempt (clear_acknowledgement_if_set id) d clears)
          ∙ emit_lem (text "priority_reflag") (reflag_message ip port) id now d2 healthy)

  reflag_unset :
      (h : HostRow) (d : Db)
      → IsHealthy d
      → find_if (is_id id) d.tables.hosts.rows ≡ some h
      → h.acknowledged ≡ false
      → (after (reflag_if_acknowledged id ip port now d)).tables ≡ d.tables
  unfolding reflag_if_acknowledged reflag_from clear_acknowledgement_if_set
  reflag_unset h d healthy found acked =
      let read = λ (t : Tables). find_if (is_id id) t.hosts.rows in
      let clears : clear_acknowledgement_if_set id d ≡ ok false (tick d) =
        run->>= (query read) _ d (run-query read d (healthy d.clock)) ∙ rw (found, acked) refl in
      ap (λ (o : Outcome (Unit {0})). (after o).tables)
        (run->>= (attempt (clear_acknowledgement_if_set id)) (reflag_from id ip port now) d
          (run-attempt (clear_acknowledgement_if_set id) d clears))

  -- On a healthy database, if the host `h` with the id exists and the port was never recorded on it,
  -- `recordOpenPort` adds the port and a new_port event; if the host was acknowledged, it also takes
  -- the acknowledgement back and adds a priority_reflag event. Nothing else in the tables changes.
  pub record_open_port_lem :
      (h : HostRow) (d : Db)
      → IsHealthy d
      → has_id id d.tables.hosts.rows ≡ true
      → find_if (is_on id port (text "tcp")) d.tables.ports.rows ≡ none
      → find_if (is_id id) d.tables.hosts.rows ≡ some h
      → (after (record_open_port id ip port service banner product version now d)).tables
        ≡ (if h.acknowledged then reflagged (with_port d.tables) else with_port d.tables)
  unfolding record_open_port port_recorded
  record_open_port_lem h d healthy parent free found =
      let upsert = upsert_port id port (text "tcp") service banner product version now in
      let d2 : Db = record d {
        tables = record (d.tables) { ports = add made d.tables.ports };
        clock = suc (suc d.clock);
      } in
      let d3 : Db = record d2 { tables = with_port d.tables; clock = suc d2.clock } in
      let message = new_port_message ip port service in
      ap (λ (o : Outcome (Unit {0})). (after o).tables)
        (run->>= (attempt upsert) (port_recorded id ip port service now) d
            (run-attempt upsert d (upsert_port_lem d healthy parent free))
          ∙ run->> (emit (text "new_port") message id now) (reflag_if_acknowledged id ip port now)
              d2 (emit_lem (text "new_port") message id now d2 healthy))
      ∙ (elim (Bool-cases h.acknowledged) [
        | inl c ↦ rw c (reflag_set h d3 healthy found c)
        | inr c ↦ rw c (reflag_unset h d3 healthy found c)
      ])
