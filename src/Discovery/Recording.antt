-- ===== src/Discovery/Recording.antt =====
-- How internal/discovery/scanner.go records what it finds on a host. `now` is the reading of
-- `time.Now()`. An event that is stored is also passed to `notify`, which feeds the browsers.
pub mod Reflag
pub mod Down
use network_enumerator.Common.{
  ℕ, Bool, true, false, Option, none, some, List, [], ◌∷◌, ◌++◌, Text, text, is_empty, itoa,
  if◌then◌else◌,
}
use network_enumerator.Store.Sql.{M, ◌>>=◌, ◌>>◌, pure}
use network_enumerator.Store.Hosts.{upsert_host, clear_acknowledgement_if_set}
use network_enumerator.Store.Hosts.Sweep.{sweep_missing_hosts}
use network_enumerator.Store.Ports.{upsert_port}
use network_enumerator.Store.Events.{add_event}
use network_enumerator.Store.View.{Host, get_host}
use network_enumerator.Discovery.Attempt.{attempt}

unfoldable pub emit : Text → Text → ℕ → ℕ → M (Unit {0})
emit type message entity_id now = attempt (add_event type message entity_id now) >> pure tt

abbrev pub new_host_message : Text → Text → Text
new_host_message ip hostname =
    if is_empty hostname
    then text "New host discovered: " ++ ip
    else text "New host discovered: " ++ ip ++ text " (" ++ hostname ++ text ")"

-- What follows `UpsertHost`.
unfoldable pub host_recorded : Text → Text → ℕ → ℕ × Bool → M ℕ
host_recorded ip hostname now (id, false) = pure id
host_recorded ip hostname now (id, true) =
    emit (text "new_host") (new_host_message ip hostname) id now >> pure id

unfoldable pub record_host : ℕ → Text → Text → Text → Text → ℕ → M ℕ
record_host subnet_id ip mac hostname vendor now = do
  found ← upsert_host subnet_id ip mac hostname vendor now
  host_recorded ip hostname now found

abbrev pub reflag_message : Text → ℕ → Text
reflag_message ip port =
    text "Port "
    ++ itoa port
    ++ text "/tcp opened on "
    ++ ip
    ++ text " — previously acknowledged, now re-flagged as priority"

-- What follows `ClearAcknowledgementIfSet`, which returned nothing on an error.
unfoldable pub reflag_from : ℕ → Text → ℕ → ℕ → Option Bool → M (Unit {0})
reflag_from host_id ip port now none = pure tt
reflag_from host_id ip port now (some false) = pure tt
reflag_from host_id ip port now (some true) =
    emit (text "priority_reflag") (reflag_message ip port) host_id now

unfoldable pub reflag_if_acknowledged : ℕ → Text → ℕ → ℕ → M (Unit {0})
reflag_if_acknowledged host_id ip port now = do
  was_acked ← attempt (clear_acknowledgement_if_set host_id)
  reflag_from host_id ip port now was_acked

abbrev pub new_port_message : Text → ℕ → Text → Text
new_port_message ip port service =
    if is_empty service
    then text "New open port " ++ itoa port ++ text "/tcp on " ++ ip
    else text "New open port " ++ itoa port ++ text "/tcp (" ++ service ++ text ") on " ++ ip

-- What follows `UpsertPort`.
unfoldable pub port_recorded : ℕ → Text → ℕ → Text → ℕ → Option Bool → M (Unit {0})
port_recorded host_id ip port service now none = pure tt
port_recorded host_id ip port service now (some false) = pure tt
port_recorded host_id ip port service now (some true) =
    emit (text "new_port") (new_port_message ip port service) host_id now
    >> reflag_if_acknowledged host_id ip port now

unfoldable pub record_open_port : ℕ → Text → ℕ → Text → Text → Text → Text → ℕ → M (Unit {0})
record_open_port host_id ip port service banner product version now = do
  is_new ← attempt (upsert_port host_id port (text "tcp") service banner product version now)
  port_recorded host_id ip port service now is_new

unfoldable pub emit_closed : ℕ → Text → ℕ → List ℕ → M (Unit {0})
emit_closed host_id ip now [] = pure tt
emit_closed host_id ip now (port ∷ ports) =
    emit (text "port_closed")
      (text "Port " ++ itoa port ++ text "/tcp on " ++ ip ++ text " is no longer open") host_id now
    >> emit_closed host_id ip now ports

abbrev pub host_down_message : Host → Text
host_down_message h =
    if is_empty h.row.hostname
    then text "Host " ++ h.row.ip ++ text " stopped responding"
    else text "Host " ++ h.row.ip ++ text " (" ++ h.row.hostname ++ text ") stopped responding"

-- What follows `GetHost`.
unfoldable pub host_went_down : ℕ → ℕ → Option Host → M (Unit {0})
host_went_down id now none = pure tt
host_went_down id now (some h) = emit (text "host_down") (host_down_message h) id now

unfoldable pub emit_down : ℕ → List ℕ → M (Unit {0})
emit_down now [] = pure tt
emit_down now (id ∷ ids) =
    (attempt (get_host id now) >>= host_went_down id now) >> emit_down now ids

-- An error of the sweep leaves the list empty.
abbrev pub or_nil : Option (List ℕ) → List ℕ
or_nil none = []
or_nil (some ids) = ids

unfoldable pub emit_host_down_events : ℕ → List Text → ℕ → ℕ → M (Unit {0})
emit_host_down_events subnet_id seen threshold now = do
  went_down ← attempt (sweep_missing_hosts subnet_id seen threshold)
  emit_down now (or_nil went_down)
