-- ===== src/Api/Hosts.antt =====
-- internal/api/server.go: the handlers of hosts. `now` is the reading of `time.Now()` in the store.
use network_enumerator.Common.{
  ℕ, Bool, true, false, ◌||◌, not, List, Option, Text, text, text_eq, ◌++◌, ◌==◌, is_empty, itoa,
  trim_space, if◌then◌else◌,
}
use network_enumerator.Store.Schema.{HostRow}
use network_enumerator.Store.Hosts.{
  add_manual_host, update_host_notes, set_host_hostname, set_host_mac, delete_host, clear_all_hosts,
  acknowledge_host, unacknowledge_host, acknowledge_host_new, acknowledge_all_hosts_new,
}
use network_enumerator.Store.Tags.{add_host_tag, remove_host_tag}
use network_enumerator.Store.View.{Host, list_hosts, get_host}
use network_enumerator.Store.Sql.{Outcome, ok, err}
use network_enumerator.Discovery.DeepScan.{DeepScans, trigger_deep_scan}
use network_enumerator.Api.Handler.{
  World, Result, returns, fails, H, ◌>>=◌, ◌>>◌, pure, check, given, stored, for_field, announce,
  Parsers,
}

pub record HostRequest : Type 0 where
  pub subnet_id : ℕ
  pub ip : Text
  pub hostname : Text
  pub notes : Text

pub record HostPatch : Type 0 where
  pub notes : Option Text
  pub hostname : Option Text
  pub mac : Option Text

unfoldable pub list_hosts_handler : ℕ → H (List Host)
list_hosts_handler now = stored 500 (list_hosts now)

-- Every error of `GetHost` is a 404.
unfoldable pub get_host_handler : ℕ → Option ℕ → H Host
get_host_handler now path = do id ← given path; stored 404 (get_host id now)

unfoldable pub create_host : Parsers → ℕ → Option HostRequest → H HostRow
create_host go now body = do
  q ← given body
  check (go.is_ip q.ip) 400
  check (not (q.subnet_id == 0)) 400
  h ← stored 500 (add_manual_host q.subnet_id q.ip q.hostname q.notes now)
  announce (text "new_host") (text "Host manually added: " ++ h.ip) h.id now
  pure h

-- The test of a MAC address that is trimmed: "" takes the address away.
abbrev pub mac_ok : Parsers → Text → Bool
mac_ok go mac = is_empty (trim_space mac) || go.is_mac (trim_space mac)

unfoldable pub set_mac : Parsers → ℕ → Text → H (Unit {0})
set_mac go id mac = check (mac_ok go mac) 400 >> stored 500 (set_host_mac id (trim_space mac))

unfoldable pub update_host : Parsers → ℕ → Option ℕ → Option HostPatch → H Host
unfolding set_mac
update_host go now path body = do
  id ← given path
  q ← given body
  for_field q.notes (λ notes. stored 500 (update_host_notes id notes))
  for_field q.hostname (λ hostname. stored 500 (set_host_hostname id (trim_space hostname)))
  for_field q.mac (set_mac go id)
  stored 404 (get_host id now)

unfoldable pub delete_host_handler : Option ℕ → H (Unit {0})
delete_host_handler path = do id ← given path; stored 500 (delete_host id)

abbrev pub clear_all_hosts_passcode : Text
clear_all_hosts_passcode = text "1001"

-- `confirm` is the parameter of the query, "" if it is missing.
unfoldable pub clear_all_hosts_handler : ℕ → Text → H (Unit {0})
clear_all_hosts_handler now confirm = do
  check (text_eq confirm clear_all_hosts_passcode) 400
  stored 500 clear_all_hosts
  announce (text "hosts_cleared") (text "All hosts were cleared from inventory.") 0 now

-- The body is the tag's id.
unfoldable pub add_host_tag_handler : ℕ → Option ℕ → Option ℕ → H Host
add_host_tag_handler now path body = do
  host_id ← given path
  tag_id ← given body
  stored 500 (add_host_tag host_id tag_id)
  stored 404 (get_host host_id now)

unfoldable pub remove_host_tag_handler : Option ℕ → Option ℕ → H (Unit {0})
remove_host_tag_handler path tag_path = do
  host_id ← given path
  tag_id ← given tag_path
  stored 500 (remove_host_tag host_id tag_id)

unfoldable pub acknowledge_host_handler : ℕ → Option ℕ → H Host
acknowledge_host_handler now path = do
  id ← given path
  stored 500 (acknowledge_host id)
  stored 404 (get_host id now)

unfoldable pub unacknowledge_host_handler : ℕ → Option ℕ → H Host
unacknowledge_host_handler now path = do
  id ← given path
  stored 500 (unacknowledge_host id)
  stored 404 (get_host id now)

unfoldable pub acknowledge_host_new_handler : ℕ → Option ℕ → H Host
acknowledge_host_new_handler now path = do
  id ← given path
  stored 500 (acknowledge_host_new id)
  stored 404 (get_host id now)

-- What follows `AcknowledgeAllHostsNew`.
unfoldable pub reviewed : ℕ → ℕ → H ℕ
reviewed now n = do
  (if n == 0
      then pure tt
      else announce (text "hosts_reviewed") (itoa n ++ text " host(s) marked as reviewed.") 0 now)
  pure n

unfoldable pub acknowledge_all_hosts_new_handler : ℕ → H ℕ
unfolding reviewed
acknowledge_all_hosts_new_handler now = stored 500 acknowledge_all_hosts_new >>= reviewed now

-- What follows `TriggerDeepScan`, which never fails.
abbrev pub deep_scan_requested : World → Outcome (Bool × DeepScans) → Result (Unit {0}) × World
deep_scan_requested w (ok (false, scans) d) = (fails 409, record w { db = d; deep_scans = scans })
deep_scan_requested w (ok (true, scans) d) = (returns tt, record w { db = d; deep_scans = scans })
deep_scan_requested w (err e d) = (fails 500, record w { db = d })

unfoldable pub start_deep_scan : ℕ → Host → H (Unit {0})
start_deep_scan now h w =
    deep_scan_requested w (trigger_deep_scan h.row.id h.row.ip now w.deep_scans w.db)

unfoldable pub deep_scan_host_handler : ℕ → Option ℕ → H (Unit {0})
unfolding start_deep_scan
deep_scan_host_handler now path = do
  id ← given path
  h ← stored 404 (get_host id now)
  start_deep_scan now h
