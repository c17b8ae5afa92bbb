-- ===== src/Store/Calls.antt =====
-- A history of calls of internal/store, as its clients make them: the calls that change the
-- database, in any order, whatever each of them returns.
use network_enumerator.Common.{ℕ, Bool, Option, List, [], ◌∷◌, Text}
use network_enumerator.Store.Schema.{RiskRule}
use network_enumerator.Store.Sql.{Db, M, ◌>>=◌, pure, after}
use network_enumerator.Store.Subnets.{
  upsert_auto_subnet, add_manual_subnet, delete_subnet, touch_subnet_scan, set_subnet_hidden,
  set_subnet_enabled, set_subnet_name,
}
use network_enumerator.Store.Hosts.{
  upsert_host, upsert_unconfirmed_host, confirm_host_up, import_host, add_manual_host,
  update_host_notes, set_host_hostname, set_host_mac, acknowledge_host, unacknowledge_host,
  acknowledge_host_new, acknowledge_all_hosts_new, clear_acknowledgement_if_set, delete_host,
  clear_all_hosts,
}
use network_enumerator.Store.Hosts.Sweep.{sweep_missing_hosts}
use network_enumerator.Store.Ports.{upsert_port, sweep_closed_ports}
use network_enumerator.Store.Tags.{create_tag, delete_tag, add_host_tag, remove_host_tag}
use network_enumerator.Store.Settings.{set_scan_method, set_netdiscover_enabled}
use network_enumerator.Store.Events.{add_event}
use network_enumerator.Store.RiskRules.{
  RulePatch, create_risk_rule, update_risk_rule_fields, delete_risk_rule,
}
use network_enumerator.Store.Credentials.{update_credentials}

pub data Call : Type 0 where
  upserts_auto_subnet : (cidr name iface : Text) → (now : ℕ) → Call
  adds_manual_subnet : (cidr name : Text) → (now : ℕ) → Call
  deletes_subnet : (id : ℕ) → Call
  touches_subnet_scan : (id now : ℕ) → Call
  sets_subnet_hidden : (id : ℕ) → (hidden : Bool) → Call
  sets_subnet_enabled : (id : ℕ) → (enabled : Bool) → Call
  sets_subnet_name : (id : ℕ) → (name : Text) → Call
  upserts_host : (subnet_id : ℕ) → (ip mac hostname vendor : Text) → (now : ℕ) → Call
  upserts_unconfirmed_host : (subnet_id : ℕ) → (ip hostname : Text) → (now : ℕ) → Call
  confirms_host_up : (id now : ℕ) → Call
  imports_host : (subnet_id : ℕ) → (ip mac hostname vendor notes : Text) → (now : ℕ) → Call
  adds_manual_host : (subnet_id : ℕ) → (ip hostname notes : Text) → (now : ℕ) → Call
  updates_host_notes : (id : ℕ) → (notes : Text) → Call
  sets_host_hostname : (id : ℕ) → (hostname : Text) → Call
  sets_host_mac : (id : ℕ) → (mac : Text) → Call
  acknowledges_host : (id : ℕ) → Call
  unacknowledges_host : (id : ℕ) → Call
  acknowledges_host_new : (id : ℕ) → Call
  acknowledges_all_hosts_new : Call
  clears_acknowledgement : (id : ℕ) → Call
  deletes_host : (id : ℕ) → Call
  clears_all_hosts : Call
  sweeps_missing_hosts : (subnet_id : ℕ) → (seen : List Text) → (threshold : ℕ) → Call
  upserts_port :
      (host_id port : ℕ) → (protocol service banner product version : Text) → (now : ℕ) → Call
  sweeps_closed_ports : (host_id : ℕ) → (probed open_ports : List ℕ) → Call
  creates_tag : (name color : Text) → Call
  deletes_tag : (id : ℕ) → Call
  adds_host_tag : (host_id tag_id : ℕ) → Call
  removes_host_tag : (host_id tag_id : ℕ) → Call
  sets_scan_method : (method : Text) → Call
  sets_netdiscover_enabled : (enabled : Bool) → Call
  adds_event : (type message : Text) → (entity_id now : ℕ) → Call
  creates_risk_rule : (rule : RiskRule) → Call
  updates_risk_rule : (id : ℕ) → (patch : RulePatch) → Call
  deletes_risk_rule : (id : ℕ) → Call
  updates_credentials : (username password : Text) → (random : Option Text) → Call

abbrev void : {A : Type 0} → M A → M (Unit {0})
void m = m >>= λ _. pure tt

module _ (sha256 : Text → Text) where
  unfoldable pub call : Call → M (Unit {0})
  call (upserts_auto_subnet cidr name iface now) = void (upsert_auto_subnet cidr name iface now)
  call (adds_manual_subnet cidr name now) = void (add_manual_subnet cidr name now)
  call (deletes_subnet id) = void (delete_subnet id)
  call (touches_subnet_scan id now) = void (touch_subnet_scan id now)
  call (sets_subnet_hidden id hidden) = void (set_subnet_hidden id hidden)
  call (sets_subnet_enabled id enabled) = void (set_subnet_enabled id enabled)
  call (sets_subnet_name id name) = void (set_subnet_name id name)
  call (upserts_host subnet_id ip mac hostname vendor now) =
      void (upsert_host subnet_id ip mac hostname vendor now)
  call (upserts_unconfirmed_host subnet_id ip hostname now) =
      void (upsert_unconfirmed_host subnet_id ip hostname now)
  call (confirms_host_up id now) = void (confirm_host_up id now)
  call (imports_host subnet_id ip mac hostname vendor notes now) =
      void (import_host subnet_id ip mac hostname vendor notes now)
  call (adds_manual_host subnet_id ip hostname notes now) =
      void (add_manual_host subnet_id ip hostname notes now)
  call (updates_host_notes id notes) = void (update_host_notes id notes)
  call (sets_host_hostname id hostname) = void (set_host_hostname id hostname)
  call (sets_host_mac id mac) = void (set_host_mac id mac)
  call (acknowledges_host id) = void (acknowledge_host id)
  call (unacknowledges_host id) = void (unacknowledge_host id)
  call (acknowledges_host_new id) = void (acknowledge_host_new id)
  call acknowledges_all_hosts_new = void acknowledge_all_hosts_new
  call (clears_acknowledgement id) = void (clear_acknowledgement_if_set id)
  call (deletes_host id) = void (delete_host id)
  call clears_all_hosts = void clear_all_hosts
  call (sweeps_missing_hosts subnet_id seen threshold) =
      void (sweep_missing_hosts subnet_id seen threshold)
  call (upserts_port host_id port protocol service banner product version now) =
      void (upsert_port host_id port protocol service banner product version now)
  call (sweeps_closed_ports host_id probed open_ports) =
      void (sweep_closed_ports host_id probed open_ports)
  call (creates_tag name color) = void (create_tag name color)
  call (deletes_tag id) = void (delete_tag id)
  call (adds_host_tag host_id tag_id) = void (add_host_tag host_id tag_id)
  call (removes_host_tag host_id tag_id) = void (remove_host_tag host_id tag_id)
  call (sets_scan_method method) = void (set_scan_method method)
  call (sets_netdiscover_enabled enabled) = void (set_netdiscover_enabled enabled)
  call (adds_event type message entity_id now) = void (add_event type message entity_id now)
  call (creates_risk_rule rule) = void (create_risk_rule rule)
  call (updates_risk_rule id patch) = void (update_risk_rule_fields id patch)
  call (deletes_risk_rule id) = void (delete_risk_rule id)
  call (updates_credentials username password random) =
      void (update_credentials sha256 username password random)

  unfoldable pub run : List Call → Db → Db
  unfolding call
  run [] d = d
  run (c ∷ calls) d = run calls (after (call c d))
