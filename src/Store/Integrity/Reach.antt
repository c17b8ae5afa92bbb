-- ===== src/Store/Integrity/Reach.antt =====
-- The database is well formed after any history of calls, whatever statements fail in it.
use network_enumerator.Common.{ℕ, Bool, Option, List, [], ◌∷◌, Text}
use network_enumerator.Store.Sql.{Db, M, ◌>>=◌, pure, after, fresh}
use network_enumerator.Store.Sql.Keeps.{Keeps, Keeps-pure, Keeps->>=, Keeps->>}
use network_enumerator.Store.Open.{open_store}
use network_enumerator.Store.Calls.{
  Call, call, run, upserts_auto_subnet, adds_manual_subnet, deletes_subnet, touches_subnet_scan,
  sets_subnet_hidden, sets_subnet_enabled, sets_subnet_name, upserts_host, upserts_unconfirmed_host,
  confirms_host_up, imports_host, adds_manual_host, updates_host_notes, sets_host_hostname,
  sets_host_mac, acknowledges_host, unacknowledges_host, acknowledges_host_new,
  acknowledges_all_hosts_new, clears_acknowledgement, deletes_host, clears_all_hosts,
  sweeps_missing_hosts, upserts_port, sweeps_closed_ports, creates_tag, deletes_tag, adds_host_tag,
  removes_host_tag, sets_scan_method, sets_netdiscover_enabled, adds_event, creates_risk_rule,
  updates_risk_rule, deletes_risk_rule, updates_credentials,
}
use network_enumerator.Store.Integrity.{IsWf, schema-IsWf}
use network_enumerator.Store.Integrity.Rules.{KeepsWf}
use network_enumerator.Store.Integrity.SubnetMethods.{
  upsert_auto_subnet-Wf, add_manual_subnet-Wf, delete_subnet-Wf, touch_subnet_scan-Wf,
  set_subnet_hidden-Wf, set_subnet_enabled-Wf, set_subnet_name-Wf,
}
use network_enumerator.Store.Integrity.HostMethods.{
  upsert_host-Wf, upsert_unconfirmed_host-Wf, confirm_host_up-Wf, import_host-Wf,
  add_manual_host-Wf, update_host_notes-Wf, set_host_hostname-Wf, set_host_mac-Wf,
  acknowledge_host-Wf, unacknowledge_host-Wf, acknowledge_host_new-Wf, acknowledge_all_hosts_new-Wf,
  clear_acknowledgement_if_set-Wf, delete_host-Wf, clear_all_hosts-Wf, sweep_missing_hosts-Wf,
}
use network_enumerator.Store.Integrity.RowMethods.{
  upsert_port-Wf, sweep_closed_ports-Wf, create_tag-Wf, delete_tag-Wf, add_host_tag-Wf,
  remove_host_tag-Wf, set_scan_method-Wf, set_netdiscover_enabled-Wf, add_event-Wf,
  update_credentials-Wf, ensure_default_auth-Wf,
}
use network_enumerator.Store.Integrity.RuleMethods.{
  create_risk_rule-Wf, update_risk_rule_fields-Wf, delete_risk_rule-Wf,
  ensure_default_risk_rules-Wf,
}

void-Wf : {A : Type 0} (m : M A) → KeepsWf m → KeepsWf (m >>= λ _. pure tt)
void-Wf m h = Keeps->>= IsWf m _ h (λ _. Keeps-pure IsWf tt)

module _ (sha256 : Text → Text) where
  call-Wf : (c : Call) → KeepsWf (call sha256 c)
  unfolding call
  call-Wf (upserts_auto_subnet cidr name iface now) =
      void-Wf _ (upsert_auto_subnet-Wf cidr name iface now)
  call-Wf (adds_manual_subnet cidr name now) = void-Wf _ (add_manual_subnet-Wf cidr name now)
  call-Wf (deletes_subnet id) = void-Wf _ (delete_subnet-Wf id)
  call-Wf (touches_subnet_scan id now) = void-Wf _ (touch_subnet_scan-Wf id now)
  call-Wf (sets_subnet_hidden id hidden) = void-Wf _ (set_subnet_hidden-Wf id hidden)
  call-Wf (sets_subnet_enabled id enabled) = void-Wf _ (set_subnet_enabled-Wf id enabled)
  call-Wf (sets_subnet_name id name) = void-Wf _ (set_subnet_name-Wf id name)
  call-Wf (upserts_host subnet_id ip mac hostname vendor now) =
      void-Wf _ (upsert_host-Wf subnet_id ip mac hostname vendor now)
  call-Wf (upserts_unconfirmed_host subnet_id ip hostname now) =
      void-Wf _ (upsert_unconfirmed_host-Wf subnet_id ip hostname now)
  call-Wf (confirms_host_up id now) = void-Wf _ (confirm_host_up-Wf id now)
  call-Wf (imports_host subnet_id ip mac hostname vendor notes now) =
      void-Wf _ (import_host-Wf subnet_id ip mac hostname vendor notes now)
  call-Wf (adds_manual_host subnet_id ip hostname notes now) =
      void-Wf _ (add_manual_host-Wf subnet_id ip hostname notes now)
  call-Wf (updates_host_notes id notes) = void-Wf _ (update_host_notes-Wf id notes)
  call-Wf (sets_host_hostname id hostname) = void-Wf _ (set_host_hostname-Wf id hostname)
  call-Wf (sets_host_mac id mac) = void-Wf _ (set_host_mac-Wf id mac)
  call-Wf (acknowledges_host id) = void-Wf _ (acknowledge_host-Wf id)
  call-Wf (unacknowledges_host id) = void-Wf _ (unacknowledge_host-Wf id)
  call-Wf (acknowledges_host_new id) = void-Wf _ (acknowledge_host_new-Wf id)
  call-Wf acknowledges_all_hosts_new = void-Wf _ acknowledge_all_hosts_new-Wf
  call-Wf (clears_acknowledgement id) = void-Wf _ (clear_acknowledgement_if_set-Wf id)
  call-Wf (deletes_host id) = void-Wf _ (delete_host-Wf id)
  call-Wf clears_all_hosts = void-Wf _ clear_all_hosts-Wf
  call-Wf (sweeps_missing_hosts subnet_id seen threshold) =
      void-Wf _ (sweep_missing_hosts-Wf subnet_id seen threshold)
  call-Wf (upserts_port host_id port protocol service banner product version now) =
      void-Wf _ (upsert_port-Wf host_id port protocol service banner product version now)
  call-Wf (sweeps_closed_ports host_id probed open_ports) =
      void-Wf _ (sweep_closed_ports-Wf host_id probed open_ports)
  call-Wf (creates_tag name color) = void-Wf _ (create_tag-Wf name color)
  call-Wf (deletes_tag id) = void-Wf _ (delete_tag-Wf id)
  call-Wf (adds_host_tag host_id tag_id) = void-Wf _ (add_host_tag-Wf host_id tag_id)
  call-Wf (removes_host_tag host_id tag_id) = void-Wf _ (remove_host_tag-Wf host_id tag_id)
  call-Wf (sets_scan_method method) = void-Wf _ (set_scan_method-Wf method)
  call-Wf (sets_netdiscover_enabled enabled) = void-Wf _ (set_netdiscover_enabled-Wf enabled)
  call-Wf (adds_event type message entity_id now) =
      void-Wf _ (add_event-Wf type message entity_id now)
  call-Wf (creates_risk_rule rule) = void-Wf _ (create_risk_rule-Wf rule)
  call-Wf (updates_risk_rule id patch) = void-Wf _ (update_risk_rule_fields-Wf id patch)
  call-Wf (deletes_risk_rule id) = void-Wf _ (delete_risk_rule-Wf id)
  call-Wf (updates_credentials username password random) =
      void-Wf _ (update_credentials-Wf sha256 username password random)

  open_store-Wf :
      (password : Text) (random : Option Text) → KeepsWf (open_store sha256 password random)
  unfolding open_store
  open_store-Wf password random =
      Keeps->> IsWf _ _ (ensure_default_auth-Wf sha256 password random) ensure_default_risk_rules-Wf

  pub run-IsWf : (calls : List Call) (d : Db) → IsWf d.tables → IsWf (run sha256 calls d).tables
  unfolding run Keeps
  run-IsWf [] d w = w
  run-IsWf (c ∷ calls) d w = run-IsWf calls (after (call sha256 c d)) (call-Wf c d w)

  -- After `Open` on a new database and any calls of the store's methods, the database is well
  -- formed: ids and unique keys are distinct, and every host, port and tag link refers to rows that
  -- exist. This holds whichever statements fail on the way, and whatever the calls return.
  pub run-open_store-IsWf :
      (calls : List Call) (password : Text) (random : Option Text) (fails : ℕ → Bool)
      → IsWf
          (run sha256 calls
            (after (open_store sha256 password random (record fresh { fails = fails })))).tables
  unfolding Keeps
  run-open_store-IsWf calls password random fails =
      run-IsWf calls _ (open_store-Wf password random (record fresh { fails = fails }) schema-IsWf)
