-- ===== src/Api/Requests/Enduring.antt =====
-- A host that some test holds of stays in the table, whichever method of internal/store the handlers of
-- internal/api call, deletions and changes of notes apart.
use network_enumerator.Common.{
  ℕ, ◌≡◌, refl, Bool, true, false, not, ◌&&◌, none, some, ◌∷◌, Text, any, arith, if◌then◌else◌,
  is_empty, text, count_if,
}
use network_enumerator.Store.Table.{is_id, has_id, add, update_where}
use network_enumerator.Store.Table.Find.{any-map, any-skip, any-spare}
use network_enumerator.Store.Schema.{
  Tables, HostRow, HostTagRow, same_host_tag, RiskRule, host_row, subnet_row, port_row, tag_row,
  event_row, risk_rule_row,
}
use network_enumerator.Store.Constraints.{
  insert_host, insert_event, insert_host_tag, insert_risk_rule, update_host, delete_hosts,
  delete_tags,
}
use network_enumerator.Store.Sql.{exec, statement}
use network_enumerator.Store.Sql.Keeps.{
  Keeps, Keeps-pure, Keeps-query, Keeps-exec, Keeps-statement, Keeps->>=, Keeps->>, Keeps-if, Lands,
  Lands-if, Lands-unless,
}
use network_enumerator.Store.Subnets.{
  upsert_auto_subnet, add_manual_subnet, set_subnet_hidden, set_subnet_enabled, set_subnet_name,
}
use network_enumerator.Store.Hosts.{
  import_host, add_manual_host, set_host_hostname, set_host_mac, acknowledge_host,
  unacknowledge_host, acknowledge_host_new, acknowledge_all_hosts_new,
}
use network_enumerator.Store.Ports.{upsert_port}
use network_enumerator.Store.Tags.{create_tag, delete_tag, add_host_tag, remove_host_tag}
use network_enumerator.Store.Events.{new_event, add_event}
use network_enumerator.Store.Settings.{set_scan_method, set_netdiscover_enabled}
use network_enumerator.Store.RiskRules.{RulePatch, create_risk_rule, update_risk_rule_fields}
use network_enumerator.Api.Import.Keeping.{ImportKeeps}
use network_enumerator.Api.Requests.Serving.{RequestKeeps}

abbrev reviewed : HostRow → HostRow
reviewed h = record h { new_ack = true }

-- A change of a host that leaves all alone but its MAC, hostname, vendor and acknowledgements.
pub record IsMild (f : HostRow → HostRow) : Type 0 where
  pub mild :
      (h : HostRow)
      → f h ≡ record h {
        mac = (f h).mac;
        hostname = (f h).hostname;
        vendor = (f h).vendor;
        acknowledged = (f h).acknowledged;
        new_ack = (f h).new_ack;
      }

module _ (test : HostRow → Bool)
    (kept : (f : HostRow → HostRow)
      → IsMild f
      → (h : HostRow) → test h ≡ true
      → test (f h) ≡ true) where
  abbrev pub Endures : Tables → Type 0
  Endures t = any test t.hosts.rows ≡ true

  update_host-Endures :
      (id : ℕ) (f : HostRow → HostRow) → IsMild f → Keeps Endures (exec (update_host id f))
  update_host-Endures id f mild =
      Keeps-exec Endures (update_host id f)
        (λ t k. any-map test (is_id id) f t.hosts.rows (kept f mild) k)

  added : (make : ℕ → HostRow) (t : Tables) → Endures t → any test (add make t.hosts).rows ≡ true
  added make t k = ground (arith, k)

  insert_host-Endures : (make : ℕ → HostRow) → Keeps Endures (statement (insert_host make))
  insert_host-Endures make =
      Keeps-statement Endures (insert_host make) λ t k. Lands-if Endures _ _ _ (added make t k)

  upsert_auto_subnet-Endures :
      (cidr name iface : Text) (now : ℕ) → Keeps Endures (upsert_auto_subnet cidr name iface now)
  unfolding upsert_auto_subnet
  upsert_auto_subnet-Endures cidr name iface now =
      Keeps->>= Endures _ _ (Keeps-query Endures _) (elim [
        | some r ↦
            Keeps-if Endures _ _ _
              (Keeps->> Endures _ _ (Keeps-exec Endures _ (λ t k. k)) (Keeps-pure Endures _))
              (Keeps-pure Endures _)
        | none ↦
            Keeps->>= Endures _ _ (Keeps-statement Endures _ (λ t k. Lands-unless Endures _ _ _ k))
              (λ id. Keeps-pure Endures _)
      ])

  import_host-Endures :
      (s : ℕ) (ip mac hostname vendor notes : Text) (now : ℕ)
      → Keeps Endures (import_host s ip mac hostname vendor notes now)
  unfolding import_host
  import_host-Endures s ip mac hostname vendor notes now =
      Keeps->>= Endures _ _ (Keeps-query Endures _) (elim [
        | some h ↦
            Keeps-if Endures _ _ _
              (Keeps->> Endures _ _ (update_host-Endures h.id _ (record { mild = λ r. refl }))
                (Keeps-pure Endures _))
              (Keeps-pure Endures _)
        | none ↦ Keeps->>= Endures _ _ (insert_host-Endures _) (λ id. Keeps-pure Endures _)
      ])

  upsert_port-Endures :
      (h p : ℕ) (protocol service banner product version : Text) (now : ℕ)
      → Keeps Endures (upsert_port h p protocol service banner product version now)
  unfolding upsert_port
  upsert_port-Endures h p protocol service banner product version now =
      Keeps->>= Endures _ _ (Keeps-query Endures _) (elim [
        | some r ↦ Keeps->> Endures _ _ (Keeps-exec Endures _ (λ t k. k)) (Keeps-pure Endures _)
        | none ↦
            Keeps->>= Endures _ _ (Keeps-statement Endures _ (λ t k. Lands-if Endures _ _ _ k))
              (λ id. Keeps-pure Endures _)
      ])

  add_event-Endures :
      (type message : Text) (id now : ℕ) → Keeps Endures (add_event type message id now)
  unfolding add_event
  add_event-Endures type message id now =
      Keeps->>= Endures _ _
        (Keeps-statement Endures (insert_event (new_event type message id now)) (λ t k. k))
        (λ i. Keeps-pure Endures (new_event type message id now i))

  create_risk_rule-Endures : (r : RiskRule) → Keeps Endures (create_risk_rule r)
  unfolding create_risk_rule
  create_risk_rule-Endures r =
      let severity = if is_empty r.severity then text "warning" else r.severity in
      let make = λ (i : ℕ). record r { id = i; severity = severity } in
      Keeps->>= Endures _ _ (Keeps-statement Endures (insert_risk_rule make) (λ t k. k))
        (λ id. Keeps-pure Endures (make id))

  update_risk_rule-Endures : (id : ℕ) (p : RulePatch) → Keeps Endures (update_risk_rule_fields id p)
  unfolding update_risk_rule_fields
  update_risk_rule-Endures id p =
      Keeps-if Endures _ _ _ (Keeps-pure Endures tt) (Keeps-exec Endures _ (λ t k. k))

  Endures-ImportKeeps : ImportKeeps Endures
  unfolding set_subnet_hidden set_subnet_enabled set_scan_method set_netdiscover_enabled
  Endures-ImportKeeps = record {
    segments = upsert_auto_subnet-Endures;
    hides = λ id b. Keeps-exec Endures _ (λ t k. k);
    enables = λ id b. Keeps-exec Endures _ (λ t k. k);
    hosts = import_host-Endures;
    ports = upsert_port-Endures;
    creates = create_risk_rule-Endures;
    updates = update_risk_rule-Endures;
    methods = λ m. Keeps-exec Endures _ (λ t k. k);
    netdiscover = λ b. Keeps-exec Endures _ (λ t k. k);
    adds = add_event-Endures;
  }

  add_manual_subnet-Endures :
      (cidr name : Text) (now : ℕ) → Keeps Endures (add_manual_subnet cidr name now)
  unfolding add_manual_subnet
  add_manual_subnet-Endures cidr name now =
      Keeps->>= Endures _ _ (Keeps-statement Endures _ (λ t k. Lands-unless Endures _ _ _ k))
        (λ id. Keeps-pure Endures _)

  add_manual_host-Endures :
      (s : ℕ) (ip hostname notes : Text) (now : ℕ)
      → Keeps Endures (add_manual_host s ip hostname notes now)
  unfolding add_manual_host
  add_manual_host-Endures s ip hostname notes now =
      Keeps->>= Endures _ _ (insert_host-Endures _) (λ id. Keeps-pure Endures _)

  all_acknowledged-Endures : Keeps Endures acknowledge_all_hosts_new
  unfolding acknowledge_all_hosts_new
  all_acknowledged-Endures =
      Keeps-statement Endures
        (λ t. some (
          count_if (λ h. not h.new_ack) t.hosts.rows,
          record t { hosts = update_where (λ h. not h.new_ack) reviewed t.hosts },
        ))
        (λ t k.
          any-map test (λ h. not h.new_ack) reviewed t.hosts.rows
            (kept reviewed (record { mild = λ r. refl })) k)

  create_tag-Endures : (name color : Text) → Keeps Endures (create_tag name color)
  unfolding create_tag
  create_tag-Endures name color =
      Keeps->>= Endures _ _ (Keeps-statement Endures _ (λ t k. Lands-unless Endures _ _ _ k))
        (λ id. Keeps-pure Endures _)

  linked :
      (a b : Bool) (t t' : Tables)
      → Endures t
      → Endures t'
      → Lands Endures {A = Unit {0}} (if a then some (tt, t) else if b then some (tt, t') else none)
  linked true b t t' k k' = k
  linked false true t t' k k' = k'
  linked false false t t' k k' = tt

  add_host_tag-Endures : (host_id tag_id : ℕ) → Keeps Endures (add_host_tag host_id tag_id)
  unfolding add_host_tag
  add_host_tag-Endures host_id tag_id =
      let link : HostTagRow = record { host_id = host_id; tag_id = tag_id } in
      Keeps-statement Endures (insert_host_tag link) λ t k.
        linked (any (same_host_tag link) t.host_tags)
          (has_id host_id t.hosts.rows && has_id tag_id t.tags.rows) t
          (record t { host_tags = link ∷ t.host_tags }) k k

  pub Endures-RequestKeeps : RequestKeeps Endures
  unfolding set_subnet_name set_host_hostname set_host_mac acknowledge_host unacknowledge_host
      acknowledge_host_new delete_tag delete_tags remove_host_tag
  Endures-RequestKeeps = record {
    imports = Endures-ImportKeeps;
    adds_subnet = add_manual_subnet-Endures;
    names_subnet = λ id name. Keeps-exec Endures _ (λ t k. k);
    adds_host = add_manual_host-Endures;
    hostnames = λ id n. update_host-Endures id _ (record { mild = λ r. refl });
    macs = λ id n. update_host-Endures id _ (record { mild = λ r. refl });
    acks = λ id. update_host-Endures id _ (record { mild = λ r. refl });
    unacks = λ id. update_host-Endures id _ (record { mild = λ r. refl });
    new_ack = λ id. update_host-Endures id _ (record { mild = λ r. refl });
    new_acks = all_acknowledged-Endures;
    creates_tag = create_tag-Endures;
    deletes_tag = λ id. Keeps-exec Endures _ (λ t k. k);
    links = add_host_tag-Endures;
    unlinks = λ host_id tag_id. Keeps-exec Endures _ (λ t k. k);
  }

  -- The statements that change notes and delete hosts, where the test holds of none of these.
  pub skips :
      (id : ℕ) (f : HostRow → HostRow)
      → ((h : HostRow) → test h ≡ true → is_id id h ≡ false)
      → Keeps Endures (exec (update_host id f))
  skips id f other = Keeps-exec Endures _ (λ t k. any-skip test (is_id id) f t.hosts.rows other k)

  pub spares :
      (p : HostRow → Bool) (t : Tables)
      → ((h : HostRow) → test h ≡ true → p h ≡ false)
      → Endures t
      → Endures (delete_hosts p t)
  unfolding delete_hosts
  spares p t other k = any-spare test p t.hosts.rows other k
