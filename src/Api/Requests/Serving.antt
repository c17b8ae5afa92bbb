-- ===== src/Api/Requests/Serving.antt =====
-- The handlers of internal/api/server.go and settings.go keep a predicate of the tables
-- that the methods of the store keep, apart from deletions and notes.
use network_enumerator.Common.{
  ℕ, ◌≡◌, some, text_eq, Bool, true, false, Option, ◌==◌, Text, Bool-cases, inl, inr,
}
use network_enumerator.Store.Sql.{Outcome, ok, err, after}
use network_enumerator.Store.Sql.Keeps.{Keeps, Keeps-pure, Keeps-query, Keeps->>, Keeps-if}
use network_enumerator.Store.View.{Host}
use network_enumerator.Store.View.ReadOnly.{list_hosts-Keeps}
use network_enumerator.Store.Schema.{Tables}
use network_enumerator.Store.Subnets.{list_subnets, add_manual_subnet, set_subnet_name}
use network_enumerator.Store.Hosts.{
  add_manual_host, update_host_notes, set_host_hostname, set_host_mac, acknowledge_host,
  unacknowledge_host, acknowledge_host_new, acknowledge_all_hosts_new, clear_all_hosts,
}
use network_enumerator.Store.Tags.{list_tags, create_tag, delete_tag, add_host_tag, remove_host_tag}
use network_enumerator.Store.Events.{list_events}
use network_enumerator.Discovery.Attempt.{Keeps-attempt}
use network_enumerator.Discovery.Recording.{emit}
use network_enumerator.Api.Import.Keeping.{ImportKeeps}
use network_enumerator.Discovery.DeepScan.{DeepScans, claim_deep_scan, trigger_deep_scan}
use network_enumerator.Api.Handler.{World, Parsers}
use network_enumerator.Api.Handler.Keeping.{Preserves}
use network_enumerator.Api.Handler.Serving.{
  Serves, done, call, tests, queues, field, ◌⨾◌, bind, on, passes, shows_host, announces,
}
use network_enumerator.Api.Subnets.{
  SubnetRequest, SubnetPatch, list_subnets_handler, create_subnet, update_subnet,
}
use network_enumerator.Api.Hosts.{
  HostRequest, HostPatch, list_hosts_handler, get_host_handler, create_host, set_mac, update_host,
  clear_all_hosts_handler, clear_all_hosts_passcode, add_host_tag_handler, remove_host_tag_handler,
  acknowledge_host_handler, unacknowledge_host_handler, acknowledge_host_new_handler, reviewed,
  acknowledge_all_hosts_new_handler, start_deep_scan, deep_scan_requested, deep_scan_host_handler,
}
use network_enumerator.Api.Tags.{
  TagRequest, list_tags_handler, create_tag_handler, list_events_handler,
}

-- The methods that requests call, apart from deletions and notes.
pub record RequestKeeps (P : Tables → Type 0) : Type 0 where
  pub imports : ImportKeeps P
  pub adds_subnet : (cidr name : Text) (now : ℕ) → Keeps P (add_manual_subnet cidr name now)
  pub names_subnet : (id : ℕ) (name : Text) → Keeps P (set_subnet_name id name)
  pub adds_host :
      (s : ℕ) (ip hostname notes : Text) (now : ℕ)
      → Keeps P (add_manual_host s ip hostname notes now)
  pub hostnames : (id : ℕ) (hostname : Text) → Keeps P (set_host_hostname id hostname)
  pub macs : (id : ℕ) (mac : Text) → Keeps P (set_host_mac id mac)
  pub acks : (id : ℕ) → Keeps P (acknowledge_host id)
  pub unacks : (id : ℕ) → Keeps P (unacknowledge_host id)
  pub new_ack : (id : ℕ) → Keeps P (acknowledge_host_new id)
  pub new_acks : Keeps P acknowledge_all_hosts_new
  pub creates_tag : (name color : Text) → Keeps P (create_tag name color)
  pub deletes_tag : (id : ℕ) → Keeps P (delete_tag id)
  pub links : (host_id tag_id : ℕ) → Keeps P (add_host_tag host_id tag_id)
  pub unlinks : (host_id tag_id : ℕ) → Keeps P (remove_host_tag host_id tag_id)

module _ (P : Tables → Type 0) (store : RequestKeeps P) where
  module _ (go : Parsers) (now : ℕ) where
    pub create_subnet-Serves : (body : Option SubnetRequest) → Serves P (create_subnet go now body)
    unfolding create_subnet
    create_subnet-Serves body = on body _ λ q _.
        tests _ 400
        ⨾ bind _ (call 500 _ (store.adds_subnet q.cidr q.name now)) (λ sn. queues _ ⨾ done sn)

    pub create_host-Serves : (body : Option HostRequest) → Serves P (create_host go now body)
    unfolding create_host
    create_host-Serves body = on body _ λ q _.
        tests _ 400
        ⨾ tests _ 400
        ⨾ bind _ (call 500 _ (store.adds_host q.subnet_id q.ip q.hostname q.notes now))
            (λ h. announces _ _ _ now (store.imports.adds _ _ _ now) ⨾ done h)

    set_mac-Serves : (id : ℕ) (mac : Text) → Serves P (set_mac go id mac)
    unfolding set_mac
    set_mac-Serves id mac = tests _ 400 ⨾ call 500 _ (store.macs id _)

    pub update_host-Serves :
        (path : Option ℕ) (body : Option HostPatch)
        → ((id : ℕ) (q : HostPatch) (n : Text)
            → path ≡ some id
            → body ≡ some q
            → q.notes ≡ some n
            → Keeps P (update_host_notes id n))
        → Serves P (update_host go now path body)
    unfolding update_host
    update_host-Serves path body notes = on path _ λ id id_at. on body _ λ q q_at.
        field q.notes _ (λ n n_at. call 500 _ (notes id q n id_at q_at n_at))
        ⨾ field q.hostname _ (λ n _. call 500 _ (store.hostnames id _))
        ⨾ field q.mac _ (λ m _. set_mac-Serves id m)
        ⨾ shows_host now id

  pub update_subnet-Serves :
      (path : Option ℕ) (body : Option SubnetPatch) → Serves P (update_subnet path body)
  unfolding update_subnet
  update_subnet-Serves path body = on path _ λ id _. on body _ λ q _.
      field q.hidden _ (λ b _. call 500 _ (store.imports.hides id b))
      ⨾ field q.enabled _ (λ b _. call 500 _ (store.imports.enables id b))
      ⨾ field q.name _ (λ n _. call 500 _ (store.names_subnet id n))

  pub clear_all_hosts-Serves :
      (now : ℕ) (confirm : Text)
      → (text_eq confirm clear_all_hosts_passcode ≡ true → Keeps P clear_all_hosts)
      → Serves P (clear_all_hosts_handler now confirm)
  unfolding clear_all_hosts_handler
  clear_all_hosts-Serves now confirm clears =
      passes _ 400 _
        (λ ok. call 500 _ (clears ok) ⨾ announces _ _ 0 now (store.imports.adds _ _ 0 now))

  reviewed-Serves : (now n : ℕ) → Serves P (reviewed now n)
  unfolding reviewed
  reviewed-Serves now n = elim (Bool-cases (n == 0)) [
    | inl c ↦ rw c (done tt ⨾ done n)
    | inr c ↦ rw c (announces _ _ 0 now (store.imports.adds _ _ 0 now) ⨾ done n)
  ]

  pub acknowledge_all-Serves : (now : ℕ) → Serves P (acknowledge_all_hosts_new_handler now)
  unfolding acknowledge_all_hosts_new_handler
  acknowledge_all-Serves now = bind _ (call 500 _ store.new_acks) (reviewed-Serves now)

  requested_keeps :
      (w : World) (o : Outcome (Bool × DeepScans))
      → P (after o).tables
      → P (deep_scan_requested w o).1.db.tables
  requested_keeps w (ok (false, scans) d) k = k
  requested_keeps w (ok (true, scans) d) k = k
  requested_keeps w (err e d) k = k

  trigger_deep_scan-Keeps :
      (id : ℕ) (ip : Text) (now : ℕ) (s : DeepScans) → Keeps P (trigger_deep_scan id ip now s)
  unfolding trigger_deep_scan emit
  trigger_deep_scan-Keeps id ip now s =
      let told =
        Keeps->> P _ _ (Keeps-attempt P _ (store.imports.adds _ _ id now)) (Keeps-pure P tt) in
      Keeps-if P (claim_deep_scan id s).0 _ _ (Keeps->> P _ _ told (Keeps-pure P _))
        (Keeps-pure P _)

  start_deep_scan-Serves : (now : ℕ) (h : Host) → Serves P (start_deep_scan now h)
  unfolding Preserves start_deep_scan Keeps
  start_deep_scan-Serves now h = record {
    keeps = λ w k.
        requested_keeps w (trigger_deep_scan h.row.id h.row.ip now w.deep_scans w.db)
          (trigger_deep_scan-Keeps h.row.id h.row.ip now w.deep_scans w.db k);
  }

  pub deep_scan_host-Serves :
      (now : ℕ) (path : Option ℕ) → Serves P (deep_scan_host_handler now path)
  unfolding deep_scan_host_handler
  deep_scan_host-Serves now path =
      on path _ (λ id _. bind _ (shows_host now id) (start_deep_scan-Serves now))

  -- The handlers that make one call for the row of the path, and those that then show the host.
  pub host_handlers-Serves :
      (now : ℕ) (path : Option ℕ)
      → Serves P (acknowledge_host_handler now path)
        × Serves P (unacknowledge_host_handler now path)
        × Serves P (acknowledge_host_new_handler now path)
        × Serves P (get_host_handler now path)
  unfolding acknowledge_host_handler unacknowledge_host_handler acknowledge_host_new_handler
      get_host_handler
  host_handlers-Serves now path = (
    on path _ (λ id _. call 500 _ (store.acks id) ⨾ shows_host now id),
    on path _ (λ id _. call 500 _ (store.unacks id) ⨾ shows_host now id),
    on path _ (λ id _. call 500 _ (store.new_ack id) ⨾ shows_host now id),
    on path _ (λ id _. shows_host now id),
  )

  pub tag_handlers-Serves :
      (now : ℕ) (path tag_id : Option ℕ)
      → Serves P (add_host_tag_handler now path tag_id)
        × Serves P (remove_host_tag_handler path tag_id)
  unfolding add_host_tag_handler remove_host_tag_handler
  tag_handlers-Serves now path tag_id = (
    on path _ (λ id _. on tag_id _ (λ tag _. call 500 _ (store.links id tag) ⨾ shows_host now id)),
    on path _ (λ id _. on tag_id _ (λ tag _. call 500 _ (store.unlinks id tag))),
  )

  pub lists-Serves :
      (now : ℕ)
      → Serves P list_subnets_handler
        × Serves P (list_hosts_handler now)
        × Serves P list_tags_handler
        × Serves P list_events_handler
  unfolding list_subnets_handler list_hosts_handler list_tags_handler list_events_handler
      list_subnets list_tags list_events
  lists-Serves now = (
    call 500 _ (Keeps-query P _),
    call 500 _ (list_hosts-Keeps P now),
    call 500 _ (Keeps-query P _),
    call 500 _ (Keeps-query P _),
  )

  pub create_tag_handler-Serves : (body : Option TagRequest) → Serves P (create_tag_handler body)
  unfolding create_tag_handler
  create_tag_handler-Serves body =
      on body _ (λ q _. tests _ 400 ⨾ call 500 _ (store.creates_tag q.name q.color))
