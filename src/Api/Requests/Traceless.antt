-- ===== src/Api/Requests/Traceless.antt =====
-- Which requests to internal/api leave no trace when they are refused.
use network_enumerator.Common.{ℕ, ◌≡◌, Bool, true, Option, none, some}
use network_enumerator.Discovery.Network.{Network}
use network_enumerator.Api.Handler.{World, H, Parsers}
use network_enumerator.Api.Handler.Guarded.{
  Unchanged, IsRefusal, IsGuarded, Guarded-firm, Firm-pure, Guarded->>=-firm,
}
use network_enumerator.Api.Handler.Tails.{call, lookup, on_path, after_check}
use network_enumerator.Api.Subnets.{list_subnets_handler, delete_subnet_handler}
use network_enumerator.Api.Hosts.{
  list_hosts_handler, get_host_handler, delete_host_handler, acknowledge_host_handler,
  unacknowledge_host_handler, acknowledge_host_new_handler,
}
use network_enumerator.Api.Tags.{
  list_tags_handler, delete_tag_handler, list_events_handler, trigger_quick_scan, trigger_mass_scan,
  trigger_deep_scan_all, trigger_reverse_dns_scan,
}
use network_enumerator.Discovery.Method.{quick, mass, deep, reverse_dns}
use network_enumerator.Api.Requests.{
  Request, Body, answers, serve, lists_subnets, creates_subnet, updates_subnet, deletes_subnet,
  lists_hosts, gets_host, creates_host, updates_host, deletes_host, clears_all_hosts, adds_host_tag,
  removes_host_tag, acknowledges_host, unacknowledges_host, acknowledges_host_new,
  acknowledges_all_hosts_new, deep_scans_host, lists_tags, creates_tag, deletes_tag, gets_settings,
  updates_settings, lists_events, triggers_quick_scan, triggers_mass_scan, triggers_deep_scan,
  triggers_reverse_dns_scan, gets_scan_status, exports_network_map, imports_network_map,
  exports_system, imports_system,
}
use network_enumerator.Api.Requests.ImportRefusals.{
  exports-Firm, import_network_map-Guarded, import_system-Guarded,
}
use network_enumerator.Api.Requests.Refusals.{
  no_bad_mac, create_subnet-Guarded, create_host-Guarded, update_host-Guarded, no_host_body-Guarded,
  update_subnet-Guarded, on_row, on_host, add_host_tag-Guarded, remove_host_tag-Guarded,
  clear_all_hosts-Guarded, acknowledge_all-Guarded, deep_scan_host-Guarded, create_tag-Guarded,
  get_settings-Firm, update_settings-Guarded, scan_status-Firm, requested-Firm,
}

answered :
    {A : Type 0} (code : ℕ) (body : A → Body) (h : H A)
    → IsGuarded h
    → IsGuarded (answers code body h)
answered code body h guarded = Guarded->>=-firm h _ guarded (λ a. Firm-pure _)

module _ (go : Parsers) (net : Network) (now : ℕ) where
  -- Every request but an update of a host with a MAC address that is not accepted.
  abbrev pub has_no_bad_mac : Request → Bool
  has_no_bad_mac (updates_host path (some q)) = no_bad_mac go now q.mac
  has_no_bad_mac _ = true

  plain-Guarded :
      (path : Option ℕ)
      → IsGuarded (delete_subnet_handler path)
        × IsGuarded (delete_host_handler path)
        × IsGuarded (delete_tag_handler path)
        × IsGuarded (acknowledge_host_handler now path)
        × IsGuarded (unacknowledge_host_handler now path)
        × IsGuarded (acknowledge_host_new_handler now path)
        × IsGuarded (get_host_handler now path)
  unfolding delete_subnet_handler delete_host_handler delete_tag_handler acknowledge_host_handler
      unacknowledge_host_handler acknowledge_host_new_handler get_host_handler
  plain-Guarded path = (
    on_row path _,
    on_row path _,
    on_row path _,
    on_host now path _,
    on_host now path _,
    on_host now path _,
    on_path path _ (λ id. Guarded-firm _ (lookup _)),
  )

  lists-Guarded :
      IsGuarded list_subnets_handler
      × IsGuarded (list_hosts_handler now)
      × IsGuarded list_tags_handler
      × IsGuarded list_events_handler
  unfolding list_subnets_handler list_hosts_handler list_tags_handler list_events_handler
  lists-Guarded = (
    Guarded-firm _ (call _),
    Guarded-firm _ (call _),
    Guarded-firm _ (call _),
    Guarded-firm _ (call _),
  )

  scans-Guarded :
      IsGuarded (trigger_quick_scan net)
      × IsGuarded (trigger_mass_scan net)
      × IsGuarded (trigger_deep_scan_all net)
      × IsGuarded (trigger_reverse_dns_scan net)
  unfolding trigger_quick_scan trigger_mass_scan trigger_deep_scan_all trigger_reverse_dns_scan
  scans-Guarded = (
    Guarded-firm _ (requested-Firm net quick),
    after_check _ 409 _ (Guarded-firm _ (requested-Firm net mass)),
    after_check _ 409 _ (Guarded-firm _ (requested-Firm net deep)),
    after_check _ 409 _ (Guarded-firm _ (requested-Firm net reverse_dns)),
  )

  serve-Guarded : (r : Request) → has_no_bad_mac r ≡ true → IsGuarded (serve go net now r)
  unfolding serve
  serve-Guarded lists_subnets h = answered 200 _ _ lists-Guarded.0
  serve-Guarded (creates_subnet body) h = answered 201 _ _ (create_subnet-Guarded go now body)
  serve-Guarded (updates_subnet path body) h = answered 204 _ _ (update_subnet-Guarded path body)
  serve-Guarded (deletes_subnet path) h = answered 204 _ _ (plain-Guarded path).0
  serve-Guarded lists_hosts h = answered 200 _ _ lists-Guarded.1
  serve-Guarded (gets_host path) h = answered 200 _ _ (plain-Guarded path).6
  serve-Guarded (creates_host body) h = answered 201 _ _ (create_host-Guarded go now body)
  serve-Guarded (updates_host path none) h = answered 200 _ _ (no_host_body-Guarded go now path)
  serve-Guarded (updates_host path (some q)) h =
      answered 200 _ _ (update_host-Guarded go now path q h)
  serve-Guarded (deletes_host path) h = answered 204 _ _ (plain-Guarded path).1
  serve-Guarded (clears_all_hosts confirm) h =
      answered 204 _ _ (clear_all_hosts-Guarded now confirm)
  serve-Guarded (adds_host_tag path tag_id) h =
      answered 200 _ _ (add_host_tag-Guarded now path tag_id)
  serve-Guarded (removes_host_tag path tag_id) h =
      answered 204 _ _ (remove_host_tag-Guarded path tag_id)
  serve-Guarded (acknowledges_host path) h = answered 200 _ _ (plain-Guarded path).3
  serve-Guarded (unacknowledges_host path) h = answered 200 _ _ (plain-Guarded path).4
  serve-Guarded (acknowledges_host_new path) h = answered 200 _ _ (plain-Guarded path).5
  serve-Guarded acknowledges_all_hosts_new h = answered 200 _ _ (acknowledge_all-Guarded now)
  serve-Guarded (deep_scans_host path) h = answered 202 _ _ (deep_scan_host-Guarded now path)
  serve-Guarded lists_tags h = answered 200 _ _ lists-Guarded.2
  serve-Guarded (creates_tag body) h = answered 201 _ _ (create_tag-Guarded body)
  serve-Guarded (deletes_tag path) h = answered 204 _ _ (plain-Guarded path).2
  serve-Guarded gets_settings h = answered 200 _ _ (Guarded-firm _ (get_settings-Firm net))
  serve-Guarded (updates_settings body) h = answered 200 _ _ (update_settings-Guarded net body)
  serve-Guarded lists_events h = answered 200 _ _ lists-Guarded.3
  serve-Guarded triggers_quick_scan h = answered 202 _ _ scans-Guarded.0
  serve-Guarded triggers_mass_scan h = answered 202 _ _ scans-Guarded.1
  serve-Guarded triggers_deep_scan h = answered 202 _ _ scans-Guarded.2
  serve-Guarded triggers_reverse_dns_scan h = answered 202 _ _ scans-Guarded.3
  serve-Guarded gets_scan_status h = answered 200 _ _ (Guarded-firm _ (scan_status-Firm net))
  serve-Guarded exports_network_map h = answered 200 _ _ (Guarded-firm _ (exports-Firm now).0)
  serve-Guarded (imports_network_map body) h =
      answered 200 _ _ (import_network_map-Guarded go now body)
  serve-Guarded exports_system h = answered 200 _ _ (Guarded-firm _ (exports-Firm now).1)
  serve-Guarded (imports_system body) h = answered 200 _ _ (import_system-Guarded go now body)

  -- A request that a handler refuses with 400 or 409 changes no table, queues no scan, starts no deep
  -- scan and sends no event, unless it updates a host with a MAC address that is not accepted.
  pub serve-Unchanged :
      (r : Request) (w : World)
      → has_no_bad_mac r ≡ true
      → IsRefusal (serve go net now r w).0
      → Unchanged w (serve go net now r w).1
  unfolding IsGuarded
  serve-Unchanged r w accepted refused = serve-Guarded r accepted w refused
