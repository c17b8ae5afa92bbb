-- ===== src/Api/Requests.antt =====
-- The requests that internal/api/server.go routes, past `requireAuth`, to the handlers of server.go,
-- settings.go, export.go and systemexport.go, with the status and the body of a success. The routes of
-- risk rules (see Api.Rules), of the account (see Api.Access), of the event stream (see Api.Hub) and of
-- the uploads of nmap's and dnsrecon's output are not among them.
pub mod Refusals
pub mod ImportRefusals
pub mod Traceless
pub mod BadMac
pub mod Serving
pub mod ServingSettings
pub mod ServingFiles
pub mod Enduring
pub mod Still
pub mod Survival
use network_enumerator.Common.{ℕ, List, [], ◌∷◌, Option, none, some, Text}
use network_enumerator.Store.Schema.{SubnetRow, HostRow, TagRow, EventRow}
use network_enumerator.Store.View.{Host}
use network_enumerator.Discovery.Control.{ScanStatus}
use network_enumerator.Discovery.Network.{Network}
use network_enumerator.Api.Handler.{World, Result, returns, H, ◌>>=◌, pure, Parsers}
use network_enumerator.Api.Subnets.{
  SubnetRequest, SubnetPatch, list_subnets_handler, create_subnet, update_subnet,
  delete_subnet_handler,
}
use network_enumerator.Api.Hosts.{
  HostRequest, HostPatch, list_hosts_handler, get_host_handler, create_host, update_host,
  delete_host_handler, clear_all_hosts_handler, add_host_tag_handler, remove_host_tag_handler,
  acknowledge_host_handler, unacknowledge_host_handler, acknowledge_host_new_handler,
  acknowledge_all_hosts_new_handler, deep_scan_host_handler,
}
use network_enumerator.Api.Tags.{
  TagRequest, SettingsPatch, Settings, list_tags_handler, create_tag_handler, delete_tag_handler,
  list_events_handler, get_settings, update_settings, scan_status, trigger_quick_scan,
  trigger_mass_scan, trigger_deep_scan_all, trigger_reverse_dns_scan,
}
use network_enumerator.Api.Export.{
  ExportDocument, SystemDocument, export_network_map, export_system,
}
use network_enumerator.Api.Import.{Imported, SystemImported, import_network_map, import_system}

pub data Request : Type 0 where
  lists_subnets : Request
  creates_subnet : Option SubnetRequest → Request
  updates_subnet : Option ℕ → Option SubnetPatch → Request
  deletes_subnet : Option ℕ → Request
  lists_hosts : Request
  gets_host : Option ℕ → Request
  creates_host : Option HostRequest → Request
  updates_host : Option ℕ → Option HostPatch → Request
  deletes_host : Option ℕ → Request
  clears_all_hosts : (confirm : Text) → Request
  adds_host_tag : Option ℕ → (tag_id : Option ℕ) → Request
  removes_host_tag : Option ℕ → (tag_id : Option ℕ) → Request
  acknowledges_host : Option ℕ → Request
  unacknowledges_host : Option ℕ → Request
  acknowledges_host_new : Option ℕ → Request
  acknowledges_all_hosts_new : Request
  deep_scans_host : Option ℕ → Request
  lists_tags : Request
  creates_tag : Option TagRequest → Request
  deletes_tag : Option ℕ → Request
  gets_settings : Request
  updates_settings : Option SettingsPatch → Request
  lists_events : Request
  triggers_quick_scan : Request
  triggers_mass_scan : Request
  triggers_deep_scan : Request
  triggers_reverse_dns_scan : Request
  gets_scan_status : Request
  exports_network_map : Request
  imports_network_map : Option ExportDocument → Request
  exports_system : Request
  imports_system : Option SystemDocument → Request

pub data Body : Type 0 where
  no_content : Body
  subnets : List SubnetRow → Body
  subnet : SubnetRow → Body
  hosts : List Host → Body
  host : Host → Body
  new_host : HostRow → Body
  tags : List TagRow → Body
  tag : TagRow → Body
  events : List EventRow → Body
  settings : Settings → Body
  status : ScanStatus → Body
  reviewed_hosts : ℕ → Body
  started : Body
  network_map : ExportDocument → Body
  system_export : SystemDocument → Body
  imported : Imported → Body
  system_imported : SystemImported → Body

-- `writeJSON(w, code, …)`, or `w.WriteHeader(code)`.
abbrev pub answers : {A : Type 0} → ℕ → (A → Body) → H A → H (ℕ × Body)
answers code body h = h >>= λ a. pure (code, body a)

module _ (go : Parsers) (net : Network) (now : ℕ) where
  unfoldable pub serve : Request → H (ℕ × Body)
  serve lists_subnets = answers 200 subnets list_subnets_handler
  serve (creates_subnet body) = answers 201 subnet (create_subnet go now body)
  serve (updates_subnet path body) = answers 204 (λ _. no_content) (update_subnet path body)
  serve (deletes_subnet path) = answers 204 (λ _. no_content) (delete_subnet_handler path)
  serve lists_hosts = answers 200 hosts (list_hosts_handler now)
  serve (gets_host path) = answers 200 host (get_host_handler now path)
  serve (creates_host body) = answers 201 new_host (create_host go now body)
  serve (updates_host path body) = answers 200 host (update_host go now path body)
  serve (deletes_host path) = answers 204 (λ _. no_content) (delete_host_handler path)
  serve (clears_all_hosts confirm) =
      answers 204 (λ _. no_content) (clear_all_hosts_handler now confirm)
  serve (adds_host_tag path tag_id) = answers 200 host (add_host_tag_handler now path tag_id)
  serve (removes_host_tag path tag_id) =
      answers 204 (λ _. no_content) (remove_host_tag_handler path tag_id)
  serve (acknowledges_host path) = answers 200 host (acknowledge_host_handler now path)
  serve (unacknowledges_host path) = answers 200 host (unacknowledge_host_handler now path)
  serve (acknowledges_host_new path) = answers 200 host (acknowledge_host_new_handler now path)
  serve acknowledges_all_hosts_new =
      answers 200 reviewed_hosts (acknowledge_all_hosts_new_handler now)
  serve (deep_scans_host path) = answers 202 (λ _. started) (deep_scan_host_handler now path)
  serve lists_tags = answers 200 tags list_tags_handler
  serve (creates_tag body) = answers 201 tag (create_tag_handler body)
  serve (deletes_tag path) = answers 204 (λ _. no_content) (delete_tag_handler path)
  serve gets_settings = answers 200 settings (get_settings net)
  serve (updates_settings body) = answers 200 settings (update_settings net body)
  serve lists_events = answers 200 events list_events_handler
  serve triggers_quick_scan = answers 202 status (trigger_quick_scan net)
  serve triggers_mass_scan = answers 202 status (trigger_mass_scan net)
  serve triggers_deep_scan = answers 202 status (trigger_deep_scan_all net)
  serve triggers_reverse_dns_scan = answers 202 status (trigger_reverse_dns_scan net)
  serve gets_scan_status = answers 200 status (scan_status net)
  serve exports_network_map = answers 200 network_map (export_network_map now)
  serve (imports_network_map body) = answers 200 imported (import_network_map go now body)
  serve exports_system = answers 200 system_export (export_system now)
  serve (imports_system body) = answers 200 system_imported (import_system go now body)

  -- A history of requests, whatever each of them returns.
  unfoldable pub serve_all : List Request → World → World
  unfolding serve
  serve_all [] w = w
  serve_all (r ∷ requests) w = serve_all requests (serve r w).1
