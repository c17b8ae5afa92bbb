-- ===== src/Api/Tags.antt =====
-- internal/api/server.go and settings.go: the handlers of tags, events, settings and scans.
use network_enumerator.Common.{
  ℕ, Bool, true, false, ◌||◌, not, List, Option, none, some, Text, text_eq, is_empty,
}
use network_enumerator.Store.Schema.{TagRow, EventRow}
use network_enumerator.Store.Tags.{list_tags, create_tag, delete_tag}
use network_enumerator.Store.Events.{list_events}
use network_enumerator.Store.Settings.{
  scan_method_auto, scan_method_nmap, scan_method_tcp, get_scan_method, set_scan_method,
  get_netdiscover_enabled, set_netdiscover_enabled,
}
use network_enumerator.Discovery.Method.{quick, mass, deep, reverse_dns}
use network_enumerator.Discovery.Control.{ScanStatus}
use network_enumerator.Discovery.Network.{Network}
use network_enumerator.Api.Handler.{
  returns, H, ◌>>=◌, ◌>>◌, pure, check, given, stored, for_field, request_scan,
}

-- The fields `name` and `color` of the body.
pub record TagRequest : Type 0 where
  pub name : Text
  pub color : Text

pub record SettingsPatch : Type 0 where
  pub scan_method : Option Text
  pub netdiscover_enabled : Option Bool

-- `settingsResponse` without the version of the build.
pub record Settings : Type 0 where
  pub scan_method : Text
  pub nmap_available : Bool
  pub netdiscover_enabled : Bool
  pub netdiscover_available : Bool

unfoldable pub list_tags_handler : H (List TagRow)
list_tags_handler = stored 500 list_tags

unfoldable pub create_tag_handler : Option TagRequest → H TagRow
create_tag_handler body = do
  q ← given body
  check (not (is_empty q.name)) 400
  stored 500 (create_tag q.name q.color)

unfoldable pub delete_tag_handler : Option ℕ → H (Unit {0})
delete_tag_handler path = do id ← given path; stored 500 (delete_tag id)

unfoldable pub list_events_handler : H (List EventRow)
list_events_handler = stored 500 (list_events 200)

-- `_, ok := NmapPath()` and its like.
abbrev pub available : {A : Type 0} → Option A → Bool
available none = false
available (some tool) = true

abbrev pub is_scan_method : Text → Bool
is_scan_method m =
    text_eq m scan_method_auto || (text_eq m scan_method_nmap || text_eq m scan_method_tcp)

module _ (net : Network) where
  unfoldable pub get_settings : H Settings
  get_settings = do
    method ← stored 500 get_scan_method
    enabled ← stored 500 get_netdiscover_enabled
    pure (record {
      scan_method = method;
      nmap_available = available net.nmap_path;
      netdiscover_enabled = enabled;
      netdiscover_available = available net.run_netdiscover;
    })

  unfoldable pub change_scan_method : Text → H (Unit {0})
  change_scan_method method =
      check (is_scan_method method) 400 >> stored 500 (set_scan_method method)

  unfoldable pub update_settings : Option SettingsPatch → H Settings
  unfolding get_settings change_scan_method
  update_settings body = do
    q ← given body
    for_field q.scan_method change_scan_method
    for_field q.netdiscover_enabled (λ b. stored 500 (set_netdiscover_enabled b))
    get_settings

  abbrev pub scan_status : H ScanStatus
  scan_status w = (returns w.scanner.status, w)

  unfoldable pub trigger_quick_scan : H ScanStatus
  trigger_quick_scan = request_scan quick >> scan_status

  unfoldable pub trigger_mass_scan : H ScanStatus
  trigger_mass_scan = do check (available net.nmap_path) 409; request_scan mass; scan_status

  unfoldable pub trigger_deep_scan_all : H ScanStatus
  trigger_deep_scan_all = do check (available net.nmap_path) 409; request_scan deep; scan_status

  unfoldable pub trigger_reverse_dns_scan : H ScanStatus
  trigger_reverse_dns_scan = do
    check (available net.run_dnsrecon || available net.dig) 409
    request_scan reverse_dns
    scan_status
