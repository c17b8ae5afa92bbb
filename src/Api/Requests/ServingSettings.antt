-- ===== src/Api/Requests/ServingSettings.antt =====
-- The handlers of settings and scans (internal/api/settings.go and server.go) keep a predicate
-- of the tables that the methods of the store keep.
use network_enumerator.Common.{Option}
use network_enumerator.Store.Sql.Keeps.{Keeps-pure, Keeps-query, Keeps->>=}
use network_enumerator.Store.Settings.{get_scan_method, get_netdiscover_enabled}
use network_enumerator.Discovery.Method.{ScanMode, quick, mass, deep, reverse_dns}
use network_enumerator.Store.Schema.{Tables}
use network_enumerator.Api.Requests.Serving.{RequestKeeps}
use network_enumerator.Discovery.Network.{Network}
use network_enumerator.Api.Handler.{◌>>◌, request_scan}
use network_enumerator.Api.Handler.Keeping.{Preserves}
use network_enumerator.Api.Handler.Serving.{Serves, done, call, tests, queues, field, ◌⨾◌, bind, on}
use network_enumerator.Api.Tags.{
  SettingsPatch, get_settings, change_scan_method, update_settings, scan_status, trigger_quick_scan,
  trigger_mass_scan, trigger_deep_scan_all, trigger_reverse_dns_scan,
}

module _ (P : Tables → Type 0) (store : RequestKeeps P) (net : Network) where
  pub get_settings-Serves : Serves P (get_settings net)
  unfolding get_settings get_scan_method get_netdiscover_enabled
  get_settings-Serves =
      bind _ (call 500 _ (Keeps->>= P _ _ (Keeps-query P _) (λ f. Keeps-pure P _))) λ method.
        bind _ (call 500 _ (Keeps->>= P _ _ (Keeps-query P _) (λ f. Keeps-pure P _)))
          (λ enabled. done _)

  pub update_settings-Serves : (body : Option SettingsPatch) → Serves P (update_settings net body)
  unfolding update_settings change_scan_method
  update_settings-Serves body = on body _ λ q _.
      field q.scan_method _ (λ m _. tests _ 400 ⨾ call 500 _ (store.imports.methods m))
      ⨾ field q.netdiscover_enabled _ (λ b _. call 500 _ (store.imports.netdiscover b))
      ⨾ get_settings-Serves

  pub scan_status-Serves : Serves P (scan_status net)
  unfolding Preserves
  scan_status-Serves = record { keeps = λ w k. k }

  pub requested-Serves : (mode : ScanMode) → Serves P (request_scan mode >> scan_status net)
  requested-Serves mode = queues mode ⨾ scan_status-Serves

  pub scans-Serves :
      Serves P (trigger_quick_scan net)
      × Serves P (trigger_mass_scan net)
      × Serves P (trigger_deep_scan_all net)
      × Serves P (trigger_reverse_dns_scan net)
  unfolding trigger_quick_scan trigger_mass_scan trigger_deep_scan_all trigger_reverse_dns_scan
  scans-Serves = (
    requested-Serves quick,
    tests _ 409 ⨾ requested-Serves mass,
    tests _ 409 ⨾ requested-Serves deep,
    tests _ 409 ⨾ requested-Serves reverse_dns,
  )
