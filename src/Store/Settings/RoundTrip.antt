-- ===== src/Store/Settings/RoundTrip.antt =====
-- A setting that is written is read back, and the other is not touched (internal/store/settings.go).
use network_enumerator.Common.{
  suc, ◌≡◌, refl, ap, sym, ◌∙◌, Bool, true, false, some, List, [], ◌∷◌, Text, text_eq, text_eq_iff,
  text_eq_refl, if◌then◌else◌, arith,
}
use network_enumerator.Store.Schema.{Tables, SettingRow}
use network_enumerator.Store.Sql.{Db, ok, ◌>>◌, pure, query, exec, tick, value, IsHealthy}
use network_enumerator.Store.Sql.Runs.{run->>=, run->>, run-query, run-exec}
use network_enumerator.Store.Settings.{
  setting, put_setting, method_of, enabled_of, flag_text, scan_method_key, netdiscover_key,
  get_scan_method, set_scan_method, get_netdiscover_enabled, set_netdiscover_enabled,
}

pub setting-put_setting :
    (k k' : Text) (v : Text) (rows : List SettingRow)
    → setting k (put_setting k' v rows) ≡ (if text_eq k' k then some v else setting k rows)
unfolding setting put_setting
setting-put_setting k k' v [] = refl
setting-put_setting k k' v (r ∷ rows) = ground (
  arith,
  setting-put_setting k k' v rows,
  text_eq_iff r.key k',
  text_eq_iff r.key k,
  text_eq_iff k' k,
)

get_scan_method_lem :
    (d : Db)
    → IsHealthy d
    → get_scan_method d ≡ ok (method_of (setting scan_method_key d.tables.settings)) (tick d)
unfolding get_scan_method
get_scan_method_lem d h =
    let read = λ (t : Tables). setting scan_method_key t.settings in
    run->>= (query read) (λ found. pure (method_of found)) d (run-query read d (h d.clock))

get_netdiscover_enabled_lem :
    (d : Db)
    → IsHealthy d
    → get_netdiscover_enabled d
      ≡ ok (enabled_of (setting netdiscover_key d.tables.settings)) (tick d)
unfolding get_netdiscover_enabled
get_netdiscover_enabled_lem d h =
    let read = λ (t : Tables). setting netdiscover_key t.settings in
    run->>= (query read) (λ found. pure (enabled_of found)) d (run-query read d (h d.clock))

abbrev put : Text → Text → Tables → Tables
put key v t = record t { settings = put_setting key v t.settings }

abbrev written : Text → Text → Db → Db
written key v d = record d { tables = put key v d.tables; clock = suc d.clock }

enabled_of-flag_text : (b : Bool) → enabled_of (some (flag_text b)) ≡ b
unfolding text_eq
enabled_of-flag_text true = refl
enabled_of-flag_text false = refl

keys-apart :
    (text_eq scan_method_key netdiscover_key ≡ false)
    × (text_eq netdiscover_key scan_method_key ≡ false)
unfolding text_eq
keys-apart = (refl, refl)

-- On a healthy database, after `SetScanMethod` the method is read back as it was set, and whether
-- netdiscover is enabled reads as before.
pub set_scan_method_lem :
    (method : Text) (d : Db)
    → IsHealthy d
    → (value ((set_scan_method method >> get_scan_method) d) ≡ some method)
      × (value ((set_scan_method method >> get_netdiscover_enabled) d)
          ≡ value (get_netdiscover_enabled d))
unfolding set_scan_method
set_scan_method_lem method d h =
    let change = put scan_method_key method in
    let (apart, _) = keys-apart in
    let self = text_eq_refl scan_method_key in
    (
      ap value (
            run->> (exec change) get_scan_method d (run-exec change d (h d.clock))
            ∙ get_scan_method_lem (written scan_method_key method d) h)
          ∙ rw (setting-put_setting scan_method_key scan_method_key method d.tables.settings, self)
              refl,
      ap value (
            run->> (exec change) get_netdiscover_enabled d (run-exec change d (h d.clock))
            ∙ get_netdiscover_enabled_lem (written scan_method_key method d) h)
          ∙ rw (setting-put_setting netdiscover_key scan_method_key method d.tables.settings, apart)
              refl
          ∙ ap value (sym (get_netdiscover_enabled_lem d h)),
    )

-- On a healthy database, after `SetNetdiscoverEnabled` the flag is read back as it was set, and the
-- scan method reads as before.
pub set_netdiscover_enabled_lem :
    (enabled : Bool) (d : Db)
    → IsHealthy d
    → (value ((set_netdiscover_enabled enabled >> get_netdiscover_enabled) d) ≡ some enabled)
      × (value ((set_netdiscover_enabled enabled >> get_scan_method) d) ≡ value (get_scan_method d))
unfolding set_netdiscover_enabled
set_netdiscover_enabled_lem enabled d h =
    let v = flag_text enabled in
    let change = put netdiscover_key v in
    let (_, apart) = keys-apart in
    let self = text_eq_refl netdiscover_key in
    (
      ap value (
            run->> (exec change) get_netdiscover_enabled d (run-exec change d (h d.clock))
            ∙ get_netdiscover_enabled_lem (written netdiscover_key v d) h)
          ∙ rw (setting-put_setting netdiscover_key netdiscover_key v d.tables.settings, self)
              (ap some (enabled_of-flag_text enabled)),
      ap value (
            run->> (exec change) get_scan_method d (run-exec change d (h d.clock))
            ∙ get_scan_method_lem (written netdiscover_key v d) h)
          ∙ rw (setting-put_setting scan_method_key netdiscover_key v d.tables.settings, apart) refl
          ∙ ap value (sym (get_scan_method_lem d h)),
    )
