-- ===== src/Store/Settings.antt =====
-- internal/store/settings.go.
pub mod RoundTrip
use network_enumerator.Common.{
  ℕ, Bool, true, false, Option, none, some, List, [], ◌∷◌, Text, text, text_eq, if◌then◌else◌,
  find_if,
}
use network_enumerator.Store.Schema.{Tables, SettingRow}
use network_enumerator.Store.Sql.{M, ◌>>=◌, ◌>>◌, pure, query, exec}

abbrev pub scan_method_auto : Text
scan_method_auto = text "auto"

abbrev pub scan_method_nmap : Text
scan_method_nmap = text "nmap"

abbrev pub scan_method_tcp : Text
scan_method_tcp = text "tcp"

abbrev pub scan_method_key : Text
scan_method_key = text "scan_method"

abbrev pub netdiscover_key : Text
netdiscover_key = text "netdiscover_enabled"

-- `SELECT value FROM settings WHERE key = ?`.
unfoldable pub setting : Text → List SettingRow → Option Text
setting key [] = none
setting key (r ∷ rows) =
    let rest = setting key rows in if text_eq r.key key then some r.value else rest

-- `INSERT … ON CONFLICT(key) DO UPDATE SET value = excluded.value`.
unfoldable pub put_setting : Text → Text → List SettingRow → List SettingRow
put_setting key value [] = record { key = key; value = value } ∷ []
put_setting key value (r ∷ rows) =
    let rest = put_setting key value rows in
    if text_eq r.key key then record r { value = value } ∷ rows else r ∷ rest

abbrev pub method_of : Option Text → Text
method_of none = scan_method_auto
method_of (some v) = v

unfoldable pub get_scan_method : M Text
get_scan_method = do found ← query (λ t. setting scan_method_key t.settings); pure (method_of found)

unfoldable pub set_scan_method : Text → M (Unit {0})
set_scan_method method =
    exec (λ t. record t { settings = put_setting scan_method_key method t.settings })

abbrev pub enabled_of : Option Text → Bool
enabled_of none = true
enabled_of (some v) = text_eq v (text "true")

unfoldable pub get_netdiscover_enabled : M Bool
get_netdiscover_enabled = do
  found ← query (λ t. setting netdiscover_key t.settings)
  pure (enabled_of found)

abbrev pub flag_text : Bool → Text
flag_text enabled = if enabled then text "true" else text "false"

unfoldable pub set_netdiscover_enabled : Bool → M (Unit {0})
set_netdiscover_enabled enabled =
    exec λ t. record t { settings = put_setting netdiscover_key (flag_text enabled) t.settings }
