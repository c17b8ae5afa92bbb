-- ===== src/Discovery/Method.antt =====
-- How internal/discovery/scanner.go chooses the technique of a cycle. `nmap` is what `NmapPath`
-- returns: the path of the binary, if there is one.
pub mod Choice
use network_enumerator.Common.{Option, none, some, Text, text_eq, if◌then◌else◌}
use network_enumerator.Store.Sql.{M, ◌>>=◌, pure}
use network_enumerator.Store.Settings.{scan_method_auto, scan_method_tcp, get_scan_method}
use network_enumerator.Discovery.Attempt.{attempt}

-- `ScanMode`; `regular` is "".
pub data ScanMode : Type 0 where
  regular quick mass deep reverse_dns : ScanMode

-- The two results `method` and `nmapPath`.
pub data Method : Type 0 where
  tcp : Method
  nmap : Text → Method

abbrev pub tcp_or : Option Text → Method
tcp_or none = tcp
tcp_or (some path) = nmap path

-- A preference that cannot be read counts as "auto".
abbrev pub preference : Option Text → Text
preference none = scan_method_auto
preference (some pref) = pref

module _ (nmap_path : Option Text) where
  abbrev pub by_preference : Text → Method
  by_preference pref = if text_eq pref scan_method_tcp then tcp else tcp_or nmap_path

  unfoldable pub effective_scan_method : M Method
  effective_scan_method = do read ← attempt get_scan_method; pure (by_preference (preference read))

  unfoldable pub resolve_scan_method : ScanMode → M Method
  resolve_scan_method quick = pure tcp
  resolve_scan_method mass = pure (tcp_or nmap_path)
  resolve_scan_method deep = pure (tcp_or nmap_path)
  resolve_scan_method regular = effective_scan_method
  resolve_scan_method reverse_dns = effective_scan_method
