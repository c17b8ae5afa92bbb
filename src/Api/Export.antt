-- ===== src/Api/Export.antt =====
-- internal/api/export.go and systemexport.go: the documents of the two exports. The fields of the
-- schema that the program neither fills in nor reads are left out. `now` is the reading of
-- `time.Now()` in the store.
use network_enumerator.Common.{
  ℕ, Bool, List, [], ◌∷◌, ◌++◌, map, Text, text, is_empty, itoa, if◌then◌else◌,
}
use network_enumerator.Store.Schema.{SubnetRow, PortState, is_open, is_closed, RiskRule}
use network_enumerator.Store.Subnets.{list_subnets}
use network_enumerator.Store.Ports.{Port}
use network_enumerator.Store.Settings.{get_scan_method, get_netdiscover_enabled}
use network_enumerator.Store.RiskRules.{list_risk_rules}
use network_enumerator.Store.View.{Host, list_hosts}
use network_enumerator.Api.Handler.{H, ◌>>=◌, pure, stored}

pub record ExportSegment : Type 0 where
  pub id : Text
  pub name : Text
  pub cidr : Text

pub record ExportHost : Type 0 where
  pub id : Text
  pub segment_id : Text
  pub hostname : Text
  pub ip : Text
  pub mac : Text
  pub management_ip : Text
  pub vendor : Text
  pub notes : Text

pub record ExportPort : Type 0 where
  pub host_id : Text
  pub protocol : Text
  pub port : ℕ
  pub state : Text
  pub service : Text
  pub version : Text
  pub notes : Text

pub record ExportDocument : Type 0 where
  pub segments : List ExportSegment
  pub hosts : List ExportHost
  pub ports : List ExportPort

abbrev pub segment_export_id : ℕ → Text
segment_export_id id = text "seg-" ++ itoa id

abbrev pub host_export_id : ℕ → Text
host_export_id id = text "host-" ++ itoa id

-- `strings.Join(reasons, "; ")`.
unfoldable pub join_reasons : List Text → Text
join_reasons [] = []
join_reasons (r ∷ []) = r
join_reasons (r ∷ s ∷ reasons) = r ++ text "; " ++ join_reasons (s ∷ reasons)

-- The findings of a host after its notes.
abbrev pub notes_with : Text → Text → Text
notes_with notes findings = if is_empty notes then findings else notes ++ text "\n\n" ++ findings

unfoldable pub host_export_notes : Host → Text
unfolding join_reasons
host_export_notes h = elim h.risk_reasons [
  | [] ↦ h.row.notes
  | r ∷ reasons ↦ notes_with h.row.notes (text "Flagged: " ++ join_reasons (r ∷ reasons))
]

abbrev pub state_text : PortState → Text
state_text is_open = text "open"
state_text is_closed = text "closed"

unfoldable pub export_port_from : ℕ → Port → ExportPort
export_port_from host_id p = record {
  host_id = host_export_id host_id;
  protocol = p.row.protocol;
  port = p.row.port;
  state = state_text p.row.state;
  service = p.row.service;
  version = if is_empty p.row.version then p.row.product else p.row.version;
  notes = p.row.banner;
}

abbrev pub export_segment_from : SubnetRow → ExportSegment
export_segment_from sn = record { id = segment_export_id sn.id; name = sn.name; cidr = sn.cidr }

unfoldable pub export_host_from : Host → ExportHost
unfolding host_export_notes
export_host_from h = record {
  id = host_export_id h.row.id;
  segment_id = segment_export_id h.row.subnet_id;
  hostname = h.row.hostname;
  ip = h.row.ip;
  mac = h.row.mac;
  management_ip = h.row.ip;
  vendor = h.row.vendor;
  notes = host_export_notes h;
}

unfoldable pub export_ports : List Host → List ExportPort
unfolding export_port_from
export_ports [] = []
export_ports (h ∷ hosts) = map (export_port_from h.row.id) h.ports ++ export_ports hosts

unfoldable pub export_network_map : ℕ → H ExportDocument
unfolding export_host_from export_ports
export_network_map now = do
  subnets ← stored 500 list_subnets
  hosts ← stored 500 (list_hosts now)
  pure (record {
    segments = map export_segment_from subnets;
    hosts = map export_host_from hosts;
    ports = export_ports hosts;
  })

pub record SystemSegment : Type 0 where
  pub id : Text
  pub name : Text
  pub cidr : Text
  pub hidden : Bool
  pub enabled : Bool

pub record SystemSettings : Type 0 where
  pub scan_method : Text
  pub netdiscover_enabled : Bool

pub record SystemDocument : Type 0 where
  pub segments : List SystemSegment
  pub hosts : List ExportHost
  pub ports : List ExportPort
  pub settings : SystemSettings
  pub risk_rules : List RiskRule

abbrev pub system_segment_from : SubnetRow → SystemSegment
system_segment_from sn = record {
  id = segment_export_id sn.id;
  name = sn.name;
  cidr = sn.cidr;
  hidden = sn.hidden;
  enabled = sn.enabled;
}

unfoldable pub export_system : ℕ → H SystemDocument
unfolding export_host_from export_ports
export_system now = do
  subnets ← stored 500 list_subnets
  hosts ← stored 500 (list_hosts now)
  scan_method ← stored 500 get_scan_method
  enabled ← stored 500 get_netdiscover_enabled
  rules ← stored 500 list_risk_rules
  pure (record {
    segments = map system_segment_from subnets;
    hosts = map export_host_from hosts;
    ports = export_ports hosts;
    settings = record { scan_method = scan_method; netdiscover_enabled = enabled };
    risk_rules = rules;
  })
