-- ===== src/Store/Schema.antt =====
-- internal/store/db.go (the schema) and internal/model/types.go. A column is a field; a text is its
-- bytes; a time is a number; an INTEGER used as a flag is a Boolean.
use network_enumerator.Common.{ℕ, Bool, ◌&&◌, Option, none, List, [], ◌==◌, Text, text_eq}
use network_enumerator.Store.Table.{Row, Table, empty}

-- "auto" and "manual".
pub data Source : Type 0 where
  auto manual : Source

-- "up", "down" and "unknown".
pub data Status : Type 0 where
  up down unknown : Status

-- "open" and "closed".
pub data PortState : Type 0 where
  is_open is_closed : PortState

pub record SubnetRow : Type 0 where
  pub id : ℕ
  pub cidr : Text
  pub name : Text
  pub source : Source
  pub iface : Text
  pub discovered_at : ℕ
  pub last_scan_at : Option ℕ
  pub enabled : Bool
  pub hidden : Bool

pub record HostRow : Type 0 where
  pub id : ℕ
  pub subnet_id : ℕ
  pub ip : Text
  pub mac : Text
  pub hostname : Text
  pub vendor : Text
  pub status : Status
  pub source : Source
  pub notes : Text
  pub first_seen : ℕ
  pub last_seen : ℕ
  pub miss_count : ℕ
  pub acknowledged : Bool
  pub new_ack : Bool

pub record PortRow : Type 0 where
  pub id : ℕ
  pub host_id : ℕ
  pub port : ℕ
  pub protocol : Text
  pub state : PortState
  pub service : Text
  pub banner : Text
  pub product : Text
  pub version : Text
  pub first_seen : ℕ
  pub last_seen : ℕ

pub record TagRow : Type 0 where
  pub id : ℕ
  pub name : Text
  pub color : Text

pub record HostTagRow : Type 0 where
  pub host_id : ℕ
  pub tag_id : ℕ

pub record EventRow : Type 0 where
  pub id : ℕ
  pub type : Text
  pub message : Text
  pub entity_id : ℕ
  pub timestamp : ℕ

pub record AuthRow : Type 0 where
  pub username : Text
  pub password_hash : Text
  pub password_salt : Text

pub record RiskRule : Type 0 where
  pub id : ℕ
  pub port : ℕ
  pub service : Text
  pub severity : Text
  pub label : Text
  pub enabled : Bool
  pub version_below : Text

pub record SettingRow : Type 0 where
  pub key : Text
  pub value : Text

instance abbrev pub subnet_row : Row SubnetRow
subnet_row = record { id_of = λ r. r.id }

instance abbrev pub host_row : Row HostRow
host_row = record { id_of = λ r. r.id }

instance abbrev pub port_row : Row PortRow
port_row = record { id_of = λ r. r.id }

instance abbrev pub tag_row : Row TagRow
tag_row = record { id_of = λ r. r.id }

instance abbrev pub event_row : Row EventRow
event_row = record { id_of = λ r. r.id }

instance abbrev pub risk_rule_row : Row RiskRule
risk_rule_row = record { id_of = λ r. r.id }

-- The database. The `auth` table has at most the row with id 1.
pub record Tables : Type 0 where
  pub subnets : Table SubnetRow
  pub hosts : Table HostRow
  pub ports : Table PortRow
  pub tags : Table TagRow
  pub host_tags : List HostTagRow
  pub events : Table EventRow
  pub auth : Option AuthRow
  pub settings : List SettingRow
  pub risk_rules : Table RiskRule

-- The tables as `schema` creates them.
abbrev pub schema : Tables
schema = record {
  subnets = empty;
  hosts = empty;
  ports = empty;
  tags = empty;
  host_tags = [];
  events = empty;
  auth = none;
  settings = [];
  risk_rules = empty;
}

-- The UNIQUE constraints: whether the second row has the key of the first.
abbrev pub same_cidr : SubnetRow → SubnetRow → Bool
same_cidr r s = text_eq s.cidr r.cidr

abbrev pub same_host : HostRow → HostRow → Bool
same_host r s = (s.subnet_id == r.subnet_id) && text_eq s.ip r.ip

abbrev pub same_port : PortRow → PortRow → Bool
same_port r s = (s.host_id == r.host_id) && ((s.port == r.port) && text_eq s.protocol r.protocol)

abbrev pub same_name : TagRow → TagRow → Bool
same_name r s = text_eq s.name r.name

abbrev pub same_host_tag : HostTagRow → HostTagRow → Bool
same_host_tag r s = (s.host_id == r.host_id) && (s.tag_id == r.tag_id)
