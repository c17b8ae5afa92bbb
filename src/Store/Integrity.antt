-- ===== src/Store/Integrity.antt =====
-- What the constraints of `schema` (internal/store/db.go) promise of a database: AUTOINCREMENT ids,
-- UNIQUE keys, and no row that refers to a row that is gone.
pub mod Updates
pub mod Inserts
pub mod Deletes
pub mod Rules
pub mod SubnetMethods
pub mod HostMethods
pub mod RuleMethods
pub mod RowMethods
pub mod Reach
use network_enumerator.Common.{ℕ, ◌≡◌, refl, Bool, true, List, All, text_eq}
use network_enumerator.Store.Table.{Table, has_id}
use network_enumerator.Store.Table.Laws.{Below, Distinct}
use network_enumerator.Store.Schema.{
  Tables, SubnetRow, HostRow, PortRow, TagRow, HostTagRow, SettingRow, schema, same_cidr, same_host,
  same_port, same_name, same_host_tag, subnet_row, host_row, port_row, tag_row, event_row,
  risk_rule_row,
}

abbrev pub same_key : SettingRow → SettingRow → Bool
same_key r s = text_eq r.key s.key

pub record SubnetsWf (subnets : Table SubnetRow) : Type 0 where
  pub ids : Below subnets.next subnets.rows
  pub cidrs : Distinct same_cidr subnets.rows

pub record HostsWf (subnets : List SubnetRow) (hosts : Table HostRow) : Type 0 where
  pub ids : Below hosts.next hosts.rows
  pub keys : Distinct same_host hosts.rows
  pub parents : All (λ h. has_id h.subnet_id subnets ≡ true) hosts.rows

pub record PortsWf (hosts : List HostRow) (ports : Table PortRow) : Type 0 where
  pub ids : Below ports.next ports.rows
  pub keys : Distinct same_port ports.rows
  pub parents : All (λ p. has_id p.host_id hosts ≡ true) ports.rows

pub record TagsWf (tags : Table TagRow) : Type 0 where
  pub ids : Below tags.next tags.rows
  pub names : Distinct same_name tags.rows

pub record LinksWf (hosts : List HostRow) (tags : List TagRow) (links : List HostTagRow)
    : Type 0 where
  pub keys : Distinct same_host_tag links
  pub host_parents : All (λ l. has_id l.host_id hosts ≡ true) links
  pub tag_parents : All (λ l. has_id l.tag_id tags ≡ true) links

pub record IsWf (t : Tables) : Type 0 where
  pub subnets_wf : SubnetsWf t.subnets
  pub hosts_wf : HostsWf t.subnets.rows t.hosts
  pub ports_wf : PortsWf t.hosts.rows t.ports
  pub tags_wf : TagsWf t.tags
  pub links_wf : LinksWf t.hosts.rows t.tags.rows t.host_tags
  pub event_ids : Below t.events.next t.events.rows
  pub rule_ids : Below t.risk_rules.next t.risk_rules.rows
  pub setting_keys : Distinct same_key t.settings

pub schema-IsWf : IsWf schema
schema-IsWf = record {
  subnets_wf = record { ids = tt; cidrs = tt };
  hosts_wf = record { ids = tt; keys = tt; parents = tt };
  ports_wf = record { ids = tt; keys = tt; parents = tt };
  tags_wf = record { ids = tt; names = tt };
  links_wf = record { keys = tt; host_parents = tt; tag_parents = tt };
  event_ids = tt;
  rule_ids = tt;
  setting_keys = tt;
}
