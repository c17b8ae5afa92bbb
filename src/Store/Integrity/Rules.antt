-- ===== src/Store/Integrity/Rules.antt =====
-- Rules for the statements of internal/store that keep the database well formed.
use network_enumerator.Common.{ℕ, ◌≡◌, Option, List}
use network_enumerator.Store.Table.{is_id}
use network_enumerator.Store.Table.Laws.{Distinct, Respects}
use network_enumerator.Store.Schema.{
  Tables, SubnetRow, HostRow, PortRow, SettingRow, AuthRow, same_port, subnet_row, host_row,
  port_row, risk_rule_row,
}
use network_enumerator.Store.Constraints.{update_subnet, update_host, update_port}
use network_enumerator.Store.Sql.{M, exec}
use network_enumerator.Store.Sql.Keeps.{Keeps, Keeps-exec}
use network_enumerator.Store.Integrity.{IsWf, same_key}
use network_enumerator.Store.Integrity.Updates.{
  update_subnet-IsWf, update_hosts-IsWf, update_port-IsWf,
}

-- A method that keeps the database well formed.
abbrev pub KeepsWf : {A : Type 0} → M A → Type 0
KeepsWf m = Keeps IsWf m

-- `UPDATE subnets SET … WHERE id = ?`, where the change leaves id and cidr alone.
pub subnet_update :
    (i : ℕ) (f : SubnetRow → SubnetRow)
    → ((r : SubnetRow) → (f r).id ≡ r.id)
    → ((r : SubnetRow) → (f r).cidr ≡ r.cidr)
    → KeepsWf (exec (update_subnet i f))
subnet_update i f same_id same =
    Keeps-exec IsWf _ (update_subnet-IsWf i f same_id (λ r s. (rw (same r), rw (same s))))

-- `UPDATE hosts SET … WHERE id = ?`, where the change leaves id, subnet_id and ip alone.
pub host_update :
    (i : ℕ) (f : HostRow → HostRow)
    → ((r : HostRow) → (f r).id ≡ r.id)
    → ((r : HostRow) → (f r).subnet_id ≡ r.subnet_id)
    → ((r : HostRow) → (f r).ip ≡ r.ip)
    → KeepsWf (exec (update_host i f))
host_update i f same_id same_subnet same = Keeps-exec IsWf _ (
    update_hosts-IsWf (is_id i) f same_id same_subnet
      (λ r s. (rw (same_subnet r, same r), rw (same_subnet s, same s))))

-- `UPDATE ports SET … WHERE id = ?`, where the change leaves id and key alone.
pub port_update :
    (i : ℕ) (f : PortRow → PortRow)
    → ((r : PortRow) → (f r).id ≡ r.id)
    → Respects same_port f
    → ((r : PortRow) → (f r).host_id ≡ r.host_id)
    → KeepsWf (exec (update_port i f))
port_update i f same_id respects same_parent =
    Keeps-exec IsWf _ (update_port-IsWf i f same_id same_parent respects)

-- A table that no constraint links to another.
pub other_tables :
    (auth : Option AuthRow) (settings : List SettingRow)
    → Distinct same_key settings
    → (t : Tables) → IsWf t
    → IsWf (record t { auth = auth; settings = settings })
other_tables auth settings distinct t w = record {
  subnets_wf = w.subnets_wf;
  hosts_wf = w.hosts_wf;
  ports_wf = w.ports_wf;
  tags_wf = w.tags_wf;
  links_wf = w.links_wf;
  event_ids = w.event_ids;
  rule_ids = w.rule_ids;
  setting_keys = distinct;
}
