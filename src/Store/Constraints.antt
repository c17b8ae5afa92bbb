-- ===== src/Store/Constraints.antt =====
-- The statements of internal/store/*.go that the constraints of `schema` (internal/store/db.go)
-- guard: an INSERT fails on a UNIQUE or FOREIGN KEY constraint, and a DELETE cascades.
use network_enumerator.Common.{
  ℕ, Bool, ◌&&◌, not, Option, none, some, ◌∷◌, ◌==◌, any, keep, if◌then◌else◌,
}
use network_enumerator.Store.Table.{has_id, is_id, add, update_where, delete_where}
use network_enumerator.Store.Schema.{
  Tables, SubnetRow, HostRow, PortRow, TagRow, HostTagRow, EventRow, RiskRule, same_cidr, same_host,
  same_port, same_name, same_host_tag, subnet_row, host_row, port_row, tag_row, event_row,
  risk_rule_row,
}

abbrev pub insert_subnet : (ℕ → SubnetRow) → Tables → Option (ℕ × Tables)
insert_subnet make t =
    let id = t.subnets.next in
    if any (same_cidr (make id)) t.subnets.rows
    then none
    else some (id, record t { subnets = add make t.subnets })

abbrev pub insert_host : (ℕ → HostRow) → Tables → Option (ℕ × Tables)
insert_host make t =
    let id = t.hosts.next in
    if has_id (make id).subnet_id t.subnets.rows && not (any (same_host (make id)) t.hosts.rows)
    then some (id, record t { hosts = add make t.hosts })
    else none

abbrev pub insert_port : (ℕ → PortRow) → Tables → Option (ℕ × Tables)
insert_port make t =
    let id = t.ports.next in
    if has_id (make id).host_id t.hosts.rows && not (any (same_port (make id)) t.ports.rows)
    then some (id, record t { ports = add make t.ports })
    else none

abbrev pub insert_tag : (ℕ → TagRow) → Tables → Option (ℕ × Tables)
insert_tag make t =
    let id = t.tags.next in
    if any (same_name (make id)) t.tags.rows
    then none
    else some (id, record t { tags = add make t.tags })

-- `INSERT OR IGNORE`: a repeated key is ignored, a missing host or tag is still an error.
abbrev pub insert_host_tag : HostTagRow → Tables → Option (Unit {0} × Tables)
insert_host_tag link t =
    if any (same_host_tag link) t.host_tags
    then some (tt, t)
    else if has_id link.host_id t.hosts.rows && has_id link.tag_id t.tags.rows
    then some (tt, record t { host_tags = link ∷ t.host_tags })
    else none

abbrev pub insert_event : (ℕ → EventRow) → Tables → Option (ℕ × Tables)
insert_event make t = some (t.events.next, record t { events = add make t.events })

abbrev pub insert_risk_rule : (ℕ → RiskRule) → Tables → Option (ℕ × Tables)
insert_risk_rule make t = some (t.risk_rules.next, record t { risk_rules = add make t.risk_rules })

-- `DELETE FROM hosts WHERE p`, with `ON DELETE CASCADE` on ports and host_tags.
unfoldable pub delete_hosts : (HostRow → Bool) → Tables → Tables
delete_hosts p t =
    let gone = keep p t.hosts.rows in
    record t {
      hosts = delete_where p t.hosts;
      ports = delete_where (λ r. has_id r.host_id gone) t.ports;
      host_tags = keep (λ r. not (has_id r.host_id gone)) t.host_tags;
    }

-- `DELETE FROM subnets WHERE id = ?` cascades to the hosts, and from them on.
unfoldable pub delete_subnets : ℕ → Tables → Tables
unfolding delete_hosts
delete_subnets i t =
    delete_hosts (λ h. h.subnet_id == i) (record t { subnets = delete_where (is_id i) t.subnets })

-- `DELETE FROM tags WHERE id = ?` cascades to host_tags.
unfoldable pub delete_tags : ℕ → Tables → Tables
delete_tags i t = record t {
  tags = delete_where (is_id i) t.tags;
  host_tags = keep (λ r. not (r.tag_id == i)) t.host_tags;
}

abbrev pub update_subnet : ℕ → (SubnetRow → SubnetRow) → Tables → Tables
update_subnet i f t = record t { subnets = update_where (is_id i) f t.subnets }

abbrev pub update_host : ℕ → (HostRow → HostRow) → Tables → Tables
update_host i f t = record t { hosts = update_where (is_id i) f t.hosts }

abbrev pub update_port : ℕ → (PortRow → PortRow) → Tables → Tables
update_port i f t = record t { ports = update_where (is_id i) f t.ports }

abbrev pub update_risk_rule : ℕ → (RiskRule → RiskRule) → Tables → Tables
update_risk_rule i f t = record t { risk_rules = update_where (is_id i) f t.risk_rules }
