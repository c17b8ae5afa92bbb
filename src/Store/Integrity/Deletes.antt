-- ===== src/Store/Integrity/Deletes.antt =====
-- Each DELETE of internal/store/*.go, with its cascade, keeps the database well formed.
use network_enumerator.Common.{ℕ, ◌≡◌, Bool, true, not, List, ◌==◌, keep, arith}
use network_enumerator.Store.Table.{has_id, is_id}
use network_enumerator.Store.Table.Laws.{
  All-keep, Below-keep, Distinct-keep, has_id-keep-not, has_id-keep_ne,
}
use network_enumerator.Store.Schema.{
  Tables, HostRow, PortRow, HostTagRow, same_cidr, same_host, same_port, same_name, same_host_tag,
  subnet_row, host_row, port_row, tag_row, event_row, risk_rule_row,
}
use network_enumerator.Store.Constraints.{delete_hosts, delete_subnets, delete_tags}
use network_enumerator.Store.Integrity.{IsWf}

-- A row whose parent is not among the deleted hosts keeps its parent.
kept_parent :
    (i : ℕ) (p : HostRow → Bool) (rows : List HostRow)
    → has_id i rows ≡ true
    → not (has_id i (keep p rows)) ≡ true
    → has_id i (keep (λ r. not (p r)) rows) ≡ true
kept_parent i p rows h g = has_id-keep-not i p rows h (ground arith)

pub delete_hosts-IsWf : (p : HostRow → Bool) (t : Tables) → IsWf t → IsWf (delete_hosts p t)
unfolding delete_hosts
delete_hosts-IsWf p t w = record {
  subnets_wf = w.subnets_wf;
  hosts_wf = record {
    ids = Below-keep t.hosts.next (λ r. not (p r)) t.hosts.rows w.hosts_wf.ids;
    keys = Distinct-keep same_host (λ r. not (p r)) t.hosts.rows w.hosts_wf.keys;
    parents = All-keep _ _ (λ r. not (p r)) t.hosts.rows (λ h e k. k) w.hosts_wf.parents;
  };
  ports_wf = record {
    ids = Below-keep t.ports.next kept t.ports.rows w.ports_wf.ids;
    keys = Distinct-keep same_port kept t.ports.rows w.ports_wf.keys;
    parents =
        All-keep _ _ kept t.ports.rows (λ r e k. kept_parent r.host_id p t.hosts.rows k e)
          w.ports_wf.parents;
  };
  tags_wf = w.tags_wf;
  links_wf = record {
    keys = Distinct-keep same_host_tag kept_link t.host_tags w.links_wf.keys;
    host_parents =
        All-keep _ _ kept_link t.host_tags (λ r e k. kept_parent r.host_id p t.hosts.rows k e)
          w.links_wf.host_parents;
    tag_parents = All-keep _ _ kept_link t.host_tags (λ r e k. k) w.links_wf.tag_parents;
  };
  event_ids = w.event_ids;
  rule_ids = w.rule_ids;
  setting_keys = w.setting_keys;
}
  where
    kept : PortRow → Bool
    kept r = not (has_id r.host_id (keep p t.hosts.rows))

    kept_link : HostTagRow → Bool
    kept_link r = not (has_id r.host_id (keep p t.hosts.rows))

-- All hosts of the subnet go before the subnet does.
pub delete_subnets-IsWf : (i : ℕ) (t : Tables) → IsWf t → IsWf (delete_subnets i t)
unfolding delete_subnets
delete_subnets-IsWf i t w = record {
  subnets_wf = record {
    ids = Below-keep t.subnets.next (λ r. not (is_id i r)) t.subnets.rows w.subnets_wf.ids;
    cidrs = Distinct-keep same_cidr (λ r. not (is_id i r)) t.subnets.rows w.subnets_wf.cidrs;
  };
  hosts_wf = record {
    ids = v.hosts_wf.ids;
    keys = v.hosts_wf.keys;
    parents =
        All-keep _ _ (λ h. not (h.subnet_id == i)) t.hosts.rows
          (λ h e k. has_id-keep_ne h.subnet_id i t.subnets.rows k (ground arith))
          w.hosts_wf.parents;
  };
  ports_wf = v.ports_wf;
  tags_wf = w.tags_wf;
  links_wf = v.links_wf;
  event_ids = w.event_ids;
  rule_ids = w.rule_ids;
  setting_keys = w.setting_keys;
}
  where
    v : IsWf (delete_hosts (λ h. h.subnet_id == i) t)
    v = delete_hosts-IsWf (λ h. h.subnet_id == i) t w

pub delete_tags-IsWf : (i : ℕ) (t : Tables) → IsWf t → IsWf (delete_tags i t)
unfolding delete_tags
delete_tags-IsWf i t w = record {
  subnets_wf = w.subnets_wf;
  hosts_wf = w.hosts_wf;
  ports_wf = w.ports_wf;
  tags_wf = record {
    ids = Below-keep t.tags.next (λ r. not (is_id i r)) t.tags.rows w.tags_wf.ids;
    names = Distinct-keep same_name (λ r. not (is_id i r)) t.tags.rows w.tags_wf.names;
  };
  links_wf = record {
    keys = Distinct-keep same_host_tag (λ r. not (r.tag_id == i)) t.host_tags w.links_wf.keys;
    host_parents =
        All-keep _ _ (λ r. not (r.tag_id == i)) t.host_tags (λ r e k. k) w.links_wf.host_parents;
    tag_parents =
        All-keep _ _ (λ r. not (r.tag_id == i)) t.host_tags
          (λ r e k. has_id-keep_ne r.tag_id i t.tags.rows k (ground arith)) w.links_wf.tag_parents;
  };
  event_ids = w.event_ids;
  rule_ids = w.rule_ids;
  setting_keys = w.setting_keys;
}
