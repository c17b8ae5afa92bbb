-- ===== src/Store/Integrity/Updates.antt =====
-- Each UPDATE of internal/store keeps the database well formed.
use network_enumerator.Common.{ℕ, ◌≡◌, ◌∙◌, Bool, true, Bool-cases, inl, inr}
use network_enumerator.Store.Table.{has_id, is_id, update_where, where_do}
use network_enumerator.Store.Table.Laws.{
  Respects, All-imp, All-map, Below-map, Distinct-map, where_do-id, where_do-Respects, has_id-map,
}
use network_enumerator.Store.Schema.{
  Tables, SubnetRow, HostRow, PortRow, same_cidr, same_host, same_port, subnet_row, host_row,
  port_row, tag_row, event_row, risk_rule_row,
}
use network_enumerator.Store.Constraints.{update_subnet, update_port}
use network_enumerator.Store.Integrity.{IsWf}

-- An UPDATE that leaves the id and the key alone.
pub update_subnet-IsWf :
    (i : ℕ) (f : SubnetRow → SubnetRow)
    → ((r : SubnetRow) → (f r).id ≡ r.id)
    → Respects same_cidr f
    → (t : Tables) → IsWf t
    → IsWf (update_subnet i f t)
update_subnet-IsWf i f same_id respects t w =
    let g = where_do (is_id i) f in
    let ids = where_do-id (is_id i) f same_id in
    record {
      subnets_wf = record {
        ids = Below-map t.subnets.next g t.subnets.rows ids w.subnets_wf.ids;
        cidrs =
            Distinct-map same_cidr g t.subnets.rows
              (where_do-Respects same_cidr (is_id i) f respects) w.subnets_wf.cidrs;
      };
      hosts_wf = record {
        ids = w.hosts_wf.ids;
        keys = w.hosts_wf.keys;
        parents =
            All-imp _ _ t.hosts.rows (λ h p. has_id-map h.subnet_id g t.subnets.rows ids ∙ p)
              w.hosts_wf.parents;
      };
      ports_wf = w.ports_wf;
      tags_wf = w.tags_wf;
      links_wf = w.links_wf;
      event_ids = w.event_ids;
      rule_ids = w.rule_ids;
      setting_keys = w.setting_keys;
    }

pub update_hosts-IsWf :
    (p : HostRow → Bool) (f : HostRow → HostRow)
    → ((r : HostRow) → (f r).id ≡ r.id)
    → ((r : HostRow) → (f r).subnet_id ≡ r.subnet_id)
    → Respects same_host f
    → (t : Tables) → IsWf t
    → IsWf (record t { hosts = update_where p f t.hosts })
update_hosts-IsWf p f same_id same_subnet respects t w =
    let g = where_do p f in
    let ids = where_do-id p f same_id in
    record {
      subnets_wf = w.subnets_wf;
      hosts_wf = record {
        ids = Below-map t.hosts.next g t.hosts.rows ids w.hosts_wf.ids;
        keys =
            Distinct-map same_host g t.hosts.rows (where_do-Respects same_host p f respects)
              w.hosts_wf.keys;
        parents = All-map _ _ g t.hosts.rows (λ h k. parent h k) w.hosts_wf.parents;
      };
      ports_wf = record {
        ids = w.ports_wf.ids;
        keys = w.ports_wf.keys;
        parents =
            All-imp _ _ t.ports.rows (λ r k. has_id-map r.host_id g t.hosts.rows ids ∙ k)
              w.ports_wf.parents;
      };
      tags_wf = w.tags_wf;
      links_wf = record {
        keys = w.links_wf.keys;
        host_parents =
            All-imp _ _ t.host_tags (λ r k. has_id-map r.host_id g t.hosts.rows ids ∙ k)
              w.links_wf.host_parents;
        tag_parents = w.links_wf.tag_parents;
      };
      event_ids = w.event_ids;
      rule_ids = w.rule_ids;
      setting_keys = w.setting_keys;
    }
  where
    parent :
        (h : HostRow)
        → has_id h.subnet_id t.subnets.rows ≡ true
        → has_id (where_do p f h).subnet_id t.subnets.rows ≡ true
    parent h k = elim (Bool-cases (p h)) [ inl e ↦ rw e (rw (same_subnet h) k) | inr e ↦ rw e k ]

pub update_port-IsWf :
    (i : ℕ) (f : PortRow → PortRow)
    → ((r : PortRow) → (f r).id ≡ r.id)
    → ((r : PortRow) → (f r).host_id ≡ r.host_id)
    → Respects same_port f
    → (t : Tables) → IsWf t
    → IsWf (update_port i f t)
update_port-IsWf i f same_id same_parent respects t w =
    let g = where_do (is_id i) f in
    record {
      subnets_wf = w.subnets_wf;
      hosts_wf = w.hosts_wf;
      ports_wf = record {
        ids =
            Below-map t.ports.next g t.ports.rows (where_do-id (is_id i) f same_id) w.ports_wf.ids;
        keys =
            Distinct-map same_port g t.ports.rows (where_do-Respects same_port (is_id i) f respects)
              w.ports_wf.keys;
        parents = All-map _ _ g t.ports.rows (λ r k. parent r k) w.ports_wf.parents;
      };
      tags_wf = w.tags_wf;
      links_wf = w.links_wf;
      event_ids = w.event_ids;
      rule_ids = w.rule_ids;
      setting_keys = w.setting_keys;
    }
  where
    parent :
        (r : PortRow)
        → has_id r.host_id t.hosts.rows ≡ true
        → has_id (where_do (is_id i) f r).host_id t.hosts.rows ≡ true
    parent r k = elim (Bool-cases (is_id i r)) [
      | inl e ↦ rw e (rw (same_parent r) k)
      | inr e ↦ rw e k
    ]
