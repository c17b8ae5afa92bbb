-- ===== src/Store/Integrity/Inserts.antt =====
-- Each INSERT of internal/store/*.go keeps the database well formed, if its constraints let it land.
use network_enumerator.Common.{
  ℕ, ◌≡◌, refl, Bool, true, false, ◌&&◌, ◌||◌, not, List, ◌∷◌, any, arith, Bool-cases, inl, inr,
}
use network_enumerator.Store.Table.{Row, has_id, is_id}
use network_enumerator.Store.Table.Laws.{All-imp}
use network_enumerator.Store.Schema.{
  Tables, SubnetRow, HostRow, PortRow, TagRow, HostTagRow, EventRow, RiskRule, same_cidr, same_host,
  same_port, same_name, same_host_tag, subnet_row, host_row, port_row, tag_row, event_row,
  risk_rule_row,
}
use network_enumerator.Store.Constraints.{
  insert_subnet, insert_host, insert_port, insert_tag, insert_host_tag, insert_event,
  insert_risk_rule,
}
use network_enumerator.Store.Sql.Keeps.{Lands}
use network_enumerator.Store.Integrity.{IsWf}

has_id-cons :
    {R : Type 0} ⦃row : Row R⦄ (i : ℕ) (r : R) (rows : List R)
    → has_id i rows ≡ true
    → has_id i (r ∷ rows) ≡ true
has_id-cons i r rows h = rw h (or_true (is_id i r))
  where
    or_true : (b : Bool) → (b || true) ≡ true
    or_true true = refl
    or_true false = refl

and_parts : (a b : Bool) → (a && not b) ≡ true → (a ≡ true) × (b ≡ false)
and_parts a b h = ground arith

pub insert_subnet-Lands :
    (make : ℕ → SubnetRow)
    → ((i : ℕ) → (make i).id ≡ i)
    → (t : Tables) → IsWf t
    → Lands IsWf (insert_subnet make t)
insert_subnet-Lands make fresh t w =
    elim (Bool-cases (any (same_cidr (make t.subnets.next)) t.subnets.rows)) [
      | inl e ↦ rw e tt
      | inr e ↦ rw e (record {
        subnets_wf = record {
          ids = rw (fresh t.subnets.next) (omega arith, w.subnets_wf.ids);
          cidrs = (e, w.subnets_wf.cidrs);
        };
        hosts_wf = record {
          ids = w.hosts_wf.ids;
          keys = w.hosts_wf.keys;
          parents =
              All-imp _ _ t.hosts.rows
                (λ h k. has_id-cons h.subnet_id (make t.subnets.next) t.subnets.rows k)
                w.hosts_wf.parents;
        };
        ports_wf = w.ports_wf;
        tags_wf = w.tags_wf;
        links_wf = w.links_wf;
        event_ids = w.event_ids;
        rule_ids = w.rule_ids;
        setting_keys = w.setting_keys;
      })
    ]

pub insert_host-Lands :
    (make : ℕ → HostRow)
    → ((i : ℕ) → (make i).id ≡ i)
    → (t : Tables) → IsWf t
    → Lands IsWf (insert_host make t)
insert_host-Lands make fresh t w = elim (Bool-cases guard) [
  | inr e ↦ rw e tt
  | inl e ↦ rw e (record {
    subnets_wf = w.subnets_wf;
    hosts_wf = record {
      ids = rw (fresh t.hosts.next) (omega arith, w.hosts_wf.ids);
      keys = ((and_parts _ _ e).1, w.hosts_wf.keys);
      parents = ((and_parts _ _ e).0, w.hosts_wf.parents);
    };
    ports_wf = record {
      ids = w.ports_wf.ids;
      keys = w.ports_wf.keys;
      parents =
          All-imp _ _ t.ports.rows (λ r k. has_id-cons r.host_id new t.hosts.rows k)
            w.ports_wf.parents;
    };
    tags_wf = w.tags_wf;
    links_wf = record {
      keys = w.links_wf.keys;
      host_parents =
          All-imp _ _ t.host_tags (λ r k. has_id-cons r.host_id new t.hosts.rows k)
            w.links_wf.host_parents;
      tag_parents = w.links_wf.tag_parents;
    };
    event_ids = w.event_ids;
    rule_ids = w.rule_ids;
    setting_keys = w.setting_keys;
  })
]
  where
    new : HostRow
    new = make t.hosts.next

    guard : Bool
    guard = has_id new.subnet_id t.subnets.rows && not (any (same_host new) t.hosts.rows)

pub insert_port-Lands :
    (make : ℕ → PortRow)
    → ((i : ℕ) → (make i).id ≡ i)
    → (t : Tables) → IsWf t
    → Lands IsWf (insert_port make t)
insert_port-Lands make fresh t w = elim (Bool-cases guard) [
  | inr e ↦ rw e tt
  | inl e ↦ rw e (record {
    subnets_wf = w.subnets_wf;
    hosts_wf = w.hosts_wf;
    ports_wf = record {
      ids = rw (fresh t.ports.next) (omega arith, w.ports_wf.ids);
      keys = ((and_parts _ _ e).1, w.ports_wf.keys);
      parents = ((and_parts _ _ e).0, w.ports_wf.parents);
    };
    tags_wf = w.tags_wf;
    links_wf = w.links_wf;
    event_ids = w.event_ids;
    rule_ids = w.rule_ids;
    setting_keys = w.setting_keys;
  })
]
  where
    guard : Bool
    guard =
        has_id (make t.ports.next).host_id t.hosts.rows
        && not (any (same_port (make t.ports.next)) t.ports.rows)

pub insert_tag-Lands :
    (make : ℕ → TagRow)
    → ((i : ℕ) → (make i).id ≡ i)
    → (t : Tables) → IsWf t
    → Lands IsWf (insert_tag make t)
insert_tag-Lands make fresh t w =
    elim (Bool-cases (any (same_name (make t.tags.next)) t.tags.rows)) [
      | inl e ↦ rw e tt
      | inr e ↦ rw e (record {
        subnets_wf = w.subnets_wf;
        hosts_wf = w.hosts_wf;
        ports_wf = w.ports_wf;
        tags_wf = record {
          ids = rw (fresh t.tags.next) (omega arith, w.tags_wf.ids);
          names = (e, w.tags_wf.names);
        };
        links_wf = record {
          keys = w.links_wf.keys;
          host_parents = w.links_wf.host_parents;
          tag_parents =
              All-imp _ _ t.host_tags (λ l k. has_id-cons l.tag_id (make t.tags.next) t.tags.rows k)
                w.links_wf.tag_parents;
        };
        event_ids = w.event_ids;
        rule_ids = w.rule_ids;
        setting_keys = w.setting_keys;
      })
    ]

pub insert_host_tag-Lands :
    (link : HostTagRow) (t : Tables) → IsWf t → Lands IsWf (insert_host_tag link t)
insert_host_tag-Lands link t w = elim (Bool-cases (any (same_host_tag link) t.host_tags)) [
  | inl e ↦ rw e w
  | inr e ↦ rw e (elim (Bool-cases (has_id link.host_id t.hosts.rows)) [
    | inr f ↦ rw f tt
    | inl f ↦ rw f (elim (Bool-cases (has_id link.tag_id t.tags.rows)) [
      | inr g ↦ rw g tt
      | inl g ↦ rw g (record {
        subnets_wf = w.subnets_wf;
        hosts_wf = w.hosts_wf;
        ports_wf = w.ports_wf;
        tags_wf = w.tags_wf;
        links_wf = record {
          keys = (e, w.links_wf.keys);
          host_parents = (f, w.links_wf.host_parents);
          tag_parents = (g, w.links_wf.tag_parents);
        };
        event_ids = w.event_ids;
        rule_ids = w.rule_ids;
        setting_keys = w.setting_keys;
      })
    ])
  ])
]

pub insert_event-Lands :
    (make : ℕ → EventRow)
    → ((i : ℕ) → (make i).id ≡ i)
    → (t : Tables) → IsWf t
    → Lands IsWf (insert_event make t)
insert_event-Lands make fresh t w = record {
  subnets_wf = w.subnets_wf;
  hosts_wf = w.hosts_wf;
  ports_wf = w.ports_wf;
  tags_wf = w.tags_wf;
  links_wf = w.links_wf;
  event_ids = rw (fresh t.events.next) (omega arith, w.event_ids);
  rule_ids = w.rule_ids;
  setting_keys = w.setting_keys;
}

pub insert_risk_rule-Lands :
    (make : ℕ → RiskRule)
    → ((i : ℕ) → (make i).id ≡ i)
    → (t : Tables) → IsWf t
    → Lands IsWf (insert_risk_rule make t)
insert_risk_rule-Lands make fresh t w = record {
  subnets_wf = w.subnets_wf;
  hosts_wf = w.hosts_wf;
  ports_wf = w.ports_wf;
  tags_wf = w.tags_wf;
  links_wf = w.links_wf;
  event_ids = w.event_ids;
  rule_ids = rw (fresh t.risk_rules.next) (omega arith, w.rule_ids);
  setting_keys = w.setting_keys;
}
