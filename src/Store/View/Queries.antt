-- ===== src/Store/View/Queries.antt =====
-- What `ListHosts` and `GetHost` (internal/store/hosts.go) return, as functions of the tables.
use network_enumerator.Common.{
  ℕ, ◌-◌, ◌&&◌, some, List, [], ◌∷◌, map, ltb, ◌==◌, Text, is_empty, if◌then◌else◌, count_if, keep,
  any,
}
use network_enumerator.Store.Table.{order_by}
use network_enumerator.Store.Schema.{Tables, HostRow, TagRow, RiskRule, host_row, tag_row}
use network_enumerator.Store.Sql.{pure, query}
use network_enumerator.Store.Sql.Reads.{Reads, Reads-pure, Reads-query, Reads-if, Reads->>=}
use network_enumerator.Store.Ports.{Port, port_before, new_highlight_window, list_ports}
use network_enumerator.Store.Tags.{by_name, tags_for_host}
use network_enumerator.Store.RiskRules.{rule_before, list_risk_rules}
use network_enumerator.Store.View.{
  Host, bare, with_risk, apply_suspect_flag, fill_in, fill_all, host_before, list_hosts,
  get_host_from, mac_count_of, mac_counts, mac_group_key, shares_mac,
}

abbrev pub tags_in : ℕ → Tables → List TagRow
tags_in host_id t =
    order_by by_name
      (keep (λ r. any (λ l. (l.tag_id == r.id) && (l.host_id == host_id)) t.host_tags) t.tags.rows)

abbrev pub ports_in : ℕ → ℕ → Tables → List Port
ports_in host_id now t =
    map (λ r. record { row = r; is_new = ltb (now - r.first_seen) new_highlight_window })
      (order_by port_before (keep (λ r. r.host_id == host_id) t.ports.rows))

abbrev pub rules_in : Tables → List RiskRule
rules_in t = order_by rule_before t.risk_rules.rows

tags_for_host-Reads : (id : ℕ) → Reads (tags_for_host id) (tags_in id)
unfolding tags_for_host
tags_for_host-Reads id = Reads-query (tags_in id)

list_ports-Reads : (id now : ℕ) → Reads (list_ports id now) (ports_in id now)
unfolding list_ports
list_ports-Reads id now = Reads-query (ports_in id now)

list_risk_rules-Reads : Reads list_risk_rules rules_in
unfolding list_risk_rules
list_risk_rules-Reads = Reads-query rules_in

-- A host with the tags, the ports and the risk that the tables hold, and with a count of hosts that
-- share its address.
abbrev pub shown : ℕ → List RiskRule → ℕ → HostRow → Tables → Host
shown now rules mac_count h t = with_risk (ports_in h.id now t) rules (
    apply_suspect_flag mac_count
      (record (bare h) { tags = tags_in h.id t; ports = ports_in h.id now t }))

abbrev pub count_of : (Text → ℕ) → HostRow → ℕ
count_of counts h = counts (mac_group_key h.subnet_id h.mac)

fill_in-Reads :
    (now : ℕ) (rules : List RiskRule) (counts : Text → ℕ) (h : HostRow)
    → Reads (fill_in now rules counts h) (shown now rules (count_of counts h) h)
unfolding fill_in
fill_in-Reads now rules counts h =
    Reads->>= (tags_for_host h.id) _ (tags_in h.id)
      (λ tags t. with_risk (ports_in h.id now t) rules (
        apply_suspect_flag (count_of counts h)
          (record (bare h) { tags = tags; ports = ports_in h.id now t })))
      (tags_for_host-Reads h.id)
      λ tags.
        Reads->>= (list_ports h.id now) _ (ports_in h.id now)
          (λ ports t. with_risk ports rules (
            apply_suspect_flag (count_of counts h)
              (record (bare h) { tags = tags; ports = ports })))
          (list_ports-Reads h.id now) λ ports. Reads-pure _

fill_all-Reads :
    (now : ℕ) (rules : List RiskRule) (counts : Text → ℕ) (hosts : List HostRow)
    → Reads
        (fill_all now rules counts hosts)
        (λ t. map (λ h. shown now rules (count_of counts h) h t) hosts)
unfolding fill_all
fill_all-Reads now rules counts [] = Reads-pure []
fill_all-Reads now rules counts (h ∷ hosts) =
    Reads->>= (fill_in now rules counts h) _ (shown now rules (count_of counts h) h)
      (λ h' t. h' ∷ map (λ h. shown now rules (count_of counts h) h t) hosts)
      (fill_in-Reads now rules counts h)
      λ h'.
        Reads->>= (fill_all now rules counts hosts) _
          (λ t. map (λ h. shown now rules (count_of counts h) h t) hosts) (λ rest t. h' ∷ rest)
          (fill_all-Reads now rules counts hosts) λ rest. Reads-pure _

abbrev pub listed : ℕ → Tables → List Host
listed now t =
    let hosts = order_by host_before t.hosts.rows in
    map (λ h. shown now (rules_in t) (count_of (mac_counts hosts) h) h t) hosts

pub list_hosts-Reads : (now : ℕ) → Reads (list_hosts now) (listed now)
unfolding list_hosts
list_hosts-Reads now =
    let sorted = λ (t : Tables). order_by host_before t.hosts.rows in
    Reads->>= (query sorted) _ sorted
      (λ hosts t. map (λ h. shown now (rules_in t) (count_of (mac_counts hosts) h) h t) hosts)
      (Reads-query sorted)
      λ hosts.
        Reads->>= list_risk_rules _ rules_in
          (λ rules t. map (λ h. shown now rules (count_of (mac_counts hosts) h) h t) hosts)
          list_risk_rules-Reads λ rules. fill_all-Reads now rules (mac_counts hosts) hosts

-- What `GetHost` counts.
abbrev pub count_in : HostRow → Tables → ℕ
count_in h =
    if is_empty h.mac then (λ t. 0) else λ t. count_if (shares_mac h.subnet_id h.mac) t.hosts.rows

abbrev pub read_back : ℕ → HostRow → Tables → Host
read_back now h t =
    with_risk (ports_in h.id now t) (rules_in t)
      (record (apply_suspect_flag (count_in h t) (bare h)) {
        tags = tags_in h.id t;
        ports = ports_in h.id now t;
      })

mac_count_of-Reads : (h : HostRow) → Reads (mac_count_of h) (count_in h)
mac_count_of-Reads h =
    Reads-if (is_empty h.mac) (pure 0)
      (query (λ t. count_if (shares_mac h.subnet_id h.mac) t.hosts.rows)) (λ t. 0)
      (λ t. count_if (shares_mac h.subnet_id h.mac) t.hosts.rows) (Reads-pure 0)
      (Reads-query (λ t. count_if (shares_mac h.subnet_id h.mac) t.hosts.rows))

pub get_host_from-Reads :
    (now : ℕ) (h : HostRow) → Reads (get_host_from now (some h)) (read_back now h)
unfolding get_host_from
get_host_from-Reads now h =
    let built = λ (c : ℕ) (rules : List RiskRule) (tags : List TagRow) (ports : List Port).
      with_risk ports rules
        (record (apply_suspect_flag c (bare h)) { tags = tags; ports = ports }) in
    Reads->>= (mac_count_of h) _ (count_in h)
      (λ c t. built c (rules_in t) (tags_in h.id t) (ports_in h.id now t)) (mac_count_of-Reads h)
      λ c.
        Reads->>= list_risk_rules _ rules_in
          (λ rules t. built c rules (tags_in h.id t) (ports_in h.id now t)) list_risk_rules-Reads
          λ rules.
            Reads->>= (tags_for_host h.id) _ (tags_in h.id)
              (λ tags t. built c rules tags (ports_in h.id now t)) (tags_for_host-Reads h.id)
              λ tags.
                Reads->>= (list_ports h.id now) _ (ports_in h.id now)
                  (λ ports t. built c rules tags ports) (list_ports-Reads h.id now)
                  λ ports. Reads-pure (built c rules tags ports)
