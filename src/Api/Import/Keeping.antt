-- ===== src/Api/Import/Keeping.antt =====
-- A predicate of the tables that the calls of an import keep is kept by the imports of internal/api.
use network_enumerator.Common.{
  if◌then◌else◌, ℕ, Bool, true, false, Option, none, some, List, [], ◌∷◌, Text, text,
}
use network_enumerator.Common.Dict.{get}
use network_enumerator.Store.Schema.{Tables, RiskRule}
use network_enumerator.Store.Sql.Keeps.{
  Keeps, Keeps-pure, Keeps-query, Keeps->>=, Keeps->>, Keeps-if,
}
use network_enumerator.Store.Subnets.{upsert_auto_subnet, set_subnet_hidden, set_subnet_enabled}
use network_enumerator.Store.Hosts.{import_host}
use network_enumerator.Store.Ports.{upsert_port}
use network_enumerator.Store.Events.{add_event}
use network_enumerator.Store.Settings.{set_scan_method, set_netdiscover_enabled}
use network_enumerator.Store.RiskRules.{
  RulePatch, list_risk_rules, create_risk_rule, update_risk_rule_fields,
}
use network_enumerator.Discovery.Method.{regular}
use network_enumerator.Api.Handler.{Parsers, pure, stored, ◌>>=◌, ◌>>◌}
use network_enumerator.Api.Handler.Keeping.{
  Preserves, Preserves-pure, Preserves-given, Preserves-stored, Preserves-announce,
  Preserves-request_scan, Preserves->>=, Preserves->>,
}
use network_enumerator.Api.Tags.{is_scan_method}
use network_enumerator.Api.Export.{
  ExportSegment, ExportHost, ExportPort, ExportDocument, SystemSegment, SystemDocument,
}
use network_enumerator.Api.Import.{
  announce_import, import_network_map, restore_scan_method, import_system,
}
use network_enumerator.Api.Import.Loops.{
  Ids, segment_upserted, import_segment, import_segments, system_segment_restored,
  import_system_segment, import_system_segments, import_host_of, host_in_segment, import_hosts,
  import_port_of, port_on_host, import_ports, rule_for, import_risk_rule, import_rules_with,
  import_risk_rules,
}

pub record ImportKeeps (P : Tables → Type 0) : Type 0 where
  pub segments :
      (cidr name iface : Text) (now : ℕ) → Keeps P (upsert_auto_subnet cidr name iface now)
  pub hides : (id : ℕ) (b : Bool) → Keeps P (set_subnet_hidden id b)
  pub enables : (id : ℕ) (b : Bool) → Keeps P (set_subnet_enabled id b)
  pub hosts :
      (s : ℕ) (ip mac hostname vendor notes : Text) (now : ℕ)
      → Keeps P (import_host s ip mac hostname vendor notes now)
  pub ports :
      (h p : ℕ) (protocol service banner product version : Text) (now : ℕ)
      → Keeps P (upsert_port h p protocol service banner product version now)
  pub creates : (r : RiskRule) → Keeps P (create_risk_rule r)
  pub updates : (id : ℕ) (p : RulePatch) → Keeps P (update_risk_rule_fields id p)
  pub methods : (method : Text) → Keeps P (set_scan_method method)
  pub netdiscover : (b : Bool) → Keeps P (set_netdiscover_enabled b)
  pub adds : (type message : Text) (id now : ℕ) → Keeps P (add_event type message id now)

-- What follows the hosts in an import of a network map.
module _ (P : Tables → Type 0)
    (ports : (h p : ℕ) (protocol service banner product version : Text) (now : ℕ)
      → Keeps P (upsert_port h p protocol service banner product version now))
    (adds : (type message : Text) (id now : ℕ) → Keeps P (add_event type message id now))
    (now : ℕ) where
  port-Keeps : (p : ExportPort) (n : ℕ) (h : Option ℕ) → Keeps P (port_on_host now p n h)
  unfolding port_on_host import_port_of
  port-Keeps p n none = Keeps-pure P n
  port-Keeps p n (some h) = Keeps-if P _ _ _ (Keeps-pure P n) (
      Keeps->>= P _ _ (ports h p.port _ p.service p.notes [] p.version now)
        (λ is_new. Keeps-pure P _))

  ports-Keeps :
      (host_ids : Ids) (ps : List ExportPort) (n : ℕ) → Keeps P (import_ports now host_ids ps n)
  unfolding import_ports
  ports-Keeps host_ids [] n = Keeps-pure P n
  ports-Keeps host_ids (p ∷ ps) n =
      Keeps->>= P _ _ (port-Keeps p n (get p.host_id host_ids)) (ports-Keeps host_ids ps)

  announce-Preserves : (message : Text) → Preserves P (announce_import message now)
  unfolding announce_import
  announce-Preserves message =
      Preserves->> P _ _
        (Preserves-announce P (text "import") message 0 now (adds (text "import") message 0 now))
        (Preserves-request_scan P regular)

  pub ports_imported-Preserves :
      {A : Type 0} (host_ids : Ids) (ps : List ExportPort) (message : ℕ → Text) (result : ℕ → A)
      → Preserves P (
          stored 500 (import_ports now host_ids ps 0) >>= λ new.
          announce_import (message new) now >> pure (result new))
  ports_imported-Preserves host_ids ps message result =
      Preserves->>= P _ _ (Preserves-stored P 500 _ (ports-Keeps host_ids ps 0))
        λ new. Preserves->> P _ _ (announce-Preserves (message new)) (Preserves-pure P (result new))

module _ (P : Tables → Type 0) (store : ImportKeeps P) where
  module _ (go : Parsers) (now : ℕ) where
    segment-Keeps : (seg : ExportSegment) (ids : Ids) → Keeps P (import_segment go now seg ids)
    unfolding import_segment segment_upserted
    segment-Keeps seg ids =
        Keeps-if P _ _ _
          (Keeps->>= P _ _ (store.segments seg.cidr seg.name [] now) (λ r. Keeps-pure P _))
          (Keeps-pure P ids)

    segments-Keeps :
        (segs : List ExportSegment) (ids : Ids) → Keeps P (import_segments go now segs ids)
    unfolding import_segments
    segments-Keeps [] ids = Keeps-pure P ids
    segments-Keeps (seg ∷ segs) ids = Keeps->>= P _ _ (segment-Keeps seg ids) (segments-Keeps segs)

    system_segment-Keeps :
        (seg : SystemSegment) (ids : Ids) → Keeps P (import_system_segment go now seg ids)
    unfolding import_system_segment system_segment_restored
    system_segment-Keeps seg ids =
        Keeps-if P _ _ _
          (Keeps->>= P _ _ (store.segments seg.cidr seg.name [] now) λ r.
            Keeps->> P _ _ (store.hides r.0 seg.hidden)
              (Keeps->> P _ _ (store.enables r.0 seg.enabled) (Keeps-pure P _)))
          (Keeps-pure P ids)

    system_segments-Keeps :
        (segs : List SystemSegment) (ids : Ids) → Keeps P (import_system_segments go now segs ids)
    unfolding import_system_segments
    system_segments-Keeps [] ids = Keeps-pure P ids
    system_segments-Keeps (seg ∷ segs) ids =
        Keeps->>= P _ _ (system_segment-Keeps seg ids) (system_segments-Keeps segs)

    host-Keeps :
        (h : ExportHost) (done : Ids × ℕ) (s : Option ℕ) → Keeps P (host_in_segment go now h done s)
    unfolding host_in_segment import_host_of
    host-Keeps h done none = Keeps-pure P done
    host-Keeps h done (some s) =
        Keeps-if P _ _ _
          (Keeps->>= P _ _ (store.hosts s h.ip h.mac h.hostname h.vendor h.notes now)
            (λ r. Keeps-pure P _))
          (Keeps-pure P done)

    hosts-Keeps :
        (segment_ids : Ids) (hosts : List ExportHost) (done : Ids × ℕ)
        → Keeps P (import_hosts go now segment_ids hosts done)
    unfolding import_hosts
    hosts-Keeps segment_ids [] done = Keeps-pure P done
    hosts-Keeps segment_ids (h ∷ hosts) done =
        Keeps->>= P _ _ (host-Keeps h done (get h.segment_id segment_ids))
          (hosts-Keeps segment_ids hosts)

  rule-Keeps :
      (r : RiskRule) (n : ℕ × ℕ) (found : Option RiskRule) → Keeps P (import_risk_rule r n found)
  unfolding import_risk_rule
  rule-Keeps r (c, u) (some s) = Keeps->> P _ _ (store.updates s.id _) (Keeps-pure P _)
  rule-Keeps r (c, u) none = Keeps->>= P _ _ (store.creates _) (λ new. Keeps-pure P _)

  rules_with-Keeps :
      (existing rules : List RiskRule) (n : ℕ × ℕ) → Keeps P (import_rules_with existing rules n)
  unfolding import_rules_with
  rules_with-Keeps existing [] n = Keeps-pure P n
  rules_with-Keeps existing (r ∷ rules) n =
      Keeps->>= P _ _ (rule-Keeps r n (rule_for r existing)) (rules_with-Keeps existing rules)

  rules-Keeps : (rules : List RiskRule) → Keeps P (import_risk_rules rules)
  unfolding import_risk_rules list_risk_rules
  rules-Keeps rules =
      Keeps->>= P _ _ (Keeps-query P _) (λ existing. rules_with-Keeps existing rules (0, 0))

  method-Preserves : (method : Text) → Preserves P (restore_scan_method method)
  unfolding restore_scan_method
  method-Preserves method = go_on (is_scan_method method)
    where
      go_on : (b : Bool) → Preserves P (if b then stored 500 (set_scan_method method) else pure tt)
      go_on true = Preserves-stored P 500 _ (store.methods method)
      go_on false = Preserves-pure P tt

  module _ (go : Parsers) (now : ℕ) where
    pub import_network_map-Preserves :
        (body : Option ExportDocument) → Preserves P (import_network_map go now body)
    unfolding import_network_map
    import_network_map-Preserves body = Preserves->>= P _ _ (Preserves-given P body) λ doc.
        Preserves->>= P _ _ (Preserves-stored P 500 _ (segments-Keeps go now doc.segments []))
          λ ids.
            Preserves->>= P _ _
              (Preserves-stored P 500 _ (hosts-Keeps go now ids doc.hosts ([], 0)))
              λ found.
                Preserves->>= P _ _
                  (Preserves-stored P 500 _
                    (ports-Keeps P store.ports store.adds now found.0 doc.ports 0))
                  λ new.
                    Preserves->> P _ _ (announce-Preserves P store.ports store.adds now _)
                      (Preserves-pure P _)

    pub import_system-Preserves :
        (body : Option SystemDocument) → Preserves P (import_system go now body)
    unfolding import_system
    import_system-Preserves body = Preserves->>= P _ _ (Preserves-given P body) λ doc.
        Preserves->>= P _ _
          (Preserves-stored P 500 _ (system_segments-Keeps go now doc.segments []))
          λ ids.
            Preserves->>= P _ _
              (Preserves-stored P 500 _ (hosts-Keeps go now ids doc.hosts ([], 0)))
              λ found.
                Preserves->>= P _ _
                  (Preserves-stored P 500 _
                    (ports-Keeps P store.ports store.adds now found.0 doc.ports 0))
                  λ new. Preserves->> P _ _ (method-Preserves doc.settings.scan_method) (
                    Preserves->> P _ _ (Preserves-stored P 500 _ (store.netdiscover _)) (
                      Preserves->>= P _ _ (Preserves-stored P 500 _ (rules-Keeps doc.risk_rules))
                        λ rules.
                          Preserves->> P _ _ (announce-Preserves P store.ports store.adds now _)
                            (Preserves-pure P _)))
