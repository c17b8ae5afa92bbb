-- ===== src/Api/Import/Known.antt =====
-- What the imports of internal/api leave of the hosts that the store knows already.
use network_enumerator.Common.{ap, is_empty, Bool, ℕ, ◌≡◌, some, none, Option, Text, find_if, ◌∙◌}
use network_enumerator.Store.Table.{Table}
use network_enumerator.Store.Schema.{Tables, HostRow, RiskRule}
use network_enumerator.Store.Constraints.{insert_subnet, insert_event, insert_risk_rule}
use network_enumerator.Store.Sql.{M}
use network_enumerator.Store.Sql.Keeps.{
  Keeps, Keeps-pure, Keeps-query, Keeps-exec, Keeps-statement, Keeps->>=, Keeps->>, Keeps-if,
  Lands-if, Lands-unless,
}
use network_enumerator.Store.Subnets.{
  new_subnet, upsert_auto_subnet, set_subnet_hidden, set_subnet_enabled,
}
use network_enumerator.Store.Ports.{upsert_port}
use network_enumerator.Store.Events.{new_event, add_event}
use network_enumerator.Store.Settings.{set_scan_method, set_netdiscover_enabled}
use network_enumerator.Store.RiskRules.{RulePatch, create_risk_rule, update_risk_rule_fields}
use network_enumerator.Store.Hosts.{is_at, import_host}
use network_enumerator.Store.Hosts.UpsertLaws.{host_at}
use network_enumerator.Store.Hosts.Passive.{
  Fills, OnlyFills, OnlyFills-refl, StillKnown, import_host-OnlyFills,
}
use network_enumerator.Store.Integrity.{IsWf}
use network_enumerator.Store.Integrity.HostMethods.{import_host-Wf}
use network_enumerator.Api.Import.WellFormed.{IsWf-ImportKeeps}
use network_enumerator.Api.Handler.{World, Parsers}
use network_enumerator.Api.Handler.Keeping.{Preserves}
use network_enumerator.Api.Export.{ExportDocument, SystemDocument}
use network_enumerator.Api.Import.{import_network_map, import_system}
use network_enumerator.Api.Import.Keeping.{
  ImportKeeps, import_network_map-Preserves, import_system-Preserves,
}

-- The calls of an import other than `ImportHost` leave the hosts alone.
module _ (Q : Table HostRow → Type 0) where
  abbrev OfHosts : Tables → Type 0
  OfHosts t = Q t.hosts

  upsert_auto_subnet-OfHosts :
      (cidr name iface : Text) (now : ℕ) → Keeps OfHosts (upsert_auto_subnet cidr name iface now)
  unfolding upsert_auto_subnet
  upsert_auto_subnet-OfHosts cidr name iface now =
      Keeps->>= OfHosts _ _ (Keeps-query OfHosts _) (elim [
        | some r ↦
            Keeps-if OfHosts _ _ _
              (Keeps->> OfHosts _ _ (Keeps-exec OfHosts _ (λ t k. k)) (Keeps-pure OfHosts _))
              (Keeps-pure OfHosts _)
        | none ↦
            Keeps->>= OfHosts _ _
              (Keeps-statement OfHosts (insert_subnet (new_subnet cidr name iface now))
                (λ t k. Lands-unless OfHosts _ _ _ k))
              (λ id. Keeps-pure OfHosts _)
      ])

  upsert_port-OfHosts :
      (h p : ℕ) (protocol service banner product version : Text) (now : ℕ)
      → Keeps OfHosts (upsert_port h p protocol service banner product version now)
  unfolding upsert_port
  upsert_port-OfHosts h p protocol service banner product version now =
      Keeps->>= OfHosts _ _ (Keeps-query OfHosts _) (elim [
        | some r ↦ Keeps->> OfHosts _ _ (Keeps-exec OfHosts _ (λ t k. k)) (Keeps-pure OfHosts _)
        | none ↦
            Keeps->>= OfHosts _ _ (Keeps-statement OfHosts _ (λ t k. Lands-if OfHosts _ _ _ k))
              (λ id. Keeps-pure OfHosts _)
      ])

  add_event-OfHosts :
      (type message : Text) (id now : ℕ) → Keeps OfHosts (add_event type message id now)
  unfolding add_event
  add_event-OfHosts type message id now =
      Keeps->>= OfHosts _ _
        (Keeps-statement OfHosts (insert_event (new_event type message id now)) (λ t k. k))
        (λ i. Keeps-pure OfHosts (new_event type message id now i))

  create_risk_rule-OfHosts : (r : RiskRule) → Keeps OfHosts (create_risk_rule r)
  unfolding create_risk_rule
  create_risk_rule-OfHosts r =
      Keeps->>= OfHosts _ _ (Keeps-statement OfHosts (insert_risk_rule _) (λ t k. k))
        (λ id. Keeps-pure OfHosts _)

  other-OfHosts :
      ((id : ℕ) (p : RulePatch) → Keeps OfHosts (update_risk_rule_fields id p))
      × ((method : Text) → Keeps OfHosts (set_scan_method method))
  unfolding update_risk_rule_fields set_scan_method
  other-OfHosts = (
    (λ id p. Keeps-if OfHosts _ _ _ (Keeps-pure OfHosts tt) (Keeps-exec OfHosts _ (λ t k. k))),
    (λ method. Keeps-exec OfHosts _ (λ t k. k)),
  )

  settings-OfHosts :
      ((b : Bool) → Keeps OfHosts (set_netdiscover_enabled b))
      × ((id : ℕ) (b : Bool) → Keeps OfHosts (set_subnet_hidden id b))
      × ((id : ℕ) (b : Bool) → Keeps OfHosts (set_subnet_enabled id b))
  unfolding set_netdiscover_enabled set_subnet_hidden set_subnet_enabled
  settings-OfHosts = (
    (λ b. Keeps-exec OfHosts _ (λ t k. k)),
    (λ id b. Keeps-exec OfHosts _ (λ t k. k)),
    (λ id b. Keeps-exec OfHosts _ (λ t k. k)),
  )

Fills-trans : (a b c : Text) → Fills a b → Fills b c → Fills a c
Fills-trans a b c f g e = g (ap is_empty (f e) ∙ e) ∙ f e

OnlyFills-trans : (g h k : HostRow) → OnlyFills g h → OnlyFills h k → OnlyFills g k
OnlyFills-trans g h k p q = record {
  id = q.id ∙ p.id;
  status = q.status ∙ p.status;
  miss_count = q.miss_count ∙ p.miss_count;
  last_seen = q.last_seen ∙ p.last_seen;
  first_seen = q.first_seen ∙ p.first_seen;
  notes = q.notes ∙ p.notes;
  acknowledged = q.acknowledged ∙ p.acknowledged;
  new_ack = q.new_ack ∙ p.new_ack;
  mac = Fills-trans g.mac h.mac k.mac p.mac q.mac;
  hostname = Fills-trans g.hostname h.hostname k.hostname p.hostname q.hostname;
  vendor = Fills-trans g.vendor h.vendor k.vendor p.vendor q.vendor;
}

module _ (s : ℕ) (i : Text) (h : HostRow) where
  -- The database is well formed, and `h` is still known under its address.
  abbrev Knows : Tables → Type 0
  Knows t = IsWf t × StillKnown s i h t

  both : {A : Type 0} (m : M A) → Keeps IsWf m → Keeps (StillKnown s i h) m → Keeps Knows m
  unfolding Keeps
  both m p q d (w, k) = (p d w, q d k)

  import_host-Knows :
      (s' : ℕ) (ip mac hostname vendor notes : Text) (now : ℕ)
      → Keeps Knows (import_host s' ip mac hostname vendor notes now)
  unfolding Keeps
  import_host-Knows s' ip mac hostname vendor notes now d (w, (g, at, fills)) =
      let (k, at', fills') =
        import_host-OnlyFills s' ip mac hostname vendor notes now d s i g w.hosts_wf.ids at in
      (
        import_host-Wf s' ip mac hostname vendor notes now d w,
        (k, at', OnlyFills-trans h g k fills fills'),
      )

  -- `StillKnown`, as a predicate of the hosts.
  abbrev InHosts : Table HostRow → Type 0
  InHosts hosts = (h' : HostRow) × (find_if (is_at s i) hosts.rows ≡ some h') × OnlyFills h h'

  Knows-ImportKeeps : ImportKeeps Knows
  Knows-ImportKeeps = record {
    segments = λ c n f now.
        both _ (IsWf-ImportKeeps.segments c n f now) (upsert_auto_subnet-OfHosts InHosts c n f now);
    hides = λ id b. both _ (IsWf-ImportKeeps.hides id b) ((settings-OfHosts InHosts).1 id b);
    enables = λ id b. both _ (IsWf-ImportKeeps.enables id b) ((settings-OfHosts InHosts).2 id b);
    hosts = import_host-Knows;
    ports = λ h p a b c d e now.
        both _ (IsWf-ImportKeeps.ports h p a b c d e now)
          (upsert_port-OfHosts InHosts h p a b c d e now);
    creates = λ r. both _ (IsWf-ImportKeeps.creates r) (create_risk_rule-OfHosts InHosts r);
    updates = λ id p. both _ (IsWf-ImportKeeps.updates id p) ((other-OfHosts InHosts).0 id p);
    methods = λ m. both _ (IsWf-ImportKeeps.methods m) ((other-OfHosts InHosts).1 m);
    netdiscover = λ b. both _ (IsWf-ImportKeeps.netdiscover b) ((settings-OfHosts InHosts).0 b);
    adds = λ a b id now.
        both _ (IsWf-ImportKeeps.adds a b id now) (add_event-OfHosts InHosts a b id now);
  }

-- An import of a network map and an import of a system export leave every host that a well-formed
-- database knows under some address known there, with its status, misses, times, notes and
-- acknowledgements, and with each text that it had. This holds whatever the document says and
-- whichever statements fail.
pub imports-OnlyFill :
    (go : Parsers) (now : ℕ) (map_body : Option ExportDocument)
    → (system_body : Option SystemDocument) → (w : World) (s : ℕ) (i : Text) (h : HostRow)
    → IsWf w.db.tables
    → host_at s i w.db.tables ≡ some h
    → StillKnown s i h (import_network_map go now map_body w).1.db.tables
      × StillKnown s i h (import_system go now system_body w).1.db.tables
unfolding Preserves
imports-OnlyFill go now map_body system_body w s i h wf known =
    let keeps = Knows-ImportKeeps s i h in
    let start : Knows s i h w.db.tables = (wf, (h, known, OnlyFills-refl h)) in
    (
      (import_network_map-Preserves (Knows s i h) keeps go now map_body w start).1,
      (import_system-Preserves (Knows s i h) keeps go now system_body w start).1,
    )
