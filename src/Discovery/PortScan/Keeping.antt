-- ===== src/Discovery/PortScan/Keeping.antt =====
-- What the recording of hosts and ports in internal/discovery/scanner.go keeps of the database: what
-- the methods of the store that it calls keep.
use network_enumerator.Common.{ℕ, Bool, true, false, Option, none, some, List, [], ◌∷◌, Text, text}
use network_enumerator.Store.Schema.{Tables}
use network_enumerator.Store.Sql.Keeps.{Keeps, Keeps-pure, Keeps->>=, Keeps->>}
use network_enumerator.Store.Hosts.{
  upsert_host, upsert_unconfirmed_host, confirm_host_up, clear_acknowledgement_if_set,
}
use network_enumerator.Store.Hosts.Sweep.{sweep_missing_hosts}
use network_enumerator.Store.Ports.{upsert_port, sweep_closed_ports}
use network_enumerator.Store.Events.{add_event}
use network_enumerator.Store.Subnets.{touch_subnet_scan}
use network_enumerator.Store.View.{get_host}
use network_enumerator.Discovery.Attempt.{Keeps-attempt}
use network_enumerator.Discovery.Recording.{
  emit, host_recorded, record_host, reflag_from, reflag_if_acknowledged, port_recorded,
  record_open_port, emit_closed, host_went_down, emit_down, emit_host_down_events, or_nil,
}
use network_enumerator.Discovery.PortScan.{
  port_probed, probe_one_port, probe_ports, scan_port_range, scan_ports,
}

-- The methods of the store that record hosts and ports keep a predicate of the tables.
pub record RecordKeeps (P : Tables → Type 0) : Type 0 where
  pub adds : (type message : Text) (id now : ℕ) → Keeps P (add_event type message id now)
  pub upserts :
      (s : ℕ) (ip mac hostname vendor : Text) (now : ℕ)
      → Keeps P (upsert_host s ip mac hostname vendor now)
  pub upserts_unconfirmed :
      (s : ℕ) (ip hostname : Text) (now : ℕ) → Keeps P (upsert_unconfirmed_host s ip hostname now)
  pub confirms : (id now : ℕ) → Keeps P (confirm_host_up id now)
  pub clears : (id : ℕ) → Keeps P (clear_acknowledgement_if_set id)
  pub upserts_port :
      (h port : ℕ) (protocol service banner product version : Text) (now : ℕ)
      → Keeps P (upsert_port h port protocol service banner product version now)
  pub sweeps_ports :
      (h : ℕ) (probed open_ports : List ℕ) → Keeps P (sweep_closed_ports h probed open_ports)
  pub touches : (id now : ℕ) → Keeps P (touch_subnet_scan id now)

-- So do those that a cycle ends with, which look for hosts that are gone.
pub record StoreKeeps (P : Tables → Type 0) : Type 0 where
  pub records : RecordKeeps P
  pub sweeps :
      (s : ℕ) (seen : List Text) (threshold : ℕ) → Keeps P (sweep_missing_hosts s seen threshold)
  pub gets : (id now : ℕ) → Keeps P (get_host id now)

module _ (P : Tables → Type 0) (store : RecordKeeps P) where
  pub emit-Keeps : (type message : Text) (id now : ℕ) → Keeps P (emit type message id now)
  unfolding emit
  emit-Keeps type message id now =
      Keeps->> P _ _ (Keeps-attempt P _ (store.adds type message id now)) (Keeps-pure P tt)

  host_recorded-Keeps :
      (ip hostname : Text) (now : ℕ) (found : ℕ × Bool)
      → Keeps P (host_recorded ip hostname now found)
  unfolding host_recorded
  host_recorded-Keeps ip hostname now (id, false) = Keeps-pure P id
  host_recorded-Keeps ip hostname now (id, true) =
      Keeps->> P _ _ (emit-Keeps _ _ id now) (Keeps-pure P id)

  pub record_host-Keeps :
      (s : ℕ) (ip mac hostname vendor : Text) (now : ℕ)
      → Keeps P (record_host s ip mac hostname vendor now)
  unfolding record_host
  record_host-Keeps s ip mac hostname vendor now =
      Keeps->>= P _ _ (store.upserts s ip mac hostname vendor now)
        (host_recorded-Keeps ip hostname now)

  reflag-Keeps :
      (id : ℕ) (ip : Text) (port now : ℕ) → Keeps P (reflag_if_acknowledged id ip port now)
  unfolding reflag_if_acknowledged reflag_from
  reflag-Keeps id ip port now = Keeps->>= P _ _ (Keeps-attempt P _ (store.clears id)) (elim [
    | none ↦ Keeps-pure P tt
    | some false ↦ Keeps-pure P tt
    | some true ↦ emit-Keeps _ _ id now
  ])

  pub record_open_port-Keeps :
      (id : ℕ) (ip : Text) (port : ℕ) (service banner product version : Text) (now : ℕ)
      → Keeps P (record_open_port id ip port service banner product version now)
  unfolding record_open_port port_recorded
  record_open_port-Keeps id ip port service banner product version now =
      Keeps->>= P _ _
        (Keeps-attempt P _
          (store.upserts_port id port (text "tcp") service banner product version now))
        (elim [
          | none ↦ Keeps-pure P tt
          | some false ↦ Keeps-pure P tt
          | some true ↦ Keeps->> P _ _ (emit-Keeps _ _ id now) (reflag-Keeps id ip port now)
        ])

  emit_closed-Keeps :
      (id : ℕ) (ip : Text) (now : ℕ) (ports : List ℕ) → Keeps P (emit_closed id ip now ports)
  unfolding emit_closed
  emit_closed-Keeps id ip now [] = Keeps-pure P tt
  emit_closed-Keeps id ip now (port ∷ ports) =
      Keeps->> P _ _ (emit-Keeps _ _ id now) (emit_closed-Keeps id ip now ports)

  module _ (probe : Text → ℕ → Option Text) where
    port_probed-Keeps :
        (id : ℕ) (ip : Text) (port now : ℕ) (found : Option Text)
        → Keeps P (port_probed probe id ip port now found)
    unfolding port_probed
    port_probed-Keeps id ip port now none = Keeps-pure P false
    port_probed-Keeps id ip port now (some banner) =
        Keeps->> P _ _ (record_open_port-Keeps id ip port _ banner [] [] now) (Keeps-pure P true)

    probe_one_port-Keeps :
        (id : ℕ) (ip : Text) (port now : ℕ) → Keeps P (probe_one_port probe id ip port now)
    unfolding probe_one_port
    probe_one_port-Keeps id ip port now = port_probed-Keeps id ip port now (probe ip port)

    probe_ports-Keeps :
        (id : ℕ) (ip : Text) (now : ℕ) (ports : List ℕ)
        → Keeps P (probe_ports probe id ip now ports)
    unfolding probe_ports
    probe_ports-Keeps id ip now [] = Keeps-pure P []
    probe_ports-Keeps id ip now (port ∷ ports) =
        Keeps->>= P _ _ (probe_one_port-Keeps id ip port now)
          λ is_open. Keeps->>= P _ _ (probe_ports-Keeps id ip now ports) (λ rest. Keeps-pure P _)

    pub scan_port_range-Keeps :
        (id : ℕ) (ip : Text) (ports : List ℕ) (now : ℕ)
        → Keeps P (scan_port_range probe id ip ports now)
    unfolding scan_port_range
    scan_port_range-Keeps id ip ports now =
        Keeps->>= P _ _ (probe_ports-Keeps id ip now ports) λ open_ports.
          Keeps->>= P _ _ (Keeps-attempt P _ (store.sweeps_ports id _ open_ports)) λ closed.
            Keeps->> P _ _ (emit_closed-Keeps id ip now (or_nil closed)) (Keeps-pure P open_ports)

    pub scan_ports-Keeps :
        (id : ℕ) (ip : Text) (deep : Bool) (now : ℕ) → Keeps P (scan_ports probe id ip deep now)
    unfolding scan_ports
    scan_ports-Keeps id ip deep now = scan_port_range-Keeps id ip _ now

-- The end of a cycle.
module _ (P : Tables → Type 0) (store : StoreKeeps P) where
  emit_down-Keeps : (now : ℕ) (ids : List ℕ) → Keeps P (emit_down now ids)
  unfolding emit_down host_went_down
  emit_down-Keeps now [] = Keeps-pure P tt
  emit_down-Keeps now (id ∷ ids) =
      Keeps->> P _ _
        (Keeps->>= P _ _ (Keeps-attempt P _ (store.gets id now))
          (elim [ none ↦ Keeps-pure P tt | some h ↦ emit-Keeps P store.records _ _ id now ]))
        (emit_down-Keeps now ids)

  pub emit_host_down_events-Keeps :
      (s : ℕ) (seen : List Text) (threshold now : ℕ)
      → Keeps P (emit_host_down_events s seen threshold now)
  unfolding emit_host_down_events
  emit_host_down_events-Keeps s seen threshold now =
      Keeps->>= P _ _ (Keeps-attempt P _ (store.sweeps s seen threshold))
        (λ ids. emit_down-Keeps now (or_nil ids))
