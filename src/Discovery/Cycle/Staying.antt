-- ===== src/Discovery/Cycle/Staying.antt =====
-- The user's data and the hosts stay in the database, whichever method of the store a cycle of
-- internal/discovery/scanner.go calls.
use network_enumerator.Common.{
  ℕ, Bool, any, ◌≡◌, refl, true, Option, none, some, List, [], ◌∷◌, Text, arith,
}
use network_enumerator.Store.Table.{Table, is_id, add}
use network_enumerator.Store.Table.Find.{any-map}
use network_enumerator.Store.Schema.{
  Tables, HostRow, PortRow, TagRow, HostTagRow, AuthRow, SettingRow, RiskRule, host_row, subnet_row,
}
use network_enumerator.Store.Constraints.{insert_subnet, insert_host, insert_event, update_host}
use network_enumerator.Store.Sql.{no_rows, exec, statement}
use network_enumerator.Store.Sql.Keeps.{
  Keeps, Keeps-pure, Keeps-fail, Keeps-query, Keeps-exec, Keeps-statement, Keeps->>=, Keeps->>,
  Keeps-if, Lands-if, Lands-unless,
}
use network_enumerator.Store.Hosts.{
  upsert_host, upsert_unconfirmed_host, confirm_host_up, clear_acknowledgement_if_set,
}
use network_enumerator.Store.Hosts.Sweep.{is_up, sweep_rows, sweep_missing_hosts}
use network_enumerator.Store.Ports.{upsert_port, close_rows, sweep_closed_ports}
use network_enumerator.Store.Events.{new_event, add_event}
use network_enumerator.Store.Subnets.{touch_subnet_scan, upsert_auto_subnet, new_subnet}
use network_enumerator.Store.View.ReadOnly.{get_host-Keeps}
use network_enumerator.Discovery.PortScan.Keeping.{RecordKeeps, StoreKeeps}

-- What the user keeps in the database, apart from subnets and hosts.
pub record UserData : Type 0 where
  pub tags : Table TagRow
  pub host_tags : List HostTagRow
  pub auth : Option AuthRow
  pub settings : List SettingRow
  pub risk_rules : Table RiskRule

abbrev pub user_data : Tables → UserData
user_data t = record {
  tags = t.tags;
  host_tags = t.host_tags;
  auth = t.auth;
  settings = t.settings;
  risk_rules = t.risk_rules;
}

-- A change of a host that leaves its id alone and never takes away that it is up.
abbrev pub IsGentle : (HostRow → HostRow) → Type 0
IsGentle f = (h : HostRow) → ((f h).id ≡ h.id) × (is_up h.status ≡ true → is_up (f h).status ≡ true)

module _ (u : UserData) (test : HostRow → Bool) where
  -- The user's data are `u`, and some host passes the test.
  abbrev pub Holds : Tables → Type 0
  Holds t = (user_data t ≡ u) × (any test t.hosts.rows ≡ true)

  pub update_host-Holds :
      (id : ℕ) (f : HostRow → HostRow)
      → ((h : HostRow) → test h ≡ true → test (f h) ≡ true)
      → Keeps Holds (exec (update_host id f))
  update_host-Holds id f kept =
      Keeps-exec Holds (update_host id f)
        (λ t k. (k.0, any-map test (is_id id) f t.hosts.rows kept k.1))

  added : (make : ℕ → HostRow) (t : Tables) → Holds t → any test (add make t.hosts).rows ≡ true
  added make t k = ground (arith, k.1)

  insert_host-Holds : (make : ℕ → HostRow) → Keeps Holds (statement (insert_host make))
  insert_host-Holds make =
      Keeps-statement Holds (insert_host make) λ t k. Lands-if Holds _ _ _ (k.0, added make t k)

  close_rows-Holds : (rows : List PortRow) → Keeps Holds (close_rows rows)
  unfolding close_rows
  close_rows-Holds [] = Keeps-pure Holds []
  close_rows-Holds (r ∷ rows) =
      Keeps->> Holds _ _ (Keeps-exec Holds _ (λ t k. k))
        (Keeps->>= Holds _ _ (close_rows-Holds rows) (λ rest. Keeps-pure Holds _))

  -- The test goes by the id and by whether the host is up.
  module _
      (kept : (f : HostRow → HostRow)
        → IsGentle f
        → (h : HostRow) → test h ≡ true
        → test (f h) ≡ true) where
    upsert_host-Holds :
        (s : ℕ) (ip mac hostname vendor : Text) (now : ℕ)
        → Keeps Holds (upsert_host s ip mac hostname vendor now)
    unfolding upsert_host
    upsert_host-Holds s ip mac hostname vendor now =
        Keeps->>= Holds _ _ (Keeps-query Holds _) (elim [
          | some h ↦
              Keeps->> Holds _ _ (update_host-Holds h.id _ (kept _ (λ r. (refl, λ up. refl))))
                (Keeps-pure Holds _)
          | none ↦ Keeps->>= Holds _ _ (insert_host-Holds _) (λ id. Keeps-pure Holds _)
        ])

    upsert_unconfirmed_host-Holds :
        (s : ℕ) (ip hostname : Text) (now : ℕ)
        → Keeps Holds (upsert_unconfirmed_host s ip hostname now)
    unfolding upsert_unconfirmed_host
    upsert_unconfirmed_host-Holds s ip hostname now =
        Keeps->>= Holds _ _ (Keeps-query Holds _) (elim [
          | some h ↦
              Keeps-if Holds _ _ _
                (Keeps->> Holds _ _ (update_host-Holds h.id _ (kept _ (λ r. (refl, λ up. up))))
                  (Keeps-pure Holds _))
                (Keeps-pure Holds _)
          | none ↦ Keeps->>= Holds _ _ (insert_host-Holds _) (λ id. Keeps-pure Holds _)
        ])

    clear-Holds : (id : ℕ) → Keeps Holds (clear_acknowledgement_if_set id)
    unfolding clear_acknowledgement_if_set
    clear-Holds id = Keeps->>= Holds _ _ (Keeps-query Holds _) (elim [
      | none ↦ Keeps-fail Holds _ no_rows
      | some h ↦
          Keeps-if Holds _ _ _
            (Keeps->> Holds _ _ (update_host-Holds id _ (kept _ (λ r. (refl, λ up. up))))
              (Keeps-pure Holds _))
            (Keeps-pure Holds _)
    ])

    upsert_port-Holds :
        (h p : ℕ) (protocol service banner product version : Text) (now : ℕ)
        → Keeps Holds (upsert_port h p protocol service banner product version now)
    unfolding upsert_port
    upsert_port-Holds h p protocol service banner product version now =
        Keeps->>= Holds _ _ (Keeps-query Holds _) (elim [
          | some r ↦ Keeps->> Holds _ _ (Keeps-exec Holds _ (λ t k. k)) (Keeps-pure Holds _)
          | none ↦
              Keeps->>= Holds _ _ (Keeps-statement Holds _ (λ t k. Lands-if Holds _ _ _ k))
                (λ id. Keeps-pure Holds _)
        ])

    other-Holds :
        ((id now : ℕ) → Keeps Holds (confirm_host_up id now))
        × ((h : ℕ) (probed open_ports : List ℕ)
            → Keeps Holds (sweep_closed_ports h probed open_ports))
        × ((id now : ℕ) → Keeps Holds (touch_subnet_scan id now))
        × ((type message : Text) (id now : ℕ) → Keeps Holds (add_event type message id now))
    unfolding confirm_host_up sweep_closed_ports touch_subnet_scan add_event
    other-Holds = (
      (λ id now. update_host-Holds id _ (kept _ (λ r. (refl, λ up. refl)))),
      (λ h probed open_ports. Keeps->>= Holds _ _ (Keeps-query Holds _) close_rows-Holds),
      (λ id now. Keeps-exec Holds _ (λ t k. k)),
      λ type message id now.
          Keeps->>= Holds _ _
            (Keeps-statement Holds (insert_event (new_event type message id now)) (λ t k. k))
            (λ i. Keeps-pure Holds (new_event type message id now i)),
    )

    pub Holds-RecordKeeps : RecordKeeps Holds
    Holds-RecordKeeps = record {
      adds = other-Holds.3;
      upserts = upsert_host-Holds;
      upserts_unconfirmed = upsert_unconfirmed_host-Holds;
      confirms = other-Holds.0;
      clears = clear-Holds;
      upserts_port = upsert_port-Holds;
      sweeps_ports = other-Holds.1;
      touches = other-Holds.2;
    }

    pub upsert_auto_subnet-Holds :
        (cidr name iface : Text) (now : ℕ) → Keeps Holds (upsert_auto_subnet cidr name iface now)
    unfolding upsert_auto_subnet
    upsert_auto_subnet-Holds cidr name iface now = Keeps->>= Holds _ _ (Keeps-query Holds _) (elim [
      | some r ↦
          Keeps-if Holds _ _ _
            (Keeps->> Holds _ _ (Keeps-exec Holds _ (λ t k. k)) (Keeps-pure Holds _))
            (Keeps-pure Holds _)
      | none ↦
          Keeps->>= Holds _ _
            (Keeps-statement Holds (insert_subnet (new_subnet cidr name iface now))
              (λ t k. Lands-unless Holds _ _ _ k))
            (λ id. Keeps-pure Holds _)
    ])

module _ (u : UserData) (i : ℕ) where
  -- The user's data are `u`, and the host `i` exists.
  abbrev pub Stays : Tables → Type 0
  Stays = Holds u (is_id i)

  kept_id :
      (f : HostRow → HostRow) → IsGentle f → (h : HostRow) → is_id i h ≡ true → is_id i (f h) ≡ true
  kept_id f gentle h found = rw (gentle h).0 found

  sweep_rows-Stays : (threshold : ℕ) (rows : List HostRow) → Keeps Stays (sweep_rows threshold rows)
  unfolding sweep_rows
  sweep_rows-Stays threshold [] = Keeps-pure Stays []
  sweep_rows-Stays threshold (r ∷ rows) =
      Keeps->> Stays _ _ (update_host-Holds u (is_id i) r.id _ (λ h found. found))
        (Keeps->>= Stays _ _ (sweep_rows-Stays threshold rows) (λ rest. Keeps-pure Stays _))

  sweep-Stays :
      (s : ℕ) (seen : List Text) (threshold : ℕ)
      → Keeps Stays (sweep_missing_hosts s seen threshold)
  unfolding sweep_missing_hosts
  sweep-Stays s seen threshold =
      Keeps->>= Stays _ _ (Keeps-query Stays _) (sweep_rows-Stays threshold)

  pub Stays-StoreKeeps : StoreKeeps Stays
  Stays-StoreKeeps = record {
    records = Holds-RecordKeeps u (is_id i) kept_id;
    sweeps = sweep-Stays;
    gets = get_host-Keeps Stays;
  }

  pub upsert_auto_subnet-Stays :
      (cidr name iface : Text) (now : ℕ) → Keeps Stays (upsert_auto_subnet cidr name iface now)
  upsert_auto_subnet-Stays = upsert_auto_subnet-Holds u (is_id i) kept_id
