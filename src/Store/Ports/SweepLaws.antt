-- ===== src/Store/Ports/SweepLaws.antt =====
-- What `SweepClosedPorts` (internal/store/ports.go) does to the table of ports.
use network_enumerator.Common.{
  ℕ, and_true, ◌≡◌, refl, List, [], ◌∷◌, true, ◌↔◌, ◌⊎◌, inl, inr, Bool-cases, ◌==◌, ==_iff, arith,
}
use network_enumerator.Store.Table.Batch.{ticks, update_each}
use network_enumerator.Store.Schema.{Tables, PortRow, PortState, is_open, is_closed, port_row}
use network_enumerator.Store.Sql.{Db}
use network_enumerator.Store.Ports.{opened, has_port, to_close}

abbrev pub with_ports : Tables → List PortRow → Tables
with_ports t rows = record t { ports = record (t.ports) { rows = rows } }

abbrev pub closed : PortRow → PortRow
closed r = record r { state = is_closed }

abbrev closed_db : List PortRow → Db → Db
closed_db old d = record d {
  tables = with_ports d.tables (update_each (λ r s. closed s) old d.tables.ports.rows);
  clock = ticks d.clock old;
}

abbrev pub Among : ℕ → List ℕ → Type 0
Among p [] = ⊥
Among p (q ∷ ports) = (p ≡ q) ⊎ Among p ports

-- A port of the host that was probed and is stored as open, although it was not found open.
pub record IsGone (host_id : ℕ) (probed open_ports : List ℕ) (r : PortRow) : Type 0 where
  pub on_host : r.host_id ≡ host_id
  pub was_probed : Among r.port probed
  pub not_found : Among r.port open_ports → ⊥
  pub was_open : r.state ≡ is_open

has_port-Among : (ports : List ℕ) (p : ℕ) → has_port ports p ≡ true → Among p ports
has_port-Among [] p h = cc
has_port-Among (q ∷ ports) p h = elim (Bool-cases (p == q)) [
  | inl e ↦ inl ((==_iff p q).0 e)
  | inr e ↦ inr (has_port-Among ports p (rw e at h))
]

Among-has_port : (ports : List ℕ) (p : ℕ) → Among p ports → has_port ports p ≡ true
Among-has_port [] p a = elim a [ ]
Among-has_port (q ∷ ports) p (inl e) = let same : (p == q) ≡ true = (==_iff p q).1 e in rw same refl
Among-has_port (q ∷ ports) p (inr a) = let rest = Among-has_port ports p a in ground arith

opened_iff : (s : PortState) → (opened s ≡ true) ↔ (s ≡ is_open)
opened_iff is_open = (λ h. refl, λ h. refl)
opened_iff is_closed = (λ h. cc, λ h. cc)

pub to_close_iff :
    (host_id : ℕ) (probed open_ports : List ℕ) (r : PortRow)
    → (to_close host_id probed open_ports r ≡ true) ↔ IsGone host_id probed open_ports r
to_close_iff host_id probed open_ports r = (
  λ h.
      let (on, rest) = and_true _ _ h in
      let (was, rest') = and_true _ _ rest in
      let (missing, was_open) = and_true _ _ rest' in
      record {
        on_host = (==_iff _ _).0 on;
        was_probed = has_port-Among probed r.port was;
        not_found = λ a. let found = Among-has_port open_ports r.port a in cc;
        was_open = (opened_iff r.state).0 was_open;
      },
  λ g.
      let on : (r.host_id == host_id) ≡ true = (==_iff _ _).1 g.on_host in
      let was = Among-has_port probed r.port g.was_probed in
      let was_open = (opened_iff r.state).1 g.was_open in
      elim (Bool-cases (has_port open_ports r.port)) [
        | inl found ↦
            let no : ⊥ = g.not_found (has_port-Among open_ports r.port found) in elim no [ ]
        | inr missing ↦ rw (on, was, missing, was_open) refl
      ],
)
