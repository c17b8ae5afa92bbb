-- ===== src/Store/Ports.antt =====
-- internal/store/ports.go. `now` is the reading of `time.Now()`.
pub mod SweepLaws
use network_enumerator.Common.{
  ℕ, suc, ◌+◌, ◌-◌, Bool, true, false, ◌&&◌, ◌||◌, not, Option, none, some, List, [], ◌∷◌, ltb,
  ◌==◌, Text, text, text_eq, is_empty, if◌then◌else◌, keep, any, map,
}
use network_enumerator.Store.Table.{Table, select_row, is_id, order_by}
use network_enumerator.Store.Schema.{Tables, PortRow, PortState, is_open, is_closed, port_row}
use network_enumerator.Store.Constraints.{insert_port, update_port}
use network_enumerator.Store.Sql.{M, ◌>>=◌, ◌>>◌, pure, query, exec, statement}
use network_enumerator.Store.Hosts.{or_keep}

-- `state == "open"`.
abbrev pub opened : PortState → Bool
opened is_open = true
opened is_closed = false

-- `WHERE host_id = ? AND port = ? AND protocol = ?`.
abbrev pub is_on : ℕ → ℕ → Text → PortRow → Bool
is_on host_id port protocol r =
    (r.host_id == host_id) && ((r.port == port) && text_eq r.protocol protocol)

abbrev pub new_port : ℕ → ℕ → Text → Text → Text → Text → Text → ℕ → ℕ → PortRow
new_port host_id port protocol service banner product version now id = record {
  id = id;
  host_id = host_id;
  port = port;
  protocol = protocol;
  state = is_open;
  service = service;
  banner = banner;
  product = product;
  version = version;
  first_seen = now;
  last_seen = now;
}

abbrev pub seen_open : Text → Text → Text → Text → ℕ → PortRow → PortRow
seen_open service banner product version now r = record r {
  last_seen = now;
  state = is_open;
  service = service;
  banner = or_keep banner r.banner;
  product = or_keep product r.product;
  version = or_keep version r.version;
}

unfoldable pub upsert_port : ℕ → ℕ → Text → Text → Text → Text → Text → ℕ → M Bool
upsert_port host_id port protocol service banner product version now = do
  found ← query (λ t. select_row (is_on host_id port protocol) t.ports)
  elim found [
    | some r ↦ exec (update_port r.id (seen_open service banner product version now)) >> pure false
    | none ↦ do
      id ←
          statement
            (insert_port (new_port host_id port protocol service banner product version now))
      pure true
  ]

abbrev pub has_port : List ℕ → ℕ → Bool
has_port ports p = any (λ q. p == q) ports

unfoldable pub close_rows : List PortRow → M (List ℕ)
close_rows [] = pure []
close_rows (r ∷ rows) = do
  exec (update_port r.id (λ s. record s { state = is_closed }))
  rest ← close_rows rows
  pure (r.port ∷ rest)

-- A port that was probed in this cycle, was not found open, and is stored as open.
abbrev pub to_close : ℕ → List ℕ → List ℕ → PortRow → Bool
to_close host_id probed open_ports r =
    (r.host_id == host_id)
    && (has_port probed r.port && (not (has_port open_ports r.port) && opened r.state))

unfoldable pub sweep_closed_ports : ℕ → List ℕ → List ℕ → M (List ℕ)
unfolding close_rows
sweep_closed_ports host_id probed open_ports = do
  rows ← query (λ t. keep (to_close host_id probed open_ports) t.ports.rows)
  close_rows rows

-- `model.Port`: the row, with `IsNew`.
pub record Port : Type 0 where
  pub row : PortRow
  pub open row use *
  pub is_new : Bool

-- 15 minutes, in the unit of `now`: nanoseconds.
abbrev pub new_highlight_window : ℕ
new_highlight_window = 900_000_000_000

abbrev pub port_before : PortRow → PortRow → Bool
port_before r s =
    (opened r.state && not (opened s.state))
    || (not (opened s.state && not (opened r.state)) && ltb r.port s.port)

unfoldable pub list_ports : ℕ → ℕ → M (List Port)
list_ports host_id now = query λ t.
    map (λ r. record { row = r; is_new = ltb (now - r.first_seen) new_highlight_window })
      (order_by port_before (keep (λ r. r.host_id == host_id) t.ports.rows))
