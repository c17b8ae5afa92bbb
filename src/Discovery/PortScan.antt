-- ===== src/Discovery/PortScan.antt =====
-- internal/discovery/scanner.go, the scan of the ports of a host. The goroutines that probe the ports
-- are taken one after another, in the order of `ports`.
pub mod Keeping
use network_enumerator.Common.{
  ℕ, zero, suc, Bool, Option, none, some, List, [], ◌∷◌, Text, if◌then◌else◌,
}
use network_enumerator.Store.Sql.{M, ◌>>=◌, ◌>>◌, pure}
use network_enumerator.Store.Ports.{sweep_closed_ports}
use network_enumerator.Discovery.Attempt.{attempt}
use network_enumerator.Discovery.Ports.{common_ports, service_guess}
use network_enumerator.Discovery.Recording.{record_open_port, emit_closed, or_nil}

-- `count` numbers from `from` on.
abbrev pub numbers_from : ℕ → ℕ → List ℕ
numbers_from from zero = []
numbers_from from (suc count) = from ∷ numbers_from (suc from) count

unfoldable pub all_tcp_ports : List ℕ
all_tcp_ports = numbers_from 1 65535

-- `probe ip port` is what `ProbeTCP` and `GrabBanner` find: a banner, which may be "", if the port is
-- open.
module _ (probe : Text → ℕ → Option Text) where
  -- What follows the probe.
  unfoldable pub port_probed : ℕ → Text → ℕ → ℕ → Option Text → M Bool
  port_probed host_id ip port now none = pure Bool.false
  port_probed host_id ip port now (some banner) =
      record_open_port host_id ip port (service_guess port) banner [] [] now >> pure Bool.true

  unfoldable pub probe_one_port : ℕ → Text → ℕ → ℕ → M Bool
  unfolding port_probed
  probe_one_port host_id ip port now = port_probed host_id ip port now (probe ip port)

  -- The loop over the ports; the result is the set `open`.
  unfoldable pub probe_ports : ℕ → Text → ℕ → List ℕ → M (List ℕ)
  probe_ports host_id ip now [] = pure []
  probe_ports host_id ip now (port ∷ ports) = do
    is_open ← probe_one_port host_id ip port now
    rest ← probe_ports host_id ip now ports
    pure (if is_open then port ∷ rest else rest)

  unfoldable pub scan_port_range : ℕ → Text → List ℕ → ℕ → M (List ℕ)
  scan_port_range host_id ip ports now = do
    open_ports ← probe_ports host_id ip now ports
    closed ← attempt (sweep_closed_ports host_id ports open_ports)
    emit_closed host_id ip now (or_nil closed)
    pure open_ports

  unfoldable pub scan_ports : ℕ → Text → Bool → ℕ → M (List ℕ)
  scan_ports host_id ip deep now =
      scan_port_range host_id ip (if deep then all_tcp_ports else common_ports) now
