-- ===== src/Discovery/Run/Passive.antt =====
-- A reverse-DNS cycle (internal/discovery/scanner.go, `scanSubnetReverseDNS`) only adds information.
use network_enumerator.Common.{ℕ, ◌≡◌, refl, Bool, true, ◌&&◌, any, arith}
use network_enumerator.Store.Table.{is_id}
use network_enumerator.Store.Schema.{HostRow, host_row}
use network_enumerator.Store.Sql.{Db, after}
use network_enumerator.Store.Sql.Keeps.{Keeps}
use network_enumerator.Store.Hosts.Sweep.{is_up}
use network_enumerator.Discovery.Network.{Network}
use network_enumerator.Discovery.Method.{reverse_dns}
use network_enumerator.Discovery.Cycle.Staying.{
  user_data, IsGentle, Holds, Holds-RecordKeeps, upsert_auto_subnet-Holds,
}
use network_enumerator.Discovery.Run.{Config, scan_subnet, run_once}
use network_enumerator.Discovery.Run.Safety.{scan_subnet_reverse_dns-Keeps, run_once-Keeps}

-- The host `i` is up.
abbrev pub up_host : ℕ → HostRow → Bool
up_host i h = is_id i h && is_up h.status

kept_up :
    (i : ℕ) (f : HostRow → HostRow)
    → IsGentle f
    → (h : HostRow) → up_host i h ≡ true
    → up_host i (f h) ≡ true
kept_up i f gentle h found = ground (arith, (gentle h).0, (gentle h).1)

-- A host that is up before a reverse-DNS cycle is up after it, and the cycle does not touch tags,
-- credentials, settings and risk rules, whatever the network and the tools answer, whichever
-- statements fail, and wherever it is cancelled.
pub run_once-reverse_dns-Holds :
    (cfg : Config) (net : Network) (now : ℕ) (done : ℕ → Bool) (d : Db) (i : ℕ)
    → any (up_host i) d.tables.hosts.rows ≡ true
    → (user_data (after (run_once cfg net now reverse_dns done d)).tables ≡ user_data d.tables)
      × (any (up_host i) (after (run_once cfg net now reverse_dns done d)).tables.hosts.rows ≡ true)
unfolding Keeps scan_subnet
run_once-reverse_dns-Holds cfg net now done d i is_up =
    let u = user_data d.tables in
    let P = Holds u (up_host i) in
    let records = Holds-RecordKeeps u (up_host i) (kept_up i) in
    run_once-Keeps P records (upsert_auto_subnet-Holds u (up_host i) (kept_up i)) cfg net now
      reverse_dns (scan_subnet_reverse_dns-Keeps P records cfg net now) done d (refl, is_up)
