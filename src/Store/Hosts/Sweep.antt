-- ===== src/Store/Hosts/Sweep.antt =====
-- internal/store/hosts.go, `SweepMissingHosts`: the rows are read first, and then updated one by one.
use network_enumerator.Common.{
  ℕ, ◌+◌, Bool, true, false, ◌&&◌, not, List, [], ◌∷◌, leb, ◌==◌, Text, text_eq, if◌then◌else◌,
  keep, any,
}
use network_enumerator.Store.Schema.{HostRow, Status, up, down}
use network_enumerator.Store.Constraints.{update_host}
use network_enumerator.Store.Sql.{M, ◌>>=◌, ◌>>◌, pure, query, exec}

abbrev pub is_up : Status → Bool
is_up up = true
is_up _ = false

-- `seenIPs[ip]`: the set is given by its members.
abbrev pub is_seen : List Text → Text → Bool
is_seen seen ip = any (text_eq ip) seen

-- A host that is missed once more goes down.
abbrev pub goes_down : ℕ → HostRow → Bool
goes_down threshold r = leb threshold (r.miss_count + 1) && is_up r.status

abbrev pub missed : ℕ → HostRow → HostRow → HostRow
missed threshold r h = record h {
  miss_count = r.miss_count + 1;
  status = if goes_down threshold r then down else r.status;
}

unfoldable pub sweep_rows : ℕ → List HostRow → M (List ℕ)
sweep_rows threshold [] = pure []
sweep_rows threshold (r ∷ rows) = do
  exec (update_host r.id (missed threshold r))
  rest ← sweep_rows threshold rows
  pure (if goes_down threshold r then r.id ∷ rest else rest)

abbrev pub is_candidate : ℕ → List Text → HostRow → Bool
is_candidate subnet_id seen h = (h.subnet_id == subnet_id) && not (is_seen seen h.ip)

unfoldable pub sweep_missing_hosts : ℕ → List Text → ℕ → M (List ℕ)
unfolding sweep_rows
sweep_missing_hosts subnet_id seen threshold = do
  candidates ← query (λ t. keep (is_candidate subnet_id seen) t.hosts.rows)
  sweep_rows threshold candidates
