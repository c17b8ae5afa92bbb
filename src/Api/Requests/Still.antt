-- ===== src/Api/Requests/Still.antt =====
-- Which requests to internal/api leave a host as it is, and what that means.
use network_enumerator.Common.{
  ◌≡◌, ◌≢◌, Bool, true, false, ◌&&◌, none, some, List, [], ◌∷◌, text, text_eq, ◌==◌,
}
use network_enumerator.Store.Schema.{HostRow, Status, up, down, unknown, host_row, subnet_row}
use network_enumerator.Api.Hosts.{HostPatch}
use network_enumerator.Api.Requests.{
  Request, updates_host, deletes_host, deletes_subnet, clears_all_hosts,
}

abbrev pub same_status : Status → Status → Bool
same_status up up = true
same_status down down = true
same_status unknown unknown = true
same_status _ _ = false

-- The host `old`, with its place, its notes and what the scans know of it.
abbrev pub is_still : HostRow → HostRow → Bool
is_still old h =
    (h.id == old.id)
    && ((h.subnet_id == old.subnet_id)
        && (text_eq h.notes old.notes
            && (text_eq h.ip old.ip
                && (same_status h.status old.status
                    && ((h.miss_count == old.miss_count)
                        && ((h.first_seen == old.first_seen) && (h.last_seen == old.last_seen)))))))

-- The request is none of the four that are meant to take the host, or its notes, away: a deletion of
-- the host or of its subnet, a clearance of all hosts with the passcode, and an edit of its notes.
abbrev pub Spares : HostRow → Request → Type 0
Spares old (deletes_host path) = path ≢ some old.id
Spares old (deletes_subnet path) = path ≢ some old.subnet_id
Spares old (clears_all_hosts confirm) = confirm ≢ text "1001"
Spares old (updates_host path body) =
    (q : HostPatch) → path ≡ some old.id → body ≡ some q → q.notes ≡ none
Spares old _ = Unit {0}

abbrev pub AllSpare : HostRow → List Request → Type 0
AllSpare old [] = Unit {0}
AllSpare old (r ∷ requests) = Spares old r × AllSpare old requests
