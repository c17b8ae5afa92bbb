-- ===== src/Discovery/Recording/Down.antt =====
-- `emitHostDownEvents` (internal/discovery/scanner.go): one event for each host that goes down.
use network_enumerator.Common.{
  ℕ, suc, ◌+◌, leb, ◌&&◌, Bool, true, false, ◌≡◌, refl, ap, ap₂, sym, ◌∙◌, some, List, [], ◌∷◌,
  ◌++◌, map, Text, text, is_empty, if◌then◌else◌, keep, find_if, All, Bool-cases, inl, inr,
}
use network_enumerator.Store.Table.{is_id}
use network_enumerator.Store.Table.Laws.{Below, Below-map, All-keep}
use network_enumerator.Store.Table.Find.{All-found}
use network_enumerator.Store.Table.Batch.{ticks}
use network_enumerator.Store.Schema.{Tables, HostRow, Status, up, down, unknown, host_row}
use network_enumerator.Store.Sql.{Db, Outcome, ok, ◌>>=◌, after, IsHealthy}
use network_enumerator.Store.Sql.Runs.{run->>=, run->>}
use network_enumerator.Store.Hosts.Sweep.{is_up, goes_down, is_candidate, sweep_missing_hosts}
use network_enumerator.Store.Hosts.SweepLaws.{
  with_hosts, swept, swept_times, is_missing, is_missing_lem, map-swept, sweep_missing_hosts_lem,
}
use network_enumerator.Store.View.{get_host}
use network_enumerator.Store.View.Agreement.{get_host-run}
use network_enumerator.Discovery.Attempt.{attempt}
use network_enumerator.Discovery.Recording.{
  emit, host_down_message, host_went_down, emit_down, emit_host_down_events, or_nil,
}
use network_enumerator.Discovery.Recording.Reflag.{with_event, run-attempt, emit_lem}

abbrev pub down_message : HostRow → Text
down_message h =
    if is_empty h.hostname
    then text "Host " ++ h.ip ++ text " stopped responding"
    else text "Host " ++ h.ip ++ text " (" ++ h.hostname ++ text ") stopped responding"

-- The tables with an event for each of the hosts.
abbrev pub with_down_events : ℕ → List HostRow → Tables → Tables
with_down_events now [] t = t
with_down_events now (h ∷ hosts) t =
    with_down_events now hosts (with_event (text "host_down") (down_message h) h.id now t)

module _ (f : HostRow → HostRow) where
  -- A host is found by its id, as `f` left it.
  abbrev IsFound : List HostRow → HostRow → Type 0
  IsFound rows h = find_if (is_id (f h).id) rows ≡ some (f h)

  All-unmap :
      (P : HostRow → Type 0) (rows : List HostRow) → All P (map f rows) → All (λ h. P (f h)) rows
  All-unmap P [] a = tt
  All-unmap P (h ∷ rows) (p, a) = (p, All-unmap P rows a)

  module _ (same : (h : HostRow) → ((f h).id ≡ h.id) × (down_message (f h) ≡ down_message h)) where
    emit_down_lem :
        (now : ℕ) (hosts : List HostRow) (d : Db)
        → IsHealthy d
        → All (IsFound d.tables.hosts.rows) hosts
        → (k : ℕ) × (emit_down now (map (λ h. h.id) hosts) d
            ≡ ok tt (record d { tables = with_down_events now hosts d.tables; clock = k }))
    unfolding emit_down host_went_down
    emit_down_lem now [] d healthy a = (d.clock, refl)
    emit_down_lem now (h ∷ hosts) d healthy (here, later) =
        let (e_id, e_message) = same h in
        let (k, x, e_row, run) = get_host-run now (f h) d healthy here in
        let d2 : Db = record d { clock = k } in
        let d3 : Db = record d2 {
          tables = with_event (text "host_down") (down_message h) h.id now d.tables;
          clock = suc k;
        } in
        let got : get_host h.id now d ≡ ok x d2 = ap (λ i. get_host i now d) (sym e_id) ∙ run in
        let message : host_down_message x ≡ down_message h = ap down_message e_row ∙ e_message in
        let step = attempt (get_host h.id now) >>= host_went_down h.id now in
        let stepped : step d ≡ ok tt d3 =
          run->>= (attempt (get_host h.id now)) (host_went_down h.id now) d
            (run-attempt (get_host h.id now) d got)
          ∙ ap (λ m. emit (text "host_down") m h.id now d2) message
          ∙ emit_lem (text "host_down") (down_message h) h.id now d2 healthy in
        let (k', rest) = emit_down_lem now hosts d3 healthy later in
        (k', run->> step (emit_down now (map (λ h. h.id) hosts)) d stepped ∙ rest)

swept-same :
    (subnet_id : ℕ) (seen : List Text) (threshold : ℕ) (h : HostRow)
    → ((swept subnet_id seen threshold h).id ≡ h.id)
      × (down_message (swept subnet_id seen threshold h) ≡ down_message h)
swept-same subnet_id seen threshold h = elim (Bool-cases (is_candidate subnet_id seen h)) [
  | inl c ↦ rw c (refl, refl)
  | inr c ↦ rw c (refl, refl)
]

emit_host_down_events-goes_down :
    (subnet_id : ℕ) (seen : List Text) (threshold now : ℕ) (d : Db)
    → IsHealthy d
    → Below d.tables.hosts.next d.tables.hosts.rows
    → (after (emit_host_down_events subnet_id seen threshold now d)).tables
      ≡ with_down_events now
          (keep (goes_down threshold) (keep (is_candidate subnet_id seen) d.tables.hosts.rows))
          (with_hosts d.tables (map (swept subnet_id seen threshold) d.tables.hosts.rows))
unfolding emit_host_down_events
emit_host_down_events-goes_down subnet_id seen threshold now d healthy below =
    let f = swept subnet_id seen threshold in
    let rows = d.tables.hosts.rows in
    let sweep = sweep_missing_hosts subnet_id seen threshold in
    let same = swept-same subnet_id seen threshold in
    let d2 : Db = record d {
      tables = with_hosts d.tables (map f rows);
      clock = ticks (suc d.clock) (keep (is_candidate subnet_id seen) rows);
    } in
    let found : All (IsFound f (map f rows)) rows =
      All-unmap f (λ r. find_if (is_id r.id) (map f rows) ≡ some r) rows
        (All-found d.tables.hosts.next (map f rows)
          (Below-map d.tables.hosts.next f rows (λ r. (same r).0) below)) in
    let down_found : All (IsFound f (map f rows))
        (keep (goes_down threshold) (keep (is_candidate subnet_id seen) rows)) =
      All-keep _ _ (goes_down threshold) (keep (is_candidate subnet_id seen) rows) (λ r _ p. p)
        (All-keep _ _ (is_candidate subnet_id seen) rows (λ r _ p. p) found) in
    let (k, run) =
      emit_down_lem f same now
        (keep (goes_down threshold) (keep (is_candidate subnet_id seen) rows)) d2 healthy
        down_found in
    ap (λ (o : Outcome (Unit {0})). (after o).tables)
      (run->>= (attempt sweep) (λ went_down. emit_down now (or_nil went_down)) d
          (run-attempt sweep d (sweep_missing_hosts_lem subnet_id seen threshold d healthy below))
        ∙ run)

abbrev pub was_up : Status → Bool
was_up up = true
was_up down = false
was_up unknown = false

was_up_lem : (s : Status) → is_up s ≡ was_up s
was_up_lem up = refl
was_up_lem down = refl
was_up_lem unknown = refl

-- A host that one more miss takes down.
abbrev pub falls : ℕ → List Text → ℕ → HostRow → Bool
falls subnet_id seen threshold h =
    is_missing subnet_id seen h && (leb threshold (h.miss_count + 1) && was_up h.status)

falls_lem :
    (subnet_id : ℕ) (seen : List Text) (threshold : ℕ) (h : HostRow)
    → (is_candidate subnet_id seen h && goes_down threshold h) ≡ falls subnet_id seen threshold h
falls_lem subnet_id seen threshold h =
    ap₂ (λ a b. a && (leb threshold (h.miss_count + 1) && b)) (is_missing_lem subnet_id seen h)
      (was_up_lem h.status)

keep-keep :
    (p q r : HostRow → Bool) (rows : List HostRow)
    → ((h : HostRow) → (q h && p h) ≡ r h)
    → keep p (keep q rows) ≡ keep r rows
keep-keep p q r [] same = refl
keep-keep p q r (h ∷ rows) same =
    let rest = keep-keep p q r rows same in
    elim (Bool-cases (q h)) [
      | inl e ↦
          let both : p h ≡ r h = sym (ap (λ b. b && p h) e) ∙ same h in
          rw (e, both) (ap (λ xs. if r h then h ∷ xs else xs) rest)
      | inr e ↦
          let neither : false ≡ r h = sym (ap (λ b. b && p h) e) ∙ same h in
          rw (e, sym neither) rest
    ]

-- On a healthy database whose host ids are distinct, `emitHostDownEvents` marks the hosts as
-- `SweepMissingHosts` does and adds one host_down event, with its id and a message of its address and
-- name, for each host of the subnet that was up, was not seen, and now reaches the threshold of
-- misses. Nothing else in the tables changes.
pub emit_host_down_events_lem :
    (subnet_id : ℕ) (seen : List Text) (threshold now : ℕ) (d : Db)
    → IsHealthy d
    → Below d.tables.hosts.next d.tables.hosts.rows
    → (after (emit_host_down_events subnet_id seen threshold now d)).tables
      ≡ with_down_events now
          (keep (falls subnet_id seen threshold) d.tables.hosts.rows)
          (with_hosts d.tables (map (swept_times 1 subnet_id seen threshold) d.tables.hosts.rows))
emit_host_down_events_lem subnet_id seen threshold now d healthy below =
    let rows = d.tables.hosts.rows in
    emit_host_down_events-goes_down subnet_id seen threshold now d healthy below
    ∙ ap₂ (λ hosts rows'. with_down_events now hosts (with_hosts d.tables rows'))
        (keep-keep (goes_down threshold) (is_candidate subnet_id seen)
          (falls subnet_id seen threshold) rows (falls_lem subnet_id seen threshold))
        (map-swept subnet_id seen threshold rows)
