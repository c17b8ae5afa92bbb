-- ===== src/Store/Hosts/SweepLaws.antt =====
-- What `SweepMissingHosts` (internal/store/hosts.go) does to the table of hosts.
use network_enumerator.Common.{
  ℕ, zero, suc, ◌+◌, ◌≡◌, refl, ap, ap₂, sym, ◌∙◌, Bool, true, false, ◌&&◌, not, ◌==◌, text_eq,
  List, [], ◌∷◌, map, leb, ltb, Text, if◌then◌else◌, keep, arith, Bool-cases, inl, inr,
}
use network_enumerator.Store.Table.{where_do}
use network_enumerator.Store.Table.Laws.{Below, Below-map, where_do-id}
use network_enumerator.Store.Table.Batch.{ticks, update_each, update_each-keep}
use network_enumerator.Store.Schema.{Tables, HostRow, Status, up, down, unknown, host_row}
use network_enumerator.Store.Sql.{Db, Outcome, ok, tick, IsHealthy, exec, query, after}
use network_enumerator.Store.Sql.Runs.{run->>=, run->>, run-query, run-exec}
use network_enumerator.Store.Constraints.{update_host}
use network_enumerator.Store.Hosts.Sweep.{
  is_up, is_seen, goes_down, missed, is_candidate, sweep_rows, sweep_missing_hosts,
}

abbrev pub with_hosts : Tables → List HostRow → Tables
with_hosts t rows = record t { hosts = record (t.hosts) { rows = rows } }

abbrev swept_db : ℕ → List HostRow → Db → Db
swept_db threshold old d = record d {
  tables = with_hosts d.tables (update_each (missed threshold) old d.tables.hosts.rows);
  clock = ticks d.clock old;
}

map_if :
    (b : Bool) (r : HostRow) (rows : List HostRow)
    → map (λ h. h.id) (if b then r ∷ rows else rows)
      ≡ (if b then r.id ∷ map (λ h. h.id) rows else map (λ h. h.id) rows)
map_if true r rows = refl
map_if false r rows = refl

sweep_rows_lem :
    (threshold : ℕ) (old : List HostRow) (d : Db)
    → IsHealthy d
    → sweep_rows threshold old d
      ≡ ok (map (λ h. h.id) (keep (goes_down threshold) old)) (swept_db threshold old d)
unfolding sweep_rows
sweep_rows_lem threshold [] d h = refl
sweep_rows_lem threshold (r ∷ old) d h =
    run->> (exec (update_host r.id (missed threshold r))) _ d
      (run-exec (update_host r.id (missed threshold r)) d (h d.clock))
    ∙ run->>= (sweep_rows threshold old) _ _ (sweep_rows_lem threshold old _ h)
    ∙ ap (λ (ids : List ℕ). ok ids (swept_db threshold (r ∷ old) d))
        (sym (map_if (goes_down threshold r) r (keep (goes_down threshold) old)))

-- A host after a sweep: missed once more if it is in the subnet and was not seen.
abbrev pub swept : ℕ → List Text → ℕ → HostRow → HostRow
swept subnet_id seen threshold = where_do (is_candidate subnet_id seen) (λ h. missed threshold h h)

-- The hosts that the sweep reports.
abbrev pub newly_down : ℕ → List Text → ℕ → List HostRow → List ℕ
newly_down subnet_id seen threshold rows =
    map (λ h. h.id) (keep (goes_down threshold) (keep (is_candidate subnet_id seen) rows))

-- On a healthy database whose host ids are distinct, the loop of `SweepMissingHosts`, which updates
-- one row at a time from the rows it read first, is one change of the table: each host of the subnet
-- that was not seen is missed once more, all other rows stay as they are, and the result lists the
-- hosts that this brings down.
pub sweep_missing_hosts_lem :
    (subnet_id : ℕ) (seen : List Text) (threshold : ℕ) (d : Db)
    → IsHealthy d
    → Below d.tables.hosts.next d.tables.hosts.rows
    → sweep_missing_hosts subnet_id seen threshold d
      ≡ ok (newly_down subnet_id seen threshold d.tables.hosts.rows) (record d {
        tables = with_hosts d.tables (map (swept subnet_id seen threshold) d.tables.hosts.rows);
        clock = ticks (suc d.clock) (keep (is_candidate subnet_id seen) d.tables.hosts.rows);
      })
unfolding sweep_missing_hosts
sweep_missing_hosts_lem subnet_id seen threshold d h b =
    let read = λ (t : Tables). keep (is_candidate subnet_id seen) t.hosts.rows in
    run->>= (query read) (sweep_rows threshold) d (run-query read d (h d.clock))
    ∙ sweep_rows_lem threshold (read d.tables) (tick d) h
    ∙ ap
        (λ (rows : List HostRow).
          ok (newly_down subnet_id seen threshold d.tables.hosts.rows) (record d {
            tables = with_hosts d.tables rows;
            clock = ticks (suc d.clock) (read d.tables);
          }))
        (update_each-keep (missed threshold) (is_candidate subnet_id seen) d.tables.hosts.next
          d.tables.hosts.rows (λ r s. refl) b)

-- `n` sweeps in a row that see the same addresses.
unfoldable pub sweeps : ℕ → ℕ → List Text → ℕ → Db → Db
sweeps zero subnet_id seen threshold d = d
sweeps (suc n) subnet_id seen threshold d =
    sweeps n subnet_id seen threshold (after (sweep_missing_hosts subnet_id seen threshold d))

-- None of the addresses is the one.
abbrev pub unseen : Text → List Text → Bool
unseen ip [] = true
unseen ip (other ∷ seen) = not (text_eq ip other) && unseen ip seen

abbrev pub is_missing : ℕ → List Text → HostRow → Bool
is_missing subnet_id seen h = (h.subnet_id == subnet_id) && unseen h.ip seen

-- A host that was up falls.
abbrev pub fallen : Bool → Status → Status
fallen true up = down
fallen true down = down
fallen true unknown = unknown
fallen false s = s

-- A host after `n` sweeps: a host that was missed has `n` more misses, and is down if it was up and
-- the misses have reached the threshold.
abbrev pub swept_times : ℕ → ℕ → List Text → ℕ → HostRow → HostRow
swept_times n subnet_id seen threshold h =
    if is_missing subnet_id seen h
    then record h {
      miss_count = h.miss_count + n;
      status = fallen (ltb 0 n && leb threshold (h.miss_count + n)) h.status;
    }
    else h

unseen_lem : (ip : Text) (seen : List Text) → not (is_seen seen ip) ≡ unseen ip seen
unseen_lem ip [] = refl
unseen_lem ip (other ∷ seen) = ground (arith, unseen_lem ip seen)

pub is_missing_lem :
    (subnet_id : ℕ) (seen : List Text) (h : HostRow)
    → is_candidate subnet_id seen h ≡ is_missing subnet_id seen h
is_missing_lem subnet_id seen h = ap (λ b. (h.subnet_id == subnet_id) && b) (unseen_lem h.ip seen)

swept_times-zero :
    (subnet_id : ℕ) (seen : List Text) (threshold : ℕ) (rows : List HostRow)
    → map (swept_times 0 subnet_id seen threshold) rows ≡ rows
swept_times-zero subnet_id seen threshold [] = refl
swept_times-zero subnet_id seen threshold (h ∷ rows) =
    ground (arith, swept_times-zero subnet_id seen threshold rows)

fallen-suc :
    (n misses threshold : ℕ) (s : Status)
    → fallen
        (ltb 0 n && leb threshold (misses + 1 + n))
        (if leb threshold (misses + 1) && is_up s then down else s)
      ≡ fallen (ltb 0 (suc n) && leb threshold (misses + suc n)) s
fallen-suc n misses threshold up = ground arith
fallen-suc n misses threshold down = ground arith
fallen-suc n misses threshold unknown = ground arith

swept_times-suc :
    (n subnet_id : ℕ) (seen : List Text) (threshold : ℕ) (h : HostRow)
    → swept_times n subnet_id seen threshold (swept subnet_id seen threshold h)
      ≡ swept_times (suc n) subnet_id seen threshold h
swept_times-suc n subnet_id seen threshold h =
    let same = is_missing_lem subnet_id seen h in
    elim (Bool-cases (is_candidate subnet_id seen h)) [
      | inr e ↦ let m : is_missing subnet_id seen h ≡ false = sym same ∙ e in rw (e, m) refl
      | inl e ↦
          let m : is_missing subnet_id seen h ≡ true = sym same ∙ e in
          let misses : h.miss_count + 1 + n ≡ h.miss_count + suc n = omega arith in
          rw (e, m)
            (ap₂ (λ k s. record h { miss_count = k; status = s }) misses
              (fallen-suc n h.miss_count threshold h.status))
    ]

map-swept_times :
    (n subnet_id : ℕ) (seen : List Text) (threshold : ℕ) (rows : List HostRow)
    → map (swept_times n subnet_id seen threshold) (map (swept subnet_id seen threshold) rows)
      ≡ map (swept_times (suc n) subnet_id seen threshold) rows
map-swept_times n subnet_id seen threshold [] = refl
map-swept_times n subnet_id seen threshold (h ∷ rows) =
    ap₂ ◌∷◌ (swept_times-suc n subnet_id seen threshold h)
      (map-swept_times n subnet_id seen threshold rows)

-- One sweep.
pub map-swept :
    (subnet_id : ℕ) (seen : List Text) (threshold : ℕ) (rows : List HostRow)
    → map (swept subnet_id seen threshold) rows ≡ map (swept_times 1 subnet_id seen threshold) rows
map-swept subnet_id seen threshold rows =
    sym (swept_times-zero subnet_id seen threshold (map (swept subnet_id seen threshold) rows))
    ∙ map-swept_times 0 subnet_id seen threshold rows

-- After `n` sweeps of a healthy database whose host ids are distinct, with the same addresses seen,
-- each host of the subnet that was not seen has `n` more misses, and is down if it was up and its
-- misses reached the threshold in one of the sweeps; a host that is unknown stays so. Nothing else in
-- the tables changes.
pub sweeps_lem :
    (n subnet_id : ℕ) (seen : List Text) (threshold : ℕ) (d : Db)
    → IsHealthy d
    → Below d.tables.hosts.next d.tables.hosts.rows
    → (sweeps n subnet_id seen threshold d).tables
      ≡ with_hosts d.tables (map (swept_times n subnet_id seen threshold) d.tables.hosts.rows)
unfolding sweeps
sweeps_lem zero subnet_id seen threshold d h b =
    ap (with_hosts d.tables) (sym (swept_times-zero subnet_id seen threshold d.tables.hosts.rows))
sweeps_lem (suc n) subnet_id seen threshold d h b =
    let next : Db = record d {
      tables = with_hosts d.tables (map (swept subnet_id seen threshold) d.tables.hosts.rows);
      clock = ticks (suc d.clock) (keep (is_candidate subnet_id seen) d.tables.hosts.rows);
    } in
    ap (λ (o : Outcome (List ℕ)). (sweeps n subnet_id seen threshold (after o)).tables)
      (sweep_missing_hosts_lem subnet_id seen threshold d h b)
    ∙ sweeps_lem n subnet_id seen threshold next h (
        Below-map d.tables.hosts.next (swept subnet_id seen threshold) d.tables.hosts.rows
          (where_do-id (is_candidate subnet_id seen) (λ r. missed threshold r r) (λ r. refl)) b)
    ∙ ap (with_hosts d.tables) (map-swept_times n subnet_id seen threshold d.tables.hosts.rows)
