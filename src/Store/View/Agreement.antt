-- ===== src/Store/View/Agreement.antt =====
-- `ListHosts` and `GetHost` (internal/store/hosts.go) show the same hosts.
use network_enumerator.Common.{
  ℕ, ◌≡◌, refl, ap, ap₂, sym, ◌∙◌, true, ◌||◌, some, List, [], ◌∷◌, map, ltb, is_empty, find_if,
  All, Bool-cases, inl, inr,
}
use network_enumerator.Store.Table.{order_by, is_id}
use network_enumerator.Store.Table.Laws.{Below, All-imp}
use network_enumerator.Store.Table.Find.{All-found}
use network_enumerator.Store.Table.Order.{All-order_by}
use network_enumerator.Store.Schema.{Tables, HostRow, TagRow, RiskRule, host_row, tag_row}
use network_enumerator.Store.Sql.{ok, Db, query, value, tick, IsHealthy}
use network_enumerator.Store.Sql.Runs.{run->>=, run-query}
use network_enumerator.Store.Sql.Reads.{Reads, value-Reads}
use network_enumerator.Store.Ports.{Port}
use network_enumerator.Store.View.{
  Host, bare, with_risk, apply_suspect_flag, suspect_mac_threshold, host_before, list_hosts,
  get_host, get_host_from, mac_counts,
}
use network_enumerator.Store.View.MacKey.{mac_counts-order_by}
use network_enumerator.Store.View.Queries.{
  tags_in, ports_in, rules_in, shown, count_of, listed, list_hosts-Reads, count_in, read_back,
  get_host_from-Reads,
}

flag_first :
    (c : ℕ) (h : HostRow) (tags : List TagRow) (ports : List Port)
    → apply_suspect_flag c (record (bare h) { tags = tags; ports = ports })
      ≡ record (apply_suspect_flag c (bare h)) { tags = tags; ports = ports }
unfolding apply_suspect_flag
flag_first c h tags ports = elim (Bool-cases (is_empty h.mac || ltb c suspect_mac_threshold)) [
  | inl k ↦ rw k refl
  | inr k ↦ rw k refl
]

no_mac :
    (c c' : ℕ) (h : HostRow)
    → is_empty h.mac ≡ true
    → apply_suspect_flag c (bare h) ≡ apply_suspect_flag c' (bare h)
unfolding apply_suspect_flag
no_mac c c' h k = rw k refl

same_flag :
    (h : HostRow) (t : Tables)
    → apply_suspect_flag (count_of (mac_counts (order_by host_before t.hosts.rows)) h) (bare h)
      ≡ apply_suspect_flag (count_in h t) (bare h)
same_flag h t = elim (Bool-cases (is_empty h.mac)) [
  | inl k ↦ no_mac _ _ h k
  | inr k ↦
      ap (λ c. apply_suspect_flag c (bare h))
        (mac_counts-order_by host_before t.hosts.rows h.subnet_id h.mac k ∙ rw k refl)
]

shown-read_back :
    (now : ℕ) (h : HostRow) (t : Tables)
    → shown now (rules_in t) (count_of (mac_counts (order_by host_before t.hosts.rows)) h) h t
      ≡ read_back now h t
shown-read_back now h t =
    let c = count_of (mac_counts (order_by host_before t.hosts.rows)) h in
    ap (with_risk (ports_in h.id now t) (rules_in t)) (
      flag_first c h (tags_in h.id t) (ports_in h.id now t)
      ∙ ap (λ (x : Host). record x { tags = tags_in h.id t; ports = ports_in h.id now t })
          (same_flag h t))

pub shown-row :
    (now : ℕ) (rules : List RiskRule) (c : ℕ) (h : HostRow) (t : Tables)
    → (shown now rules c h t).row ≡ h
unfolding apply_suspect_flag
shown-row now rules c h t = elim (Bool-cases (is_empty h.mac || ltb c suspect_mac_threshold)) [
  | inl k ↦ rw k refl
  | inr k ↦ rw k refl
]

-- `GetHost` of a row that is found returns that row, and writes nothing.
pub get_host-run :
    (now : ℕ) (h : HostRow) (d : Db)
    → IsHealthy d
    → find_if (is_id h.id) d.tables.hosts.rows ≡ some h
    → (k : ℕ) × (x : Host) × (x.row ≡ h) × (get_host h.id now d ≡ ok x (record d { clock = k }))
unfolding get_host apply_suspect_flag Reads
get_host-run now h d healthy found =
    let read = λ (t : Tables). find_if (is_id h.id) t.hosts.rows in
    let (k, e) = get_host_from-Reads now h (tick d) healthy in
    (
      k,
      read_back now h d.tables,
      (elim (Bool-cases (is_empty h.mac || ltb (count_in h d.tables) suspect_mac_threshold)) [
        | inl c ↦ rw c refl
        | inr c ↦ rw c refl
      ]),
      run->>= (query read) (get_host_from now) d (run-query read d (healthy d.clock))
          ∙ ap (λ o. get_host_from now o (tick d)) found
          ∙ e,
    )

get_host-read_back :
    (now : ℕ) (h : HostRow) (d : Db)
    → IsHealthy d
    → find_if (is_id h.id) d.tables.hosts.rows ≡ some h
    → value (get_host h.id now d) ≡ some (read_back now h d.tables)
unfolding get_host
get_host-read_back now h d healthy found =
    let read = λ (t : Tables). find_if (is_id h.id) t.hosts.rows in
    ap value (
      run->>= (query read) (get_host_from now) d (run-query read d (healthy d.clock))
      ∙ ap (λ o. get_host_from now o (tick d)) found)
    ∙ value-Reads (get_host_from now (some h)) (read_back now h) (tick d)
        (get_host_from-Reads now h) healthy

rows_of_map :
    (f : HostRow → Host) (rows : List HostRow)
    → ((h : HostRow) → (f h).row ≡ h)
    → map (λ (h : Host). h.row) (map f rows) ≡ rows
rows_of_map f [] e = refl
rows_of_map f (h ∷ rows) e = ap₂ (λ x xs. x ∷ xs) (e h) (rows_of_map f rows e)

All-shown :
    (P : Host → Type 0) (f : HostRow → Host) (rows : List HostRow)
    → All (λ h. P (f h)) rows
    → All P (map f rows)
All-shown P f [] a = tt
All-shown P f (h ∷ rows) (p, a) = (p, All-shown P f rows a)

-- On a healthy database whose host ids are distinct, `ListHosts` returns every host, in the order of
-- subnets and addresses, and `GetHost` of the id of a listed host returns that host as it is listed:
-- with the same tags, ports, risk and suspicion of proxy ARP.
pub list_hosts-get_host :
    (now : ℕ) (d : Db)
    → IsHealthy d
    → Below d.tables.hosts.next d.tables.hosts.rows
    → (hs : List Host) × (value (list_hosts now d) ≡ some hs)
      × (map (λ (h : Host). h.row) hs ≡ order_by host_before d.tables.hosts.rows)
      × All (λ (h : Host). value (get_host h.row.id now d) ≡ some h) hs
list_hosts-get_host now d healthy below =
    let t = d.tables in
    let sorted = order_by host_before t.hosts.rows in
    let rules = rules_in t in
    let c = count_of (mac_counts sorted) in
    let view = λ (h : HostRow). shown now rules (c h) h t in
    let same_row = λ (h : HostRow). shown-row now rules (c h) h t in
    (
      listed now t,
      value-Reads (list_hosts now) (listed now) d (list_hosts-Reads now) healthy,
      rows_of_map view sorted same_row,
      All-shown (λ h. value (get_host h.row.id now d) ≡ some h) view sorted
          (All-order_by (λ h. value (get_host (view h).row.id now d) ≡ some (view h)) host_before
            t.hosts.rows
            (All-imp _ _ t.hosts.rows
              (λ h found.
                ap (λ (x : HostRow). value (get_host x.id now d)) (same_row h)
                ∙ get_host-read_back now h d healthy found
                ∙ ap some (sym (shown-read_back now h t)))
              (All-found t.hosts.next t.hosts.rows below))),
    )
