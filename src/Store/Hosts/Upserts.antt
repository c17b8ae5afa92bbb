-- ===== src/Store/Hosts/Upserts.antt =====
-- `UpsertHost`, `UpsertUnconfirmedHost` and `ImportHost` (internal/store/hosts.go) as changes of what
-- is known under each address.
use network_enumerator.Common.{
  ℕ, suc, ◌≡◌, refl, ◌∙◌, Bool, true, false, ◌&&◌, Option, none, some, [], ◌==◌, Text, text_eq,
  if◌then◌else◌, Option-cases, inl, inr, ◌∷◌, ◌≢◌, ap₂, text_eq_refl, ==_refl, Bool-cases,
}
use network_enumerator.Store.Table.{has_id, add}
use network_enumerator.Store.Table.Laws.{Below}
use network_enumerator.Store.Schema.{Tables, HostRow, up, auto, host_row, subnet_row}
use network_enumerator.Store.Constraints.{insert_host, update_host}
use network_enumerator.Store.Sql.{
  Db, ok, tick, IsHealthy, exec, query, statement, pure, after, value,
}
use network_enumerator.Store.Sql.Runs.{run->>=, run->>, run-query, run-exec, run-statement}
use network_enumerator.Store.Hosts.{new_host, seen_up, or_keep, upsert_host}
use network_enumerator.Store.Hosts.UpsertLaws.{
  host_at, upserted, host_at-update, insert_host_lem, address_eq,
}

-- What `UpsertHost` returns.
abbrev pub upsert_result : ℕ → Option HostRow → ℕ × Bool
upsert_result next none = (next, true)
upsert_result next (some h) = (h.id, false)

-- A text that is put in unless it is empty.
pub record IsPut (new old result : Text) : Type 0 where
  pub empty : new ≡ [] → result ≡ old
  pub filled : new ≢ [] → result ≡ new

or_keep-IsPut : (new old : Text) → IsPut new old (or_keep new old)
or_keep-IsPut [] old = record {
  empty = λ e. refl;
  filled = λ n. let no : ⊥ = n refl in elim no [ ];
}
or_keep-IsPut (c ∷ new) old = record { empty = λ e. cc; filled = λ n. refl }

module _ (s : ℕ) (ip mac hostname vendor : Text) (now : ℕ) (d : Db) where
  abbrev pub fresh_host : HostRow
  fresh_host = new_host s ip mac hostname vendor up [] now d.tables.hosts.next

  -- A host that was known, after it is seen up.
  pub record IsSeenUp (old h : HostRow) : Type 0 where
    pub id : h.id ≡ old.id
    pub subnet_id : h.subnet_id ≡ old.subnet_id
    pub same_ip : h.ip ≡ old.ip
    pub source : h.source ≡ old.source
    pub notes : h.notes ≡ old.notes
    pub first_seen : h.first_seen ≡ old.first_seen
    pub acknowledged : h.acknowledged ≡ old.acknowledged
    pub new_ack : h.new_ack ≡ old.new_ack
    pub status : h.status ≡ up
    pub miss_count : h.miss_count ≡ 0
    pub last_seen : h.last_seen ≡ now
    pub mac_put : IsPut mac old.mac h.mac
    pub hostname_put : IsPut hostname old.hostname h.hostname
    pub vendor_put : IsPut vendor old.vendor h.vendor

  -- The host after an upsert, by the one that was known.
  abbrev pub Upserted : Option HostRow → HostRow → Type 0
  Upserted (some old) h = IsSeenUp old h
  Upserted none h = h ≡ record {
    id = d.tables.hosts.next;
    subnet_id = s;
    ip = ip;
    mac = mac;
    hostname = hostname;
    vendor = vendor;
    status = up;
    source = auto;
    notes = [];
    first_seen = now;
    last_seen = now;
    miss_count = 0;
    acknowledged = false;
    new_ack = false;
  }

  upserted-Upserted :
      (o : Option HostRow) → Upserted o (upserted o (seen_up mac hostname vendor now) fresh_host)
  upserted-Upserted none = refl
  upserted-Upserted (some old) = record {
    id = refl;
    subnet_id = refl;
    same_ip = refl;
    source = refl;
    notes = refl;
    first_seen = refl;
    acknowledged = refl;
    new_ack = refl;
    status = refl;
    miss_count = refl;
    last_seen = refl;
    mac_put = or_keep-IsPut mac old.mac;
    hostname_put = or_keep-IsPut hostname old.hostname;
    vendor_put = or_keep-IsPut vendor old.vendor;
  }

  read : Tables → Option HostRow
  read t = host_at s ip t

  upsert_known :
      (h : HostRow)
      → IsHealthy d
      → host_at s ip d.tables ≡ some h
      → upsert_host s ip mac hostname vendor now d
        ≡ ok
            (h.id, false)
            (record d {
              tables = update_host h.id (seen_up mac hostname vendor now) d.tables;
              clock = suc (suc d.clock);
            })
  unfolding upsert_host read
  upsert_known h healthy found =
      let change = update_host h.id (seen_up mac hostname vendor now) in
      run->>= (query read) _ d (run-query read d (healthy d.clock))
      ∙ rw found (
          run->> (exec change) (pure (h.id, false)) (tick d)
            (run-exec change (tick d) (healthy (suc d.clock))))

  upsert_unknown :
      IsHealthy d
      → has_id s d.tables.subnets.rows ≡ true
      → host_at s ip d.tables ≡ none
      → upsert_host s ip mac hostname vendor now d
        ≡ ok
            (d.tables.hosts.next, true)
            (record d {
              tables = record (d.tables) {
                hosts = add (new_host s ip mac hostname vendor up [] now) d.tables.hosts;
              };
              clock = suc (suc d.clock);
            })
  unfolding upsert_host read
  upsert_unknown healthy parent free =
      let make = new_host s ip mac hostname vendor up [] now in
      run->>= (query read) _ d (run-query read d (healthy d.clock))
      ∙ rw free (
          run->>= (statement (insert_host make)) (λ id. pure (id, true)) (tick d)
            (run-statement (insert_host make) (tick d) (healthy (suc d.clock))
              (insert_host_lem make d.tables parent free)))

  upsert_host-host_at :
      (s' : ℕ) (i' : Text)
      → IsHealthy d
      → Below d.tables.hosts.next d.tables.hosts.rows
      → has_id s d.tables.subnets.rows ≡ true
      → (value (upsert_host s ip mac hostname vendor now d)
          ≡ some (upsert_result d.tables.hosts.next (host_at s ip d.tables)))
        × (host_at s' i' (after (upsert_host s ip mac hostname vendor now d)).tables ≡ (
            if (s == s') && text_eq ip i'
            then some
                (upserted (host_at s ip d.tables) (seen_up mac hostname vendor now) fresh_host)
            else host_at s' i' d.tables))
  upsert_host-host_at s' i' healthy below parent = elim (Option-cases (host_at s ip d.tables)) [
    | inl free ↦ rw (upsert_unknown healthy parent free) (rw free (refl, refl))
    | inr (h, found) ↦ rw (upsert_known h healthy found) (
        rw found (
          refl,
          host_at-update s s' ip i' (seen_up mac hostname vendor now) d.tables.hosts.next d.tables h
              (λ g. (refl, refl, refl)) below found,
        ))
  ]

  -- On a healthy database whose host ids are distinct, with the subnet in place, `UpsertHost`
  -- succeeds, and returns the id of the host with whether its address was new. If the address was
  -- known, the host there is then up with no misses and last seen now, each of its MAC, hostname and
  -- vendor is the new value unless that is empty, and then the old one, and all else of it is as it
  -- was. If the address was new, there is a host with the next id, these values, up, first and last
  -- seen now, with no misses, no notes and nothing acknowledged. What is known under any other address
  -- is as before.
  pub upsert_host_lem :
      (s' : ℕ) (i' : Text)
      → IsHealthy d
      → Below d.tables.hosts.next d.tables.hosts.rows
      → has_id s d.tables.subnets.rows ≡ true
      → (value (upsert_host s ip mac hostname vendor now d)
          ≡ some (upsert_result d.tables.hosts.next (host_at s ip d.tables)))
        × ((h : HostRow) × (host_at s ip (after (upsert_host s ip mac hostname vendor now d)).tables
              ≡ some h)
            × Upserted (host_at s ip d.tables) h)
        × (((s ≡ s') × (ip ≡ i') → ⊥)
            → host_at s' i' (after (upsert_host s ip mac hostname vendor now d)).tables
              ≡ host_at s' i' d.tables)
  upsert_host_lem s' i' healthy below parent =
      let o = host_at s ip d.tables in
      let (result, here) = upsert_host-host_at s ip healthy below parent in
      let (_, there) = upsert_host-host_at s' i' healthy below parent in
      let own : ((s == s) && text_eq ip ip) ≡ true =
        ap₂ (λ a b. a && b) (==_refl s) (text_eq_refl ip) in
      (
        result,
        (
          upserted o (seen_up mac hostname vendor now) fresh_host,
          rw own at here,
          upserted-Upserted o,
        ),
        λ other. elim (Bool-cases ((s == s') && text_eq ip i')) [
          | inl c ↦ let no : ⊥ = other (address_eq s s' ip i' c) in elim no [ ]
          | inr c ↦ rw c at there
        ],
      )
