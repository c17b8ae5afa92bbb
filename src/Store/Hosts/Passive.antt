-- ===== src/Store/Hosts/Passive.antt =====
-- The passive upserts of internal/store/hosts.go: a PTR record or an old export is no proof that a
-- host is alive, so `UpsertUnconfirmedHost` and `ImportHost` may only add what is missing.
use network_enumerator.Common.{
  ℕ, ◌≡◌, refl, ap₂, subst, ◌∙◌, Bool, true, false, ◌&&◌, not, some, List, [], ◌∷◌, ◌==◌, Text,
  text_eq, is_empty, if◌then◌else◌, find_if, any, arith, Bool-cases, Option-cases, inl, inr,
}
use network_enumerator.Store.Table.{has_id, add}
use network_enumerator.Store.Table.Laws.{Below}
use network_enumerator.Store.Table.Find.{find_if-any}
use network_enumerator.Store.Schema.{Tables, HostRow, unknown, host_row, subnet_row, same_host}
use network_enumerator.Store.Constraints.{insert_host, update_host}
use network_enumerator.Store.Sql.{Db, tick, after}
use network_enumerator.Store.Sql.Runs.{after-query, after-exec, after-statement}
use network_enumerator.Store.Hosts.{
  is_at, new_host, fills_any, fill_host, upsert_unconfirmed_host, import_host,
}
use network_enumerator.Store.Hosts.UpsertLaws.{host_at, LeavesAddress, host_at-update, address_eq}

-- A text that was there is kept.
abbrev pub Fills : Text → Text → Type 0
Fills old new = is_empty old ≡ false → new ≡ old

-- The later row of a host says of its life what the earlier row said, and has the same texts where
-- the earlier row had any.
pub record OnlyFills (old new : HostRow) : Type 0 where
  pub id : new.id ≡ old.id
  pub status : new.status ≡ old.status
  pub miss_count : new.miss_count ≡ old.miss_count
  pub last_seen : new.last_seen ≡ old.last_seen
  pub first_seen : new.first_seen ≡ old.first_seen
  pub notes : new.notes ≡ old.notes
  pub acknowledged : new.acknowledged ≡ old.acknowledged
  pub new_ack : new.new_ack ≡ old.new_ack
  pub mac : Fills old.mac new.mac
  pub hostname : Fills old.hostname new.hostname
  pub vendor : Fills old.vendor new.vendor

hostname-OnlyFills :
    (hostname : Text) (g : HostRow)
    → (not (is_empty hostname) && is_empty g.hostname) ≡ true
    → OnlyFills g (record g { hostname = hostname })
hostname-OnlyFills hostname g c = record {
  id = refl;
  status = refl;
  miss_count = refl;
  last_seen = refl;
  first_seen = refl;
  notes = refl;
  acknowledged = refl;
  new_ack = refl;
  mac = λ e. refl;
  hostname = λ e. ground arith;
  vendor = λ e. refl;
}

Fills-if : (new old : Text) → Fills old (if not (is_empty new) && is_empty old then new else old)
Fills-if new old e = ground arith

fill_host-OnlyFills :
    (mac hostname vendor : Text) (g : HostRow) → OnlyFills g (fill_host mac hostname vendor g g)
fill_host-OnlyFills mac hostname vendor g = record {
  id = refl;
  status = refl;
  miss_count = refl;
  last_seen = refl;
  first_seen = refl;
  notes = refl;
  acknowledged = refl;
  new_ack = refl;
  mac = Fills-if mac g.mac;
  hostname = Fills-if hostname g.hostname;
  vendor = Fills-if vendor g.vendor;
}

-- What the tables know of the host `h` under its address.
abbrev pub StillKnown : ℕ → Text → HostRow → Tables → Type 0
StillKnown s i h t = (h' : HostRow) × (host_at s i t ≡ some h') × OnlyFills h h'

pub OnlyFills-refl : (h : HostRow) → OnlyFills h h
OnlyFills-refl h = ground arith

-- An update of the row `g` that was read keeps `h` known.
update_known :
    (s s' : ℕ) (i i' : Text) (f : HostRow → HostRow) (t : Tables) (g h : HostRow)
    → LeavesAddress f
    → OnlyFills g (f g)
    → Below t.hosts.next t.hosts.rows
    → host_at s i t ≡ some g
    → host_at s' i' t ≡ some h
    → StillKnown s' i' h (update_host g.id f t)
update_known s s' i i' f t g h same fills below found known =
    elim (Bool-cases ((s == s') && text_eq i i')) [
      | inr c ↦ (h, law ∙ rw c known, OnlyFills-refl h)
      | inl c ↦
          let (es, ei) = address_eq s s' i i' c in
          let eg : g ≡ h = cc (ap₂ (λ x y. host_at x y t) es ei) in
          (f g, law ∙ rw c, subst (λ r. OnlyFills r (f g)) eg fills)
    ]
  where
    law :
        host_at s' i' (update_host g.id f t)
        ≡ (if (s == s') && text_eq i i' then some (f g) else host_at s' i' t)
    law = host_at-update s s' i i' f t.hosts.next t g same below found

known_in_front :
    (new : HostRow) (rows : List HostRow) (s' : ℕ) (i' : Text) (h : HostRow)
    → any (same_host new) rows ≡ false
    → find_if (is_at s' i') rows ≡ some h
    → find_if (is_at s' i') (new ∷ rows) ≡ some h
known_in_front new rows s' i' h free known = elim (Bool-cases (is_at s' i' new)) [
  | inr c ↦ rw (c, known)
  | inl c ↦
      let (es, ei) = address_eq new.subnet_id s' new.ip i' c in
      let taken : any (is_at s' i') rows ≡ true = find_if-any (is_at s' i') rows known in
      cc (ap₂ (λ x y. any (is_at x y) rows) es ei)
]

-- A new host never takes the address of a known one.
insert_known :
    (make : ℕ → HostRow) (t t' : Tables) (s' : ℕ) (i' : Text) (h : HostRow) (id : ℕ)
    → insert_host make t ≡ some (id, t')
    → host_at s' i' t ≡ some h
    → StillKnown s' i' h t'
insert_known make t t' s' i' h id lands known = elim (Bool-cases guard) [
  | inr c ↦ cc (rw c at lands)
  | inl c ↦
      let landed : some (t.hosts.next, t_added) ≡ some (id, t') = rw c at lands in
      let same : t_added ≡ t' = cc landed in
      let free : any (same_host new) t.hosts.rows ≡ false = ground arith in
      (
        h,
        subst (λ x. host_at s' i' x ≡ some h) same
            (known_in_front new t.hosts.rows s' i' h free known),
        OnlyFills-refl h,
      )
]
  where
    new : HostRow
    new = make t.hosts.next

    guard : Bool
    guard = has_id new.subnet_id t.subnets.rows && not (any (same_host new) t.hosts.rows)

    t_added : Tables
    t_added = record t { hosts = add make t.hosts }

module _ (s : ℕ) (ip hostname : Text) (now : ℕ) (d : Db) where
  -- `UpsertUnconfirmedHost` leaves every host that is known under some address known there, with its
  -- status, misses, times, notes and acknowledgements, and with each text that it had. This holds
  -- whichever statements fail.
  pub upsert_unconfirmed_host-OnlyFills :
      (s' : ℕ) (i' : Text) (h : HostRow)
      → Below d.tables.hosts.next d.tables.hosts.rows
      → host_at s' i' d.tables ≡ some h
      → StillKnown s' i' h (after (upsert_unconfirmed_host s ip hostname now d)).tables
  unfolding upsert_unconfirmed_host
  upsert_unconfirmed_host-OnlyFills s' i' h below known =
      after-query (StillKnown s' i' h) (λ t. host_at s ip t) _ d (h, known, OnlyFills-refl h)
        (elim (Option-cases (host_at s ip d.tables)) [
          | inl free ↦ rw free (
              after-statement (StillKnown s' i' h) {B = ℕ × Bool}
                (insert_host (new_host s ip [] hostname [] unknown [] now)) (λ id. (id, true))
                (tick d) (h, known, OnlyFills-refl h)
                λ id t lands.
                  insert_known (new_host s ip [] hostname [] unknown [] now) d.tables t s' i' h id
                    lands known)
          | inr (g, found) ↦
              rw found (elim (Bool-cases (not (is_empty hostname) && is_empty g.hostname)) [
                | inr c ↦ rw c (h, known, OnlyFills-refl h)
                | inl c ↦ rw c (
                    after-exec (StillKnown s' i' h)
                      (update_host g.id λ r. record r { hostname = hostname }) (g.id, false)
                      (tick d) (h, known, OnlyFills-refl h)
                      (update_known s s' ip i' (λ r. record r { hostname = hostname }) d.tables g h
                        (λ r. (refl, refl, refl)) (hostname-OnlyFills hostname g c) below found
                        known))
              ])
        ])

module _ (s : ℕ) (ip mac hostname vendor notes : Text) (now : ℕ) (d : Db) where
  -- `ImportHost` leaves every host that is known under some address known there, with its status,
  -- misses, times, notes and acknowledgements, and with each text that it had. This holds whichever
  -- statements fail.
  pub import_host-OnlyFills :
      (s' : ℕ) (i' : Text) (h : HostRow)
      → Below d.tables.hosts.next d.tables.hosts.rows
      → host_at s' i' d.tables ≡ some h
      → StillKnown s' i' h (after (import_host s ip mac hostname vendor notes now d)).tables
  unfolding import_host
  import_host-OnlyFills s' i' h below known =
      after-query (StillKnown s' i' h) (λ t. host_at s ip t) _ d (h, known, OnlyFills-refl h)
        (elim (Option-cases (host_at s ip d.tables)) [
          | inl free ↦ rw free (
              after-statement (StillKnown s' i' h) {B = ℕ × Bool}
                (insert_host (new_host s ip mac hostname vendor unknown notes now))
                (λ id. (id, true)) (tick d) (h, known, OnlyFills-refl h)
                λ id t lands.
                  insert_known (new_host s ip mac hostname vendor unknown notes now) d.tables t s'
                    i' h id lands known)
          | inr (g, found) ↦ rw found (elim (Bool-cases (fills_any mac hostname vendor g)) [
            | inr c ↦ rw c (h, known, OnlyFills-refl h)
            | inl c ↦ rw c (
                after-exec (StillKnown s' i' h) (update_host g.id (fill_host mac hostname vendor g))
                  (g.id, false) (tick d) (h, known, OnlyFills-refl h)
                  (update_known s s' ip i' (fill_host mac hostname vendor g) d.tables g h
                    (λ r. (refl, refl, refl)) (fill_host-OnlyFills mac hostname vendor g) below
                    found known))
          ])
        ])
