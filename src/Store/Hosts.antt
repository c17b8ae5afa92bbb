-- ===== src/Store/Hosts.antt =====
-- internal/store/hosts.go, the operations that change a host. `now` is the reading of `time.Now()`.
pub mod Sweep
pub mod SweepLaws
pub mod UpsertLaws
pub mod Upserts
pub mod Passive
use network_enumerator.Common.{
  ℕ, suc, ◌+◌, Bool, true, false, ◌&&◌, not, Option, none, some, List, [], ◌∷◌, leb, ◌==◌, Text,
  text, text_eq, is_empty, if◌then◌else◌, keep, any, count_if,
}
use network_enumerator.Store.Table.{Table, select_row, is_id, update_where}
use network_enumerator.Store.Schema.{
  Tables, HostRow, Status, up, down, unknown, Source, auto, manual, host_row,
}
use network_enumerator.Store.Constraints.{insert_host, update_host, delete_hosts}
use network_enumerator.Store.Sql.{M, ◌>>=◌, ◌>>◌, pure, fail, no_rows, query, exec, statement}

-- `WHERE subnet_id = ? AND ip = ?`.
abbrev pub is_at : ℕ → Text → HostRow → Bool
is_at subnet_id ip h = (h.subnet_id == subnet_id) && text_eq h.ip ip

-- An UPDATE that sets a column only if the new value is not "".
abbrev pub or_keep : Text → Text → Text
or_keep new old = if is_empty new then old else new

abbrev pub new_host : ℕ → Text → Text → Text → Text → Status → Text → ℕ → ℕ → HostRow
new_host subnet_id ip mac hostname vendor status notes now id = record {
  id = id;
  subnet_id = subnet_id;
  ip = ip;
  mac = mac;
  hostname = hostname;
  vendor = vendor;
  status = status;
  source = auto;
  notes = notes;
  first_seen = now;
  last_seen = now;
  miss_count = 0;
  acknowledged = false;
  new_ack = false;
}

abbrev pub seen_up : Text → Text → Text → ℕ → HostRow → HostRow
seen_up mac hostname vendor now h = record h {
  last_seen = now;
  status = up;
  miss_count = 0;
  mac = or_keep mac h.mac;
  hostname = or_keep hostname h.hostname;
  vendor = or_keep vendor h.vendor;
}

unfoldable pub upsert_host : ℕ → Text → Text → Text → Text → ℕ → M (ℕ × Bool)
upsert_host subnet_id ip mac hostname vendor now = do
  found ← query (λ t. select_row (is_at subnet_id ip) t.hosts)
  elim found [
    | some h ↦ do exec (update_host h.id (seen_up mac hostname vendor now)); pure (h.id, false)
    | none ↦ do
      id ← statement (insert_host (new_host subnet_id ip mac hostname vendor up [] now))
      pure (id, true)
  ]

unfoldable pub upsert_unconfirmed_host : ℕ → Text → Text → ℕ → M (ℕ × Bool)
upsert_unconfirmed_host subnet_id ip hostname now = do
  found ← query (λ t. select_row (is_at subnet_id ip) t.hosts)
  elim found [
    | some h ↦
        if not (is_empty hostname) && is_empty h.hostname
        then exec (update_host h.id (λ r. record r { hostname = hostname })) >> pure (h.id, false)
        else pure (h.id, false)
    | none ↦ do
      id ← statement (insert_host (new_host subnet_id ip [] hostname [] unknown [] now))
      pure (id, true)
  ]

unfoldable pub confirm_host_up : ℕ → ℕ → M (Unit {0})
confirm_host_up id now =
    exec (update_host id (λ h. record h { status = up; miss_count = 0; last_seen = now }))

-- The tests `mac != "" && existingMAC == ""` and so on, of which at least one holds.
abbrev pub fills_any : Text → Text → Text → HostRow → Bool
fills_any mac hostname vendor h =
    any (λ b. b)
      ((not (is_empty mac) && is_empty h.mac)
        ∷ (not (is_empty hostname) && is_empty h.hostname)
        ∷ (not (is_empty vendor) && is_empty h.vendor)
        ∷ [])

-- The SET clauses are built from the row that was read, `old`.
abbrev pub fill_host : Text → Text → Text → HostRow → HostRow → HostRow
fill_host mac hostname vendor old h = record h {
  mac = if not (is_empty mac) && is_empty old.mac then mac else h.mac;
  hostname = if not (is_empty hostname) && is_empty old.hostname then hostname else h.hostname;
  vendor = if not (is_empty vendor) && is_empty old.vendor then vendor else h.vendor;
}

unfoldable pub import_host : ℕ → Text → Text → Text → Text → Text → ℕ → M (ℕ × Bool)
import_host subnet_id ip mac hostname vendor notes now = do
  found ← query (λ t. select_row (is_at subnet_id ip) t.hosts)
  elim found [
    | some h ↦
        if fills_any mac hostname vendor h
        then exec (update_host h.id (fill_host mac hostname vendor h)) >> pure (h.id, false)
        else pure (h.id, false)
    | none ↦ do
      id ← statement (insert_host (new_host subnet_id ip mac hostname vendor unknown notes now))
      pure (id, true)
  ]

unfoldable pub add_manual_host : ℕ → Text → Text → Text → ℕ → M HostRow
add_manual_host subnet_id ip hostname notes now = do
  let make =
      λ (i : ℕ). record (new_host subnet_id ip [] hostname [] up notes now i) { source = manual }
  id ← statement (insert_host make)
  pure (make id)

unfoldable pub update_host_notes : ℕ → Text → M (Unit {0})
update_host_notes id notes = exec (update_host id (λ h. record h { notes = notes }))

unfoldable pub set_host_hostname : ℕ → Text → M (Unit {0})
set_host_hostname id hostname = exec (update_host id (λ h. record h { hostname = hostname }))

unfoldable pub set_host_mac : ℕ → Text → M (Unit {0})
set_host_mac id mac = exec (update_host id (λ h. record h { mac = mac }))

unfoldable pub acknowledge_host : ℕ → M (Unit {0})
acknowledge_host id = exec (update_host id (λ h. record h { acknowledged = true }))

unfoldable pub unacknowledge_host : ℕ → M (Unit {0})
unacknowledge_host id = exec (update_host id (λ h. record h { acknowledged = false }))

unfoldable pub acknowledge_host_new : ℕ → M (Unit {0})
acknowledge_host_new id = exec (update_host id (λ h. record h { new_ack = true }))

-- `UPDATE hosts SET new_ack = 1 WHERE new_ack = 0`, with the number of rows affected.
unfoldable pub acknowledge_all_hosts_new : M ℕ
acknowledge_all_hosts_new = statement λ t. some (
  count_if (λ h. not h.new_ack) t.hosts.rows,
  record t { hosts = update_where (λ h. not h.new_ack) (λ h. record h { new_ack = true }) t.hosts },
)

unfoldable pub clear_acknowledgement_if_set : ℕ → M Bool
clear_acknowledgement_if_set id = do
  found ← query (λ t. select_row (is_id id) t.hosts)
  elim found [
    | none ↦ fail no_rows
    | some h ↦
        if h.acknowledged
        then exec (update_host id (λ r. record r { acknowledged = false })) >> pure true
        else pure false
  ]

unfoldable pub delete_host : ℕ → M (Unit {0})
delete_host id = exec (delete_hosts (is_id id))

unfoldable pub clear_all_hosts : M (Unit {0})
clear_all_hosts = exec (delete_hosts (λ h. true))
