-- ===== src/Store/Integrity/HostMethods.antt =====
-- The methods of internal/store/hosts.go keep the database well formed, on every branch and
-- whatever statement fails.
use network_enumerator.Common.{ℕ, refl, true, not, none, some, List, [], ◌∷◌, count_if, Text}
use network_enumerator.Store.Table.{is_id, update_where}
use network_enumerator.Store.Schema.{HostRow, subnet_row, host_row, port_row, risk_rule_row}
use network_enumerator.Store.Sql.{no_rows}
use network_enumerator.Store.Sql.Keeps.{
  Keeps-pure, Keeps-fail, Keeps-query, Keeps-exec, Keeps-statement, Keeps->>=, Keeps->>, Keeps-if,
}
use network_enumerator.Store.Integrity.{IsWf}
use network_enumerator.Store.Integrity.Updates.{update_hosts-IsWf}
use network_enumerator.Store.Integrity.Inserts.{insert_host-Lands}
use network_enumerator.Store.Integrity.Deletes.{delete_hosts-IsWf}
use network_enumerator.Store.Hosts.{
  seen_up, fill_host, upsert_host, upsert_unconfirmed_host, confirm_host_up, import_host,
  add_manual_host, update_host_notes, set_host_hostname, set_host_mac, acknowledge_host,
  unacknowledge_host, acknowledge_host_new, acknowledge_all_hosts_new, clear_acknowledgement_if_set,
  delete_host, clear_all_hosts,
}
use network_enumerator.Store.Hosts.Sweep.{missed, sweep_rows, sweep_missing_hosts}
use network_enumerator.Store.Integrity.Rules.{KeepsWf, host_update}

pub upsert_host-Wf :
    (s : ℕ) (ip mac hostname vendor : Text) (now : ℕ)
    → KeepsWf (upsert_host s ip mac hostname vendor now)
unfolding upsert_host
upsert_host-Wf s ip mac hostname vendor now = Keeps->>= IsWf _ _ (Keeps-query IsWf _) (elim [
  | some h ↦
      Keeps->> IsWf _ _
        (host_update h.id (seen_up mac hostname vendor now) (λ r. refl) (λ r. refl) (λ r. refl))
        (Keeps-pure IsWf _)
  | none ↦
      Keeps->>= IsWf _ _ (Keeps-statement IsWf _ (insert_host-Lands _ (λ i. refl)))
        (λ id. Keeps-pure IsWf _)
])

pub upsert_unconfirmed_host-Wf :
    (s : ℕ) (ip hostname : Text) (now : ℕ) → KeepsWf (upsert_unconfirmed_host s ip hostname now)
unfolding upsert_unconfirmed_host
upsert_unconfirmed_host-Wf s ip hostname now = Keeps->>= IsWf _ _ (Keeps-query IsWf _) (elim [
  | some h ↦
      Keeps-if IsWf _ _ _
        (Keeps->> IsWf _ _ (host_update h.id _ (λ r. refl) (λ r. refl) (λ r. refl))
          (Keeps-pure IsWf _))
        (Keeps-pure IsWf _)
  | none ↦
      Keeps->>= IsWf _ _ (Keeps-statement IsWf _ (insert_host-Lands _ (λ i. refl)))
        (λ id. Keeps-pure IsWf _)
])

pub import_host-Wf :
    (s : ℕ) (ip mac hostname vendor notes : Text) (now : ℕ)
    → KeepsWf (import_host s ip mac hostname vendor notes now)
unfolding import_host
import_host-Wf s ip mac hostname vendor notes now = Keeps->>= IsWf _ _ (Keeps-query IsWf _) (elim [
  | some h ↦
      Keeps-if IsWf _ _ _
        (Keeps->> IsWf _ _
          (host_update h.id (fill_host mac hostname vendor h) (λ r. refl) (λ r. refl) (λ r. refl))
          (Keeps-pure IsWf _))
        (Keeps-pure IsWf _)
  | none ↦
      Keeps->>= IsWf _ _ (Keeps-statement IsWf _ (insert_host-Lands _ (λ i. refl)))
        (λ id. Keeps-pure IsWf _)
])

pub add_manual_host-Wf :
    (s : ℕ) (ip hostname notes : Text) (now : ℕ) → KeepsWf (add_manual_host s ip hostname notes now)
unfolding add_manual_host
add_manual_host-Wf s ip hostname notes now =
    Keeps->>= IsWf _ _ (Keeps-statement IsWf _ (insert_host-Lands _ (λ i. refl)))
      (λ id. Keeps-pure IsWf _)

pub update_host_notes-Wf : (i : ℕ) (notes : Text) → KeepsWf (update_host_notes i notes)
unfolding update_host_notes
update_host_notes-Wf i notes = host_update i _ (λ r. refl) (λ r. refl) (λ r. refl)

pub set_host_hostname-Wf : (i : ℕ) (hostname : Text) → KeepsWf (set_host_hostname i hostname)
unfolding set_host_hostname
set_host_hostname-Wf i hostname = host_update i _ (λ r. refl) (λ r. refl) (λ r. refl)

pub set_host_mac-Wf : (i : ℕ) (mac : Text) → KeepsWf (set_host_mac i mac)
unfolding set_host_mac
set_host_mac-Wf i mac = host_update i _ (λ r. refl) (λ r. refl) (λ r. refl)

pub confirm_host_up-Wf : (i : ℕ) (now : ℕ) → KeepsWf (confirm_host_up i now)
unfolding confirm_host_up
confirm_host_up-Wf i now = host_update i _ (λ r. refl) (λ r. refl) (λ r. refl)

pub acknowledge_host-Wf : (i : ℕ) → KeepsWf (acknowledge_host i)
unfolding acknowledge_host
acknowledge_host-Wf i = host_update i _ (λ r. refl) (λ r. refl) (λ r. refl)

pub unacknowledge_host-Wf : (i : ℕ) → KeepsWf (unacknowledge_host i)
unfolding unacknowledge_host
unacknowledge_host-Wf i = host_update i _ (λ r. refl) (λ r. refl) (λ r. refl)

pub acknowledge_host_new-Wf : (i : ℕ) → KeepsWf (acknowledge_host_new i)
unfolding acknowledge_host_new
acknowledge_host_new-Wf i = host_update i _ (λ r. refl) (λ r. refl) (λ r. refl)

pub acknowledge_all_hosts_new-Wf : KeepsWf acknowledge_all_hosts_new
unfolding acknowledge_all_hosts_new
acknowledge_all_hosts_new-Wf =
    Keeps-statement IsWf
      (λ t. some (
        count_if (λ h. not h.new_ack) t.hosts.rows,
        record t {
          hosts = update_where (λ h. not h.new_ack) (λ h. record h { new_ack = true }) t.hosts;
        },
      ))
      (update_hosts-IsWf (λ h. not h.new_ack) (λ h. record h { new_ack = true }) (λ r. refl)
        (λ r. refl) (λ r s. (refl, refl)))

pub clear_acknowledgement_if_set-Wf : (i : ℕ) → KeepsWf (clear_acknowledgement_if_set i)
unfolding clear_acknowledgement_if_set
clear_acknowledgement_if_set-Wf i = Keeps->>= IsWf _ _ (Keeps-query IsWf _) (elim [
  | none ↦ Keeps-fail IsWf _ no_rows
  | some h ↦
      Keeps-if IsWf _ _ _
        (Keeps->> IsWf _ _ (host_update i _ (λ r. refl) (λ r. refl) (λ r. refl))
          (Keeps-pure IsWf _))
        (Keeps-pure IsWf _)
])

pub delete_host-Wf : (i : ℕ) → KeepsWf (delete_host i)
unfolding delete_host
delete_host-Wf i = Keeps-exec IsWf _ (delete_hosts-IsWf (is_id i))

pub clear_all_hosts-Wf : KeepsWf clear_all_hosts
unfolding clear_all_hosts
clear_all_hosts-Wf = Keeps-exec IsWf _ (delete_hosts-IsWf (λ h. true))

sweep_rows-Wf : (threshold : ℕ) (rows : List HostRow) → KeepsWf (sweep_rows threshold rows)
unfolding sweep_rows
sweep_rows-Wf threshold [] = Keeps-pure IsWf _
sweep_rows-Wf threshold (r ∷ rows) =
    Keeps->> IsWf _ _ (host_update r.id (missed threshold r) (λ h. refl) (λ h. refl) (λ h. refl))
      (Keeps->>= IsWf _ _ (sweep_rows-Wf threshold rows) (λ rest. Keeps-pure IsWf _))

pub sweep_missing_hosts-Wf :
    (s : ℕ) (seen : List Text) (threshold : ℕ) → KeepsWf (sweep_missing_hosts s seen threshold)
unfolding sweep_missing_hosts
sweep_missing_hosts-Wf s seen threshold =
    Keeps->>= IsWf _ _ (Keeps-query IsWf _) (sweep_rows-Wf threshold)
