-- ===== src/Api/Requests/BadMac.antt =====
-- `updateHost` (internal/api/server.go) writes before it has tested everything.
use network_enumerator.Common.{
  ℕ, suc, ◌≡◌, refl, ap, ◌∙◌, false, Option, none, some, Text, trim_space,
}
use network_enumerator.Store.Schema.{Tables, host_row}
use network_enumerator.Store.Constraints.{update_host as update_row}
use network_enumerator.Store.Sql.{exec, IsHealthy}
use network_enumerator.Store.Sql.Runs.{run-exec}
use network_enumerator.Store.Hosts.{update_host_notes, set_host_hostname}
use network_enumerator.Api.Handler.{
  World, returns, fails, H, ◌>>=◌, ◌>>◌, resume, pure, check, given, settled, stored, for_field,
  Parsers,
}
use network_enumerator.Api.Hosts.{HostPatch, mac_ok, set_mac, update_host}

-- On a healthy database the handler goes on, and has changed the tables by `f`.
Writes : H (Unit {0}) → (Tables → Tables) → Type 0
Writes h f =
    (w : World)
    → IsHealthy w.db
    → (k : ℕ) × (h w
        ≡ (returns tt, record w { db = record (w.db) { tables = f w.db.tables; clock = k } }))

Writes-exec : (f : Tables → Tables) → Writes (stored 500 (exec f)) f
unfolding Writes stored
Writes-exec f w healthy =
    (suc w.db.clock, ap (settled 500 w) (run-exec f w.db (healthy w.db.clock)))

-- What an optional field makes of the tables.
abbrev pub if_given : Option Text → (Text → Tables → Tables) → Tables → Tables
if_given none f t = t
if_given (some a) f t = f a t

Writes-for_field :
    (o : Option Text) (h : Text → H (Unit {0})) (f : Text → Tables → Tables)
    → ((a : Text) → Writes (h a) (f a))
    → Writes (for_field o h) (if_given o f)
unfolding Writes for_field pure
Writes-for_field none h f writes w healthy = (w.db.clock, refl)
Writes-for_field (some a) h f writes w healthy = writes a w healthy

abbrev pub with_notes : ℕ → Text → Tables → Tables
with_notes id notes = update_row id (λ h. record h { notes = notes })

abbrev pub with_hostname : ℕ → Text → Tables → Tables
with_hostname id hostname = update_row id (λ h. record h { hostname = trim_space hostname })

refused :
    (go : Parsers) (id : ℕ) (mac : Text) (w : World)
    → mac_ok go mac ≡ false
    → set_mac go id mac w ≡ (fails 400, w)
unfolding set_mac check ◌>>◌
refused go id mac w bad = rw bad refl

module _ {B : Type 0} (h : H (Unit {0})) (k : H B) (w w' : World) where
  went_on : h w ≡ (returns tt, w') → (h >> k) w ≡ k w'
  unfolding ◌>>◌
  went_on e = ap (λ s. resume s.0 s.1 (λ _. k)) e

  stopped : (status : ℕ) → h w ≡ (fails status, w') → (h >> k) w ≡ (fails status, w')
  unfolding ◌>>◌
  stopped status e = ap (λ s. resume s.0 s.1 (λ _. k)) e

-- On a healthy database, `updateHost` with a MAC address that is not accepted answers 400, but it has
-- written the notes and the host name of the body.
pub update_host-bad_mac :
    (go : Parsers) (now id : ℕ) (q : HostPatch) (mac : Text) (w : World)
    → IsHealthy w.db
    → q.mac ≡ some mac
    → mac_ok go mac ≡ false
    → ((update_host go now (some id) (some q) w).0 ≡ fails 400)
      × ((update_host go now (some id) (some q) w).1.db.tables
          ≡ if_given q.hostname (with_hostname id) (if_given q.notes (with_notes id) w.db.tables))
unfolding update_host given ◌>>=◌ Writes update_host_notes set_host_hostname for_field
update_host-bad_mac go now id q mac w healthy has bad =
    let notes =
      Writes-for_field q.notes (λ n. stored 500 (update_host_notes id n)) (with_notes id)
        (λ n. Writes-exec _) in
    let names =
      Writes-for_field q.hostname (λ n. stored 500 (set_host_hostname id (trim_space n)))
        (with_hostname id) (λ n. Writes-exec _) in
    let (k, first) = notes w healthy in
    let w1 : World = record w {
      db = record (w.db) { tables = if_given q.notes (with_notes id) w.db.tables; clock = k };
    } in
    let (k2, second) = names w1 healthy in
    let w2 : World = record w1 {
      db = record (w1.db) {
        tables = if_given q.hostname (with_hostname id) w1.db.tables;
        clock = k2;
      };
    } in
    let third = ap (λ o. for_field o (set_mac go id) w2) has ∙ refused go id mac w2 bad in
    let all = went_on _ _ w w1 first ∙ went_on _ _ w1 w2 second ∙ stopped _ _ w2 w2 400 third in
    (ap (λ r. r.0) all, ap (λ r. r.1.db.tables) all)
