-- ===== src/Api/Import/Restores.antt =====
-- `importNetworkMap` of internal/api/export.go brings back the hosts of a document.
use network_enumerator.Common.{ℕ, ◌≡◌, sym, subst, ap, ◌∙◌, true, false, none, some, [], Text, any}
use network_enumerator.Store.Schema.{Tables}
use network_enumerator.Store.Constraints.{insert_event}
use network_enumerator.Store.Sql.{Db, M, ok, IsHealthy}
use network_enumerator.Store.Sql.Keeps.{
  Keeps, Keeps-pure, Keeps-query, Keeps-exec, Keeps-statement, Keeps->>=, Keeps->>, Lands-if,
}
use network_enumerator.Store.Sql.Total.{Total}
use network_enumerator.Store.Ports.{upsert_port}
use network_enumerator.Store.Events.{new_event, add_event}
use network_enumerator.Api.Handler.{World, H, ◌>>=◌, given, settled, stored, resume, Parsers}
use network_enumerator.Api.Handler.Keeping.{Preserves}
use network_enumerator.Api.Export.{ExportDocument}
use network_enumerator.Api.Import.{import_network_map}
use network_enumerator.Api.Import.Keeping.{ports_imported-Preserves}
use network_enumerator.Api.Import.Upserts.{HasCidr, HasHost}
use network_enumerator.Api.Import.Segments.{segments-Total}
use network_enumerator.Api.Import.Cidrs.{last_cidr}
use network_enumerator.Api.Import.Hosts.{is_entry, hosts-Total}

module _ (k : ℕ) (cidr ip : Text) where
  -- A subnet with the CIDR has a host with the address.
  abbrev Landed : Tables → Type 0
  Landed t = HasCidr k cidr t × HasHost k ip t

  upsert_port-Landed :
      (h p : ℕ) (protocol service banner product version : Text) (now : ℕ)
      → Keeps Landed (upsert_port h p protocol service banner product version now)
  unfolding upsert_port
  upsert_port-Landed h p protocol service banner product version now =
      Keeps->>= Landed _ _ (Keeps-query Landed _) (elim [
        | some r ↦ Keeps->> Landed _ _ (Keeps-exec Landed _ (λ t l. l)) (Keeps-pure Landed _)
        | none ↦
            Keeps->>= Landed _ _ (Keeps-statement Landed _ (λ t l. Lands-if Landed _ _ _ l))
              (λ id. Keeps-pure Landed _)
      ])

  add_event-Landed :
      (type message : Text) (id now : ℕ) → Keeps Landed (add_event type message id now)
  unfolding add_event
  add_event-Landed type message id now =
      Keeps->>= Landed _ _
        (Keeps-statement Landed (insert_event (new_event type message id now)) (λ t l. l))
        (λ i. Keeps-pure Landed (new_event type message id now i))

-- A call of the store that succeeds, and what follows it.
pub called :
    {A B : Type 0} (m : M A) (f : A → H B) (w : World) {a : A} {d : Db}
    → m w.db ≡ ok a d
    → (stored 500 m >>= f) w ≡ f a (record w { db = d })
unfolding stored ◌>>=◌
called m f w e = ap (λ o. resume (settled 500 w o).0 (settled 500 w o).1 f) e

-- On a healthy database, an import of a network map brings back a host of the document if its address
-- is accepted and its segment id stands in the document with an accepted CIDR: where the id stands
-- there more than once, the last entry with an accepted CIDR counts. The tables then have a subnet
-- with this CIDR, and under it a host with the address. Entries that are not accepted do not get in
-- the way.
pub import_network_map-Lands :
    (go : Parsers) (now : ℕ) (doc : ExportDocument) (w : World) (key cidr ip : Text)
    → IsHealthy w.db
    → go.is_ip ip ≡ true
    → last_cidr go key none doc.segments ≡ some cidr
    → any (is_entry key ip) doc.hosts ≡ true
    → (k : ℕ) × HasCidr k cidr (import_network_map go now (some doc) w).1.db.tables
      × HasHost k ip (import_network_map go now (some doc) w).1.db.tables
unfolding import_network_map given ◌>>=◌ Total Preserves
import_network_map-Lands go now doc w key cidr ip healthy ip_ok means entry =
    let (ids, d1, e1, h1, (sound, leads)) =
      segments-Total go now key doc.segments [] none w.db healthy
        ((λ j k e. cc e), (λ c e. cc e)) in
    let (k, at, there) = leads cidr means in
    let (found, d2, e2, h2, (_, has, seen)) =
      hosts-Total go now key ip cidr ids k at ip_ok doc.hosts ([], 0) false d1 h1
        (sound, there, (λ e. cc e)) in
    let w1 : World = record w { db = d1 } in
    let w2 : World = record w { db = d2 } in
    let after = called _ _ w {a = ids} {d = d1} e1 ∙ called _ _ w1 {a = found} {d = d2} e2 in
    let landed : Landed k cidr ip w2.db.tables = (has, seen entry) in
    let kept =
      ports_imported-Preserves (Landed k cidr ip) (upsert_port-Landed k cidr ip)
        (add_event-Landed k cidr ip) now found.0 doc.ports _ _ w2 landed in
    let (a, b) = subst (λ r. Landed k cidr ip r.1.db.tables) (sym after) kept in (k, a, b)
