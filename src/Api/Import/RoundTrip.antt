-- ===== src/Api/Import/RoundTrip.antt =====
-- An export of a network map (internal/api/export.go), imported into another database, brings back the
-- hosts.
use network_enumerator.Common.{
  ℕ, ◌≡◌, refl, sym, ap, ap₂, ◌∙◌, Bool, true, ◌&&◌, ◌||◌, none, some, inr, List, [], ◌∷◌, ◌++◌,
  map, ltb, Text, text, text_eq, text_eq_refl, text_eq_iff, itoa, any, All, find_if, ◌==◌, ==_iff,
}
use network_enumerator.Store.Table.{is_id, order_by}
use network_enumerator.Store.Table.Laws.{All-imp}
use network_enumerator.Store.Table.Find.{any_of_found, find_if-holds, All-found}
use network_enumerator.Store.Table.Order.{All-order_by, any-order_by}
use network_enumerator.Store.Schema.{Tables, SubnetRow, HostRow, subnet_row, host_row}
use network_enumerator.Store.Integrity.{IsWf}
use network_enumerator.Store.Sql.{tick, IsHealthy}
use network_enumerator.Store.Sql.Runs.{run-query}
use network_enumerator.Store.Sql.Reads.{Reads}
use network_enumerator.Store.Subnets.{list_subnets}
use network_enumerator.Store.View.{host_before, mac_counts, mac_group_key, list_hosts}
use network_enumerator.Store.View.MacKey.{mac_group_key-injective}
use network_enumerator.Store.View.Queries.{listed, shown, count_of, rules_in, list_hosts-Reads}
use network_enumerator.Store.View.Agreement.{shown-row}
use network_enumerator.Api.Handler.{World, returns, pure, Parsers}
use network_enumerator.Api.Export.{
  ExportDocument, segment_export_id, export_segment_from, export_host_from, export_ports,
  export_network_map,
}
use network_enumerator.Api.Import.{import_network_map}
use network_enumerator.Api.Import.Upserts.{HasCidr, HasHost}
use network_enumerator.Api.Import.Cidrs.{Means, has_key, last_cidr_lem}
use network_enumerator.Api.Import.Hosts.{is_entry}
use network_enumerator.Api.Import.Restores.{called, import_network_map-Lands}

itoa-injective : (m n : ℕ) → itoa m ≡ itoa n → m ≡ n
unfolding mac_group_key
itoa-injective m n e = (mac_group_key-injective m n [] [] (ap (λ s. s ++ text "|" ++ []) e)).0

segment_export_id-injective : (m n : ℕ) → segment_export_id m ≡ segment_export_id n → m ≡ n
segment_export_id-injective m n e = itoa-injective m n (cc e)

subnet_before : SubnetRow → SubnetRow → Bool
subnet_before r s = ltb r.id s.id

-- The document of an export.
abbrev exported : ℕ → Tables → ExportDocument
unfolding subnet_before
exported now t = record {
  segments = map export_segment_from (order_by subnet_before t.subnets.rows);
  hosts = map export_host_from (listed now t);
  ports = export_ports (listed now t);
}

export-run :
    (now : ℕ) (w : World)
    → IsHealthy w.db
    → (k : ℕ) × (export_network_map now w
        ≡ (returns (exported now w.db.tables), record w { db = record (w.db) { clock = k } }))
unfolding export_network_map list_subnets Reads pure subnet_before
export-run now w healthy =
    let (k, e) = list_hosts-Reads now (tick w.db) healthy in
    (
      k,
      called list_subnets _ w
            (run-query (λ t. order_by subnet_before t.subnets.rows) w.db (healthy w.db.clock))
          ∙ called (list_hosts now) _ (record w { db = tick w.db }) e,
    )

module _ {A B : Type 0} (f : A → B) where
  any_of_map : (p : B → Bool) (xs : List A) → any p (map f xs) ≡ any (λ x. p (f x)) xs
  any_of_map p [] = refl
  any_of_map p (x ∷ xs) = ap (λ b. p (f x) || b) (any_of_map p xs)

  All-of_map : (P : B → Type 0) (xs : List A) → All (λ x. P (f x)) xs → All P (map f xs)
  All-of_map P [] a = tt
  All-of_map P (x ∷ xs) (p, a) = (p, All-of_map P xs a)

-- The segments of an export with the id of a subnet have its CIDR.
segment-Means :
    (key_id : ℕ) (sn r : SubnetRow) (rows : List SubnetRow)
    → find_if (is_id key_id) rows ≡ some sn
    → find_if (is_id r.id) rows ≡ some r
    → Means (segment_export_id key_id) sn.cidr (export_segment_from r)
segment-Means key_id sn r rows found own same =
    let e = segment_export_id-injective r.id key_id ((text_eq_iff _ _).0 same) in
    let both : some r ≡ some sn = sym own ∙ (ap (λ i. find_if (is_id i) rows) e ∙ found) in
    let is_sn : r ≡ sn = cc both in ap (λ (x : SubnetRow). x.cidr) is_sn

module _ (now : ℕ) (t : Tables) (wf : IsWf t) (h : HostRow) (sn : SubnetRow)
    (subnet_found : find_if (is_id h.subnet_id) t.subnets.rows ≡ some sn)
    (host_found : find_if (is_id h.id) t.hosts.rows ≡ some h) where
  key : Text
  key = segment_export_id h.subnet_id

  segment_listed : any (has_key key) (exported now t).segments ≡ true
  unfolding key exported
  segment_listed =
      let test = λ (r : SubnetRow). text_eq (segment_export_id r.id) key in
      let own : (sn.id == h.subnet_id) ≡ true =
        find_if-holds (is_id h.subnet_id) t.subnets.rows subnet_found in
      let passes : test sn ≡ true =
        ap (λ i. text_eq (segment_export_id i) key) ((==_iff _ _).0 own) ∙ text_eq_refl key in
      any_of_map export_segment_from (has_key key) (order_by subnet_before t.subnets.rows)
      ∙ any-order_by test subnet_before t.subnets.rows
          (any_of_found (is_id h.subnet_id) test t.subnets.rows subnet_found passes)

  segments_mean : All (Means key sn.cidr) (exported now t).segments
  unfolding key exported
  segments_mean =
      All-of_map export_segment_from (Means key sn.cidr) (order_by subnet_before t.subnets.rows) (
        All-order_by (λ r. Means key sn.cidr (export_segment_from r)) subnet_before t.subnets.rows
          (All-imp _ _ t.subnets.rows
            (λ r own. segment-Means h.subnet_id sn r t.subnets.rows subnet_found own)
            (All-found t.subnets.next t.subnets.rows wf.subnets_wf.ids)))

  host_listed : any (is_entry key h.ip) (exported now t).hosts ≡ true
  unfolding key exported export_host_from
  host_listed =
      let sorted = order_by host_before t.hosts.rows in
      let view = λ (x : HostRow). shown now (rules_in t) (count_of (mac_counts sorted) x) x t in
      let test = λ (x : HostRow). is_entry key h.ip (export_host_from (view x)) in
      let passes : test h ≡ true =
        ap (λ (x : HostRow). text_eq (segment_export_id x.subnet_id) key && text_eq x.ip h.ip)
          (shown-row now (rules_in t) (count_of (mac_counts sorted) h) h t)
        ∙ ap₂ (λ a b. a && b) (text_eq_refl key) (text_eq_refl h.ip) in
      any_of_map export_host_from (is_entry key h.ip) (map view sorted)
      ∙ any_of_map view (λ x. is_entry key h.ip (export_host_from x)) sorted
      ∙ any-order_by test host_before t.hosts.rows
          (any_of_found (is_id h.id) test t.hosts.rows host_found passes)

-- An export of a network map from a healthy, well-formed database succeeds, and its import into any
-- healthy database brings back every host of the first one whose address and CIDR are accepted: the
-- second database then has a subnet with the CIDR of the host's subnet, and under it a host with the
-- address.
pub import-export_network_map :
    (go : Parsers) (now later : ℕ) (w v : World) (h : HostRow) (sn : SubnetRow)
    → IsHealthy w.db
    → IsWf w.db.tables
    → IsHealthy v.db
    → find_if (is_id h.id) w.db.tables.hosts.rows ≡ some h
    → find_if (is_id h.subnet_id) w.db.tables.subnets.rows ≡ some sn
    → go.is_cidr sn.cidr ≡ true
    → go.is_ip h.ip ≡ true
    → (doc : ExportDocument) × ((export_network_map now w).0 ≡ returns doc)
      × (k : ℕ) × HasCidr k sn.cidr (import_network_map go later (some doc) v).1.db.tables
      × HasHost k h.ip (import_network_map go later (some doc) v).1.db.tables
import-export_network_map go now later w v h sn healthy wf healthy' here parent cidr_ok ip_ok =
    let t = w.db.tables in
    let (clock, run) = export-run now w healthy in
    let (k, a, b) =
      import_network_map-Lands go later (exported now t) v (key now t wf h sn parent here) sn.cidr
        h.ip healthy' ip_ok
        (last_cidr_lem go (key now t wf h sn parent here) sn.cidr (exported now t).segments none
          cidr_ok (segments_mean now t wf h sn parent here)
          (inr (segment_listed now t wf h sn parent here)))
        (host_listed now t wf h sn parent here) in
    (exported now t, ap (λ r. r.0) run, k, a, b)
