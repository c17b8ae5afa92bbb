-- ===== src/Api/Requests/Survival.antt =====
-- What requests to internal/api leave of a host.
use network_enumerator.Common.{
  ℕ, ◌≡◌, ◌≢◌, sym, ap, ◌∙◌, true, false, Option, none, some, List, [], ◌∷◌, Text, text_eq_iff,
  ◌==◌, ==_iff, any, Bool-cases, inl, inr, and_true,
}
use network_enumerator.Store.Table.{is_id, delete_where}
use network_enumerator.Store.Schema.{Tables, HostRow, host_row, subnet_row}
use network_enumerator.Store.Constraints.{delete_subnets}
use network_enumerator.Store.Sql.Keeps.{Keeps, Keeps-exec}
use network_enumerator.Store.Subnets.{delete_subnet}
use network_enumerator.Store.Hosts.{update_host_notes, delete_host}
use network_enumerator.Discovery.Network.{Network}
use network_enumerator.Api.Handler.{World, H, Parsers}
use network_enumerator.Api.Handler.Keeping.{Preserves}
use network_enumerator.Api.Handler.Serving.{Serves, done, call, bind, on}
use network_enumerator.Api.Subnets.{delete_subnet_handler}
use network_enumerator.Api.Hosts.{HostPatch, delete_host_handler}
use network_enumerator.Api.Tags.{delete_tag_handler}
use network_enumerator.Api.Requests.Serving.{
  RequestKeeps, create_subnet-Serves, create_host-Serves, update_host-Serves, update_subnet-Serves,
  clear_all_hosts-Serves, acknowledge_all-Serves, deep_scan_host-Serves, host_handlers-Serves,
  tag_handlers-Serves, lists-Serves, create_tag_handler-Serves,
}
use network_enumerator.Api.Requests.ServingSettings.{
  get_settings-Serves, update_settings-Serves, scan_status-Serves, scans-Serves,
}
use network_enumerator.Api.Requests.ServingFiles.{
  exports-Serves, import_network_map-Serves, import_system-Serves,
}
use network_enumerator.Api.Requests.Enduring.{IsMild, Endures, Endures-RequestKeeps, skips, spares}
use network_enumerator.Api.Requests.Still.{is_still, Spares, AllSpare}
use network_enumerator.Api.Requests.{
  Request, Body, answers, serve, serve_all, lists_subnets, creates_subnet, updates_subnet,
  deletes_subnet, lists_hosts, gets_host, creates_host, updates_host, deletes_host,
  clears_all_hosts, adds_host_tag, removes_host_tag, acknowledges_host, unacknowledges_host,
  acknowledges_host_new, acknowledges_all_hosts_new, deep_scans_host, lists_tags, creates_tag,
  deletes_tag, gets_settings, updates_settings, lists_events, triggers_quick_scan,
  triggers_mass_scan, triggers_deep_scan, triggers_reverse_dns_scan, gets_scan_status,
  exports_network_map, imports_network_map, exports_system, imports_system,
}

is_still-mild :
    (old : HostRow) (f : HostRow → HostRow)
    → IsMild f
    → (h : HostRow) → is_still old h ≡ true
    → is_still old (f h) ≡ true
is_still-mild old f m h e = ap (is_still old) (m.mild h) ∙ e

is_still-id : (old h : HostRow) → is_still old h ≡ true → h.id ≡ old.id
is_still-id old h e = (==_iff _ _).0 (and_true _ _ e).0

is_still-subnet_id : (old h : HostRow) → is_still old h ≡ true → h.subnet_id ≡ old.subnet_id
is_still-subnet_id old h e = (==_iff _ _).0 (and_true _ _ (and_true _ _ e).1).0

differs : (m n : ℕ) → m ≢ n → (m == n) ≡ false
differs m n other = elim (Bool-cases (m == n)) [
  | inl e ↦ let no : ⊥ = other ((==_iff m n).0 e) in elim no [ ]
  | inr e ↦ e
]

answered :
    {P : Tables → Type 0} {A : Type 0} (code : ℕ) (body : A → Body) (h : H A)
    → Serves P h
    → Serves P (answers code body h)
answered code body h k = bind _ k (λ a. done _)

module _ (old : HostRow) where
  abbrev Still : Tables → Type 0
  Still = Endures (is_still old) (is_still-mild old)

  abbrev store : RequestKeeps Still
  store = Endures-RequestKeeps (is_still old) (is_still-mild old)

  other_host : (id : ℕ) → id ≢ old.id → (h : HostRow) → is_still old h ≡ true → is_id id h ≡ false
  other_host id other h e = differs h.id id (λ same. other (sym same ∙ is_still-id old h e))

  delete_host_handler-Serves :
      (path : Option ℕ) → path ≢ some old.id → Serves Still (delete_host_handler path)
  unfolding delete_host_handler delete_host
  delete_host_handler-Serves path other = on path _ λ id at. call 500 _ (
      Keeps-exec Still _ λ t k.
        spares (is_still old) (is_still-mild old) (is_id id) t
          (other_host id (λ same. other (at ∙ ap some same))) k)

  delete_subnet_handler-Serves :
      (path : Option ℕ) → path ≢ some old.subnet_id → Serves Still (delete_subnet_handler path)
  unfolding delete_subnet_handler delete_subnet delete_subnets
  delete_subnet_handler-Serves path other = on path _ λ id at. call 500 _ (
      Keeps-exec Still _ λ t k.
        spares (is_still old) (is_still-mild old) (λ h. h.subnet_id == id)
          (record t { subnets = delete_where (is_id id) t.subnets })
          (λ h e.
            differs h.subnet_id id
              (λ same. other (at ∙ ap some (sym same ∙ is_still-subnet_id old h e))))
          k)

  delete_tag_handler-Serves : (path : Option ℕ) → Serves Still (delete_tag_handler path)
  unfolding delete_tag_handler
  delete_tag_handler-Serves path = on path _ (λ id _. call 500 _ (store.deletes_tag id))

  notes-Keeps :
      (path : Option ℕ) (body : Option HostPatch)
      → Spares old (updates_host path body)
      → (id : ℕ) (q : HostPatch) (n : Text) → path ≡ some id
      → body ≡ some q
      → q.notes ≡ some n
      → Keeps Still (update_host_notes id n)
  unfolding update_host_notes
  notes-Keeps path body spared id q n id_at q_at n_at =
      skips (is_still old) (is_still-mild old) id _ (
        other_host id λ same.
          let no_notes = spared q (id_at ∙ ap some same) q_at in
          let wrong : none ≡ some n = sym no_notes ∙ n_at in cc)

  module _ (go : Parsers) (net : Network) (now : ℕ) where
    serve-Serves : (r : Request) → Spares old r → Serves Still (serve go net now r)
    unfolding serve
    serve-Serves lists_subnets _ = answered 200 _ _ (lists-Serves Still store now).0
    serve-Serves (creates_subnet body) _ =
        answered 201 _ _ (create_subnet-Serves Still store go now body)
    serve-Serves (updates_subnet path body) _ =
        answered 204 _ _ (update_subnet-Serves Still store path body)
    serve-Serves (deletes_subnet path) spared =
        answered 204 _ _ (delete_subnet_handler-Serves path spared)
    serve-Serves lists_hosts _ = answered 200 _ _ (lists-Serves Still store now).1
    serve-Serves (gets_host path) _ = answered 200 _ _ (host_handlers-Serves Still store now path).3
    serve-Serves (creates_host body) _ =
        answered 201 _ _ (create_host-Serves Still store go now body)
    serve-Serves (updates_host path body) spared =
        answered 200 _ _
          (update_host-Serves Still store go now path body (notes-Keeps path body spared))
    serve-Serves (deletes_host path) spared =
        answered 204 _ _ (delete_host_handler-Serves path spared)
    serve-Serves (clears_all_hosts confirm) spared = answered 204 _ _ (
        clear_all_hosts-Serves Still store now confirm
          (λ ok. let no : ⊥ = spared ((text_eq_iff _ _).0 ok) in elim no [ ]))
    serve-Serves (adds_host_tag path tag_id) _ =
        answered 200 _ _ (tag_handlers-Serves Still store now path tag_id).0
    serve-Serves (removes_host_tag path tag_id) _ =
        answered 204 _ _ (tag_handlers-Serves Still store now path tag_id).1
    serve-Serves (acknowledges_host path) _ =
        answered 200 _ _ (host_handlers-Serves Still store now path).0
    serve-Serves (unacknowledges_host path) _ =
        answered 200 _ _ (host_handlers-Serves Still store now path).1
    serve-Serves (acknowledges_host_new path) _ =
        answered 200 _ _ (host_handlers-Serves Still store now path).2
    serve-Serves acknowledges_all_hosts_new _ =
        answered 200 _ _ (acknowledge_all-Serves Still store now)
    serve-Serves (deep_scans_host path) _ =
        answered 202 _ _ (deep_scan_host-Serves Still store now path)
    serve-Serves lists_tags _ = answered 200 _ _ (lists-Serves Still store now).2
    serve-Serves (creates_tag body) _ =
        answered 201 _ _ (create_tag_handler-Serves Still store body)
    serve-Serves (deletes_tag path) _ = answered 204 _ _ (delete_tag_handler-Serves path)
    serve-Serves gets_settings _ = answered 200 _ _ (get_settings-Serves Still store net)
    serve-Serves (updates_settings body) _ =
        answered 200 _ _ (update_settings-Serves Still store net body)
    serve-Serves lists_events _ = answered 200 _ _ (lists-Serves Still store now).3
    serve-Serves triggers_quick_scan _ = answered 202 _ _ (scans-Serves Still store net).0
    serve-Serves triggers_mass_scan _ = answered 202 _ _ (scans-Serves Still store net).1
    serve-Serves triggers_deep_scan _ = answered 202 _ _ (scans-Serves Still store net).2
    serve-Serves triggers_reverse_dns_scan _ = answered 202 _ _ (scans-Serves Still store net).3
    serve-Serves gets_scan_status _ = answered 200 _ _ (scan_status-Serves Still store net)
    serve-Serves exports_network_map _ = answered 200 _ _ (exports-Serves Still store now).0
    serve-Serves (imports_network_map body) _ =
        answered 200 _ _ (import_network_map-Serves Still store go now body)
    serve-Serves exports_system _ = answered 200 _ _ (exports-Serves Still store now).1
    serve-Serves (imports_system body) _ =
        answered 200 _ _ (import_system-Serves Still store go now body)

    -- A host survives any sequence of the requests of server.go, settings.go, export.go and
    -- systemexport.go in which none deletes this host or its subnet, clears all hosts with the passcode
    -- "1001", or edits the notes of this host: a host with its id is still in its subnet under its
    -- address, with its notes, its status, its misses and the times it was seen. This holds whatever
    -- the requests answer and whichever statements fail; the scans that they start are not part of it.
    pub serve_all-Survives :
        (requests : List Request) (w : World)
        → any (is_still old) w.db.tables.hosts.rows ≡ true
        → AllSpare old requests
        → any (is_still old) (serve_all go net now requests w).db.tables.hosts.rows ≡ true
    unfolding serve_all Preserves
    serve_all-Survives [] w k spared = k
    serve_all-Survives (r ∷ requests) w k (here, later) =
        serve_all-Survives requests (serve go net now r w).1 ((serve-Serves r here).keeps w k) later
