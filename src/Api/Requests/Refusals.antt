-- ===== src/Api/Requests/Refusals.antt =====
-- The handlers of internal/api/server.go and settings.go leave no trace of a request that they refuse.
use network_enumerator.Common.{
  ℕ, ◌≡◌, refl, Bool, true, not, ◌==◌, Option, none, some, Text, Bool-cases, inl, inr,
}
use network_enumerator.Store.Sql.{M}
use network_enumerator.Store.View.{Host, get_host}
use network_enumerator.Store.View.ReadOnly.{get_host-Keeps}
use network_enumerator.Discovery.Network.{Network}
use network_enumerator.Discovery.Method.{ScanMode}
use network_enumerator.Discovery.DeepScan.{is_deep_scanning, claim_deep_scan, trigger_deep_scan}
use network_enumerator.Discovery.DeepScan.{DeepScans}
use network_enumerator.Store.Sql.{Outcome, ok, err}
use network_enumerator.Api.Handler.{
  World, ◌>>=◌, ◌>>◌, check, given, stored, for_field, request_scan, Parsers,
}
use network_enumerator.Api.Handler.Guarded.{
  IsRefusal, IsFirm, IsGuarded, Guarded-firm, Firm-pure, Firm-stored, Quiet-stored, Firm-announce,
  Firm-request_scan, Firm->>=, Firm->>, Guarded->>=, Guarded->>-firm, internal_error,
}
use network_enumerator.Api.Handler.Tails.{
  call, lookup, Firm-for_field, on_path, after_check, with_body, without_body,
}
use network_enumerator.Api.Subnets.{SubnetRequest, SubnetPatch, create_subnet, update_subnet}
use network_enumerator.Api.Hosts.{
  HostRequest, HostPatch, create_host, mac_ok, set_mac, update_host, clear_all_hosts_handler,
  add_host_tag_handler, remove_host_tag_handler, reviewed, acknowledge_all_hosts_new_handler,
  start_deep_scan, deep_scan_requested, deep_scan_host_handler,
}
use network_enumerator.Api.Tags.{
  TagRequest, SettingsPatch, create_tag_handler, get_settings, change_scan_method, update_settings,
  scan_status,
}

module _ (go : Parsers) (now : ℕ) where
  pub create_subnet-Guarded : (body : Option SubnetRequest) → IsGuarded (create_subnet go now body)
  unfolding create_subnet
  create_subnet-Guarded body = on_path body _ λ q. after_check (go.is_cidr q.cidr) 400 _ (
      Guarded-firm _
        (Firm->>= _ _ (call _) (λ sn. Firm->> _ _ (Firm-request_scan _) (Firm-pure sn))))

  pub create_host-Guarded : (body : Option HostRequest) → IsGuarded (create_host go now body)
  unfolding create_host
  create_host-Guarded body = on_path body _ λ q. after_check (go.is_ip q.ip) 400 _ (
      after_check (not (q.subnet_id == 0)) 400 _ (
        Guarded-firm _
          (Firm->>= _ _ (call _) (λ h. Firm->> _ _ (Firm-announce _ _ _ now) (Firm-pure h)))))

  -- A body of `updateHost` without an address, or with one that is accepted.
  abbrev pub no_bad_mac : Option Text → Bool
  no_bad_mac none = true
  no_bad_mac (some mac) = mac_ok go mac

  set_mac-Firm : (id : ℕ) (mac : Text) → mac_ok go mac ≡ true → IsFirm (set_mac go id mac)
  unfolding set_mac IsFirm check ◌>>◌
  set_mac-Firm id mac accepted = rw accepted (Firm-stored 500 _ internal_error)

  mac_field-Firm :
      (id : ℕ) (o : Option Text) → no_bad_mac o ≡ true → IsFirm (for_field o (set_mac go id))
  unfolding for_field
  mac_field-Firm id none accepted = Firm-pure tt
  mac_field-Firm id (some mac) accepted = set_mac-Firm id mac accepted

  pub update_host-Guarded :
      (path : Option ℕ) (q : HostPatch)
      → no_bad_mac q.mac ≡ true
      → IsGuarded (update_host go now path (some q))
  unfolding update_host
  update_host-Guarded path q accepted = on_path path _ λ id. with_body q _ (
      Guarded-firm _ (
        Firm->> _ _ (Firm-for_field q.notes _ (λ n. call _)) (
          Firm->> _ _ (Firm-for_field q.hostname _ (λ n. call _))
            (Firm->> _ _ (mac_field-Firm id q.mac accepted) (lookup _)))))

  pub no_host_body-Guarded : (path : Option ℕ) → IsGuarded (update_host go now path none)
  unfolding update_host
  no_host_body-Guarded path = on_path path _ (λ id. without_body _)

pub update_subnet-Guarded :
    (path : Option ℕ) (body : Option SubnetPatch) → IsGuarded (update_subnet path body)
unfolding update_subnet
update_subnet-Guarded path body = on_path path _ λ id. on_path body _ λ q. Guarded-firm _ (
    Firm->> _ _ (Firm-for_field q.hidden _ (λ b. call _)) (
      Firm->> _ _ (Firm-for_field q.enabled _ (λ b. call _))
        (Firm-for_field q.name _ (λ name. call _))))

-- A handler that makes one call for the row of the path.
pub on_row :
    {A : Type 0} (path : Option ℕ) (m : ℕ → M A)
    → IsGuarded (given path >>= λ id. stored 500 (m id))
on_row path m = on_path path _ (λ id. Guarded-firm _ (call (m id)))

-- A handler that makes one call and then shows the host of the path.
pub on_host :
    (now : ℕ) (path : Option ℕ) (m : ℕ → M (Unit {0}))
    → IsGuarded (given path >>= λ id. stored 500 (m id) >> stored 404 (get_host id now))
on_host now path m = on_path path _ (λ id. Guarded-firm _ (Firm->> _ _ (call (m id)) (lookup _)))

pub add_host_tag-Guarded :
    (now : ℕ) (path tag_id : Option ℕ) → IsGuarded (add_host_tag_handler now path tag_id)
unfolding add_host_tag_handler
add_host_tag-Guarded now path tag_id =
    on_path path _ λ id. on_path tag_id _ λ tag. Guarded-firm _ (Firm->> _ _ (call _) (lookup _))

pub remove_host_tag-Guarded :
    (path tag_id : Option ℕ) → IsGuarded (remove_host_tag_handler path tag_id)
unfolding remove_host_tag_handler
remove_host_tag-Guarded path tag_id =
    on_path path _ (λ id. on_path tag_id _ (λ tag. Guarded-firm _ (call _)))

pub clear_all_hosts-Guarded :
    (now : ℕ) (confirm : Text) → IsGuarded (clear_all_hosts_handler now confirm)
unfolding clear_all_hosts_handler
clear_all_hosts-Guarded now confirm =
    after_check _ 400 _ (Guarded-firm _ (Firm->> _ _ (call _) (Firm-announce _ _ 0 now)))

reviewed-Firm : (now n : ℕ) → IsFirm (reviewed now n)
unfolding reviewed
reviewed-Firm now n = elim (Bool-cases (n == 0)) [
  | inl c ↦ rw c (Firm->> _ _ (Firm-pure tt) (Firm-pure n))
  | inr c ↦ rw c (Firm->> _ _ (Firm-announce _ _ 0 now) (Firm-pure n))
]

pub acknowledge_all-Guarded : (now : ℕ) → IsGuarded (acknowledge_all_hosts_new_handler now)
unfolding acknowledge_all_hosts_new_handler
acknowledge_all-Guarded now = Guarded-firm _ (Firm->>= _ _ (call _) (reviewed-Firm now))

started_firm :
    (w : World) (scans : DeepScans) (o : Outcome (Unit {0}))
    → ¬ (
        IsRefusal
          (deep_scan_requested w (elim o as (λ _. Outcome (Bool × DeepScans)) [
            | ok _ d ↦ ok (true, scans) d
            | err e d ↦ err e d
          ])).0)
started_firm w scans (ok _ d) r = r
started_firm w scans (err e d) r = internal_error r

start_deep_scan-Guarded : (now : ℕ) (h : Host) → IsGuarded (start_deep_scan now h)
unfolding IsGuarded start_deep_scan trigger_deep_scan claim_deep_scan
start_deep_scan-Guarded now h w =
    elim (Bool-cases (is_deep_scanning h.row.id w.deep_scans.deep_scanning)) [
      | inl c ↦ rw c (λ r. (refl, refl, refl, refl))
      | inr c ↦ rw c (λ r. elim (started_firm w _ _ r) [ ])
    ]

pub deep_scan_host-Guarded :
    (now : ℕ) (path : Option ℕ) → IsGuarded (deep_scan_host_handler now path)
unfolding deep_scan_host_handler
deep_scan_host-Guarded now path = on_path path _ λ id.
    Guarded->>= _ _ (Quiet-stored 404 _ (λ t. get_host-Keeps (λ t'. t' ≡ t) id now))
      (start_deep_scan-Guarded now)

pub create_tag-Guarded : (body : Option TagRequest) → IsGuarded (create_tag_handler body)
unfolding create_tag_handler
create_tag-Guarded body = on_path body _ (λ q. after_check _ 400 _ (Guarded-firm _ (call _)))

module _ (net : Network) where
  pub get_settings-Firm : IsFirm (get_settings net)
  unfolding get_settings
  get_settings-Firm =
      Firm->>= _ _ (call _) (λ method. Firm->>= _ _ (call _) (λ enabled. Firm-pure _))

  method_field-Guarded : (o : Option Text) → IsGuarded (for_field o (change_scan_method net))
  unfolding for_field change_scan_method
  method_field-Guarded none = Guarded-firm _ (Firm-pure tt)
  method_field-Guarded (some m) = after_check _ 400 _ (Guarded-firm _ (call _))

  pub update_settings-Guarded : (body : Option SettingsPatch) → IsGuarded (update_settings net body)
  unfolding update_settings
  update_settings-Guarded body = on_path body _ λ q.
      Guarded->>-firm _ _ (method_field-Guarded q.scan_method)
        (Firm->> _ _ (Firm-for_field q.netdiscover_enabled _ (λ b. call _)) get_settings-Firm)

  pub scan_status-Firm : IsFirm (scan_status net)
  unfolding IsFirm
  scan_status-Firm w r = r

  pub requested-Firm : (mode : ScanMode) → IsFirm (request_scan mode >> scan_status net)
  requested-Firm mode = Firm->> _ _ (Firm-request_scan mode) scan_status-Firm
