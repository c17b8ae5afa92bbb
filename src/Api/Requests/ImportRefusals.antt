-- ===== src/Api/Requests/ImportRefusals.antt =====
-- The exports and imports of internal/api/export.go and systemexport.go refuse only a body that does not
-- decode.
use network_enumerator.Common.{ℕ, Option, Bool-cases, inl, inr, Text}
use network_enumerator.Api.Handler.{Parsers}
use network_enumerator.Api.Handler.Guarded.{
  IsFirm, IsGuarded, Guarded-firm, Firm-pure, Firm-announce, Firm-request_scan, Firm->>=, Firm->>,
}
use network_enumerator.Api.Handler.Tails.{call, on_path}
use network_enumerator.Api.Tags.{is_scan_method}
use network_enumerator.Api.Export.{
  ExportDocument, SystemDocument, export_network_map, export_system,
}
use network_enumerator.Api.Import.{
  announce_import, restore_scan_method, import_network_map, import_system,
}

pub exports-Firm : (now : ℕ) → IsFirm (export_network_map now) × IsFirm (export_system now)
unfolding export_network_map export_system
exports-Firm now = (
  Firm->>= _ _ (call _) (λ subnets. Firm->>= _ _ (call _) (λ hosts. Firm-pure _)),
  Firm->>= _ _ (call _) λ subnets. Firm->>= _ _ (call _) λ hosts.
      Firm->>= _ _ (call _)
        λ method. Firm->>= _ _ (call _) (λ enabled. Firm->>= _ _ (call _) (λ rules. Firm-pure _)),
)

module _ (go : Parsers) (now : ℕ) where
  announce_import-Firm : (message : Text) → IsFirm (announce_import message now)
  unfolding announce_import
  announce_import-Firm message = Firm->> _ _ (Firm-announce _ message 0 now) (Firm-request_scan _)

  pub import_network_map-Guarded :
      (body : Option ExportDocument) → IsGuarded (import_network_map go now body)
  unfolding import_network_map
  import_network_map-Guarded body = on_path body _ λ doc. Guarded-firm _ (
      Firm->>= _ _ (call _) λ ids.
        Firm->>= _ _ (call _)
          λ found. Firm->>= _ _ (call _) λ new. Firm->> _ _ (announce_import-Firm _) (Firm-pure _))

  restore-Firm : (method : Text) → IsFirm (restore_scan_method method)
  unfolding restore_scan_method
  restore-Firm method = elim (Bool-cases (is_scan_method method)) [
    | inl c ↦ rw c (call _)
    | inr c ↦ rw c (Firm-pure tt)
  ]

  pub import_system-Guarded : (body : Option SystemDocument) → IsGuarded (import_system go now body)
  unfolding import_system
  import_system-Guarded body = on_path body _ λ doc. Guarded-firm _ (
      Firm->>= _ _ (call _) λ ids. Firm->>= _ _ (call _) λ found. Firm->>= _ _ (call _) λ new.
        Firm->> _ _ (restore-Firm _) (
          Firm->> _ _ (call _)
            (Firm->>= _ _ (call _) λ rules. Firm->> _ _ (announce_import-Firm _) (Firm-pure _))))
