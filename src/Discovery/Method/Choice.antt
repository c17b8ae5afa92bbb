-- ===== src/Discovery/Method/Choice.antt =====
-- Which technique `resolveScanMethod` (internal/discovery/scanner.go) settles on.
use network_enumerator.Common.{
  ◌≡◌, ◌≢◌, refl, ap, ◌∙◌, ◌↔◌, Bool, true, false, Option, none, some, Text, text_eq, text_eq_iff,
  if◌then◌else◌, Bool-cases, inl, inr,
}
use network_enumerator.Store.Schema.{Tables}
use network_enumerator.Store.Sql.{Db, Outcome, ok, err, engine, tick, pure, after, value}
use network_enumerator.Store.Sql.Runs.{run->>=}
use network_enumerator.Store.Settings.{
  scan_method_tcp, scan_method_auto, scan_method_key, setting, method_of, get_scan_method,
}
use network_enumerator.Discovery.Attempt.{attempt}
use network_enumerator.Discovery.Method.{
  ScanMode, regular, quick, mass, deep, reverse_dns, Method, tcp, nmap, tcp_or, preference,
  by_preference, effective_scan_method, resolve_scan_method,
}

-- The modes and the stored preferences with which a cycle may run nmap; `read` is `none` if the
-- preference cannot be read.
unfoldable pub MayUseNmap : ScanMode → Option Text → Type 0
MayUseNmap quick read = ⊥
MayUseNmap mass read = Unit
MayUseNmap deep read = Unit
MayUseNmap regular read = read ≢ some scan_method_tcp
MayUseNmap reverse_dns read = read ≢ some scan_method_tcp

tcp_or_iff : (o : Option Text) (path : Text) → (tcp_or o ≡ nmap path) ↔ (o ≡ some path)
tcp_or_iff none path = (λ e. cc, λ e. cc)
tcp_or_iff (some p) path = (λ e. cc, λ e. cc)

auto_is_not_tcp : text_eq scan_method_auto scan_method_tcp ≡ false
unfolding text_eq
auto_is_not_tcp = refl

preference_iff :
    (read : Option Text)
    → (text_eq (preference read) scan_method_tcp ≡ true) ↔ (read ≡ some scan_method_tcp)
preference_iff none = (λ e. let f = auto_is_not_tcp in cc, λ e. cc)
preference_iff (some pref) = (
  λ e. ap some ((text_eq_iff pref scan_method_tcp).0 e),
  λ e. (text_eq_iff pref scan_method_tcp).1 cc,
)

by_preference_iff :
    (o read : Option Text) (path : Text)
    → (by_preference o (preference read) ≡ nmap path)
      ↔ ((o ≡ some path) × (read ≢ some scan_method_tcp))
by_preference_iff o read path = elim (Bool-cases (text_eq (preference read) scan_method_tcp)) [
  | inl c ↦ rw c (λ e. cc, λ (_, other). elim (other ((preference_iff read).0 c)) [ ])
  | inr c ↦ rw c (
    λ e. ((tcp_or_iff o path).0 e, λ same. let c' = (preference_iff read).1 same in cc),
    λ (there, _). (tcp_or_iff o path).1 there,
  )
]

after_get :
    (b : Bool) (found : Option Text) (d : Db)
    → after (elim (if b then err engine d else ok found d) as (λ _. Outcome Text) [
      | ok a d' ↦ ok (method_of a) d'
      | err e d' ↦ err e d'
    ])
      ≡ d
after_get true found d = refl
after_get false found d = refl

attempted :
    (o : Outcome Text) (d : Db)
    → after o ≡ d
    → elim o as (λ _. Outcome (Option Text)) [ ok a d' ↦ ok (some a) d' | err e d' ↦ ok none d' ]
      ≡ ok (value o) d
attempted (ok a d') d e = ap (ok (some a)) e
attempted (err x d') d e = ap (ok none) e

run-effective_scan_method :
    (nmap_path : Option Text) (d : Db)
    → effective_scan_method nmap_path d
      ≡ ok (by_preference nmap_path (preference (value (get_scan_method d)))) (tick d)
unfolding effective_scan_method get_scan_method
run-effective_scan_method nmap_path d =
    run->>= (attempt get_scan_method) (λ read. pure (by_preference nmap_path (preference read))) d
      (attempted (get_scan_method d) (tick d)
        (after_get (d.fails d.clock) (setting scan_method_key d.tables.settings) (tick d)))

-- A result that a method returns without touching a table, and when it is nmap.
chosen_lem :
    (o : Outcome Method) (m : Method) (t : Tables) (d : Db) (path : Text) (P : Type 0)
    → o ≡ ok m d
    → d.tables ≡ t
    → ((m ≡ nmap path) ↔ P)
    → (value o ≢ none) × ((after o).tables ≡ t) × ((value o ≡ some (nmap path)) ↔ P)
chosen_lem o m t d path P e kept iff =
    let same : value o ≡ some m = ap value e in
    (
      λ missing. cc,
      ap (λ o'. (after o').tables) e ∙ kept,
      (λ h. iff.0 cc, λ p. same ∙ ap some (iff.1 p)),
    )

-- What a resolution in the mode `mode` amounts to on `d`, where `o` is its outcome.
abbrev pub Settles : Option Text → Text → ScanMode → Db → Outcome Method → Type 0
Settles nmap_path path mode d o =
    (value o ≢ none)
    × ((after o).tables ≡ d.tables)
    × ((value o ≡ some (nmap path))
        ↔ ((nmap_path ≡ some path) × MayUseNmap mode (value (get_scan_method d))))

forced :
    (nmap_path : Option Text) (path : Text) (d : Db)
    → Settles nmap_path path mass d (ok (tcp_or nmap_path) d)
unfolding MayUseNmap
forced nmap_path path d =
    chosen_lem (ok (tcp_or nmap_path) d) (tcp_or nmap_path) d.tables d path _ refl refl (
      λ e. ((tcp_or_iff nmap_path path).0 e, tt),
      λ (there, _). (tcp_or_iff nmap_path path).1 there,
    )

configured :
    (nmap_path : Option Text) (path : Text) (d : Db)
    → Settles nmap_path path regular d (effective_scan_method nmap_path d)
unfolding MayUseNmap
configured nmap_path path d =
    let read = value (get_scan_method d) in
    chosen_lem (effective_scan_method nmap_path d) (by_preference nmap_path (preference read))
      d.tables (tick d) path _ (run-effective_scan_method nmap_path d) refl
      (by_preference_iff nmap_path read path)

-- On any database, also one whose statements fail, `resolveScanMethod` settles on a technique and
-- changes no table. It settles on nmap under `path` exactly if nmap is installed there
-- and the mode is mass or deep, or is neither these nor quick and the preference does not read "tcp".
pub resolve_scan_method_lem :
    (nmap_path : Option Text) (path : Text) (mode : ScanMode) (d : Db)
    → Settles nmap_path path mode d (resolve_scan_method nmap_path mode d)
unfolding resolve_scan_method MayUseNmap
resolve_scan_method_lem nmap_path path quick d =
    chosen_lem (ok tcp d) tcp d.tables d path _ refl refl (λ e. cc, λ (_, never). elim never [ ])
resolve_scan_method_lem nmap_path path mass d = forced nmap_path path d
resolve_scan_method_lem nmap_path path deep d = forced nmap_path path d
resolve_scan_method_lem nmap_path path regular d = configured nmap_path path d
resolve_scan_method_lem nmap_path path reverse_dns d = configured nmap_path path d
