-- ===== src/Api/Handler.antt =====
-- How the handlers of internal/api run. A handler reads and changes the server, and either writes an
-- error with its status (`writeError`) and returns, or goes on. A body is `none` if `readJSON` refuses
-- it, and a path parameter is `none` if `pathID` does; an id that is negative names no row.
pub mod Guarded
pub mod Tails
pub mod Keeping
pub mod Serving
use network_enumerator.Common.{ℕ, Bool, true, false, Option, none, some, [], Text}
use network_enumerator.Store.Schema.{SubnetRow, TagRow, EventRow}
use network_enumerator.Store.Sql.{Db, M, Outcome, ok, err}
use network_enumerator.Store.Events.{add_event}
use network_enumerator.Store.View.{Host}
use network_enumerator.Discovery.Method.{ScanMode}
use network_enumerator.Discovery.Control.{Scanner, ScanStatus, trigger_scan}
use network_enumerator.Discovery.DeepScan.{DeepScans}
use network_enumerator.Api.Hub.{Hub, broadcast}

-- The fields of `Server` that the handlers here use; `deep_scans` is the scanner's.
pub record World : Type 0 where
  pub db : Db
  pub hub : Hub
  pub scanner : Scanner
  pub deep_scans : DeepScans

pub data Result (A : Type 0) : Type 0 where
  returns : A → Result A
  fails : (status : ℕ) → Result A

abbrev pub H : Type 0 → Type 0
H A = World → Result A × World

infixl 5 ◌>>=◌ ◌>>◌
abbrev pub resume : {A B : Type 0} → Result A → World → (A → H B) → Result B × World
resume (returns a) w f = f a w
resume (fails status) w f = (fails status, w)

unfoldable pub ◌>>=◌ : {A B : Type 0} → H A → (A → H B) → H B
◌>>=◌ h f w = resume (h w).0 (h w).1 f

unfoldable pub ◌>>◌ : {A B : Type 0} → H A → H B → H B
◌>>◌ h k w = resume (h w).0 (h w).1 (λ _. k)

unfoldable pub pure : {A : Type 0} → A → H A
pure a w = (returns a, w)

-- `writeError` and `return`.
unfoldable pub refuse : {A : Type 0} → ℕ → H A
refuse status w = (fails status, w)

-- `if !b { writeError; return }`.
unfoldable pub check : Bool → ℕ → H (Unit {0})
check true status w = (returns tt, w)
check false status w = (fails status, w)

-- A body or a path parameter: 400 if it is not there.
unfoldable pub given : {A : Type 0} → Option A → H A
given (some a) w = (returns a, w)
given none w = (fails 400, w)

-- What follows a call of the store.
abbrev pub settled : {A : Type 0} → ℕ → World → Outcome A → Result A × World
settled status w (ok a d) = (returns a, record w { db = d })
settled status w (err e d) = (fails status, record w { db = d })

-- A call of the store whose error is written with the status.
unfoldable pub stored : {A : Type 0} → ℕ → M A → H A
stored status m w = settled status w (m w.db)

-- A call for a field of the body, if it is there.
unfoldable pub for_field : {A : Type 0} → Option A → (A → H (Unit {0})) → H (Unit {0})
for_field none f = pure tt
for_field (some a) f = f a

-- The zero value of `model.Event`, which `AddEvent` returns on an error.
abbrev pub zero_event : EventRow
zero_event = record { id = 0; type = []; message = []; entity_id = 0; timestamp = 0 }

-- What follows `ev, _ := s.st.AddEvent(…)`.
abbrev pub broadcast_outcome : World → Outcome EventRow → Result (Unit {0}) × World
broadcast_outcome w (ok ev d) = (returns tt, record w { db = d; hub = broadcast ev w.hub })
broadcast_outcome w (err e d) = (returns tt, record w { db = d; hub = broadcast zero_event w.hub })

-- `ev, _ := s.st.AddEvent(…)` and `s.hub.Broadcast(ev)`.
unfoldable pub announce : Text → Text → ℕ → ℕ → H (Unit {0})
announce type message id now w = broadcast_outcome w (add_event type message id now w.db)

-- `s.scanner.TriggerNow()` and its like.
unfoldable pub request_scan : ScanMode → H (Unit {0})
request_scan mode w = (returns tt, record w { scanner = trigger_scan mode w.scanner })

-- The packages of Go that check the texts of a request: `net.ParseCIDR`, `net.ParseIP` and
-- `net.ParseMAC`.
pub record Parsers : Type 0 where
  pub is_cidr : Text → Bool
  pub is_ip : Text → Bool
  pub is_mac : Text → Bool
