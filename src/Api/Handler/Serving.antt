-- ===== src/Api/Handler/Serving.antt =====
-- Rules for handlers of internal/api that keep a predicate of the tables.
use network_enumerator.Common.{ℕ, ◌≡◌, refl, Bool, true, false, Option, none, some, Text}
use network_enumerator.Store.Schema.{Tables}
use network_enumerator.Store.Sql.{M}
use network_enumerator.Store.Sql.Keeps.{Keeps}
use network_enumerator.Store.View.{get_host}
use network_enumerator.Store.View.ReadOnly.{get_host-Keeps}
use network_enumerator.Store.Events.{add_event}
use network_enumerator.Discovery.Method.{ScanMode}
use network_enumerator.Api.Handler.{
  H, ◌>>=◌, ◌>>◌, pure, check, given, stored, for_field, announce, request_scan,
}
use network_enumerator.Api.Handler.Keeping.{
  Preserves, Preserves-pure, Preserves-stored, Preserves-check, Preserves-announce,
  Preserves-request_scan, Preserves->>=, Preserves->>,
}

-- A handler that keeps the predicate.
pub record Serves (P : Tables → Type 0) {A : Type 0} (h : H A) : Type 0 where
  pub keeps : Preserves P h

module _ {P : Tables → Type 0} where
  pub done : {A : Type 0} (a : A) → Serves P (pure a)
  done a = record { keeps = Preserves-pure P a }

  pub call : {A : Type 0} (status : ℕ) (m : M A) → Keeps P m → Serves P (stored status m)
  call status m k = record { keeps = Preserves-stored P status m k }

  pub tests : (b : Bool) (status : ℕ) → Serves P (check b status)
  tests b status = record { keeps = Preserves-check P b status }

  pub queues : (mode : ScanMode) → Serves P (request_scan mode)
  queues mode = record { keeps = Preserves-request_scan P mode }

  infixr 4 ◌⨾◌
  pub ◌⨾◌ : {A B : Type 0} {h : H A} {k : H B} → Serves P h → Serves P k → Serves P (h >> k)
  ◌⨾◌ p q = record { keeps = Preserves->> P _ _ p.keeps q.keeps }

  pub bind :
      {A B : Type 0} {h : H A} (f : A → H B)
      → Serves P h
      → ((a : A) → Serves P (f a))
      → Serves P (h >>= f)
  bind f p q = record { keeps = Preserves->>= P _ f p.keeps (λ a. (q a).keeps) }

  -- What follows a test runs only if it holds.
  pub passes :
      {B : Type 0} (b : Bool) (status : ℕ) (k : H B)
      → (b ≡ true → Serves P k)
      → Serves P (check b status >> k)
  unfolding check ◌>>◌ Preserves
  passes true status k h = record { keeps = λ w p. (h refl).keeps w p }
  passes false status k h = record { keeps = λ w p. p }

  pub on :
      {A B : Type 0} (o : Option A) (f : A → H B)
      → ((a : A) → o ≡ some a → Serves P (f a))
      → Serves P (given o >>= f)
  unfolding given ◌>>=◌ Preserves
  on none f h = record { keeps = λ w p. p }
  on (some a) f h = record { keeps = λ w p. (h a refl).keeps w p }

  pub field :
      {A : Type 0} (o : Option A) (f : A → H (Unit {0}))
      → ((a : A) → o ≡ some a → Serves P (f a))
      → Serves P (for_field o f)
  unfolding for_field
  field none f h = done tt
  field (some a) f h = h a refl

  pub shows_host : (now id : ℕ) → Serves P (stored 404 (get_host id now))
  shows_host now id = call 404 _ (get_host-Keeps P id now)

  pub announces :
      (type message : Text) (id now : ℕ)
      → Keeps P (add_event type message id now)
      → Serves P (announce type message id now)
  announces type message id now k = record { keeps = Preserves-announce P type message id now k }
