-- ===== src/Api/Handler/Keeping.antt =====
-- A predicate of the tables that a handler of internal/api keeps, whatever it answers.
use network_enumerator.Common.{ℕ, Bool, true, false, Option, none, some, Text}
use network_enumerator.Store.Schema.{Tables, EventRow}
use network_enumerator.Store.Sql.{M, Outcome, ok, err, after}
use network_enumerator.Store.Sql.Keeps.{Keeps}
use network_enumerator.Store.Events.{add_event}
use network_enumerator.Discovery.Method.{ScanMode}
use network_enumerator.Api.Handler.{
  World, Result, returns, fails, H, ◌>>=◌, ◌>>◌, resume, pure, check, given, settled, stored,
  for_field, broadcast_outcome, announce, request_scan,
}

module _ (P : Tables → Type 0) where
  unfoldable pub Preserves : {A : Type 0} → H A → Type 0
  Preserves h = (w : World) → P w.db.tables → P (h w).1.db.tables

  module _ {A : Type 0} where
    pub Preserves-pure : (a : A) → Preserves (pure a)
    unfolding Preserves pure
    Preserves-pure a w p = p

    pub Preserves-given : (a : Option A) → Preserves (given a)
    unfolding Preserves given
    Preserves-given none w p = p
    Preserves-given (some a) w p = p

    settled_keeps :
        (status : ℕ) (w : World) (o : Outcome A)
        → P (after o).tables
        → P (settled status w o).1.db.tables
    settled_keeps status w (ok a d) p = p
    settled_keeps status w (err e d) p = p

    pub Preserves-stored : (status : ℕ) (m : M A) → Keeps P m → Preserves (stored status m)
    unfolding Preserves Keeps stored
    Preserves-stored status m keeps w p = settled_keeps status w (m w.db) (keeps w.db p)

  pub Preserves-check : (b : Bool) (status : ℕ) → Preserves (check b status)
  unfolding Preserves check
  Preserves-check true status w p = p
  Preserves-check false status w p = p

  pub Preserves-for_field :
      {A : Type 0} (o : Option A) (f : A → H (Unit {0}))
      → ((a : A) → Preserves (f a))
      → Preserves (for_field o f)
  unfolding for_field
  Preserves-for_field none f keeps = Preserves-pure tt
  Preserves-for_field (some a) f keeps = keeps a

  broadcast_keeps :
      (w : World) (o : Outcome EventRow)
      → P (after o).tables
      → P (broadcast_outcome w o).1.db.tables
  broadcast_keeps w (ok ev d) p = p
  broadcast_keeps w (err e d) p = p

  pub Preserves-announce :
      (type message : Text) (id now : ℕ)
      → Keeps P (add_event type message id now)
      → Preserves (announce type message id now)
  unfolding Preserves Keeps announce
  Preserves-announce type message id now keeps w p =
      broadcast_keeps w (add_event type message id now w.db) (keeps w.db p)

  pub Preserves-request_scan : (mode : ScanMode) → Preserves (request_scan mode)
  unfolding Preserves request_scan
  Preserves-request_scan mode w p = p

  module _ {A B : Type 0} (h : H A) where
    resumed_keeps :
        (f : A → H B) (r : Result A) (w : World)
        → P w.db.tables
        → ((a : A) → Preserves (f a))
        → P (resume r w f).1.db.tables
    unfolding Preserves
    resumed_keeps f (returns a) w p keeps = keeps a w p
    resumed_keeps f (fails status) w p keeps = p

    pub Preserves->>= :
        (f : A → H B) → Preserves h → ((a : A) → Preserves (f a)) → Preserves (h >>= f)
    unfolding Preserves ◌>>=◌
    Preserves->>= f first rest w p = resumed_keeps f (h w).0 (h w).1 (first w p) rest

    pub Preserves->> : (k : H B) → Preserves h → Preserves k → Preserves (h >> k)
    unfolding Preserves ◌>>◌
    Preserves->> k first rest w p = resumed_keeps (λ _. k) (h w).0 (h w).1 (first w p) (λ _. rest)
