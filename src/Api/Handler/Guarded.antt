-- ===== src/Api/Handler/Guarded.antt =====
-- A handler of internal/api that refuses a request leaves the server as it was. Refusals are the
-- statuses 400 and 409; on 404 and 500 the store may have been written.
use network_enumerator.Common.{
  Text, ℕ, ◌≡◌, refl, ◌∙◌, ◌⊎◌, Bool, true, false, Option, none, some, inl, inr, arith,
}
use network_enumerator.Store.Schema.{Tables, EventRow}
use network_enumerator.Store.Sql.{M, Outcome, ok, err, after}
use network_enumerator.Store.Sql.Keeps.{Keeps}
use network_enumerator.Discovery.Method.{ScanMode}
use network_enumerator.Store.Events.{add_event}
use network_enumerator.Api.Handler.{
  World, Result, returns, fails, H, ◌>>=◌, ◌>>◌, resume, pure, check, given, settled, stored,
  broadcast_outcome, announce, request_scan,
}

-- The tables, the hub and the scanner are the same.
abbrev pub Unchanged : World → World → Type 0
Unchanged w w' =
    (w'.db.tables ≡ w.db.tables)
    × (w'.hub ≡ w.hub)
    × (w'.scanner ≡ w.scanner)
    × (w'.deep_scans ≡ w.deep_scans)

abbrev pub Refuses : ℕ → Type 0
Refuses status = (status ≡ 400) ⊎ (status ≡ 409)

abbrev pub IsRefusal : {A : Type 0} → Result A → Type 0
IsRefusal (returns a) = ⊥
IsRefusal (fails status) = Refuses status

module _ {A : Type 0} where
  -- It changes nothing.
  unfoldable pub IsQuiet : H A → Type 0
  IsQuiet h = (w : World) → Unchanged w (h w).1

  -- It refuses nothing.
  unfoldable pub IsFirm : H A → Type 0
  IsFirm h = (w : World) → ¬ (IsRefusal (h w).0)

  unfoldable pub IsGuarded : H A → Type 0
  IsGuarded h = (w : World) → IsRefusal (h w).0 → Unchanged w (h w).1

  pub Guarded-firm : (h : H A) → IsFirm h → IsGuarded h
  unfolding IsFirm IsGuarded
  Guarded-firm h firm w r = elim (firm w r) [ ]

  pub Guarded-quiet : (h : H A) → IsQuiet h → IsGuarded h
  unfolding IsQuiet IsGuarded
  Guarded-quiet h quiet w r = quiet w

  pub Firm-pure : (a : A) → IsFirm (pure a)
  unfolding IsFirm pure
  Firm-pure a w r = r

  pub Quiet-given : (a : Option A) → IsQuiet (given a)
  unfolding IsQuiet given
  Quiet-given none w = (refl, refl, refl, refl)
  Quiet-given (some a) w = (refl, refl, refl, refl)

  settled_firm :
      (status : ℕ) (w : World) (o : Outcome A)
      → ¬ (Refuses status)
      → ¬ (IsRefusal (settled status w o).0)
  settled_firm status w (ok a d) h r = r
  settled_firm status w (err e d) h r = h r

  -- A call of the store whose errors are written as another status.
  pub Firm-stored : (status : ℕ) (m : M A) → ¬ (Refuses status) → IsFirm (stored status m)
  unfolding IsFirm stored
  Firm-stored status m h w = settled_firm status w (m w.db) h

  settled_quiet :
      (status : ℕ) (w : World) (o : Outcome A)
      → (after o).tables ≡ w.db.tables
      → Unchanged w (settled status w o).1
  settled_quiet status w (ok a d) h = (h, refl, refl, refl)
  settled_quiet status w (err e d) h = (h, refl, refl, refl)

  -- A call of the store that only reads.
  pub Quiet-stored :
      (status : ℕ) (m : M A) → ((t : Tables) → Keeps (λ t'. t' ≡ t) m) → IsQuiet (stored status m)
  unfolding IsQuiet Keeps stored
  Quiet-stored status m keeps w = settled_quiet status w (m w.db) (keeps w.db.tables w.db refl)

pub Quiet-check : (b : Bool) (status : ℕ) → IsQuiet (check b status)
unfolding IsQuiet check
Quiet-check true status w = (refl, refl, refl, refl)
Quiet-check false status w = (refl, refl, refl, refl)

pub Firm-announce : (type message : Text) (id now : ℕ) → IsFirm (announce type message id now)
unfolding IsFirm announce
Firm-announce type message id now w = go w (add_event type message id now w.db)
  where
    go : (w : World) (o : Outcome EventRow) → ¬ (IsRefusal (broadcast_outcome w o).0)
    go w (ok ev d) r = r
    go w (err e d) r = r

pub Firm-request_scan : (mode : ScanMode) → IsFirm (request_scan mode)
unfolding IsFirm request_scan
Firm-request_scan mode w r = r

module _ {A B : Type 0} (h : H A) (f : A → H B) where
  resumed_firm :
      (r : Result A) (w : World)
      → ¬ (IsRefusal r)
      → ((a : A) → IsFirm (f a))
      → ¬ (IsRefusal (resume r w f).0)
  unfolding IsFirm
  resumed_firm (returns a) w n firm = firm a w
  resumed_firm (fails status) w n firm = n

  pub Firm->>= : IsFirm h → ((a : A) → IsFirm (f a)) → IsFirm (h >>= f)
  unfolding IsFirm ◌>>=◌
  Firm->>= firm rest w = resumed_firm (h w).0 (h w).1 (firm w) rest

  resumed_guarded :
      (r : Result A) (w w' : World)
      → Unchanged w w'
      → ((a : A) → IsGuarded (f a))
      → IsRefusal (resume r w' f).0
      → Unchanged w (resume r w' f).1
  unfolding IsGuarded
  resumed_guarded (returns a) w w' same guarded r =
      let (t, u, s, d) = same in
      let (t', u', s', d') = guarded a w' r in (t' ∙ t, u' ∙ u, s' ∙ s, d' ∙ d)
  resumed_guarded (fails status) w w' same guarded r = same

  pub Guarded->>= : IsQuiet h → ((a : A) → IsGuarded (f a)) → IsGuarded (h >>= f)
  unfolding IsQuiet IsGuarded ◌>>=◌
  Guarded->>= quiet guarded w r = resumed_guarded (h w).0 w (h w).1 (quiet w) guarded r

  finished_guarded :
      (r : Result A) (w w' : World)
      → (IsRefusal r → Unchanged w w')
      → ((a : A) → IsFirm (f a))
      → IsRefusal (resume r w' f).0
      → Unchanged w (resume r w' f).1
  unfolding IsFirm
  finished_guarded (returns a) w w' same firm r = elim (firm a w' r) [ ]
  finished_guarded (fails status) w w' same firm r = same r

  pub Guarded->>=-firm : IsGuarded h → ((a : A) → IsFirm (f a)) → IsGuarded (h >>= f)
  unfolding IsGuarded ◌>>=◌
  Guarded->>=-firm guarded firm w r = finished_guarded (h w).0 w (h w).1 (guarded w) firm r

module _ {A B : Type 0} (h : H A) (k : H B) where
  pub Firm->> : IsFirm h → IsFirm k → IsFirm (h >> k)
  unfolding IsFirm ◌>>◌
  Firm->> firm rest w = resumed_firm h (λ _. k) (h w).0 (h w).1 (firm w) (λ _. rest)

  pub Guarded->> : IsQuiet h → IsGuarded k → IsGuarded (h >> k)
  unfolding IsQuiet IsGuarded ◌>>◌
  Guarded->> quiet guarded w r =
      resumed_guarded h (λ _. k) (h w).0 w (h w).1 (quiet w) (λ _. guarded) r

  pub Guarded->>-firm : IsGuarded h → IsFirm k → IsGuarded (h >> k)
  unfolding IsGuarded ◌>>◌
  Guarded->>-firm guarded firm w r =
      finished_guarded h (λ _. k) (h w).0 w (h w).1 (guarded w) (λ _. firm) r

-- The statuses of errors of the store.
pub internal_error : ¬ (Refuses 500)
internal_error (inl e) = omega arith
internal_error (inr e) = omega arith

pub not_found : ¬ (Refuses 404)
not_found (inl e) = omega arith
not_found (inr e) = omega arith
