-- ===== src/Api/Handler/Tails.antt =====
-- Rules for the handlers of internal/api: what they test first, and what they end with.
use network_enumerator.Common.{ℕ, refl, Bool, Option, none, some}
use network_enumerator.Store.Sql.{M}
use network_enumerator.Api.Handler.{H, ◌>>=◌, ◌>>◌, check, given, stored, for_field}
use network_enumerator.Api.Handler.Guarded.{
  IsFirm, IsGuarded, Firm-pure, Quiet-given, Firm-stored, Quiet-check, Guarded->>=, Guarded->>,
  internal_error, not_found,
}

-- The calls of the store with their statuses.
pub call : {A : Type 0} (m : M A) → IsFirm (stored 500 m)
call m = Firm-stored 500 m internal_error

pub lookup : {A : Type 0} (m : M A) → IsFirm (stored 404 m)
lookup m = Firm-stored 404 m not_found

pub Firm-for_field :
    {A : Type 0} (o : Option A) (f : A → H (Unit {0}))
    → ((a : A) → IsFirm (f a))
    → IsFirm (for_field o f)
unfolding for_field
Firm-for_field none f firm = Firm-pure tt
Firm-for_field (some a) f firm = firm a

pub on_path :
    {A B : Type 0} (path : Option A) (f : A → H B)
    → ((a : A) → IsGuarded (f a))
    → IsGuarded (given path >>= f)
on_path path f guarded = Guarded->>= (given path) f (Quiet-given path) guarded

pub after_check :
    {A : Type 0} (b : Bool) (status : ℕ) (k : H A) → IsGuarded k → IsGuarded (check b status >> k)
after_check b status k guarded = Guarded->> (check b status) k (Quiet-check b status) guarded

-- A body that is there, and one that is not.
pub with_body :
    {A B : Type 0} (a : A) (f : A → H B) → IsGuarded (f a) → IsGuarded (given (some a) >>= f)
unfolding IsGuarded given ◌>>=◌
with_body a f guarded = guarded

pub without_body : {A B : Type 0} (f : A → H B) → IsGuarded (given none >>= f)
unfolding IsGuarded given ◌>>=◌
without_body f w r = (refl, refl, refl, refl)
