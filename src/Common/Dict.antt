-- ===== src/Common/Dict.antt =====
-- A Go map whose keys are strings, as a list of its entries. Where the source ranges over a map, the
-- order of the list is the order that it happens to meet.
use mathlib.Core.Path.{◌≡◌, refl}
use mathlib.Core.Option.{Option, none, some}
use mathlib.Core.List.{List, [], ◌∷◌}
use native.Mathlib.Omega.{arith}
use network_enumerator.Common.Tests.{if◌then◌else◌}
use network_enumerator.Common.Texts.{Text, text_eq, text_eq_iff}

module _ {ℓ} {V : Type ℓ} where
  -- `v, ok := m[k]`.
  abbrev pub get : Text → List (Text × V) → Option V
  get k [] = none
  get k (e ∷ m) = let rest = get k m in if text_eq e.0 k then some e.1 else rest

  -- `m[k] = v`.
  abbrev pub put : Text → V → List (Text × V) → List (Text × V)
  put k v [] = (k, v) ∷ []
  put k v (e ∷ m) = let rest = put k v m in if text_eq e.0 k then (k, v) ∷ m else e ∷ rest

  abbrev pub keys : List (Text × V) → List Text
  keys [] = []
  keys (e ∷ m) = e.0 ∷ keys m

  pub get-put :
      (j k : Text) (v : V) (m : List (Text × V))
      → get j (put k v m) ≡ (if text_eq k j then some v else get j m)
  get-put j k v [] = refl
  get-put j k v (e ∷ m) =
      ground (arith, text_eq_iff k j, text_eq_iff e.0 k, text_eq_iff e.0 j, get-put j k v m)
