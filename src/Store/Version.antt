-- ===== src/Store/Version.antt =====
-- internal/store/version.go.
pub mod Order
use network_enumerator.Common.{
  ℕ, zero, suc, ◌+◌, Bool, true, false, ◌||◌, List, [], ◌∷◌, ◌++◌, ltb, ◌==◌, Text, length,
  if◌then◌else◌, is_digit, decimal, min,
}

-- The largest `int`, which `strconv.Atoi` returns for a number out of range.
abbrev pub max_int : ℕ
max_int = 9223372036854775807

unfoldable pub atoi : Text → ℕ
unfolding decimal
atoi s = min (decimal 0 s) max_int

-- `flush`, without the reset of `cur`.
pub flush : Text → List ℕ → List ℕ
unfolding atoi
flush [] out = out
flush (c ∷ cur) out = out ++ atoi (c ∷ cur) ∷ []

pub scan : Text → Text → List ℕ → List ℕ
unfolding flush
scan [] cur out = flush cur out
scan (r ∷ v) cur out =
    scan v (if is_digit r then cur ++ r ∷ [] else []) (if is_digit r then out else flush cur out)

unfoldable pub version_numbers : Text → List ℕ
unfolding scan
version_numbers v = scan v [] []

-- Component `i`, or 0 past the end.
abbrev pub component : List ℕ → ℕ → ℕ
component [] i = 0
component (x ∷ xs) zero = x
component (x ∷ xs) (suc i) = component xs i

-- The loop over `i`. The fuel is a bound on the rounds left.
unfoldable pub less_from : ℕ → ℕ → List ℕ → List ℕ → Bool
less_from zero i an bn = false
less_from (suc fuel) i an bn =
    let later = less_from fuel (suc i) an bn in
    let av = component an i in
    let bv = component bn i in
    if ltb i (length an) || ltb i (length bn)
    then (if av == bv then later else ltb av bv)
    else false

unfoldable pub version_less : Text → Text → Bool
unfolding less_from version_numbers
version_less a b =
    let an = version_numbers a in
    let bn = version_numbers b in less_from (length an + length bn) 0 an bn
