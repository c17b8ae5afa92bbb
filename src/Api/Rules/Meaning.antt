-- ===== src/Api/Rules/Meaning.antt =====
-- What the tests of the handlers of internal/api/risk.go amount to.
use network_enumerator.Common.{
  ℕ, ◌≡◌, refl, ◌≢◌, ◌⊎◌, inl, inr, Bool, true, false, ◌≤◌, ◌||◌, [], ◌∷◌, Text, text, text_eq_iff,
  All, arith,
}
use network_enumerator.Store.Schema.{Tables, RiskRule, risk_rule_row}
use network_enumerator.Api.Rules.{port_ok, severity_ok, label_ok}
use network_enumerator.Api.Rules.Valid.{Passes}

-- A port that TCP has, a severity that the interface knows, and a label.
pub record IsValid (r : RiskRule) : Type 0 where
  pub port : (1 ≤ r.port) × (r.port ≤ 65535)
  pub severity :
      (r.severity ≡ text "critical") ⊎ ((r.severity ≡ text "warning") ⊎ (r.severity ≡ text "info"))
  pub label : r.label ≢ []

abbrev pub AllValid : Tables → Type 0
AllValid t = All IsValid t.risk_rules.rows

port_ok-bounds : (port : ℕ) → port_ok port ≡ true → (1 ≤ port) × (port ≤ 65535)
unfolding port_ok
port_ok-bounds port h = ground arith

or_cases : (a b : Bool) → (a || b) ≡ true → (a ≡ true) ⊎ (b ≡ true)
or_cases true b h = inl refl
or_cases false b h = inr h

severity_ok-cases :
    (s : Text)
    → severity_ok s ≡ true
    → (s ≡ text "critical") ⊎ ((s ≡ text "warning") ⊎ (s ≡ text "info"))
unfolding severity_ok
severity_ok-cases s h = elim (or_cases _ _ h) [
  | inl a ↦ inl ((text_eq_iff _ _).0 a)
  | inr h' ↦ elim (or_cases _ _ h') [
    | inl b ↦ inr (inl ((text_eq_iff _ _).0 b))
    | inr c ↦ inr (inr ((text_eq_iff _ _).0 c))
  ]
]

label_ok-holds : (label : Text) → label_ok label ≡ true → label ≢ []
unfolding label_ok
label_ok-holds [] h e = cc
label_ok-holds (c ∷ label) h e = cc

pub Passes-IsValid : (r : RiskRule) → Passes r → IsValid r
Passes-IsValid r p = record {
  port = port_ok-bounds r.port p.port;
  severity = severity_ok-cases r.severity p.severity;
  label = label_ok-holds r.label p.label;
}
