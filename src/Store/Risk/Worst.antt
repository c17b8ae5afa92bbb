-- ===== src/Store/Risk/Worst.antt =====
-- What `riskForPorts` (internal/store/hosts.go) finds: every match in order, and the worst severity.
use network_enumerator.Common.{
  ◌≤◌, ◌<◌, ltb→lt, to_lower, contains, is_empty, ◌≡◌, refl, ap, sym, ◌∙◌, Bool, true, false, ◌&&◌,
  ◌||◌, not, List, [], ◌∷◌, ◌++◌, map, ltb, ◌==◌, Text, text_eq, text_eq_refl, if◌then◌else◌, keep,
  any, All, arith, Bool-cases, inl, inr, ◌⊎◌,
}
use mathlib.Core.List.{append-nil, append_assoc}
use network_enumerator.Store.Schema.{PortRow, PortState, is_open, is_closed, RiskRule}
use network_enumerator.Store.Ports.{opened}
use network_enumerator.Store.Version.{version_less}
use network_enumerator.Store.Risk.{
  Risk, severity_rank, service_matches, version_matches, reason_for, add_reason, rule_step,
  rules_loop, ports_loop, no_risk, risk_for_ports,
}

-- The rule names no service, or the service or the product of the port holds the name.
abbrev pub offers : PortRow → Text → Bool
offers p [] = true
offers p (c ∷ service) =
    any (λ name. contains (to_lower name) (to_lower (c ∷ service))) (p.service ∷ p.product ∷ [])

-- The rule gives no version, or the version of the port is known and below it.
abbrev pub is_below : Text → Text → Bool
is_below version [] = true
is_below [] (c ∷ limit) = false
is_below (v ∷ version) (c ∷ limit) = version_less (v ∷ version) (c ∷ limit)

abbrev pub applies : PortRow → RiskRule → Bool
applies p r =
    r.enabled && ((r.port == p.port) && (offers p r.service && is_below p.version r.version_below))

or_false : (b : Bool) → b ≡ (b || false)
or_false true = refl
or_false false = refl

named : Text → PortRow → Text → Bool
named s p t = is_empty s || (contains (to_lower p.service) t || contains (to_lower p.product) t)

named-offers : (p : PortRow) (s : Text) → named s p (to_lower s) ≡ offers p s
unfolding named
named-offers p [] = refl
named-offers p (c ∷ s) =
    ap (λ b. contains (to_lower p.service) (to_lower (c ∷ s)) || b) (or_false _)

service_matches_lem : (p : PortRow) (r : RiskRule) → service_matches p r ≡ offers p r.service
unfolding service_matches named
service_matches_lem p r = named-offers p r.service

below_lem :
    (v limit : Text)
    → (is_empty limit || (not (is_empty v) && version_less v limit)) ≡ is_below v limit
below_lem v [] = refl
below_lem [] (c ∷ limit) = refl
below_lem (a ∷ v) (c ∷ limit) = refl

version_matches_lem :
    (p : PortRow) (r : RiskRule) → version_matches p r ≡ is_below p.version r.version_below
unfolding version_matches
version_matches_lem p r = below_lem p.version r.version_below

abbrev pub Hit : Type 0
Hit = PortRow × RiskRule

abbrev pub port_hits : PortRow → List RiskRule → List Hit
port_hits p rules = map (λ r. (p, r)) (keep (applies p) rules)

abbrev pub if_open : PortState → List Hit → List Hit
if_open is_open here = here
if_open is_closed here = []

if_open_lem : (s : PortState) (here : List Hit) → (if opened s then here else []) ≡ if_open s here
if_open_lem is_open here = refl
if_open_lem is_closed here = refl

-- The open ports with the enabled rules that match them, in the order of the ports and, for each
-- port, of the rules.
abbrev pub hits : List PortRow → List RiskRule → List Hit
hits [] rules = []
hits (p ∷ ports) rules = if_open p.state (port_hits p rules) ++ hits ports rules

abbrev record_all : Risk → List Hit → Risk
record_all s [] = s
record_all s ((p, r) ∷ hs) = record_all (add_reason p r s) hs

record_all-append :
    (s : Risk) (hs ks : List Hit) → record_all s (hs ++ ks) ≡ record_all (record_all s hs) ks
record_all-append s [] ks = refl
record_all-append s ((p, r) ∷ hs) ks = record_all-append (add_reason p r s) hs ks

four_tests :
    (a b c d : Bool) (x y : Risk)
    → (if not a || not b then y else if not c then y else if not d then y else x)
      ≡ (if a && (b && (c && d)) then x else y)
four_tests false b c d x y = refl
four_tests true false c d x y = refl
four_tests true true false d x y = refl
four_tests true true true false x y = refl
four_tests true true true true x y = refl

rule_step_lem :
    (p : PortRow) (r : RiskRule) (s : Risk)
    → rule_step p r s ≡ (if applies p r then add_reason p r s else s)
unfolding rule_step
rule_step_lem p r s =
    rw (sym (service_matches_lem p r), sym (version_matches_lem p r))
      (four_tests r.enabled (r.port == p.port) (service_matches p r) (version_matches p r)
        (add_reason p r s) s)

rules_loop_lem :
    (p : PortRow) (rules : List RiskRule) (s : Risk)
    → rules_loop p rules s ≡ record_all s (port_hits p rules)
unfolding rules_loop
rules_loop_lem p [] s = refl
rules_loop_lem p (r ∷ rules) s = elim (Bool-cases (applies p r)) [
  | inl c ↦
      ap (rules_loop p rules) (rule_step_lem p r s)
      ∙ rw c (rules_loop_lem p rules (add_reason p r s))
  | inr c ↦ ap (rules_loop p rules) (rule_step_lem p r s) ∙ rw c (rules_loop_lem p rules s)
]

ports_loop_lem :
    (rules : List RiskRule) (ports : List PortRow) (s : Risk)
    → ports_loop rules ports s ≡ record_all s (hits ports rules)
unfolding ports_loop
ports_loop_lem rules [] s = refl
ports_loop_lem rules (p ∷ ports) s =
    rw (sym (if_open_lem p.state (port_hits p rules))) (elim (Bool-cases (opened p.state)) [
      | inr c ↦ rw c (ports_loop_lem rules ports s)
      | inl c ↦ rw c (
          ports_loop_lem rules ports (rules_loop p rules s)
          ∙ ap (λ x. record_all x (hits ports rules)) (rules_loop_lem p rules s)
          ∙ sym (record_all-append s (port_hits p rules) (hits ports rules)))
    ])

record_all-reasons :
    (s : Risk) (hs : List Hit)
    → (record_all s hs).reasons ≡ s.reasons ++ map (λ (h : Hit). reason_for h.0 h.1) hs
record_all-reasons s [] = sym (append-nil s.reasons)
record_all-reasons s ((p, r) ∷ hs) =
    record_all-reasons (add_reason p r s) hs ∙ append_assoc s.reasons (reason_for p r ∷ []) _

-- The level of a list of matches: no match is worse, and it is that of a match, or empty.
pub record IsWorst (level : Text) (hs : List Hit) : Type 0 where
  pub bounds : All (λ (h : Hit). severity_rank h.1.severity ≤ severity_rank level) hs
  pub attained : (level ≡ []) ⊎ (any (λ (h : Hit). text_eq h.1.severity level) hs ≡ true)

-- The variable `best` is the rank of the variable `level`.
abbrev InStep : Risk → Type 0
InStep s = s.best ≡ severity_rank s.level

no_risk-InStep : InStep no_risk
unfolding severity_rank text_eq
no_risk-InStep = refl

-- A match leaves the variables in step, and no rank falls below the old one or the rule's.
add_reason_lem :
    (p : PortRow) (r : RiskRule) (s : Risk)
    → InStep s
    → InStep (add_reason p r s)
      × (severity_rank s.level ≤ severity_rank (add_reason p r s).level)
      × (severity_rank r.severity ≤ severity_rank (add_reason p r s).level)
add_reason_lem p r s h = elim (Bool-cases (ltb s.best (severity_rank r.severity))) [
  | inl c ↦
      let less : s.best < severity_rank r.severity = ltb→lt _ _ c in
      rw c (refl, omega arith, omega arith)
  | inr c ↦
      let more : severity_rank r.severity ≤ s.best = ground arith in
      rw c (h, omega arith, omega arith)
]

record_all-le :
    (s : Risk) (hs : List Hit)
    → InStep s
    → severity_rank s.level ≤ severity_rank (record_all s hs).level
record_all-le s [] h = omega arith
record_all-le s ((p, r) ∷ hs) h =
    let (step, more, _) = add_reason_lem p r s h in
    omega (arith, record_all-le (add_reason p r s) hs step)

record_all-bounds :
    (s : Risk) (hs : List Hit)
    → InStep s
    → All (λ (h : Hit). severity_rank h.1.severity ≤ severity_rank (record_all s hs).level) hs
record_all-bounds s [] h = tt
record_all-bounds s ((p, r) ∷ hs) h =
    let (step, _, more) = add_reason_lem p r s h in
    (
      omega (arith, record_all-le (add_reason p r s) hs step),
      record_all-bounds (add_reason p r s) hs step,
    )

record_all-attained :
    (s : Risk) (hs : List Hit)
    → ((record_all s hs).level ≡ s.level)
      ⊎ (any (λ (h : Hit). text_eq h.1.severity (record_all s hs).level) hs ≡ true)
record_all-attained s [] = inl refl
record_all-attained s ((p, r) ∷ hs) = elim (record_all-attained (add_reason p r s) hs) [
  | inr later ↦ inr (ground arith)
  | inl same ↦ elim (Bool-cases (ltb s.best (severity_rank r.severity))) [
    | inr c ↦ inl (same ∙ rw c refl)
    | inl c ↦
        let mine : (record_all (add_reason p r s) hs).level ≡ r.severity = same ∙ rw c refl in
        let self : text_eq r.severity r.severity ≡ true = text_eq_refl r.severity in
        inr (rw (mine, self) refl)
  ]
]

-- `riskForPorts` gives one reason for each open port and enabled rule that match, in the order of the
-- ports and then of the rules. Its level is "" or the severity of a rule in such a match, and no rule
-- in such a match has a worse severity.
pub risk_for_ports_lem :
    (ports : List PortRow) (rules : List RiskRule)
    → ((risk_for_ports ports rules).1 ≡ map (λ (h : Hit). reason_for h.0 h.1) (hits ports rules))
      × IsWorst (risk_for_ports ports rules).0 (hits ports rules)
unfolding risk_for_ports
risk_for_ports_lem ports rules = rw (ports_loop_lem rules ports no_risk) (
  record_all-reasons no_risk (hits ports rules),
  record {
    bounds = record_all-bounds no_risk (hits ports rules) no_risk-InStep;
    attained = record_all-attained no_risk (hits ports rules);
  },
)
