-- ===== src/Api/Rules/Valid.antt =====
-- The risk rules keep passing the tests under the handlers of internal/api/risk.go.
use network_enumerator.Common.{
  ℕ, and_true, ◌≡◌, refl, Bool, true, false, ◌&&◌, not, Option, none, some, List, [], ◌∷◌, Text,
  text, text_eq, is_empty, if◌then◌else◌, All, arith, Bool-cases, inl, inr,
}
use network_enumerator.Store.Table.{where_do, is_id}
use network_enumerator.Store.Table.Laws.{All-map, All-keep}
use network_enumerator.Store.Schema.{Tables, RiskRule, risk_rule_row}
use network_enumerator.Store.Constraints.{insert_risk_rule}
use network_enumerator.Store.Sql.{Db, Outcome, ok, err, after}
use network_enumerator.Store.Sql.Keeps.{
  Keeps, Keeps-pure, Keeps-exec, Keeps-statement, Keeps->>=, Keeps-if,
}
use network_enumerator.Store.DefaultRules.{default_risk_rules}
use network_enumerator.Store.RiskRules.{
  RulePatch, or_old, patch_rule, seed_risk_rules, create_risk_rule, update_risk_rule_fields,
  delete_risk_rule,
}
use network_enumerator.Api.Rules.{
  RuleRequest, requested, port_ok, severity_ok, label_ok, refused, with_status,
  create_risk_rule_handler, update_risk_rule_handler, delete_risk_rule_handler,
}

-- The rule passes the tests of the handlers.
pub record Passes (r : RiskRule) : Type 0 where
  pub port : port_ok r.port ≡ true
  pub severity : severity_ok r.severity ≡ true
  pub label : label_ok r.label ≡ true

abbrev pub AllPass : Tables → Type 0
AllPass t = All Passes t.risk_rules.rows

valid_rule : RiskRule → Bool
valid_rule r = port_ok r.port && (severity_ok r.severity && label_ok r.label)

valid_rules : List RiskRule → Bool
valid_rules [] = true
valid_rules (r ∷ rules) = valid_rule r && valid_rules rules

All-Passes : (rules : List RiskRule) → valid_rules rules ≡ true → All Passes rules
unfolding valid_rules valid_rule
All-Passes [] h = tt
All-Passes (r ∷ rules) h =
    let (here, later) = and_true _ _ h in
    let (p, rest) = and_true _ _ here in
    let (s, l) = and_true _ _ rest in
    (record { port = p; severity = s; label = l }, All-Passes rules later)

pub default-Passes : All Passes default_risk_rules
unfolding default_risk_rules port_ok severity_ok label_ok text_eq valid_rules valid_rule
default-Passes = All-Passes default_risk_rules refl

severity_kept :
    (s : Text)
    → severity_ok s ≡ true
    → severity_ok (if is_empty s then text "warning" else s) ≡ true
unfolding severity_ok text_eq
severity_kept [] h = refl
severity_kept (c ∷ s) h = h

create-Keeps : (r : RiskRule) → Passes r → Keeps AllPass (create_risk_rule r)
unfolding create_risk_rule
create-Keeps r v =
    let severity = if is_empty r.severity then text "warning" else r.severity in
    let make = λ (i : ℕ). record r { id = i; severity = severity } in
    Keeps->>= AllPass _ _
      (Keeps-statement AllPass (insert_risk_rule make) λ t k. (
        record { port = v.port; severity = severity_kept r.severity v.severity; label = v.label },
        k,
      ))
      (λ id. Keeps-pure AllPass (make id))

pub seed-Keeps : (rules : List RiskRule) → All Passes rules → Keeps AllPass (seed_risk_rules rules)
unfolding seed_risk_rules
seed-Keeps [] v = Keeps-pure AllPass tt
seed-Keeps (r ∷ rules) (v, vs) =
    Keeps->>= AllPass _ _
      (Keeps-statement AllPass (insert_risk_rule (λ i. record r { id = i }))
        λ t k. (record { port = v.port; severity = v.severity; label = v.label }, k))
      (λ id. seed-Keeps rules vs)

or_old_lem :
    {A : Type 0} (test : A → Bool) (o : Option A) (old : A)
    → refused test o ≡ false
    → test old ≡ true
    → test (or_old o old) ≡ true
or_old_lem test none old h k = k
or_old_lem test (some a) old h k = ground arith

where-Passes :
    (f : RiskRule → RiskRule) (id : ℕ)
    → ((r : RiskRule) → Passes r → Passes (f r))
    → (r : RiskRule) → Passes r
    → Passes (where_do (is_id id) f r)
where-Passes f id h r v = elim (Bool-cases (is_id id r)) [ inl c ↦ rw c (h r v) | inr c ↦ rw c v ]

update-Keeps :
    (id : ℕ) (p : RulePatch)
    → refused port_ok p.port ≡ false
    → refused label_ok p.label ≡ false
    → refused severity_ok p.severity ≡ false
    → Keeps AllPass (update_risk_rule_fields id p)
unfolding update_risk_rule_fields
update-Keeps id p port label severity = Keeps-if AllPass _ _ _ (Keeps-pure AllPass tt) (
    Keeps-exec AllPass _ λ t k.
      All-map Passes Passes (where_do (is_id id) (patch_rule p)) t.risk_rules.rows
        (where-Passes (patch_rule p) id λ r v. record {
          port = or_old_lem port_ok p.port r.port port v.port;
          severity = or_old_lem severity_ok p.severity r.severity severity v.severity;
          label = or_old_lem label_ok p.label r.label label v.label;
        })
        k)

delete-Keeps : (id : ℕ) → Keeps AllPass (delete_risk_rule id)
unfolding delete_risk_rule
delete-Keeps id =
    Keeps-exec AllPass _
      (λ t k. All-keep Passes Passes (λ r. not (is_id id r)) t.risk_rules.rows (λ r _ v. v) k)

with_status_lem :
    {A : Type 0} (status : ℕ) (o : Outcome A)
    → AllPass (after o).tables
    → AllPass (with_status status o).1.tables
with_status_lem status (ok a d) k = k
with_status_lem status (err e d) k = k

pub create_handler-Valid :
    (body : Option RuleRequest) (d : Db)
    → AllPass d.tables
    → AllPass (create_risk_rule_handler body d).1.tables
unfolding create_risk_rule_handler Keeps
create_handler-Valid none d k = k
create_handler-Valid (some q) d k = elim (Bool-cases (port_ok q.port)) [
  | inr c ↦ rw c k
  | inl c ↦ elim (Bool-cases (severity_ok q.severity)) [
    | inr c' ↦ rw (c, c') k
    | inl c' ↦ elim (Bool-cases (label_ok q.label)) [
      | inr c'' ↦ rw (c, c', c'') k
      | inl c'' ↦
          rw (c, c', c'')
            (with_status_lem 201 (create_risk_rule (requested q) d)
              (create-Keeps (requested q) (record { port = c; severity = c'; label = c'' }) d k))
    ]
  ]
]

pub update_handler-Valid :
    (id : Option ℕ) (body : Option RulePatch) (d : Db)
    → AllPass d.tables
    → AllPass (update_risk_rule_handler id body d).1.tables
unfolding update_risk_rule_handler Keeps
update_handler-Valid none body d k = k
update_handler-Valid (some id) none d k = k
update_handler-Valid (some id) (some p) d k = elim (Bool-cases (refused port_ok p.port)) [
  | inl c ↦ rw c k
  | inr c ↦ elim (Bool-cases (refused label_ok p.label)) [
    | inl c' ↦ rw (c, c') k
    | inr c' ↦ elim (Bool-cases (refused severity_ok p.severity)) [
      | inl c'' ↦ rw (c, c', c'') k
      | inr c'' ↦
          rw (c, c', c'')
            (with_status_lem 204 (update_risk_rule_fields id p d) (update-Keeps id p c c' c'' d k))
    ]
  ]
]

pub delete_handler-Valid :
    (id : Option ℕ) (d : Db) → AllPass d.tables → AllPass (delete_risk_rule_handler id d).1.tables
unfolding delete_risk_rule_handler Keeps
delete_handler-Valid none d k = k
delete_handler-Valid (some id) d k =
    with_status_lem 204 (delete_risk_rule id d) (delete-Keeps id d k)
