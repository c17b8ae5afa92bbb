-- ===== src/Api/Rules/History.antt =====
-- Histories of requests to the handlers of internal/api/risk.go.
use network_enumerator.Common.{ℕ, ◌≡◌, refl, Bool, Option, none, some, List, [], ◌∷◌, Text}
use network_enumerator.Store.Schema.{Tables, AuthRow}
use network_enumerator.Store.Sql.{Db, after, fresh, entropy}
use network_enumerator.Store.Sql.Keeps.{
  Keeps, Keeps-pure, Keeps-fail, Keeps-query, Keeps-statement, Keeps->>=, Keeps->>, Lands,
}
use network_enumerator.Store.DefaultRules.{default_risk_rules}
use network_enumerator.Store.RiskRules.{RulePatch, ensure_default_risk_rules}
use network_enumerator.Store.Credentials.{new_salt, insert_auth, if_none, ensure_default_auth}
use network_enumerator.Store.Open.{open_store}
use network_enumerator.Api.Rules.{
  RuleRequest, create_risk_rule_handler, update_risk_rule_handler, delete_risk_rule_handler,
}
use network_enumerator.Store.Table.Laws.{All-imp}
use network_enumerator.Api.Rules.Meaning.{IsValid, AllValid, Passes-IsValid}
use network_enumerator.Api.Rules.Valid.{
  AllPass, default-Passes, seed-Keeps, create_handler-Valid, update_handler-Valid,
  delete_handler-Valid,
}

pub data Request : Type 0 where
  creates : Option RuleRequest → Request
  updates : Option ℕ → Option RulePatch → Request
  deletes : Option ℕ → Request

unfoldable pub serve : Request → Db → ℕ × Db
serve (creates body) d = create_risk_rule_handler body d
serve (updates id body) d = update_risk_rule_handler id body d
serve (deletes id) d = delete_risk_rule_handler id d

unfoldable pub serve_all : List Request → Db → Db
unfolding serve
serve_all [] d = d
serve_all (r ∷ requests) d = serve_all requests (serve r d).1

serve-Valid : (r : Request) (d : Db) → AllPass d.tables → AllPass (serve r d).1.tables
unfolding serve
serve-Valid (creates body) d k = create_handler-Valid body d k
serve-Valid (updates id body) d k = update_handler-Valid id body d k
serve-Valid (deletes id) d k = delete_handler-Valid id d k

serve_all-Valid :
    (requests : List Request) (d : Db) → AllPass d.tables → AllPass (serve_all requests d).tables
unfolding serve_all
serve_all-Valid [] d k = k
serve_all-Valid (r ∷ requests) d k = serve_all-Valid requests (serve r d).1 (serve-Valid r d k)

default_rules-Keeps : Keeps AllPass ensure_default_risk_rules
unfolding ensure_default_risk_rules
default_rules-Keeps =
    Keeps->>= AllPass _ _ (Keeps-query AllPass _) (elim [
      | r ∷ rest ↦ Keeps-pure AllPass tt
      | [] ↦ seed-Keeps default_risk_rules default-Passes
    ])

new_salt-Keeps : (random : Option Text) → Keeps AllPass (new_salt random)
new_salt-Keeps none = Keeps-fail AllPass _ entropy
new_salt-Keeps (some b) = Keeps-pure AllPass _

insert_auth-Lands :
    (row : AuthRow) (auth : Option AuthRow) (t : Tables)
    → t.auth ≡ auth
    → AllPass t
    → Lands AllPass (insert_auth row t)
insert_auth-Lands row none t e k = rw e k
insert_auth-Lands row (some _) t e k = rw e tt

module _ (sha256 : Text → Text) where
  if_none-Keeps :
      (password : Text) (random : Option Text) (found : Option AuthRow)
      → Keeps AllPass (if_none sha256 password random found)
  if_none-Keeps password random (some _) = Keeps-pure AllPass tt
  if_none-Keeps password random none =
      Keeps->>= AllPass _ _ (new_salt-Keeps random)
        (λ salt. Keeps-statement AllPass _ (λ t. insert_auth-Lands _ t.auth t refl))

  open_store-Keeps :
      (password : Text) (random : Option Text) → Keeps AllPass (open_store sha256 password random)
  unfolding open_store ensure_default_auth
  open_store-Keeps password random =
      Keeps->> AllPass _ _
        (Keeps->>= AllPass _ _ (Keeps-query AllPass _) (if_none-Keeps password random))
        default_rules-Keeps

  -- After `Open` on a new database and any requests to the handlers of risk rules, each rule of the
  -- database has a port between 1 and 65535, one of the severities critical, warning and info, and a
  -- label that is not empty. This holds whichever statements fail.
  pub serve_all-open_store-Valid :
      (requests : List Request) (password : Text) (random : Option Text) (fails : ℕ → Bool)
      → AllValid
          (serve_all requests
            (after (open_store sha256 password random (record fresh { fails = fails })))).tables
  unfolding Keeps
  serve_all-open_store-Valid requests password random fails = All-imp _ IsValid _ Passes-IsValid (
      serve_all-Valid requests _
        (open_store-Keeps password random (record fresh { fails = fails }) tt))
