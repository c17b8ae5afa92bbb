-- ===== src/Api/Subnets.antt =====
-- internal/api/server.go: the handlers of subnets. `now` is the reading of `time.Now()` in the store.
use network_enumerator.Common.{ℕ, Bool, List, Option, Text}
use network_enumerator.Store.Schema.{SubnetRow}
use network_enumerator.Store.Subnets.{
  list_subnets, add_manual_subnet, set_subnet_hidden, set_subnet_enabled, set_subnet_name,
  delete_subnet,
}
use network_enumerator.Discovery.Method.{regular}
use network_enumerator.Api.Handler.{
  H, ◌>>=◌, ◌>>◌, pure, check, given, stored, for_field, request_scan, Parsers,
}

pub record SubnetRequest : Type 0 where
  pub cidr : Text
  pub name : Text

pub record SubnetPatch : Type 0 where
  pub hidden : Option Bool
  pub enabled : Option Bool
  pub name : Option Text

unfoldable pub list_subnets_handler : H (List SubnetRow)
list_subnets_handler = stored 500 list_subnets

unfoldable pub create_subnet : Parsers → ℕ → Option SubnetRequest → H SubnetRow
create_subnet go now body = do
  q ← given body
  check (go.is_cidr q.cidr) 400
  sn ← stored 500 (add_manual_subnet q.cidr q.name now)
  request_scan regular
  pure sn

unfoldable pub update_subnet : Option ℕ → Option SubnetPatch → H (Unit {0})
update_subnet path body = do
  id ← given path
  q ← given body
  for_field q.hidden (λ b. stored 500 (set_subnet_hidden id b))
  for_field q.enabled (λ b. stored 500 (set_subnet_enabled id b))
  for_field q.name (λ name. stored 500 (set_subnet_name id name))

unfoldable pub delete_subnet_handler : Option ℕ → H (Unit {0})
delete_subnet_handler path = do id ← given path; stored 500 (delete_subnet id)
