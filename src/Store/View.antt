-- ===== src/Store/View.antt =====
-- internal/store/hosts.go, `ListHosts` and `GetHost`: hosts with what is computed for them. `now` is
-- the reading of `time.Now()` in `ListPorts`.
pub mod MacKey
pub mod ReadOnly
pub mod Queries
pub mod Agreement
use network_enumerator.Common.{
  ℕ, suc, Bool, true, false, ◌&&◌, ◌||◌, not, Option, none, some, List, [], ◌∷◌, ◌++◌, map, ltb,
  ◌==◌, Text, text, text_eq, is_empty, if◌then◌else◌, itoa, count_if,
}
use network_enumerator.Store.Table.{Table, order_by, select_row, is_id}
use network_enumerator.Store.Schema.{Tables, HostRow, TagRow, RiskRule, host_row}
use network_enumerator.Store.Sql.{M, ◌>>=◌, ◌>>◌, pure, fail, no_rows, query}
use network_enumerator.Store.Ports.{Port, list_ports}
use network_enumerator.Store.Tags.{text_less, tags_for_host}
use network_enumerator.Store.RiskRules.{list_risk_rules}
use network_enumerator.Store.Risk.{risk_for_ports}

abbrev pub suspect_mac_threshold : ℕ
suspect_mac_threshold = 8

-- `model.Host`.
pub record Host : Type 0 where
  pub row : HostRow
  pub is_new : Bool
  pub tags : List TagRow
  pub ports : List Port
  pub suspect : Bool
  pub suspect_reason : Text
  pub risk_level : Text
  pub risk_reasons : List Text

-- The fields that the SELECT fills in.
abbrev pub bare : HostRow → Host
bare h = record {
  row = h;
  is_new = not h.new_ack;
  tags = [];
  ports = [];
  suspect = false;
  suspect_reason = [];
  risk_level = [];
  risk_reasons = [];
}

unfoldable pub mac_group_key : ℕ → Text → Text
mac_group_key subnet_id mac = itoa subnet_id ++ text "|" ++ mac

-- The map `macCounts`, at a key.
unfoldable pub mac_counts : List HostRow → Text → ℕ
mac_counts [] key = 0
mac_counts (h ∷ hosts) key =
    let rest = mac_counts hosts key in
    if is_empty h.mac
    then rest
    else if text_eq (mac_group_key h.subnet_id h.mac) key
    then suc rest
    else rest

abbrev pub suspect_message : Text → ℕ → Text
suspect_message mac n =
    text "MAC "
    ++ mac
    ++ text " is shared by "
    ++ itoa n
    ++ text
        " hosts on this subnet — likely one device (e.g. a router doing proxy ARP) answering for addresses that aren't real distinct hosts, not "
    ++ itoa n
    ++ text " separate devices."

unfoldable pub apply_suspect_flag : ℕ → Host → Host
apply_suspect_flag mac_count h =
    if is_empty h.row.mac || ltb mac_count suspect_mac_threshold
    then h
    else record h { suspect = true; suspect_reason = suspect_message h.row.mac mac_count }

abbrev pub with_risk : List Port → List RiskRule → Host → Host
with_risk ports rules h =
    let (level, reasons) = risk_for_ports (map (λ p. p.row) ports) rules in
    record h { risk_level = level; risk_reasons = reasons }

-- The body of the last loop of `ListHosts`.
unfoldable pub fill_in : ℕ → List RiskRule → (Text → ℕ) → HostRow → M Host
fill_in now rules counts h = do
  tags ← tags_for_host h.id
  ports ← list_ports h.id now
  pure (
      with_risk ports rules (
        apply_suspect_flag (counts (mac_group_key h.subnet_id h.mac))
          (record (bare h) { tags = tags; ports = ports })))

unfoldable pub fill_all : ℕ → List RiskRule → (Text → ℕ) → List HostRow → M (List Host)
fill_all now rules counts [] = pure []
fill_all now rules counts (h ∷ hosts) = do
  h' ← fill_in now rules counts h
  rest ← fill_all now rules counts hosts
  pure (h' ∷ rest)

abbrev pub host_before : HostRow → HostRow → Bool
host_before r s =
    ltb r.subnet_id s.subnet_id || ((r.subnet_id == s.subnet_id) && text_less r.ip s.ip)

unfoldable pub list_hosts : ℕ → M (List Host)
list_hosts now = do
  hosts ← query (λ t. order_by host_before t.hosts.rows)
  rules ← list_risk_rules
  fill_all now rules (mac_counts hosts) hosts

-- `SELECT COUNT(*) FROM hosts WHERE subnet_id = ? AND mac = ?`.
abbrev pub shares_mac : ℕ → Text → HostRow → Bool
shares_mac subnet_id mac h = (h.subnet_id == subnet_id) && text_eq h.mac mac

-- `macCount`, which stays 0 for a host without an address.
abbrev pub mac_count_of : HostRow → M ℕ
mac_count_of h =
    if is_empty h.mac
    then pure 0
    else query (λ t. count_if (shares_mac h.subnet_id h.mac) t.hosts.rows)

-- What follows the first SELECT.
unfoldable pub get_host_from : ℕ → Option HostRow → M Host
get_host_from now none = fail no_rows
get_host_from now (some h) = do
  mac_count ← mac_count_of h
  rules ← list_risk_rules
  tags ← tags_for_host h.id
  ports ← list_ports h.id now
  pure (
      with_risk ports rules
        (record (apply_suspect_flag mac_count (bare h)) { tags = tags; ports = ports }))

unfoldable pub get_host : ℕ → ℕ → M Host
unfolding get_host_from
get_host id now = do found ← query (λ t. select_row (is_id id) t.hosts); get_host_from now found
