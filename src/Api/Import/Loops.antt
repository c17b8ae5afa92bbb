-- ===== src/Api/Import/Loops.antt =====
-- internal/api/export.go and systemexport.go: the loops of the two imports. Each is a chain of calls of
-- the store that stops at the first error. `now` is the reading of `time.Now()` in the store.
use network_enumerator.Common.{
  ℕ, suc, Bool, ◌&&◌, ◌||◌, not, Option, none, some, List, [], ◌∷◌, ◌==◌, Text, text, text_eq,
  is_empty, if◌then◌else◌,
}
use network_enumerator.Common.Dict.{get, put}
use network_enumerator.Store.Schema.{RiskRule}
use network_enumerator.Store.Sql.{M, ◌>>=◌, ◌>>◌, pure}
use network_enumerator.Store.Subnets.{upsert_auto_subnet, set_subnet_hidden, set_subnet_enabled}
use network_enumerator.Store.Hosts.{import_host}
use network_enumerator.Store.Ports.{upsert_port}
use network_enumerator.Store.RiskRules.{
  RulePatch, list_risk_rules, create_risk_rule, update_risk_rule_fields,
}
use network_enumerator.Api.Handler.{Parsers}
use network_enumerator.Api.Export.{ExportSegment, ExportHost, ExportPort, SystemSegment}

-- From the ids of a document to the ids of the store.
abbrev pub Ids : Type 0
Ids = List (Text × ℕ)

-- `importHosts` has the ids of the hosts and the number of the new ones.
abbrev pub counted : Text → Ids × ℕ → ℕ × Bool → Ids × ℕ
counted key (ids, n) (id, is_new) = (put key id ids, if is_new then suc n else n)

-- The protocol, "tcp" if the document has none.
abbrev pub protocol_of : ExportPort → Text
protocol_of p = if is_empty p.protocol then text "tcp" else p.protocol

module _ (go : Parsers) (now : ℕ) where
  unfoldable pub segment_upserted : ExportSegment → Ids → M Ids
  segment_upserted seg ids = do
    (id, is_new) ← upsert_auto_subnet seg.cidr seg.name [] now
    pure (put seg.id id ids)

  unfoldable pub import_segment : ExportSegment → Ids → M Ids
  unfolding segment_upserted
  import_segment seg ids = if go.is_cidr seg.cidr then segment_upserted seg ids else pure ids

  unfoldable pub import_segments : List ExportSegment → Ids → M Ids
  unfolding import_segment
  import_segments [] ids = pure ids
  import_segments (seg ∷ segments) ids = import_segment seg ids >>= import_segments segments

  -- A segment whose CIDR is accepted.
  unfoldable pub system_segment_restored : SystemSegment → Ids → M Ids
  system_segment_restored seg ids = do
    (id, is_new) ← upsert_auto_subnet seg.cidr seg.name [] now
    set_subnet_hidden id seg.hidden
    set_subnet_enabled id seg.enabled
    pure (put seg.id id ids)

  unfoldable pub import_system_segment : SystemSegment → Ids → M Ids
  unfolding system_segment_restored
  import_system_segment seg ids =
      if go.is_cidr seg.cidr then system_segment_restored seg ids else pure ids

  unfoldable pub import_system_segments : List SystemSegment → Ids → M Ids
  unfolding import_system_segment
  import_system_segments [] ids = pure ids
  import_system_segments (seg ∷ segments) ids =
      import_system_segment seg ids >>= import_system_segments segments

  -- A host whose segment is known.
  unfoldable pub import_host_of : ℕ → ExportHost → Ids × ℕ → M (Ids × ℕ)
  import_host_of subnet_id h done =
      import_host subnet_id h.ip h.mac h.hostname h.vendor h.notes now >>= λ r.
      pure (counted h.id done r)

  -- What the loop does by the entry of the host's segment.
  unfoldable pub host_in_segment : ExportHost → Ids × ℕ → Option ℕ → M (Ids × ℕ)
  unfolding import_host_of
  host_in_segment h done none = pure done
  host_in_segment h done (some subnet_id) =
      if go.is_ip h.ip then import_host_of subnet_id h done else pure done

  unfoldable pub import_hosts : Ids → List ExportHost → Ids × ℕ → M (Ids × ℕ)
  unfolding host_in_segment
  import_hosts segment_ids [] done = pure done
  import_hosts segment_ids (h ∷ hosts) done =
      host_in_segment h done (get h.segment_id segment_ids) >>= import_hosts segment_ids hosts

module _ (now : ℕ) where
  unfoldable pub import_port_of : ℕ → ExportPort → ℕ → M ℕ
  import_port_of host_id p n =
      upsert_port host_id p.port (protocol_of p) p.service p.notes [] p.version now >>= λ is_new.
      pure (if is_new then suc n else n)

  -- What the loop does by the entry of the port's host. A port that is negative is 0 here, which is
  -- passed over as well.
  unfoldable pub port_on_host : ExportPort → ℕ → Option ℕ → M ℕ
  unfolding import_port_of
  port_on_host p n none = pure n
  port_on_host p n (some host_id) =
      if (p.port == 0) || not (text_eq p.state (text "open"))
      then pure n
      else import_port_of host_id p n

  unfoldable pub import_ports : Ids → List ExportPort → ℕ → M ℕ
  unfolding port_on_host
  import_ports host_ids [] n = pure n
  import_ports host_ids (p ∷ ports) n =
      port_on_host p n (get p.host_id host_ids) >>= import_ports host_ids ports

-- `ruleKey`: what a rule matches.
abbrev pub same_rule_key : RiskRule → RiskRule → Bool
same_rule_key r s =
    (r.port == s.port) && (text_eq r.service s.service && text_eq r.version_below s.version_below)

-- `byKey[k]`: of two rules with one key the map has the later.
abbrev pub rule_for : RiskRule → List RiskRule → Option RiskRule
rule_for r [] = none
rule_for r (s ∷ rules) = elim (rule_for r rules) [
  | some later ↦ some later
  | none ↦ if same_rule_key r s then some s else none
]

abbrev pub restored : RiskRule → RulePatch
restored r = record {
  port = none;
  label = some r.label;
  severity = some r.severity;
  service = none;
  version_below = some r.version_below;
  enabled = some r.enabled;
}

-- The numbers of the rules that were created and updated, by the rule that matches.
unfoldable pub import_risk_rule : RiskRule → ℕ × ℕ → Option RiskRule → M (ℕ × ℕ)
import_risk_rule r (created, updated) (some match) =
    update_risk_rule_fields match.id (restored r) >> pure (created, suc updated)
import_risk_rule r (created, updated) none = do
  new ← create_risk_rule (record r { id = 0 })
  pure (suc created, updated)

unfoldable pub import_rules_with : List RiskRule → List RiskRule → ℕ × ℕ → M (ℕ × ℕ)
unfolding import_risk_rule
import_rules_with existing [] n = pure n
import_rules_with existing (r ∷ rules) n =
    import_risk_rule r n (rule_for r existing) >>= import_rules_with existing rules

unfoldable pub import_risk_rules : List RiskRule → M (ℕ × ℕ)
unfolding import_rules_with
import_risk_rules rules = list_risk_rules >>= λ existing. import_rules_with existing rules (0, 0)
