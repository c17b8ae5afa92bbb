-- ===== src/Api/Import/WellFormed.antt =====
-- Every method that the imports of internal/api call keeps the database well formed.
use network_enumerator.Store.Integrity.{IsWf}
use network_enumerator.Store.Integrity.SubnetMethods.{
  upsert_auto_subnet-Wf, set_subnet_hidden-Wf, set_subnet_enabled-Wf,
}
use network_enumerator.Store.Integrity.HostMethods.{import_host-Wf}
use network_enumerator.Store.Integrity.RowMethods.{
  upsert_port-Wf, set_scan_method-Wf, set_netdiscover_enabled-Wf, add_event-Wf,
}
use network_enumerator.Store.Integrity.RuleMethods.{create_risk_rule-Wf, update_risk_rule_fields-Wf}
use network_enumerator.Api.Import.Keeping.{ImportKeeps}

pub IsWf-ImportKeeps : ImportKeeps IsWf
IsWf-ImportKeeps = record {
  segments = upsert_auto_subnet-Wf;
  hides = set_subnet_hidden-Wf;
  enables = set_subnet_enabled-Wf;
  hosts = import_host-Wf;
  ports = upsert_port-Wf;
  creates = create_risk_rule-Wf;
  updates = update_risk_rule_fields-Wf;
  methods = set_scan_method-Wf;
  netdiscover = set_netdiscover_enabled-Wf;
  adds = add_event-Wf;
}
