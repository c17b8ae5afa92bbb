-- ===== src/Store/DefaultRules.antt =====
-- internal/store/risk.go, `defaultRiskRules`.
use network_enumerator.Common.{ℕ, List, [], ◌∷◌, true, Text, text}
use network_enumerator.Store.Schema.{RiskRule}

abbrev rule : ℕ → Text → Text → Text → Text → RiskRule
rule port service severity label version_below = record {
  id = 0;
  port = port;
  service = service;
  severity = severity;
  label = label;
  enabled = true;
  version_below = version_below;
}

unfoldable pub default_risk_rules : List RiskRule
default_risk_rules =
    rule 23 [] (text "critical") (text "Telnet — unencrypted remote access") []
    ∷ rule 21 [] (text "warning") (text "FTP — unencrypted file transfer") []
    ∷ rule 5900 [] (text "critical") (text "VNC — often unauthenticated remote desktop") []
    ∷ rule 5901 [] (text "critical") (text "VNC — often unauthenticated remote desktop") []
    ∷ rule 512 [] (text "critical") (text "rexec — legacy unencrypted remote exec") []
    ∷ rule 513 [] (text "critical") (text "rlogin — legacy unencrypted remote login") []
    ∷ rule 514 [] (text "critical") (text "rsh — legacy unencrypted remote shell") []
    ∷ rule 80 [] (text "warning") (text "Plain HTTP — unencrypted web management") []
    ∷ rule 161 [] (text "warning") (text "SNMP — check for default community strings") []
    ∷ rule 139 [] (text "warning") (text "NetBIOS — legacy Windows file sharing") []
    ∷ rule 445 [] (text "warning") (text "SMB — frequent lateral-movement/ransomware target") []
    ∷ rule 3389 [] (text "critical") (text "RDP — high-value target, patch and restrict access") []
    ∷ rule 22 [] (text "info") (text "SSH exposed — verify key-only auth and patch level") []
    ∷ rule 69 [] (text "critical")
        (text
          "TFTP — unauthenticated, unencrypted file transfer; a common vector for pulling/pushing network device configs")
        []
    ∷ rule 49 [] (text "warning")
        (text
          "TACACS+ — network device AAA traffic; its body \"encryption\" is a weak proprietary scheme, not real crypto — treat as sensitive outside management networks")
        []
    ∷ rule 137 [] (text "warning")
        (text
          "NetBIOS Name Service — legacy Windows service, same lateral-movement/enumeration exposure as NetBIOS session service (139)")
        []
    ∷ rule 138 [] (text "warning")
        (text
          "NetBIOS Datagram Service — legacy Windows service, same lateral-movement/enumeration exposure as NetBIOS session service (139)")
        []
    ∷ rule 162 [] (text "warning")
        (text "SNMP trap receiver — same default-community-string exposure as SNMP (161)") []
    ∷ rule 623 [] (text "critical")
        (text
          "IPMI — historically shipped with a cipher-zero auth bypass and default credentials (CVE-2013-4786); a frequent out-of-band management target")
        []
    ∷ rule 873 [] (text "warning")
        (text
          "rsync daemon — can allow anonymous read/write to configured modules if access controls aren't set")
        []
    ∷ rule 1701 [] (text "warning")
        (text
          "L2TP — provides no encryption on its own; verify it's always paired with IPsec, not run bare")
        []
    ∷ rule 2379 [] (text "critical")
        (text
          "etcd client API — repeatedly found exposed without authentication in the wild, exposing the full cluster key/value store including secrets; verify auth is enabled")
        []
    ∷ rule 2380 [] (text "warning")
        (text
          "etcd peer API — cluster-internal port; exposure suggests the etcd cluster is reachable beyond its intended peers")
        []
    ∷ rule 4243 [] (text "critical")
        (text
          "Docker remote API (legacy alt port) — unauthenticated by default; full container/host RCE if reachable without TLS+auth")
        []
    ∷ rule 500 [] (text "info")
        (text
          "ISAKMP/IKE — IPsec VPN negotiation endpoint; expected on VPN gateways, verify only intended peers can reach it")
        []
    ∷ rule 4500 [] (text "info")
        (text
          "IPsec NAT-T — VPN negotiation endpoint; expected on VPN gateways, verify only intended peers can reach it")
        []
    ∷ rule 1194 [] (text "info")
        (text
          "OpenVPN — VPN tunnel endpoint; expected on VPN gateways, verify only intended peers can reach it")
        []
    ∷ rule 5060 [] (text "warning")
        (text
          "SIP — VoIP signaling, frequent target for toll-fraud and extension enumeration; verify auth and restrict access")
        []
    ∷ rule 5902 [] (text "critical") (text "VNC — often unauthenticated remote desktop") []
    ∷ rule 5903 [] (text "critical") (text "VNC — often unauthenticated remote desktop") []
    ∷ rule 8001 [] (text "warning")
        (text
          "Kubernetes API (alt port) — cluster control surface; verify RBAC/auth and restrict access")
        []
    ∷ rule 8291 [] (text "critical")
        (text
          "MikroTik Winbox — target of the CVE-2018-14847 credential-disclosure exploit used in real-world router botnets; verify RouterOS is patched")
        []
    ∷ rule 8728 [] (text "warning")
        (text
          "MikroTik RouterOS API — frequent brute-force/config-exfiltration target; restrict access")
        []
    ∷ rule 8729 [] (text "info")
        (text
          "MikroTik RouterOS API (SSL) — encrypted variant of the RouterOS API; still worth restricting to known management hosts")
        []
    ∷ rule 9090 [] (text "warning")
        (text
          "Prometheus — no authentication by default; can leak internal topology and metrics if reachable")
        []
    ∷ rule 10000 [] (text "critical")
        (text
          "Webmin — versions before 1.930 shipped a backdoored password-reset flow (CVE-2019-15107) allowing unauthenticated RCE; verify patch level")
        []
    ∷ rule 10255 [] (text "critical")
        (text
          "Kubelet read-only port — historically unauthenticated pod enumeration/exec; deprecated and should be disabled or firewalled")
        []
    ∷ rule 10257 [] (text "warning")
        (text
          "kube-controller-manager — Kubernetes control-plane component; exposure suggests the control plane is reachable beyond intended nodes")
        []
    ∷ rule 10259 [] (text "warning")
        (text
          "kube-scheduler — Kubernetes control-plane component; exposure suggests the control plane is reachable beyond intended nodes")
        []
    ∷ rule 27018 [] (text "critical")
        (text
          "MongoDB — repeatedly targeted in mass unauthenticated-access ransomware/wipe campaigns; verify auth is enabled and it isn't bound to a public interface")
        []
    ∷ rule 50000 [] (text "warning")
        (text "DB2 — direct database exposure; verify authentication and restrict network access")
        []
    ∷ rule 22 (text "openssh") (text "warning")
        (text
          "OpenSSH — versions before 7.4 have several known CVEs (e.g. username enumeration); verify patch level")
        (text "7.4")
    ∷ rule 21 (text "proftpd") (text "critical")
        (text
          "ProFTPD — versions before 1.3.5 are vulnerable to CVE-2015-3306 (unauthenticated arbitrary file copy via mod_copy)")
        (text "1.3.5")
    ∷ rule 80 (text "apache") (text "critical")
        (text
          "Apache httpd — versions before 2.4.51 are vulnerable to CVE-2021-41773 / CVE-2021-42013 (path traversal & RCE), actively exploited")
        (text "2.4.51")
    ∷ rule 443 (text "apache") (text "critical")
        (text
          "Apache httpd — versions before 2.4.51 are vulnerable to CVE-2021-41773 / CVE-2021-42013 (path traversal & RCE), actively exploited")
        (text "2.4.51")
    ∷ rule 80 (text "nginx") (text "warning")
        (text
          "nginx — versions before 1.21.0 (1.20.1 on the stable branch) are vulnerable to CVE-2021-23017 (DNS resolver off-by-one); relevant if the resolver directive is used")
        (text "1.21.0")
    ∷ rule 443 (text "nginx") (text "warning")
        (text
          "nginx — versions before 1.21.0 (1.20.1 on the stable branch) are vulnerable to CVE-2021-23017 (DNS resolver off-by-one); relevant if the resolver directive is used")
        (text "1.21.0")
    ∷ []
