-- ===== src/Discovery/Ports.antt =====
-- internal/discovery/ports.go.
use network_enumerator.Common.{ℕ, Option, none, some, List, [], ◌∷◌, ◌==◌, Text, text, find_if}

unfoldable pub discovery_ports : List ℕ
discovery_ports =
    22 ∷ 80 ∷ 443 ∷ 445 ∷ 139 ∷ 135 ∷ 3389 ∷ 21 ∷ 23 ∷ 53 ∷ 25 ∷ 8080 ∷ 8443 ∷ 631 ∷ 5000 ∷ 111 ∷ []

unfoldable pub common_ports : List ℕ
common_ports =
    7 ∷ 9 ∷ 13 ∷ 20 ∷ 21 ∷ 22 ∷ 23 ∷ 25 ∷ 26 ∷ 37 ∷ 49 ∷ 53 ∷ 67 ∷ 68 ∷ 69 ∷ 79 ∷ 80 ∷ 81 ∷ 82 ∷ 88
    ∷ 106 ∷ 110 ∷ 111 ∷ 113 ∷ 119 ∷ 123 ∷ 135 ∷ 137 ∷ 138 ∷ 139 ∷ 143 ∷ 144 ∷ 161 ∷ 162 ∷ 179 ∷ 199
    ∷ 389 ∷ 427 ∷ 443 ∷ 444 ∷ 445 ∷ 464 ∷ 465 ∷ 500 ∷ 512 ∷ 513 ∷ 514 ∷ 515 ∷ 543 ∷ 544 ∷ 548 ∷ 554
    ∷ 587 ∷ 593 ∷ 623 ∷ 631 ∷ 636 ∷ 646 ∷ 787 ∷ 800 ∷ 801 ∷ 808 ∷ 873 ∷ 902 ∷ 903 ∷ 989 ∷ 990 ∷ 992
    ∷ 993 ∷ 995 ∷ 1025 ∷ 1026 ∷ 1027 ∷ 1028 ∷ 1029 ∷ 1080 ∷ 1099 ∷ 1194 ∷ 1234 ∷ 1433 ∷ 1434 ∷ 1521
    ∷ 1527 ∷ 1701 ∷ 1723 ∷ 1755 ∷ 1900 ∷ 2000 ∷ 2001 ∷ 2049 ∷ 2055 ∷ 2082 ∷ 2083 ∷ 2086 ∷ 2087
    ∷ 2095 ∷ 2096 ∷ 2181 ∷ 2222 ∷ 2375 ∷ 2376 ∷ 2379 ∷ 2380 ∷ 2483 ∷ 2484 ∷ 3000 ∷ 3001 ∷ 3128
    ∷ 3260 ∷ 3268 ∷ 3269 ∷ 3306 ∷ 3389 ∷ 3690 ∷ 3691 ∷ 4000 ∷ 4040 ∷ 4190 ∷ 4243 ∷ 4369 ∷ 4443
    ∷ 4444 ∷ 4500 ∷ 4567 ∷ 4664 ∷ 4848 ∷ 4899 ∷ 5000 ∷ 5001 ∷ 5040 ∷ 5060 ∷ 5061 ∷ 5222 ∷ 5269
    ∷ 5353 ∷ 5355 ∷ 5357 ∷ 5432 ∷ 5433 ∷ 5555 ∷ 5601 ∷ 5631 ∷ 5672 ∷ 5900 ∷ 5901 ∷ 5902 ∷ 5903
    ∷ 5984 ∷ 5985 ∷ 5986 ∷ 6000 ∷ 6001 ∷ 6379 ∷ 6443 ∷ 6600 ∷ 6666 ∷ 6667 ∷ 6881 ∷ 7000 ∷ 7001
    ∷ 7070 ∷ 7077 ∷ 7080 ∷ 7100 ∷ 7180 ∷ 7182 ∷ 7183 ∷ 7199 ∷ 7233 ∷ 7236 ∷ 7443 ∷ 7474 ∷ 7547
    ∷ 7657 ∷ 7777 ∷ 7778 ∷ 8000 ∷ 8001 ∷ 8006 ∷ 8008 ∷ 8009 ∷ 8010 ∷ 8020 ∷ 8025 ∷ 8042 ∷ 8060
    ∷ 8069 ∷ 8080 ∷ 8081 ∷ 8082 ∷ 8083 ∷ 8086 ∷ 8087 ∷ 8088 ∷ 8089 ∷ 8090 ∷ 8091 ∷ 8096 ∷ 8112
    ∷ 8123 ∷ 8140 ∷ 8161 ∷ 8181 ∷ 8182 ∷ 8200 ∷ 8222 ∷ 8291 ∷ 8333 ∷ 8400 ∷ 8443 ∷ 8444 ∷ 8500
    ∷ 8530 ∷ 8531 ∷ 8545 ∷ 8728 ∷ 8729 ∷ 8834 ∷ 8880 ∷ 8883 ∷ 8888 ∷ 8889 ∷ 8983 ∷ 9000 ∷ 9001
    ∷ 9042 ∷ 9043 ∷ 9060 ∷ 9080 ∷ 9090 ∷ 9091 ∷ 9092 ∷ 9100 ∷ 9160 ∷ 9200 ∷ 9300 ∷ 9418 ∷ 9443
    ∷ 9500 ∷ 9502 ∷ 9600 ∷ 9990 ∷ 9995 ∷ 9999 ∷ 10000 ∷ 10001 ∷ 10250 ∷ 10255 ∷ 10257 ∷ 10259
    ∷ 11211 ∷ 11434 ∷ 12345 ∷ 15672 ∷ 16992 ∷ 16993 ∷ 17000 ∷ 17185 ∷ 18080 ∷ 18081 ∷ 19132 ∷ 20000
    ∷ 20547 ∷ 21025 ∷ 25565 ∷ 27015 ∷ 27017 ∷ 27018 ∷ 28015 ∷ 32400 ∷ 32764 ∷ 32768 ∷ 44818 ∷ 47808
    ∷ 49152 ∷ 49153 ∷ 49154 ∷ 49155 ∷ 50000 ∷ 50070 ∷ 54321 ∷ 55443 ∷ 61616 ∷ []

-- The map from ports to names.
unfoldable pub well_known_services : List (ℕ × Text)
well_known_services =
    (21, text "ftp")
    ∷ (22, text "ssh")
    ∷ (23, text "telnet")
    ∷ (25, text "smtp")
    ∷ (53, text "dns")
    ∷ (80, text "http")
    ∷ (81, text "http")
    ∷ (88, text "kerberos")
    ∷ (110, text "pop3")
    ∷ (111, text "rpcbind")
    ∷ (135, text "msrpc")
    ∷ (139, text "netbios-ssn")
    ∷ (143, text "imap")
    ∷ (179, text "bgp")
    ∷ (389, text "ldap")
    ∷ (443, text "https")
    ∷ (445, text "microsoft-ds")
    ∷ (465, text "smtps")
    ∷ (514, text "syslog")
    ∷ (515, text "printer")
    ∷ (548, text "afp")
    ∷ (554, text "rtsp")
    ∷ (587, text "submission")
    ∷ (593, text "http-rpc-epmap")
    ∷ (631, text "ipp")
    ∷ (636, text "ldaps")
    ∷ (993, text "imaps")
    ∷ (995, text "pop3s")
    ∷ (1433, text "mssql")
    ∷ (1521, text "oracle")
    ∷ (1723, text "pptp")
    ∷ (2049, text "nfs")
    ∷ (2181, text "zookeeper")
    ∷ (2375, text "docker")
    ∷ (2376, text "docker-tls")
    ∷ (3000, text "http-alt")
    ∷ (3268, text "ldap-gc")
    ∷ (3306, text "mysql")
    ∷ (3389, text "rdp")
    ∷ (3690, text "svn")
    ∷ (5000, text "http-alt")
    ∷ (5432, text "postgresql")
    ∷ (5601, text "kibana")
    ∷ (5672, text "amqp")
    ∷ (5900, text "vnc")
    ∷ (5901, text "vnc")
    ∷ (5984, text "couchdb")
    ∷ (5985, text "winrm")
    ∷ (5986, text "winrm-ssl")
    ∷ (6379, text "redis")
    ∷ (6443, text "kubernetes-api")
    ∷ (6667, text "irc")
    ∷ (7001, text "weblogic")
    ∷ (8000, text "http-alt")
    ∷ (8006, text "proxmox")
    ∷ (8008, text "http-alt")
    ∷ (8080, text "http-proxy")
    ∷ (8081, text "http-alt")
    ∷ (8086, text "influxdb")
    ∷ (8443, text "https-alt")
    ∷ (8888, text "http-alt")
    ∷ (8983, text "solr")
    ∷ (9000, text "http-alt")
    ∷ (9042, text "cassandra")
    ∷ (9092, text "kafka")
    ∷ (9100, text "printer-jetdirect")
    ∷ (9200, text "elasticsearch")
    ∷ (9300, text "elasticsearch-transport")
    ∷ (10250, text "kubelet")
    ∷ (11211, text "memcached")
    ∷ (15672, text "rabbitmq-mgmt")
    ∷ (27017, text "mongodb")
    ∷ (32400, text "plex")
    ∷ (49, text "tacacs")
    ∷ (67, text "dhcp-server")
    ∷ (68, text "dhcp-client")
    ∷ (69, text "tftp")
    ∷ (123, text "ntp")
    ∷ (137, text "netbios-ns")
    ∷ (138, text "netbios-dgm")
    ∷ (161, text "snmp")
    ∷ (162, text "snmptrap")
    ∷ (464, text "kpasswd")
    ∷ (500, text "isakmp")
    ∷ (623, text "ipmi")
    ∷ (873, text "rsync")
    ∷ (1194, text "openvpn")
    ∷ (1527, text "derby")
    ∷ (1701, text "l2tp")
    ∷ (2055, text "netflow")
    ∷ (2379, text "etcd-client")
    ∷ (2380, text "etcd-peer")
    ∷ (3269, text "ldap-gc-ssl")
    ∷ (4190, text "sieve")
    ∷ (4243, text "docker-alt")
    ∷ (4500, text "ipsec-nat-t")
    ∷ (5001, text "https-alt")
    ∷ (5060, text "sip")
    ∷ (5061, text "sips")
    ∷ (5902, text "vnc")
    ∷ (5903, text "vnc")
    ∷ (8001, text "kubernetes-api")
    ∷ (8088, text "http-alt")
    ∷ (8291, text "mikrotik-winbox")
    ∷ (8728, text "mikrotik-api")
    ∷ (8729, text "mikrotik-api-ssl")
    ∷ (9090, text "prometheus")
    ∷ (9443, text "https-alt")
    ∷ (9995, text "netflow")
    ∷ (10000, text "webmin")
    ∷ (10255, text "kubelet-readonly")
    ∷ (10257, text "kube-controller-manager")
    ∷ (10259, text "kube-scheduler")
    ∷ (27018, text "mongodb")
    ∷ (50000, text "db2")
    ∷ []

-- The name of a port, or "".
abbrev pub name_of : Option (ℕ × Text) → Text
name_of none = []
name_of (some e) = e.1

unfoldable pub service_guess : ℕ → Text
unfolding well_known_services
service_guess port = name_of (find_if (λ e. e.0 == port) well_known_services)
