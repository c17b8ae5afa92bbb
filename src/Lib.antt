-- ===== src/Lib.antt =====
-- A verification library of network-enumerator, a scanner of networks: a program in Go that finds
-- hosts and open ports, keeps them in SQLite, and shows them in a browser.
--
-- The program's parts. internal/store keeps the inventory: subnets, hosts, ports, tags, events, risk
-- rules, settings and one account. internal/discovery scans the subnets, records what it finds through
-- the store, and emits events. internal/auth holds the browser sessions. internal/api serves the
-- browser from the three. cmd/enumerator starts them.
--
-- The files.
--   Common        numbers, texts, lists, dictionaries, decimal and hexadecimal numbers.
--   Store         internal/store:
--     Table, Schema, Constraints, Sql   db.go: tables, columns (internal/model/types.go too), UNIQUE and
--                   FOREIGN KEY rules, and how statements run. A method is a function of a `Db`: its
--                   tables, and which of its statements fail. It returns a value or an error with
--                   the database it leaves, as nothing is rolled back.
--     Subnets, Hosts, Hosts/Sweep, Ports, Tags, Settings, Events, RiskRules, DefaultRules,
--     Credentials, Open   the methods of subnets.go, hosts.go, ports.go, tags.go, settings.go,
--                   events.go, risk.go, auth.go and db.go, by their names (UpsertHost is
--                   `upsert_host`).
--     View, Risk, Version   ListHosts, GetHost and riskForPorts of hosts.go, and version.go.
--     Calls         histories of calls of the methods that change the database.
--     Integrity     what the constraints promise, and that every method keeps it.
--   Auth          internal/auth/session.go; Session/Lazy has the store without late clean-up.
--   Api           internal/api: Access is auth.go (login, logout, changePassword, requireAuth), and Rules
--                   is risk.go, the handlers of risk rules. Hub is sse.go, as a step relation. Handler
--                   has how a handler runs (json.go): a function of the server that writes an error
--                   or goes on. Subnets, Hosts, Tags and Requests are server.go and settings.go, with
--                   the handlers by their names and the routes to them. Export and Import are export.go and
--                   systemexport.go.
--   Discovery     internal/discovery:
--     IpRange       iprange.go.
--     Ports         ports.go.
--     Network       the answers of the probes and of the external tools, as a record.
--     Method, Recording, PortScan, Augment, Dns, Anomalies, Cycle, Nmap   scanner.go: the choice of
--                   the method, emit and the functions that record hosts and ports, the scan of
--                   ports, netdiscoverAugment and reverseDNSSweep, scanUnconfirmedByDNS, the anomaly
--                   checks, scanSubnetTCP and scanSubnetNmap. An error of the store is logged and
--                   dropped there, which is `attempt`.
--     Run, Control, DeepScan   scanner.go: runOnce; the loop Run with its queues and its status as a
--                   step relation; TriggerDeepScan and its goroutines.
--     Icmp          icmp.go, as a step relation.
--     Dnsrecon      ParseDNSReconJSON of dnsrecon.go, on a JSON tree.
--   Examples      the theorems at concrete inputs.
-- The modules below a component hold the lemmas and the theorems on it.
--
-- Conventions. A text is the list of its bytes; a character of a literal that is not ASCII stands
-- as its code point. Numbers are natural numbers: ids, ports, counts and times (nanoseconds) stay
-- far below 2^63 in the program. The arithmetic of ExpandIPv4 and the counter of the pings wrap at
-- 2^32 as in the source, and numbers of versions stop at the largest int as strconv.Atoi does.
-- `now` is the reading of time.Now() in a method. A Go map is an association list. Letter case and
-- white space are those of ASCII. A query without ORDER BY, as in SweepMissingHosts and
-- SweepClosedPorts, is read newest first. A port that an imported rule gives as a negative number is
-- not representable.
--
-- Bounds and fuel. The loop of `version_less` runs on the total length of both versions, and the loop
-- of `expand_ipv4` on two rounds more than the cap of addresses; their theorems state the results
-- without fuel. `itoa` runs on one more than the number, which falls at each digit.
--
-- What is a parameter. SHA-256 and the random bytes (`none` where rand.Read fails), the outcome of
-- net.ParseCIDR and of the other parsers of package net (`Parsers`), the probes of the network and the
-- output of the external tools (the record `Network`), the packets that reach the socket of the pings,
-- and which statements fail in the engine.
--
-- What is not modelled. The order in which goroutines interleave: each method of the store runs under
-- a mutex and is one step, the goroutines of a scan are taken one after another, and a handler runs to
-- its end before the next; the loop of the scanner, the deep scans, the event stream and the pings are
-- step relations and interleave, where the counter and the map of a ping change in one step, and so do
-- the lookup of a reply and its signal. The two readings of the clock in the check of a session are
-- one. An error while the rows of a query are read, apart from the query's own. SQLite itself beyond
-- the constraints, the migrations of an older file, logging, the callback that passes a stored event
-- on to the browsers. JSON and HTTP: a body is given decoded. The uploads of nmap's and dnsrecon's
-- output (internal/api/nmapimport.go and dnsrecon.go), the parsers of the output of nmap,
-- netdiscover, dig and of the ARP table, and cmd/enumerator.
pub mod Api
pub mod Common
pub mod Auth
pub mod Discovery
pub mod Store
pub mod Examples
