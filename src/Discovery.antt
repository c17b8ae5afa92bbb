-- ===== src/Discovery.antt =====
-- internal/discovery.
pub mod IpRange
pub mod Ports
pub mod Attempt
pub mod Method
pub mod Recording
pub mod PortScan
pub mod Network
pub mod Augment
pub mod Dns
pub mod Anomalies
pub mod Cycle
pub mod Nmap
pub mod Run
pub mod Control
pub mod DeepScan
pub mod Icmp
pub mod Dnsrecon
