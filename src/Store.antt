-- ===== src/Store.antt =====
-- internal/store: the database and its operations.
pub mod Table
pub mod Schema
pub mod Sql
pub mod Constraints
pub mod Subnets
pub mod Hosts
pub mod Ports
pub mod Tags
pub mod Settings
pub mod Events
pub mod Credentials
pub mod Version
pub mod DefaultRules
pub mod RiskRules
pub mod Risk
pub mod View
pub mod Integrity
pub mod Open
pub mod Calls
