-- ===== src/Api.antt =====
-- internal/api.
pub mod Access
pub mod Rules
pub mod Hub
pub mod Handler
pub mod Subnets
pub mod Hosts
pub mod Tags
pub mod Export
pub mod Import
pub mod Requests
