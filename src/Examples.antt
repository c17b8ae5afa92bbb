-- ===== src/Examples.antt =====
-- Runs of the theorems on a small network.
mod Inventory
mod Reading
mod Services
mod Access
mod Rules
mod Stream
mod Scanning
mod Control
mod Requests
mod Pings
mod Output
