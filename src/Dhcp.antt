-- ===== src/Dhcp.antt =====
-- internal/dhcp/dhcp.go: the DHCPv4 service of a bridge.
pub mod Range
pub mod Lease
pub mod Manage
pub mod Config
pub mod Packet
pub mod Service
pub mod Settings
