-- ===== src/Dhcp/Config.antt =====
-- The configuration of a bridge's guest services (internal/dhcp/dhcp.go: BridgeConfig;
-- internal/dns/dns.go: Config). A CIDR text stands for what netip.ParsePrefix makes of it, a
-- forwarder for its text.
use app_runner.Prelude.{Bool, Option, List, Text}
use app_runner.Net.{Prefix}

pub record DnsConfig : Type 0 where
  pub enabled : Bool
  pub forwarders : List Text
  pub auto : Bool
  pub suffix : Text

pub record BridgeConfig : Type 0 where
  pub enabled : Bool
  pub cidr : Option Prefix
  pub nat : Bool
  pub dns : DnsConfig
  pub http_boot_url : Text
