-- ===== src/Dhcp/Service.antt =====
-- The services of bridges while machines use them (internal/dhcp/dhcp.go: Prepare, prepareBridge,
-- Release, releaseBridge, Reconcile, Shutdown, serve, Enabled). The bridge provider, the listeners and the
-- NAT and DNS controllers are parameters, as they are interfaces in Go; what they act on is a value
-- of `Host`. Both controllers are configured.
pub mod Release
pub mod Users
pub mod Idle
use app_runner.Prelude.{
  ℕ, ◌+◌, Bool, true, false, ◌&&◌, not, Option, none, some, List, [], ◌∷◌, if◌then◌else◌, Text,
  same, keep, Assoc, lookup, insert,
}
use app_runner.Net.{Prefix}
use app_runner.Validate.{LabelError, dns_label}
use app_runner.Vm.{VirtualMachine}
use app_runner.Dhcp.Config.{BridgeConfig, DnsConfig}
use app_runner.Dhcp.Range.{Range, Parsed, parsed, refused, parse_range}

-- BridgeProvider, Server, NATController and DNSController; the Boolean is whether a call succeeds.
pub record Controllers (Host : Type 0) : Type 0 where
  pub ensure_address : Text → Range → Host → Host × Bool
  pub nat_running : Text → Host → Bool
  pub nat_start : Text → Prefix → Host → Host × Bool
  pub nat_stop : Text → Host → Host × Bool
  pub nat_finish : Host → Host × Bool
  pub dns_running : Text → Host → Bool
  pub dns_start : Text → ℕ → DnsConfig → Host → Host × Bool
  pub dns_stop : Text → Host → Host × Bool
  pub dns_close : Host → Host × Bool
  pub listen : Text → Range → BridgeConfig → Host → Host × Bool
  pub close : Text → Host → Host × Bool

-- `server` is whether the runtime still has its listener; the serial number stands for the pointer.
pub record Runtime : Type 0 where
  pub serial : ℕ
  pub server : Bool
  pub users : List Text
  pub running : Bool
  pub nat : Bool
  pub dns : Bool
  pub vms : Assoc VirtualMachine

pub record Manager (Host : Type 0) : Type 0 where
  pub host : Host
  pub configs : Assoc BridgeConfig
  pub runtimes : Assoc Runtime
  pub next_serial : ℕ
  pub errors : List Text

pub data ServiceError : Type 0 where
  bad_range unpublished_name dns_not_restarted no_address nat_not_started dns_not_started
        not_listening not_recovered not_closed :
      ServiceError

abbrev pub Failure : Type 0
Failure = Option ServiceError

abbrev pub new_runtime : ℕ → Runtime
new_runtime k = record {
  serial = k;
  server = false;
  users = [];
  running = false;
  nat = false;
  dns = false;
  vms = [];
}

pub with_user : VirtualMachine → Runtime → Runtime
with_user v r = record r {
  users = v.id ∷ keep (λ u. not (same u v.id)) r.users;
  vms = insert v.id v r.vms;
}

module _ {Host : Type 0} (c : Controllers Host) where
  pub set_error : Text → Manager Host → Manager Host
  set_error b m = record m { errors = b ∷ keep (λ x. not (same x b)) m.errors }

  clear_error : Text → Manager Host → Manager Host
  clear_error b m = record m { errors = keep (λ x. not (same x b)) m.errors }

  -- `m.errors[bridge] = err.Error()`, and the error is returned.
  fail : Text → Host → ServiceError → Manager Host → Manager Host × Failure
  unfolding set_error
  fail b host e m = (set_error b (record m { host = host }), some e)

  -- The rollback of what this call started.
  undo_nat : Text → Bool → Host → Host
  undo_nat b started h = if started then (c.nat_stop b h).0 else h

  undo_dns : Text → Bool → Host → Host
  undo_dns b started h = if started then (c.dns_stop b h).0 else h

  -- The machine is recorded as a user of a bridge that is served.
  joined : Text → VirtualMachine → Runtime → Manager Host → Manager Host × Failure
  unfolding with_user clear_error
  joined b v r m =
      (clear_error b (record m { runtimes = insert b (with_user v r) m.runtimes }), none)

  -- The bridge is served already: DNS is started again, if it stopped.
  pub rejoin :
      Text → BridgeConfig → Range → VirtualMachine → Runtime → Manager Host → Manager Host × Failure
  unfolding joined fail
  rejoin b config range v r m =
      if config.dns.enabled && not (c.dns_running b m.host)
      then (let (h, ok) = c.dns_start b range.server config.dns m.host in
          if ok then joined b v r (record m { host = h }) else fail b h dns_not_restarted m)
      else joined b v r m

  -- The listener is opened, after NAT and DNS.
  pub open_listener :
      Text
      → BridgeConfig
      → Range
      → VirtualMachine
      → Runtime
      → Bool
      → Bool
      → Host
      → Manager Host
      → Manager Host × Failure
  unfolding joined fail undo_nat undo_dns
  open_listener b config range v r nat_started dns_started h m =
      let (h1, ok) = c.listen b range config h in
      if ok
      then joined b v
          (record r { server = true; running = true; nat = config.nat; dns = config.dns.enabled })
          (record m { host = h1 })
      else fail b (undo_nat b nat_started (undo_dns b dns_started h1)) not_listening m

  pub start_dns :
      Text
      → BridgeConfig
      → Range
      → VirtualMachine
      → Runtime
      → Bool
      → Host
      → Manager Host
      → Manager Host × Failure
  unfolding open_listener fail undo_nat
  start_dns b config range v r nat_started h m =
      if config.dns.enabled
      then (let was = c.dns_running b h in
          let (h1, ok) = c.dns_start b range.server config.dns h in
          if ok
          then open_listener b config range v r nat_started (not was) h1 m
          else fail b (undo_nat b nat_started h1) dns_not_started m)
      else open_listener b config range v r nat_started false h m

  pub start_nat :
      Text
      → BridgeConfig
      → Range
      → VirtualMachine
      → Runtime
      → Host
      → Manager Host
      → Manager Host × Failure
  unfolding start_dns fail
  start_nat b config range v r h m =
      if config.nat
      then (let was = c.nat_running b h in
          let (h1, ok) = c.nat_start b range.prefix h in
          if ok then start_dns b config range v r (not was) h1 m else fail b h1 nat_not_started m)
      else start_dns b config range v r false h m

  pub start_services :
      Text → BridgeConfig → Range → VirtualMachine → Runtime → Manager Host → Manager Host × Failure
  unfolding start_nat fail
  start_services b config range v r m =
      let (h, ok) = c.ensure_address b range m.host in
      if ok then start_nat b config range v r h m else fail b h no_address m

  pub serve_from :
      Text
      → BridgeConfig
      → Range
      → VirtualMachine
      → Option Runtime
      → Manager Host
      → Manager Host × Failure
  unfolding rejoin start_services
  serve_from b config range v none m =
      start_services b config range v (new_runtime m.next_serial)
        (record m { next_serial = m.next_serial + 1 })
  serve_from b config range v (some r) m =
      if r.running then rejoin b config range v r m else start_services b config range v r m

  pub publishes : BridgeConfig → Option LabelError → Bool
  publishes config none = true
  publishes config (some e) = not config.dns.auto

  pub prepare_parsed :
      Text → BridgeConfig → Parsed → VirtualMachine → Manager Host → Manager Host × Failure
  unfolding serve_from publishes
  prepare_parsed b config (refused e) v m = (m, some bad_range)
  prepare_parsed b config (parsed range) v m =
      if publishes config (dns_label v.name)
      then serve_from b config range v (lookup b m.runtimes) m
      else (m, some unpublished_name)

  pub prepare_config :
      Text → Option BridgeConfig → VirtualMachine → Manager Host → Manager Host × Failure
  unfolding prepare_parsed
  prepare_config b none v m = (m, none)
  prepare_config b (some config) v m =
      if config.enabled then prepare_parsed b config (parse_range config.cidr) v m else (m, none)

  -- `prepareBridge`
  unfoldable pub prepare_bridge : Text → VirtualMachine → Manager Host → Manager Host × Failure
  unfolding prepare_config
  prepare_bridge b v m = prepare_config b (lookup b m.configs) v m
