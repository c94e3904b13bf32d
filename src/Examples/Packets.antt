-- ===== src/Examples/Packets.antt =====
-- The theorems on packets and on the changes to the table, on the network of the leases' examples.
use app_runner.Prelude.{word_or, word_or}
use app_runner.Net.{masked, masked}
use app_runner.Net.{contains}
use app_runner.Net.{Addr-discrete}
use app_runner.Prelude.{keep, ◌++◌, inl, Text-discrete}
use app_runner.Dhcp.Range.{Range, parse_range, parsed, address_in_pool}
use app_runner.Prelude.{
  if◌then◌else◌, ℕ, ◌+◌, ◌≡◌, ◌≢◌, ◌⊎◌, refl, true, false, Option, none, some, [], ◌∷◌, codes, fold,
  arith, lookup, same, trim_space, not, ◌&&◌,
}
use app_runner.Net.{Addr, ipv4}
use app_runner.Dhcp.Range.{address_in_static_range}
use app_runner.Dhcp.Config.{BridgeConfig, BridgeConfig}
use app_runner.Dhcp.Lease.{
  Leases, acquire, prune, stale, grant_new, choose, scan_pool, in_use, has_hardware,
}
use app_runner.Dhcp.Lease.Table.{Distinct}
use app_runner.Dhcp.Lease.Grant.{Granted}
use app_runner.Dhcp.Manage.{set_static_lease, claim, set_claimed, taken}
use app_runner.Dhcp.Manage.Static.{
  Reserved, set_static_lease-Reserved, set_static_lease_drops, Ranged,
}
use app_runner.Dhcp.Packet.{
  release, request, ack, nak, Request, Reply, requested_address, client_key, handle_packet,
}
use app_runner.Dhcp.Packet.Answers.{
  handle_packet_releases, handle_packet-Distinct, handle_packet_ack, handle_packet_ack_requested,
}
use app_runner.Dhcp.Packet.Keys.{client_key_injective}
use app_runner.Examples.Leases.{
  network, range, lease, two_leases, two_leases-Distinct, new_hardware,
}

abbrev config : BridgeConfig
config = record {
  enabled = true;
  cidr = some range.prefix;
  nat = true;
  dns = record { enabled = true; forwarders = []; auto = true; suffix = codes "lan" };
  http_boot_url = [];
}

-- A DHCPREQUEST for an address, to any server.
abbrev asks : ℕ → Request
asks a = record {
  is_boot_request = true;
  message_type = request;
  requested_option = some a;
  client_ip = none;
  client_identifier = 1 ∷ 2 ∷ [];
  hardware_address = new_hardware;
  server_identifier = none;
  class_identifier = [];
}

abbrev answered : ℕ → Leases × Option Reply
answered a = handle_packet range config 10 true true (asks a) two_leases

abbrev acknowledgement : Reply
acknowledgement = record {
  kind = ack;
  server_id = network + 1;
  your_ip = some (ipv4 (network + 60));
  subnet_bits = some 24;
  broadcast = some (network + 255);
  router = some (network + 1);
  dns = some (network + 1);
  domain = some (codes "lan");
  lease_time = some 86400000000000;
  boot_file = none;
}

abbrev refusal : Reply
refusal = record {
  kind = nak;
  server_id = network + 1;
  your_ip = none;
  subnet_bits = none;
  broadcast = none;
  router = none;
  dns = none;
  domain = none;
  lease_time = none;
  boot_file = none;
}

acknowledged : (answered (network + 60)).1 ≡ some acknowledgement
unfolding handle_packet acquire prune stale grant_new choose scan_pool in_use lookup address_in_pool
    Text-discrete client_key fold Addr-discrete
acknowledged = refl

refused_taken : (answered (network + 51)).1 ≡ some refusal
unfolding handle_packet acquire prune stale grant_new choose scan_pool in_use lookup address_in_pool
    Text-discrete client_key fold Addr-discrete
refused_taken = refl

asks_for : requested_address (asks (network + 60)) ≡ some (ipv4 (network + 60))
unfolding requested_address
asks_for = refl

handle_packet-Distinct_example : Distinct (answered (network + 60)).0
handle_packet-Distinct_example =
    handle_packet-Distinct range config 10 true true (asks (network + 60)) two_leases
      two_leases-Distinct

handle_packet_ack_example :
    (a : Addr) × (some (ipv4 (network + 60)) ≡ some a)
    × Granted range 10
        (client_key (asks (network + 60)))
        (fold new_hardware)
        (answered (network + 60)).0
        a
handle_packet_ack_example =
    handle_packet_ack range config 10 true true (asks (network + 60)) two_leases acknowledgement
      two_leases-Distinct refl acknowledged refl

handle_packet_ack_requested_example : some (ipv4 (network + 60)) ≡ some (ipv4 (network + 60))
handle_packet_ack_requested_example =
    handle_packet_ack_requested range config 10 true true (asks (network + 60)) two_leases
      acknowledgement (ipv4 (network + 60)) two_leases-Distinct refl asks_for acknowledged refl

client_key_injective_example :
    ((asks 0).client_identifier ≡ (asks 1).client_identifier)
    × (((asks 0).client_identifier ≢ [])
        ⊎ (fold (asks 0).hardware_address ≡ fold (asks 1).hardware_address))
unfolding client_key
client_key_injective_example =
    client_key_injective (asks 0) (asks 1) (omega arith, (omega arith, tt))
      (omega arith, (omega arith, tt)) refl

abbrev static_address : Addr
static_address = ipv4 (network + 10)

abbrev two_with_static : Leases
two_with_static =
    (codes "a", lease (codes "a") (codes "00:0a") (network + 50))
    ∷ (codes "s", lease (codes "s") (codes "00:0d") (network + 10))
    ∷ []

abbrev config_of_range : BridgeConfig
config_of_range = record {
  enabled = true;
  cidr = some range.prefix;
  nat = false;
  dns = record { enabled = false; forwarders = []; auto = false; suffix = [] };
  http_boot_url = [];
}

reads_range : parse_range config_of_range.cidr ≡ parsed range
unfolding parse_range masked word_or
reads_range = refl

reserves :
    (set_static_lease
      (some config_of_range)
      (codes "00:0A")
      true
      (some static_address)
      true
      two_leases).1
    ≡ none
unfolding set_static_lease claim set_claimed address_in_static_range contains Text-discrete fold
    trim_space Addr-discrete parse_range masked word_or
reserves = refl

in_static_range : address_in_static_range range static_address ≡ true
unfolding address_in_static_range contains
in_static_range = refl

set_static_lease-Reserved_example :
    (r : Range) × Ranged (some config_of_range) r
    × Reserved r
        (fold (trim_space (codes "00:0A")))
        (some static_address)
        (set_static_lease
          (some config_of_range)
          (codes "00:0A")
          true
          (some static_address)
          true
          two_leases).0
set_static_lease-Reserved_example =
    set_static_lease-Reserved (some config_of_range) (codes "00:0A") true true (some static_address)
      two_leases two_leases-Distinct reserves

is_own :
    has_hardware
      (fold (trim_space (codes "00:0A")))
      (codes "a", lease (codes "a") (codes "00:0a") (network + 50))
    ≡ true
unfolding fold Text-discrete trim_space
is_own = refl

is_other :
    has_hardware
      (fold (trim_space (codes "00:0A")))
      (codes "s", lease (codes "s") (codes "00:0d") (network + 10))
    ≡ false
unfolding fold Text-discrete trim_space
is_other = refl

set_static_lease_drops_example :
    set_static_lease
      (some config_of_range)
      (codes "00:0A")
      true
      (some static_address)
      true
      two_with_static
    ≡ (
      keep
            (λ e. not (has_hardware (fold (trim_space (codes "00:0A"))) e))
            ((codes "a", lease (codes "a") (codes "00:0a") (network + 50)) ∷ [])
          ++ (codes "s", lease (codes "s") (codes "00:0d") (network + 10)) ∷ [],
      some taken,
    )
set_static_lease_drops_example =
    set_static_lease_drops config_of_range range (codes "00:0A") true static_address
      ((codes "a", lease (codes "a") (codes "00:0a") (network + 50)) ∷ [])
      (codes "s", lease (codes "s") (codes "00:0d") (network + 10)) [] refl reads_range
      in_static_range (inl is_own, tt) is_other refl

abbrev releasing : Request
releasing = record (asks 0) { message_type = release }

handle_packet_releases_example :
    ((handle_packet range config 10 true true releasing two_leases).1 ≡ none)
    × (lookup (codes "b") (handle_packet range config 10 true true releasing two_leases).0
        ≡ elim (lookup (codes "b") two_leases) [
          | none ↦ none
          | some l ↦
              if same (client_key releasing) (codes "b") && not l.static then none else some l
        ])
handle_packet_releases_example =
    handle_packet_releases range config 10 true true releasing two_leases (codes "b") (inl refl)
      refl
