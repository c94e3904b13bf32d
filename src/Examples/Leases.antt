-- ===== src/Examples/Leases.antt =====
-- The theorems on ranges and lease tables, on a network of 192.168.100.0/24.
use app_runner.Net.{Addr-discrete}
use app_runner.Prelude.{
  ℕ, ◌≤◌, ◌<◌, ◌+◌, ◌^◌, ◌≡◌, refl, true, false, none, some, [], ◌∷◌, Text, codes, fold, arith,
  lookup, Text-discrete, ◌↔◌,
}
use app_runner.Net.{Addr, ipv4, contains}
use app_runner.Dhcp.Range.{Range, parsed, parse_range, prefixes_overlap, address_in_pool}
use app_runner.Dhcp.Range.Bounds.{parse_range_accepts}
use app_runner.Dhcp.Range.Overlap.{block, prefixes_overlap_iff}
use app_runner.Dhcp.Lease.{
  Lease, Leases, leased, acquire, prune, stale, grant_new, choose, scan_pool, in_use,
}
use app_runner.Dhcp.Lease.Table.{Distinct}
use app_runner.Dhcp.Lease.Grant.{Granted}
use app_runner.Dhcp.Lease.Acquire.{acquire-Distinct, acquire-Granted}
use app_runner.Dhcp.Lease.Answer.{acquire_strict, acquire_answers}

abbrev pub network : ℕ
network = 3232261120

abbrev pub range : Range
range = record {
  prefix = record { addr = ipv4 network; bits = 24 };
  server = network + 1;
  pool_start = network + 50;
  pool_end = network + 254;
  broadcast = network + 255;
}

abbrev pub lease : Text → Text → ℕ → Lease
lease key hw a = record {
  client_key = key;
  hardware_address = hw;
  address = some (ipv4 a);
  expires_at = 100;
  static = false;
  vm_name = [];
}

abbrev pub two_leases : Leases
two_leases =
    (codes "a", lease (codes "a") (codes "00:0a") (network + 50))
    ∷ (codes "b", lease (codes "b") (codes "00:0b") (network + 51))
    ∷ []

pub two_leases-Distinct : Distinct two_leases
two_leases-Distinct = ((((λ e. ground arith), (λ e. ground arith)), tt), (tt, tt))

abbrev pub new_key : Text
new_key = codes "c"

abbrev pub new_hardware : Text
new_hardware = codes "00:0C"

acquire-Distinct_example :
    Distinct (acquire range 10 new_key new_hardware none false true two_leases).0
acquire-Distinct_example =
    acquire-Distinct range 10 new_key new_hardware none false true two_leases two_leases-Distinct

acquires :
    (acquire range 10 new_key new_hardware none false true two_leases).1
    ≡ leased (some (ipv4 (network + 52)))
unfolding acquire prune stale grant_new choose scan_pool in_use lookup address_in_pool Text-discrete
    fold Addr-discrete
acquires = refl

acquire-Granted_example :
    (x : Addr) × (some (ipv4 (network + 52)) ≡ some x)
    × Granted range 10 new_key
        (fold new_hardware)
        (acquire range 10 new_key new_hardware none false true two_leases).0
        x
acquire-Granted_example =
    acquire-Granted range 10 new_key new_hardware none false true two_leases
      (some (ipv4 (network + 52))) two_leases-Distinct acquires

acquires_strictly :
    (acquire range 10 new_key new_hardware (some (ipv4 (network + 60))) true true two_leases).1
    ≡ leased (some (ipv4 (network + 60)))
unfolding acquire prune stale grant_new choose scan_pool in_use lookup address_in_pool Text-discrete
    fold Addr-discrete
acquires_strictly = refl

acquire_strict_example : some (ipv4 (network + 60)) ≡ some (ipv4 (network + 60))
acquire_strict_example =
    acquire_strict range 10 new_key new_hardware (ipv4 (network + 60)) true two_leases
      (some (ipv4 (network + 60))) acquires_strictly

acquire_answers_example :
    (a : Addr) × ((acquire range 10 new_key new_hardware none false true two_leases).1
      ≡ leased (some a))
acquire_answers_example =
    acquire_answers range 10 new_key new_hardware none two_leases (omega arith)

parse_range_accepts_example :
    (r : Range) × (parse_range (some (record { addr = ipv4 (network + 7); bits = 24 })) ≡ parsed r)
    × (r.prefix ≡ record { addr = ipv4 network; bits = 24 })
    × (r.server ≡ network + 1)
    × (r.pool_start ≡ network + 50)
    × (r.pool_end + 2 ≡ network + 256)
    × (r.broadcast + 1 ≡ network + 256)
    × (r.pool_start + 12 ≤ r.pool_end)
    × (r.broadcast < 2 ^ 32)
parse_range_accepts_example =
    parse_range_accepts (network + 7) 24 (omega arith) (omega arith) (omega arith)

prefixes_overlap_iff_example :
    (prefixes_overlap (block network 24) (block (network + 128) 25) ≡ true) ↔ (
      (a : ℕ) × (contains (block network 24) (ipv4 a) ≡ true)
      × (contains (block (network + 128) 25) (ipv4 a) ≡ true))
prefixes_overlap_iff_example = prefixes_overlap_iff network 24 (network + 128) 25
