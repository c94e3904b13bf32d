-- ===== src/Dhcp/Range.antt =====
-- The address range of a bridge (internal/dhcp/dhcp.go: ParseRange, addressInPool,
-- addressInStaticRange, prefixesOverlap, AddressConflicts). `ipv4ToUint32` and `uint32ToIPv4` go
-- between an address and its number, so the four IPv4 addresses of a range are kept as numbers.
pub mod Bounds
pub mod Overlap
use app_runner.Prelude.{
  ℕ, ◌+◌, ◌-◌, ◌^◌, ◌%◌, word_or, Bool, true, false, ◌&&◌, ◌||◌, not, Option, none, some, ltb, leb,
  ◌==◌, if◌then◌else◌,
}
use app_runner.Net.{Addr, ipv4, ipv6, same_addr, Prefix, contains, masked}

pub record Range : Type 0 where
  pub prefix : Prefix
  pub server : ℕ
  pub pool_start : ℕ
  pub pool_end : ℕ
  pub broadcast : ℕ

pub data RangeError : Type 0 where
  not_ipv4 bad_length no_pool : RangeError

pub data Parsed : Type 0 where
  parsed : Range → Parsed
  refused : RangeError → Parsed

abbrev pub pool_start_offset : ℕ
pool_start_offset = 50

-- `uint32` arithmetic wraps.
abbrev pub u32 : ℕ → ℕ
u32 n = n % 2 ^ 32

-- `network` is the masked address as a number, `bits` the length of the prefix.
range_of : Prefix → ℕ → ℕ → Range
range_of prefix network bits =
    let broadcast = word_or 32 network (2 ^ (32 - bits) - 1) in
    record {
      prefix = prefix;
      server = u32 (network + 1);
      pool_start = u32 (network + pool_start_offset);
      pool_end = u32 (broadcast + 2 ^ 32 - 1);
      broadcast = broadcast;
    }

parse_masked : Prefix → Addr → Parsed
unfolding range_of
parse_masked p (ipv6 n) = refused not_ipv4
parse_masked p (ipv4 n) =
    if ltb p.bits 8 || ltb 26 p.bits
    then refused bad_length
    else (let r = range_of p n p.bits in
        if ltb r.pool_end r.pool_start then refused no_pool else parsed r)

-- `ParseRange`; the argument is what `netip.ParsePrefix` makes of the trimmed text.
unfoldable pub parse_range : Option Prefix → Parsed
unfolding parse_masked
parse_range none = refused not_ipv4
parse_range (some p) = let m = masked p in parse_masked m m.addr

unfoldable pub address_in_pool : Range → Addr → Bool
address_in_pool r (ipv4 a) = leb r.pool_start a && leb a r.pool_end
address_in_pool r (ipv6 a) = false

unfoldable pub address_in_static_range : Range → Addr → Bool
address_in_static_range r (ipv6 a) = false
address_in_static_range r (ipv4 a) =
    contains r.prefix (ipv4 a) && not (a == r.server) && ltb a r.pool_start

unfoldable pub prefixes_overlap : Prefix → Prefix → Bool
prefixes_overlap left right = contains left right.addr || contains right left.addr

-- `AddressConflicts`
unfoldable pub address_conflicts : Range → Bool → Prefix → Bool
address_conflicts network on_bridge existing =
    let subnet = masked existing in
    if not (contains network.prefix subnet.addr) && not (contains subnet network.prefix.addr)
    then false
    else if not on_bridge || not (existing.bits == network.prefix.bits)
    then true
    else if same_addr existing.addr (ipv4 network.server)
    then false
    else address_in_pool network existing.addr || not (contains network.prefix existing.addr)
