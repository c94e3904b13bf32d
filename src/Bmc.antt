-- ===== src/Bmc.antt =====
-- The virtual BMCs of the machines (internal/ipmi/ipmi.go: serves, Manager.Configure, Disable,
-- disableLocked, Status, Reconcile, Close, bridgePrefix, ensureAddress, removeAddress). netlink, the
-- UDP socket, the IPMI library and netip's parser are a parameter; a runtime is told from a later
-- one of the same machine by its serial number, as the source tells them by their pointers.
pub mod Apart
pub mod Served
use app_runner.Prelude.{
  ℕ, ◌+◌, ◌==◌, Bool, true, false, ◌&&◌, not, Option, none, some, List, [], ◌∷◌, if◌then◌else◌,
  Text, same, Assoc, lookup, delete, insert, exists, ◌⊎◌, inl, inr,
}
use app_runner.Net.{Addr, same_addr, Prefix, contains}
use app_runner.Vm.{VirtualMachine, IpmiConfig}

pub record Endpoint : Type 0 where
  pub serial : ℕ
  pub bridge : Text
  pub address : Addr
  pub prefix_bits : ℕ
  pub username : Text
  pub password : Text
  pub running : Bool
  pub last_error : Text

-- `hostnet.RequireBridge`, `netlink.AddrList` of a bridge and of the host, `netlink.AddrAdd` and
-- `AddrDel`, `udp.Listen` on port 623 and the connection's `Close`, the server's `Close`,
-- `device.Users.Add`, `netip.ParseAddr`, and the DHCP service's prefix of a bridge.
pub record Network (Host : Type 0) : Type 0 where
  pub require_bridge : Text → Host → Bool
  pub bridge_addresses : Text → Host → Option (List Prefix)
  pub host_addresses : Host → Option (List Addr)
  pub add_address : Text → Prefix → Host → Host × Bool
  pub delete_address : Text → Prefix → Host → Host
  pub listen : Addr → Host → Host × Bool
  pub close_connection : Addr → Host → Host
  pub close_server : Endpoint → Host → Host
  pub add_user : Text → Bool
  pub parse_addr : Text → Option Addr
  pub prefix_for_bridge : Text → Option Prefix

pub record Manager (Host : Type 0) : Type 0 where
  pub runtimes : Assoc Endpoint
  pub next_serial : ℕ
  pub host : Host

pub data BmcError : Type 0 where
  no_bridge not_listed not_in_subnet address_used address_assigned not_assigned no_listener
        no_user :
      BmcError

abbrev pub Result : Type 0 → Type 0
Result Host = Manager Host × Option BmcError

-- `address == zero` for an address that does not parse.
unfoldable serves_at : Option Addr → Addr → Bool
serves_at none b = false
serves_at (some a) b = same_addr b a

unfoldable pub serves : IpmiConfig → Option Addr → Endpoint → Bool
unfolding serves_at
serves c a r =
    r.running
    && same r.bridge c.bridge_name
    && serves_at a r.address
    && same r.username c.username
    && same r.password c.password

-- The first of a bridge's subnets that has the address, as the address with that subnet's length.
unfoldable pub subnet_of : Addr → List Prefix → Option Prefix
subnet_of a [] = none
subnet_of a (q ∷ qs) =
    let rest = subnet_of a qs in
    if contains q a then some (record { addr = a; bits = q.bits }) else rest

-- The endpoint of another machine that has the address.
unfoldable is_used : Text → Addr → Assoc Endpoint → Bool
is_used id a rs = exists (λ e. not (same e.0 id) && same_addr e.1.address a) rs

unfoldable is_served : IpmiConfig → Option Addr → Option Endpoint → Bool
unfolding serves
is_served c a none = false
is_served c a (some r) = serves c a r

module _ {Host : Type 0} (p : Network Host) where
  unfoldable configured_subnet : Addr → Option Prefix → BmcError ⊎ Prefix
  configured_subnet a none = inl not_in_subnet
  configured_subnet a (some q) =
      if contains q a then inr (record { addr = a; bits = q.bits }) else inl not_in_subnet

  unfoldable subnet_or : Text → Addr → Option Prefix → BmcError ⊎ Prefix
  unfolding configured_subnet
  subnet_or b a (some q) = inr q
  subnet_or b a none = configured_subnet a (p.prefix_for_bridge b)

  unfoldable listed_subnet : Text → Option Addr → Option (List Prefix) → BmcError ⊎ Prefix
  unfolding subnet_or
  listed_subnet b a none = inl not_listed
  listed_subnet b none (some qs) = inl not_in_subnet
  listed_subnet b (some a) (some qs) = subnet_or b a (subnet_of a qs)

  -- An address that does not parse is in no subnet.
  unfoldable pub bridge_prefix : Text → Option Addr → Host → BmcError ⊎ Prefix
  unfolding listed_subnet
  bridge_prefix b a h =
      if p.require_bridge b h then listed_subnet b a (p.bridge_addresses b h) else inl no_bridge

  unassigned : Text → Prefix → Option (List Addr) → Host → Host × Option BmcError
  unassigned b q none h = (h, some not_listed)
  unassigned b q (some held) h =
      if exists (λ a. same_addr a q.addr) held
      then (h, some address_assigned)
      else let (h, ok) = p.add_address b q h in (h, if ok then none else some not_assigned)

  unfoldable ensure_address : Text → Prefix → Host → Host × Option BmcError
  unfolding unassigned
  ensure_address b q h =
      if p.require_bridge b h then unassigned b q (p.host_addresses h) h else (h, some no_bridge)

  unfoldable remove_address : Text → Prefix → Host → Host
  remove_address b q h = if p.require_bridge b h then p.delete_address b q h else h

  unfoldable disable_runtime : Text → Option Endpoint → Manager Host → Manager Host
  unfolding remove_address
  disable_runtime id none m = m
  disable_runtime id (some r) m = record m {
    runtimes = delete id m.runtimes;
    host =
        remove_address r.bridge (record { addr = r.address; bits = r.prefix_bits })
          (p.close_server r m.host);
  }

  unfoldable disable_locked : Text → Manager Host → Manager Host
  unfolding disable_runtime
  disable_locked id m = disable_runtime id (lookup id m.runtimes) m

  unfoldable disable : VirtualMachine → Manager Host → Manager Host
  unfolding disable_locked
  disable v m = disable_locked v.id m

  -- What `Configure` does once it listens: the second part of a failure undoes the first.
  unfoldable serve_on : VirtualMachine → Prefix → Host × Bool → Manager Host → Result Host
  unfolding remove_address
  serve_on v q (h, ok) m =
      let b = v.ipmi.bridge_name in
      if not ok
      then (record m { host = remove_address b q h }, some no_listener)
      else if p.add_user v.ipmi.username
      then (
        record m {
          runtimes =
              insert v.id
                (record {
                  serial = m.next_serial;
                  bridge = b;
                  address = q.addr;
                  prefix_bits = q.bits;
                  username = v.ipmi.username;
                  password = v.ipmi.password;
                  running = true;
                  last_error = [];
                })
                m.runtimes;
          next_serial = m.next_serial + 1;
          host = h;
        },
        none,
      )
      else (record m { host = remove_address b q (p.close_connection q.addr h) }, some no_user)

  unfoldable serve_at :
      VirtualMachine → Prefix → Host × Option BmcError → Manager Host → Result Host
  unfolding serve_on
  serve_at v q (h, some e) m = (record m { host = h }, some e)
  serve_at v q (h, none) m = serve_on v q (p.listen q.addr h) m

  -- The prefix that is found is that of the address.
  unfoldable configure_in : VirtualMachine → BmcError ⊎ Prefix → Manager Host → Result Host
  unfolding is_used disable_locked serve_at ensure_address
  configure_in v (inl e) m = (m, some e)
  configure_in v (inr q) m =
      if is_used v.id q.addr m.runtimes
      then (m, some address_used)
      else let m = disable_locked v.id m in
        serve_at v q (ensure_address v.ipmi.bridge_name q m.host) m

  unfoldable pub configure : VirtualMachine → Manager Host → Result Host
  unfolding disable_locked is_served configure_in bridge_prefix
  configure v m =
      let a = p.parse_addr v.ipmi.address in
      if not v.ipmi.enabled
      then (disable_locked v.id m, none)
      else if is_served v.ipmi a (lookup v.id m.runtimes)
      then (m, none)
      else configure_in v (bridge_prefix v.ipmi.bridge_name a m.host) m

  unfoldable stopped_at : Text → ℕ → Option Text → Option Endpoint → Manager Host → Manager Host
  stopped_at id k e none m = m
  stopped_at id k e (some r) m =
      if r.serial == k
      then record m {
        runtimes =
            insert id
              (record r {
                running = false;
                last_error = elim e [ none ↦ r.last_error | some t ↦ t ];
              })
              m.runtimes;
      }
      else m

  -- What the goroutine of the runtime with a serial number does when `Serve` returns, with an error
  -- that is not the cancellation's or with none.
  unfoldable pub server_stopped : Text → ℕ → Option Text → Manager Host → Manager Host
  unfolding stopped_at
  server_stopped id k e m = stopped_at id k e (lookup id m.runtimes) m

  status_of : Option Endpoint → Bool × Text
  status_of none = (false, [])
  status_of (some r) = (r.running, r.last_error)

  unfoldable status : Text → Manager Host → Bool × Text
  unfolding status_of
  status id m = status_of (lookup id m.runtimes)

  -- An address that the process before this one left on the bridge is removed.
  clear_stale : Text → BmcError ⊎ Prefix → Host → Host
  unfolding remove_address
  clear_stale b (inl e) h = h
  clear_stale b (inr q) h = remove_address b q h

  unfoldable restore : VirtualMachine → Manager Host → Result Host
  unfolding clear_stale bridge_prefix configure
  restore v m =
      let b = v.ipmi.bridge_name in
      let q = bridge_prefix b (p.parse_addr v.ipmi.address) m.host in
      configure v (record m { host = clear_stale b q m.host })

  -- The errors are those that `errors.Join` joins.
  unfoldable reconcile : List VirtualMachine → Manager Host → Manager Host × List BmcError
  unfolding restore
  reconcile [] m = (m, [])
  reconcile (v ∷ vs) m =
      let (m1, e) = if v.ipmi.enabled then restore v m else (m, none) in
      let (m2, es) = reconcile vs m1 in (m2, elim e [ none ↦ es | some x ↦ x ∷ es ])

  unfoldable disable_all : Assoc Endpoint → Manager Host → Manager Host
  unfolding disable_locked
  disable_all [] m = m
  disable_all ((id, r) ∷ rs) m = disable_all rs (disable_locked id m)

  unfoldable close : Manager Host → Manager Host
  unfolding disable_all
  close m = disable_all m.runtimes m
