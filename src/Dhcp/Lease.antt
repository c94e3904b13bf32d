-- ===== src/Dhcp/Lease.antt =====
-- The lease table of one bridge (internal/dhcp/dhcp.go: acquireLease, renewHardwareLeaseLocked,
-- releaseLease, ClearDynamicLeases, DeleteLease, SetStaticLease, canonicalLeaseClient). A Go map is
-- an association list, and `range` walks it in the list's order, which is any order. `saved` is
-- whether saveLocked succeeds. Times are nanoseconds.
pub mod Table
pub mod Select
pub mod Pool
pub mod Grant
pub mod Acquire
pub mod Answer
use app_runner.Prelude.{
  ℕ, suc, zero, ◌+◌, ◌-◌, ◌*◌, ◌^◌, Bool, true, false, ◌&&◌, ◌||◌, not, Option, none, some, List,
  [], ◌∷◌, ltb, leb, ◌==◌, if◌then◌else◌, Text, same, codes, fold, equal_fold, keep, exists, Assoc,
  lookup, delete, insert, is_some, ◌++◌,
}
use app_runner.Net.{Addr, ipv4, ipv6, same_addr}
use app_runner.Dhcp.Range.{Range, address_in_pool, address_in_static_range}

pub record Lease : Type 0 where
  pub client_key : Text
  pub hardware_address : Text
  pub address : Option Addr
  pub expires_at : ℕ
  pub static : Bool
  pub vm_name : Text

-- The zero `Lease{}`.
abbrev pub no_lease : Lease
no_lease = record {
  client_key = [];
  hardware_address = [];
  address = none;
  expires_at = 0;
  static = false;
  vm_name = [];
}

abbrev pub Leases : Type 0
Leases = Assoc Lease

-- 24 hours.
abbrev pub lease_duration : ℕ
lease_duration = 24 * 3600 * 10 ^ 9

pub data LeaseError : Type 0 where
  mismatch already_leased outside_pool exhausted bad_address not_saved : LeaseError

-- The address and the error that acquireLease returns; `none` is the zero `netip.Addr`.
pub data Outcome : Type 0 where
  leased : Option Addr → Outcome
  failed : LeaseError → Outcome

abbrev pub is_addr : Addr → Option Addr → Bool
is_addr a none = false
is_addr a (some b) = same_addr a b

-- `requested.IsValid() && requested != address`
abbrev pub differs : Option Addr → Option Addr → Bool
differs none address = false
differs (some q) address = not (is_addr q address)

abbrev pub has_hardware : Text → Text × Lease → Bool
has_hardware hw (c, l) = equal_fold l.hardware_address hw

-- The test of the loop that prunes the table.
stale_at : Range → ℕ → Lease → Option Addr → Bool
stale_at r now l none = true
stale_at r now l (some a) =
    (not l.static && (not (ltb now l.expires_at) || not (address_in_pool r a)))
    || (l.static && not (address_in_static_range r a))

unfoldable pub stale : Range → ℕ → Lease → Bool
unfolding stale_at
stale r now l = stale_at r now l l.address

unfoldable pub prune : Range → ℕ → Leases → Leases
prune r now = keep λ (c, l). not (stale r now l)

-- The loop of renewHardwareLeaseLocked that picks the lease to renew; an empty key stands for
-- none. The parameters are the client's key, its hardware address and the requested address.
module _ (key hw : Text) (requested : Option Addr) where
  better : Text × Lease → Text × Lease → Bool
  better (sk, s) (c, l) =
      same sk []
      || (same c key && not (same sk key))
      || (not (same sk key) && ltb s.expires_at l.expires_at)

  unfoldable pub select : Text × Lease → Leases → Text × Lease
  unfolding better
  select sel [] = sel
  select sel ((c, l) ∷ rest) = elim (has_hardware hw (c, l)) [
    | false ↦ select sel rest
    | true ↦ elim l.address [
      | none ↦ select sel rest
      | some a ↦ elim (is_addr a requested) [
        | true ↦ (c, l)
        | false ↦ select (if better sel (c, l) then (c, l) else sel) rest
      ]
    ]
  ]

-- The other leases of the hardware address are deleted, and the one picked moves to the client's key.
unfoldable pub rest_of : Text → Text → Text → Leases → Leases
rest_of key hw sk leases =
    let others = keep (λ e. same e.0 sk || not (has_hardware hw e)) leases in
    if same sk key then others else delete sk others

-- renewHardwareLeaseLocked, once a lease is picked.
unfoldable pub renew_selected :
    Text → Text → Option Addr → Bool → ℕ → Bool → Leases → Text × Lease → Leases × Outcome
renew_selected key hw requested strict now saved leases (sk, s) = elim s.address [
  | none ↦ (leases, failed bad_address)
  | some a ↦
      if strict && differs requested (some a)
      then (leases, failed mismatch)
      else (let renewed : Lease = record s {
        client_key = key;
        hardware_address = hw;
        expires_at = if s.static then s.expires_at else now + lease_duration;
      } in
          (
            insert key renewed (rest_of key hw sk leases),
            if saved then leased (some a) else failed not_saved,
          ))
]

unfoldable pub renew_hardware :
    Text → Text → Option Addr → Bool → ℕ → Bool → Leases → Leases × Outcome
unfolding renew_selected
renew_hardware key hw requested strict now saved leases =
    renew_selected key hw requested strict now saved leases
      (select key hw requested ([], no_lease) leases)

-- The branch of acquireLease for a client that is known by its key under another hardware address.
unfoldable pub renew_client :
    Text → Text → Option Addr → Bool → ℕ → Bool → Leases → Lease → Leases × Outcome
renew_client key hw requested strict now saved leases existing =
    if strict && differs requested existing.address
    then (leases, failed mismatch)
    else (let renewed = record existing {
      expires_at = now + lease_duration;
      hardware_address = hw;
    } in
        (insert key renewed leases, if saved then leased existing.address else failed not_saved))

unfoldable pub in_use : Leases → Addr → Bool
in_use leases a = exists (λ e. is_addr a e.1.address) leases

-- The loop over the candidates, for a number of rounds.
pub first_free : Leases → ℕ → ℕ → Option Addr
first_free leases zero candidate = none
first_free leases (suc n) candidate =
    let rest = first_free leases n (candidate + 1) in
    if in_use leases (ipv4 candidate) then rest else some (ipv4 candidate)

unfoldable pub scan_pool : Range → Leases → Option Addr
unfolding first_free
scan_pool r leases = first_free leases (r.pool_end + 1 - r.pool_start) r.pool_start

-- The address for a new client, or the error.
unfoldable pub choose : Range → Option Addr → Bool → Leases → Outcome
choose r none strict leases = if strict then failed outside_pool else leased (scan_pool r leases)
choose r (some q) strict leases =
    if address_in_pool r q
    then (if not (in_use leases q)
        then leased (some q)
        else if strict
        then failed already_leased
        else leased (scan_pool r leases))
    else if strict
    then failed outside_pool
    else leased (scan_pool r leases)

unfoldable pub grant_new : Text → Text → ℕ → Bool → Leases → Outcome → Leases × Outcome
grant_new key hw now saved leases (failed e) = (leases, failed e)
grant_new key hw now saved leases (leased none) = (leases, failed exhausted)
grant_new key hw now saved leases (leased (some a)) =
    let new : Lease = record {
      client_key = key;
      hardware_address = hw;
      address = some a;
      expires_at = now + lease_duration;
      static = false;
      vm_name = [];
    } in
    if saved
    then (insert key new leases, leased (some a))
    else (delete key (insert key new leases), failed not_saved)

-- acquireLease on the pruned table, by what it holds for the client's key.
pub acquire_from :
    Range → ℕ → Text → Text → Option Addr → Bool → Bool → Leases → Option Lease → Leases × Outcome
acquire_from r now key hw requested strict saved leases (some existing) =
    if equal_fold existing.hardware_address hw
    then renew_hardware key hw requested strict now saved leases
    else renew_client key hw requested strict now saved leases existing
acquire_from r now key hw requested strict saved leases none =
    if exists (has_hardware hw) leases
    then renew_hardware key hw requested strict now saved leases
    else grant_new key hw now saved leases (choose r requested strict leases)

unfoldable pub acquire :
    Range → ℕ → Text → Text → Option Addr → Bool → Bool → Leases → Leases × Outcome
unfolding acquire_from
acquire r now key hardware requested strict saved leases =
    let live = prune r now leases in
    acquire_from r now key (fold hardware) requested strict saved live (lookup key live)
