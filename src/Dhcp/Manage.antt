-- ===== src/Dhcp/Manage.antt =====
-- Changes to a bridge's lease table beside acquireLease (internal/dhcp/dhcp.go: releaseLease,
-- ClearDynamicLeases, DeleteLease, SetStaticLease, Addresses, and the consolidation in load).
-- `saved` is whether saveLocked succeeds.
pub mod Static
use app_runner.Prelude.{
  ℕ, Bool, true, false, ◌&&◌, ◌||◌, not, Option, none, some, List, [], ◌∷◌, ◌++◌, ltb, ◌==◌,
  if◌then◌else◌, Text, same, codes, fold, trim_space, equal_fold, keep, exists, lookup, delete,
  insert, map,
}
use app_runner.Net.{Addr, ipv4}
use app_runner.Dhcp.Config.{BridgeConfig}
use app_runner.Dhcp.Range.{Range, Parsed, parsed, refused, parse_range, address_in_static_range}
use app_runner.Dhcp.Lease.{Lease, Leases, has_hardware, is_addr}

-- A failed write is only logged.
unfoldable pub release_lease : Text → Leases → Leases
release_lease key leases = elim (lookup key leases) [
  | none ↦ leases
  | some l ↦ if l.static then leases else delete key leases
]

unfoldable pub clear_dynamic : Leases → Leases
clear_dynamic = keep λ e. e.1.static

pub data ManageError : Type 0 where
  lease_not_found not_enabled bad_range bad_mac bad_address taken not_saved : ManageError

abbrev pub Failure : Type 0
Failure = Option ManageError

abbrev pub save_error : Bool → Failure
save_error saved = if saved then none else some not_saved

-- `DeleteLease`
unfoldable pub delete_lease : Text → Bool → Leases → Leases × Failure
delete_lease hardware saved leases =
    let hw = fold (trim_space hardware) in
    let rest = keep (λ e. not (has_hardware hw e)) leases in
    if exists (has_hardware hw) leases
    then (rest, save_error saved)
    else (rest, some lease_not_found)

-- The loop of SetStaticLease: the leases of the hardware address are deleted as they are met, and
-- the loop stops at a lease of the address that another client holds.
unfoldable pub claim : Text → Addr → Leases → Leases × Bool
claim hw a [] = ([], true)
claim hw a (e ∷ rest) =
    let (rest', free) = claim hw a rest in
    if has_hardware hw e
    then (rest', free)
    else if is_addr a e.1.address
    then (e ∷ rest, false)
    else (e ∷ rest', free)

abbrev pub static_lease : Text → Addr → Lease
static_lease hw a = record {
  client_key = codes "mac:" ++ hw;
  hardware_address = hw;
  address = some a;
  expires_at = 0;
  static = true;
  vm_name = [];
}

unfoldable pub set_claimed : Text → Addr → Bool → Leases × Bool → Leases × Failure
set_claimed hw a saved (rest, false) = (rest, some taken)
set_claimed hw a saved (rest, true) =
    (insert (codes "mac:" ++ hw) (static_lease hw a) rest, save_error saved)

-- The rest of SetStaticLease, where the range is read. `is_mac` is whether net.ParseMAC accepts
-- the trimmed hardware address, `address` what netip.ParseAddr makes of the trimmed address.
set_static_at : Range → Text → Bool → Option Addr → Bool → Leases → Leases × Failure
unfolding set_claimed
set_static_at r hw false address saved leases = (leases, some bad_mac)
set_static_at r hw true none saved leases = (leases, some bad_address)
set_static_at r hw true (some a) saved leases =
    if address_in_static_range r a
    then set_claimed hw a saved (claim hw a leases)
    else (leases, some bad_address)

unfoldable pub set_static_in : Range → Text → Bool → Option Addr → Bool → Leases → Leases × Failure
unfolding set_static_at
set_static_in r hardware is_mac address saved leases =
    set_static_at r (fold (trim_space hardware)) is_mac address saved leases

unfoldable pub set_static_parsed :
    Parsed → Text → Bool → Option Addr → Bool → Leases → Leases × Failure
unfolding set_static_in
set_static_parsed (refused e) hardware is_mac address saved leases = (leases, some bad_range)
set_static_parsed (parsed r) hardware is_mac address saved leases =
    set_static_in r hardware is_mac address saved leases

-- SetStaticLease with the bridge's configuration, if it has one, and its leases.
unfoldable pub set_static_lease :
    Option BridgeConfig → Text → Bool → Option Addr → Bool → Leases → Leases × Failure
unfolding set_static_parsed
set_static_lease none hardware is_mac address saved leases = (leases, some not_enabled)
set_static_lease (some c) hardware is_mac address saved leases =
    if c.enabled
    then set_static_parsed (parse_range c.cidr) hardware is_mac address saved leases
    else (leases, some not_enabled)

-- `Addresses`: the active leases of a hardware address, before they are sorted.
unfoldable pub addresses : ℕ → Text → Leases → List (Option Addr)
addresses now hw leases =
    map (λ e. e.1.address)
      (keep (λ e. has_hardware hw e && (e.1.static || ltb now e.1.expires_at)) leases)

-- Go's `<` on strings.
unfoldable pub text_ltb : Text → Text → Bool
text_ltb [] [] = false
text_ltb [] (c ∷ t) = true
text_ltb (c ∷ s) [] = false
text_ltb (c ∷ s) (d ∷ t) = let rest = text_ltb s t in if c == d then rest else ltb c d

-- The loop of canonicalLeaseClient, from the lease selected so far; an empty key stands for none.
unfoldable pub canonical_from : Text → Text × Lease → Leases → Text × Lease
unfolding text_ltb
canonical_from hw sel [] = sel
canonical_from hw (sk, s) ((c, l) ∷ rest) =
    canonical_from hw
      (if has_hardware hw (c, l)
          && (same sk []
              || ltb s.expires_at l.expires_at
              || (l.expires_at == s.expires_at && text_ltb c sk))
        then (c, l)
        else (sk, s))
      rest
