-- ===== src/Dhcp/Lease/Acquire.antt =====
-- acquireLease as a whole: the table stays free of clashes, and what a client asks for or may expect
-- is what it gets.
use app_runner.Prelude.{
  ℕ, ◌≡◌, refl, Bool, false, not, Option, none, some, Text, fold, equal_fold, All, All-map,
  keep_passes, In, All-In, exists, if_cases, exists-In, arith, lookup, In-lookup,
}
use app_runner.Net.{Addr}
use app_runner.Dhcp.Range.{Range}
use app_runner.Dhcp.Lease.{Lease, Leases, leased, has_hardware, stale, prune, acquire_from, acquire}
use app_runner.Dhcp.Lease.Table.{Distinct, Distinct-keep}
use app_runner.Dhcp.Lease.Grant.{
  Granted, Contract, choose-fits, renew_hardware-Contract, renew_client-Contract,
  grant_new-Contract,
}

pub prune_live :
    (r : Range) (now : ℕ) (m : Leases) → All (λ e. stale r now e.1 ≡ false) (prune r now m)
unfolding prune
prune_live r now m = All-map _ (λ e h. ground arith) _ (keep_passes (λ e. not (stale r now e.1)) m)

acquire_from-Contract :
    (r : Range) (now : ℕ) (key hw : Text) (requested : Option Addr) (strict saved : Bool)
    (m : Leases)
    → Distinct m
    → All (λ e. stale r now e.1 ≡ false) m
    → (o : Option Lease) → lookup key m ≡ o
    → Contract r now key hw (acquire_from r now key hw requested strict saved m o)
unfolding acquire_from
acquire_from-Contract r now key hw requested strict saved m d live (some s) e =
    let i : In (key, s) m = In-lookup key m s e in
    if_cases (Contract r now key hw) (equal_fold s.hardware_address hw)
      (λ h.
        renew_hardware-Contract r now key hw requested strict saved m d live
          (exists-In (has_hardware hw) m h i))
      (λ _. renew_client-Contract r now key hw requested strict saved m s d (All-In _ m live i) i)
acquire_from-Contract r now key hw requested strict saved m d live none e =
    if_cases (Contract r now key hw) (exists (has_hardware hw) m)
      (λ h. renew_hardware-Contract r now key hw requested strict saved m d live h)
      (λ _.
        grant_new-Contract r now key hw saved m _ d (choose-fits r now key hw requested strict m))

-- The table stays free of clashes, and an address that is returned is granted.
pub acquire-Contract :
    (r : Range) (now : ℕ) (key hardware : Text) (requested : Option Addr) (strict saved : Bool)
    (m : Leases)
    → Distinct m
    → Contract r now key (fold hardware) (acquire r now key hardware requested strict saved m)
unfolding acquire
acquire-Contract r now key hardware requested strict saved m d =
    acquire_from-Contract r now key (fold hardware) requested strict saved (prune r now m)
      (unfold prune in Distinct-keep _ m d) (prune_live r now m) _ refl

-- No two clients ever hold one address: where the keys and the addresses of a table are distinct,
-- they are so in the table that acquireLease leaves, whatever it returns.
pub acquire-Distinct :
    (r : Range) (now : ℕ) (key hardware : Text) (requested : Option Addr) (strict saved : Bool)
    (m : Leases)
    → Distinct m
    → Distinct (acquire r now key hardware requested strict saved m).0
acquire-Distinct r now key hardware requested strict saved m d =
    (acquire-Contract r now key hardware requested strict saved m d).0

-- An address that acquireLease returns is the client's: from a table free of clashes, it returns an
-- address, never the absence of one, and the table then holds that address under the client's key
-- and hardware address and under no other key, inside the pool (or the static range, for a static
-- lease), until 24 hours from now unless the lease is static.
pub acquire-Granted :
    (r : Range) (now : ℕ) (key hardware : Text) (requested : Option Addr) (strict saved : Bool)
    (m : Leases) (a : Option Addr)
    → Distinct m
    → (acquire r now key hardware requested strict saved m).1 ≡ leased a
    → (x : Addr) × (a ≡ some x)
      × Granted r now key (fold hardware) (acquire r now key hardware requested strict saved m).0 x
acquire-Granted r now key hardware requested strict saved m a d h =
    (acquire-Contract r now key hardware requested strict saved m d).1 a h
