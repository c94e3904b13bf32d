-- ===== src/Dhcp/Manage/Static.antt =====
-- Static leases, and what the other changes to the table keep.
use app_runner.Prelude.{
  ◌⊎◌, inl, inr, sym, ap, ◌≡◌, ◌≢◌, refl, Bool, true, false, not, ◌&&◌, Option, none, some, [], ◌∷◌,
  ◌++◌, Text, same, codes, fold, In, In-keep, In-keep_inv, ◌↔◌, lookup-insert_self,
  All-delete-insert, trim_space, All, All-map, keep, exists, if_cases, if_intro, arith,
  if◌then◌else◌, lookup, delete, insert, lookup-delete,
}
use app_runner.Net.{Addr-discrete, Addr}
use app_runner.Dhcp.Config.{BridgeConfig}
use app_runner.Dhcp.Range.{Range, Parsed, parsed, refused, parse_range, address_in_static_range}
use app_runner.Dhcp.Lease.{Lease, Leases, has_hardware, is_addr}
use app_runner.Dhcp.Lease.Table.{Distinct, Distinct-keep, Distinct-insert}
use app_runner.Dhcp.Manage.{
  Failure, lease_not_found, taken, release_lease, delete_lease, claim, static_lease, set_claimed,
  set_static_in, set_static_parsed, set_static_lease,
}

-- A claim that succeeds deletes the leases of the hardware address and nothing else.
claim_free :
    (hw : Text) (a : Addr) (m : Leases)
    → (claim hw a m).1 ≡ true
    → (claim hw a m).0 ≡ keep (λ e. not (has_hardware hw e)) m
unfolding claim
claim_free hw a [] h = refl
claim_free hw a (e ∷ m) h = ground (arith, claim_free hw a m)

abbrev pub Clear : Text → Addr → Text × Lease → Type 0
Clear hw a e = (has_hardware hw e ≡ false) × (e.1.address ≢ some a)

not_addr : (a : Addr) (o : Option Addr) → is_addr a o ≡ false → o ≢ some a
not_addr a o h e = ground arith

claim_apart :
    (hw : Text) (a : Addr) (m : Leases)
    → (claim hw a m).1 ≡ true
    → All (Clear hw a) (claim hw a m).0
unfolding claim
claim_apart hw a [] h = tt
claim_apart hw a (e ∷ m) h =
    if_cases (λ (p : Leases × Bool). p.1 ≡ true → All (Clear hw a) p.0) (has_hardware hw e)
      (λ _. claim_apart hw a m)
      (λ miss.
        if_cases (λ (p : Leases × Bool). p.1 ≡ true → All (Clear hw a) p.0) (is_addr a e.1.address)
          (λ _ q. cc) (λ free q. ((miss, not_addr a e.1.address free), claim_apart hw a m q)))
      h

-- What a successful SetStaticLease leaves: the lease, and no other of its hardware address or its
-- address.
pub record Reserved (r : Range) (hw : Text) (requested : Option Addr) (m : Leases) : Type 0 where
  pub address : Addr
  pub asked : requested ≡ some address
  pub in_range : address_in_static_range r address ≡ true
  pub lease : Lease
  pub found : lookup (codes "mac:" ++ hw) m ≡ some lease
  pub static : lease.static ≡ true
  pub holds : lease.address ≡ some address
  pub owner : lease.hardware_address ≡ hw
  pub alone : All (Clear hw address) (delete (codes "mac:" ++ hw) m)
  pub distinct : Distinct m

insert-Reserved :
    (r : Range) (hw : Text) (a : Addr) (m : Leases)
    → Distinct m
    → address_in_static_range r a ≡ true
    → All (Clear hw a) m
    → Reserved r hw (some a) (insert (codes "mac:" ++ hw) (static_lease hw a) m)
insert-Reserved r hw a m d i h =
    let key : Text = codes "mac:" ++ hw in
    record {
      address = a;
      asked = refl;
      in_range = i;
      lease = static_lease hw a;
      found = lookup-insert_self key _ m;
      static = refl;
      holds = refl;
      owner = refl;
      alone = All-delete-insert _ key _ m h;
      distinct = Distinct-insert key _ m d (All-map _ (λ e c _. c.1) m h);
    }

set_claimed-Reserved :
    (r : Range) (hw : Text) (a : Addr) (saved : Bool) (p : Leases × Bool)
    → address_in_static_range r a ≡ true
    → (p.1 ≡ true → Distinct p.0)
    → (p.1 ≡ true → All (Clear hw a) p.0)
    → (set_claimed hw a saved p).1 ≡ none
    → Reserved r hw (some a) (set_claimed hw a saved p).0
unfolding set_claimed
set_claimed-Reserved r hw a saved (rest, false) i d c h = cc
set_claimed-Reserved r hw a saved (rest, true) i d c h =
    insert-Reserved r hw a rest (d refl) i (c refl)

set_static_in-Reserved :
    (r : Range) (hardware : Text) (is_mac saved : Bool) (address : Option Addr) (m : Leases)
    → Distinct m
    → (set_static_in r hardware is_mac address saved m).1 ≡ none
    → Reserved r
        (fold (trim_space hardware))
        address
        (set_static_in r hardware is_mac address saved m).0
unfolding set_static_in
set_static_in-Reserved r hardware false saved address m d h = cc
set_static_in-Reserved r hardware true saved none m d h = cc
set_static_in-Reserved r hardware true saved (some a) m d h =
    let hw : Text = fold (trim_space hardware) in
    if_cases (λ (p : Leases × Failure). p.1 ≡ none → Reserved r hw (some a) p.0)
      (address_in_static_range r a)
      (λ i.
        set_claimed-Reserved r hw a saved (claim hw a m) i
          (λ q. rw (claim_free hw a m q) (Distinct-keep _ m d)) (claim_apart hw a m))
      (λ _ q. cc) h

set_static_parsed-Reserved :
    (p : Parsed) (hardware : Text) (is_mac saved : Bool) (address : Option Addr) (m : Leases)
    → Distinct m
    → (set_static_parsed p hardware is_mac address saved m).1 ≡ none
    → (r : Range) × (p ≡ parsed r)
      × Reserved r
          (fold (trim_space hardware))
          address
          (set_static_parsed p hardware is_mac address saved m).0
unfolding set_static_parsed
set_static_parsed-Reserved (refused e) hardware is_mac saved address m d h = cc
set_static_parsed-Reserved (parsed r) hardware is_mac saved address m d h =
    (r, refl, set_static_in-Reserved r hardware is_mac saved address m d h)

-- The configuration enables managed DHCP and has a range.
abbrev pub Ranged : Option BridgeConfig → Range → Type 0
Ranged config r =
    (c : BridgeConfig) × (config ≡ some c) × (c.enabled ≡ true) × (parse_range c.cidr ≡ parsed r)

-- Where the keys and the addresses of the table are distinct, a SetStaticLease that reports no
-- error is about a bridge with managed DHCP and a range, and reserves the address asked for, one of the static range: the table holds a static lease of it
-- under the MAC key of the hardware address, no other lease has that hardware address or that address, and no two
-- clients share a key or an address.
pub set_static_lease-Reserved :
    (config : Option BridgeConfig) (hardware : Text) (is_mac saved : Bool) (address : Option Addr)
    (m : Leases)
    → Distinct m
    → (set_static_lease config hardware is_mac address saved m).1 ≡ none
    → (r : Range) × Ranged config r
      × Reserved r
          (fold (trim_space hardware))
          address
          (set_static_lease config hardware is_mac address saved m).0
unfolding set_static_lease
set_static_lease-Reserved none hardware is_mac saved address m d h = cc
set_static_lease-Reserved (some c) hardware is_mac saved address m d h =
    if_cases
      (λ (p : Leases × Failure).
        p.1 ≡ none
        → (r : Range) × Ranged (some c) r × Reserved r (fold (trim_space hardware)) address p.0)
      c.enabled
      (λ on n.
        let (r, e, s) =
          set_static_parsed-Reserved (parse_range c.cidr) hardware is_mac saved address m d n in
        (r, (c, refl, on, e), s))
      (λ _ n. cc) h

-- A lease that does not stop SetStaticLease's loop.
abbrev pub Passed : Text → Addr → Text × Lease → Type 0
Passed hw a e = (has_hardware hw e ≡ true) ⊎ (e.1.address ≢ some a)

not_held : (a : Addr) (o : Option Addr) → o ≢ some a → is_addr a o ≡ false
not_held a none h = refl
not_held a (some b) h = elim (Addr-discrete a b) [
  | yes e ↦ absurd (h (ap some (sym e)))
  | no n ↦ ground arith
]

claim-taken :
    (hw : Text) (a : Addr) (passed : Leases) (other : Text × Lease) (rest : Leases)
    → All (Passed hw a) passed
    → has_hardware hw other ≡ false
    → other.1.address ≡ some a
    → claim hw a (passed ++ other ∷ rest)
      ≡ (keep (λ e. not (has_hardware hw e)) passed ++ other ∷ rest, false)
unfolding claim
claim-taken hw a [] other rest p k e = ground arith
claim-taken hw a (x ∷ passed) other rest ((inl h), p) k e =
    ground (arith, claim-taken hw a passed other rest p k e)
claim-taken hw a (x ∷ passed) other rest ((inr h), p) k e =
    ground (arith, not_held a x.1.address h, claim-taken hw a passed other rest p k e)

-- A refused SetStaticLease loses leases: on a bridge with managed DHCP, for a MAC address and an
-- address of the static range, where the loop meets a lease of that address that another hardware
-- address holds, the call reports that the address is taken, and every lease of the requested
-- hardware address that it met before is gone from the table; the other leases stay.
pub set_static_lease_drops :
    (c : BridgeConfig) (r : Range) (hardware : Text) (saved : Bool) (a : Addr) (passed : Leases)
    (other : Text × Lease) (rest : Leases)
    → c.enabled ≡ true
    → parse_range c.cidr ≡ parsed r
    → address_in_static_range r a ≡ true
    → All (Passed (fold (trim_space hardware)) a) passed
    → has_hardware (fold (trim_space hardware)) other ≡ false
    → other.1.address ≡ some a
    → set_static_lease (some c) hardware true (some a) saved (passed ++ other ∷ rest) ≡ (
      keep (λ e. not (has_hardware (fold (trim_space hardware)) e)) passed ++ other ∷ rest,
      some taken,
    )
unfolding set_static_lease set_static_parsed set_static_in
set_static_lease_drops c r hardware saved a passed other rest on q i p k e =
    rw (on, q) (ground (arith, claim-taken (fold (trim_space hardware)) a passed other rest p k e))

-- The client's own lease, and only if it is not static, is taken out of the table.
pub lookup-release_lease :
    (key j : Text) (m : Leases)
    → lookup j (release_lease key m) ≡ elim (lookup j m) [
      | none ↦ none
      | some l ↦ if same key j && not l.static then none else some l
    ]
unfolding release_lease
lookup-release_lease key j m = ground (arith, lookup-delete key j m)

-- DeleteLease takes out exactly the leases of the hardware address, and reports that there is none
-- exactly when there was none.
pub delete_lease_iff :
    (hardware : Text) (saved : Bool) (m : Leases) (e : Text × Lease)
    → let hw = fold (trim_space hardware) in
      let after = delete_lease hardware saved m in
      (In e after.0 ↔ In e m × (has_hardware hw e ≡ false))
      × ((after.1 ≡ some lease_not_found) ↔ (exists (has_hardware hw) m ≡ false))
unfolding delete_lease
delete_lease_iff hardware saved m e =
    let hw : Text = fold (trim_space hardware) in
    let seen : Bool = exists (has_hardware hw) m in
    let same_entries : In e (keep (λ x. not (has_hardware hw x)) m)
        ↔ In e m × (has_hardware hw e ≡ false) =
      (
        (λ i. let (j, h) = In-keep_inv (λ x. not (has_hardware hw x)) m i in (j, ground arith)),
        λ (j, h). In-keep (λ x. not (has_hardware hw x)) m (rw h refl) j,
      ) in
    (
      if_intro (λ (p : Leases × Failure). In e p.0 ↔ In e m × (has_hardware hw e ≡ false)) seen
          same_entries same_entries,
      ground arith,
    )
