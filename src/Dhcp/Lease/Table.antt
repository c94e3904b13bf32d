-- ===== src/Dhcp/Lease/Table.antt =====
-- Lease tables in which no two clients share a key or an address.
use app_runner.Prelude.{
  ◌≢◌, inl, inr, sym, subst, Bool, true, false, Option, [], ◌∷◌, Text, Text-discrete, All, In,
  All-In, keep, All-keep, delete, insert, delete-eq-keep, if◌then◌else◌, refl,
}
use app_runner.Net.{Addr}
use app_runner.Dhcp.Lease.{Lease, Leases}

abbrev pub Separate : Text × Lease → Text × Lease → Type 0
Separate e x = (e.0 ≢ x.0) × (e.1.address ≢ x.1.address)

abbrev pub Distinct : Leases → Type 0
Distinct [] = Unit {0}
Distinct (e ∷ m) = All (Separate e) m × Distinct m

pub Distinct-keep : (p : Text × Lease → Bool) (m : Leases) → Distinct m → Distinct (keep p m)
Distinct-keep p [] d = tt
Distinct-keep p (e ∷ m) d = elim (p e) as (λ b. Distinct (if b then e ∷ keep p m else keep p m)) [
  | true ↦ (All-keep (Separate e) p m d.0, Distinct-keep p m d.1)
  | false ↦ Distinct-keep p m d.1
]

pub Distinct-delete : (k : Text) (m : Leases) → Distinct m → Distinct (delete k m)
Distinct-delete k m d = rw (delete-eq-keep k m) (Distinct-keep _ m d)

-- The entries under other keys hold other addresses than `v`.
abbrev pub Apart : Text → Option Addr → Leases → Type 0
Apart k a = All λ x. x.0 ≢ k → x.1.address ≢ a

Separate-rest :
    (k : Text) (v : Lease) (m : Leases) → Apart k v.address m → All (Separate (k, v)) (delete k m)
unfolding delete
Separate-rest k v [] h = tt
Separate-rest k v ((j, w) ∷ m) h =
    elim (Text-discrete j k)
      as (λ b.
        All (Separate (k, v))
          (if (elim b [ yes e ↦ true | no n ↦ false ]) then delete k m else (j, w) ∷ delete k m)) [
            | yes e ↦ Separate-rest k v m h.1
            | no n ↦ ((λ e. n (sym e), λ e. h.0 n (sym e)), Separate-rest k v m h.1)
          ]

pub Distinct-insert :
    (k : Text) (v : Lease) (m : Leases) → Distinct m → Apart k v.address m → Distinct (insert k v m)
unfolding insert
Distinct-insert k v m d h = (Separate-rest k v m h, Distinct-delete k m d)

Separate-All :
    (e : Text × Lease) (m : Leases)
    → All (Separate e) m
    → All (λ x. x.0 ≢ e.0 → x.1.address ≢ e.1.address) m
Separate-All e [] h = tt
Separate-All e (x ∷ m) h = (λ _ q. h.0.1 (sym q), Separate-All e m h.1)

-- In such a table the entries beside one of its own are apart from it.
pub Distinct-Apart :
    (k : Text) (s : Lease) (m : Leases) → Distinct m → In (k, s) m → Apart k s.address m
Distinct-Apart k s [] d i = tt
Distinct-Apart k s (e ∷ m) d (inl p) =
    subst (λ x. Apart x.0 x.1.address (e ∷ m)) (sym p) (λ n. absurd (n refl), Separate-All e m d.0)
Distinct-Apart k s (e ∷ m) d (inr i) =
    (λ _ q. (All-In (Separate e) m d.0 i).1 q, Distinct-Apart k s m d.1 i)
