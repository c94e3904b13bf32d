-- ===== src/Dhcp/Lease/Pool.antt =====
-- The search for a free address.
use app_runner.Prelude.{
  ℕ, zero, suc, ◌+◌, ◌≤◌, ◌<◌, ◌≡◌, ◌≢◌, inl, inr, true, false, not, none, some, [], ◌∷◌, Text,
  keep, length, length-keep-le, Bool-cases, arith,
}
use app_runner.Net.{Addr, ipv4}
use app_runner.Dhcp.Lease.{Lease, Leases, is_addr, in_use, first_free}

-- The candidate found is free and lies in the rounds; every earlier one is in use.
pub first_free_found :
    (m : Leases) (n c : ℕ) (a : Addr)
    → first_free m n c ≡ some a
    → (x : ℕ) × (a ≡ ipv4 x) × (c ≤ x) × (x < c + n) × (in_use m a ≡ false)
unfolding first_free
first_free_found m zero c a e = cc
first_free_found m (suc n) c a e = elim (Bool-cases (in_use m (ipv4 c))) [
  | inl used ↦
      let (x, p, q, r, free) = first_free_found m n (c + 1) a (ground arith) in
      (x, p, omega arith, omega arith, free)
  | inr free ↦ (c, ground arith, omega arith, omega arith, ground arith)
]

-- No candidate is found only if all are in use.
pub first_free-none :
    (m : Leases) (n c x : ℕ)
    → first_free m n c ≡ none
    → c ≤ x
    → x < c + n
    → in_use m (ipv4 x) ≡ true
unfolding first_free
first_free-none m zero c x e p q = absurd (omega arith)
first_free-none m (suc n) c x e p q = ground (arith, first_free-none m n (c + 1) x)

-- The leases of other addresses.
without : ℕ → Leases → Leases
without c = keep λ e. not (is_addr (ipv4 c) e.1.address)

in_use-without :
    (m : Leases) (c x : ℕ) → x ≢ c → in_use m (ipv4 x) ≡ true → in_use (without c m) (ipv4 x) ≡ true
unfolding in_use without
in_use-without [] c x n h = h
in_use-without (e ∷ m) c x n h = ground (arith, in_use-without m c x n)

length-without-lt :
    (m : Leases) (c : ℕ) → in_use m (ipv4 c) ≡ true → length (without c m) < length m
unfolding in_use without
length-without-lt [] c h = cc
length-without-lt (e ∷ m) c h = ground (
  arith,
  length-without-lt m c,
  length-keep-le (λ (e : Text × Lease). not (is_addr (ipv4 c) e.1.address)) m,
)

-- Pigeonhole: a table in which n addresses in a row are in use has at least n leases.
pub in_use_count :
    (m : Leases) (n c : ℕ) → ((x : ℕ) → c ≤ x → x < c + n → in_use m (ipv4 x) ≡ true) → n ≤ length m
in_use_count m zero c h = omega arith
in_use_count m (suc n) c h = omega (
  arith,
  length-without-lt m c (h c (omega arith) (omega arith)),
  in_use_count (without c m) n (c + 1)
      (λ x p q. in_use-without m c x (omega arith) (h x (omega arith) (omega arith))),
)
