-- ===== src/Dhcp/Range/Overlap.antt =====
-- Two IPv4 ranges overlap, by the test of prefixesOverlap, when they share an address.
use native.Mathlib.Nat.{
  add-zero, add-suc, pow-suc, one-le-pow, mul_comm, div-div-eq-div-mul, mul-div-mul_right,
}
use app_runner.Prelude.{
  ℕ, zero, suc, ◌+◌, ◌-◌, ◌*◌, ◌/◌, ◌^◌, ◌≤◌, ◌≡◌, ◌↔◌, ◌⊎◌, inl, inr, sym, ap, ◌∙◌, subst, true,
  arith,
}
use app_runner.Net.{ipv4, Prefix, masked, contains}
use app_runner.Dhcp.Range.{prefixes_overlap}

pow-add : (m k : ℕ) → 2 ^ (m + k) ≡ 2 ^ k * 2 ^ m
pow-add m zero = simp add-zero (omega arith)
pow-add m (suc k) =
    rw (add-suc, pow-suc 2 (m + k), pow-suc 2 k)
      (omega (arith, ap (λ (t : ℕ). t * 2) (pow-add m k)))

-- To clear the last bits, then more of them, is to clear more of them at once.
coarser : (a m k : ℕ) → a / 2 ^ m * 2 ^ m / 2 ^ (m + k) ≡ a / 2 ^ (m + k)
coarser a m k =
    rw (pow-add m k, mul-div-mul_right (a / 2 ^ m) (2 ^ k) (one-le-pow m 2 (omega arith)))
      (div-div-eq-div-mul a (2 ^ m) (2 ^ k) ∙ ap (λ (t : ℕ). a / t) (mul_comm (2 ^ m) (2 ^ k)))

coarser_le : (a m n : ℕ) → m ≤ n → a / 2 ^ m * 2 ^ m / 2 ^ n ≡ a / 2 ^ n
coarser_le a m n h =
    subst (λ t. a / 2 ^ m * 2 ^ m / 2 ^ t ≡ a / 2 ^ t) (omega arith) (coarser a m (n - m))

inside : (n a m k : ℕ) → n / 2 ^ m ≡ a / 2 ^ m → m ≤ k → n / 2 ^ m * 2 ^ m / 2 ^ k ≡ a / 2 ^ k
inside n a m k e h = ap (λ t. t * 2 ^ m / 2 ^ k) e ∙ coarser_le a m k h

-- An IPv4 prefix as ParseRange and the state keep it.
abbrev pub block : ℕ → ℕ → Prefix
block n bits = masked (record { addr = ipv4 n; bits = bits })

base : ℕ → ℕ → ℕ
base n b = n / 2 ^ (32 - b) * 2 ^ (32 - b)

pub contains-block :
    (n b a : ℕ) → (contains (block n b) (ipv4 a) ≡ true) ↔ (n / 2 ^ (32 - b) ≡ a / 2 ^ (32 - b))
unfolding contains masked
contains-block n b a = ground (arith, coarser_le n (32 - b) (32 - b))

overlap_cases :
    (n b m c : ℕ)
    → (prefixes_overlap (block n b) (block m c) ≡ true) ↔ (
        (contains (block n b) (ipv4 (base m c)) ≡ true)
        ⊎ (contains (block m c) (ipv4 (base n b)) ≡ true))
unfolding prefixes_overlap masked base
overlap_cases n b m c = ground arith

contains-base : (n b : ℕ) → contains (block n b) (ipv4 (base n b)) ≡ true
unfolding base
contains-base n b = (contains-block n b _).1 (sym (coarser_le n (32 - b) (32 - b) (omega arith)))

abbrev Shared : ℕ → ℕ → ℕ → ℕ → Type 0
Shared n b m c =
    (a : ℕ) × (contains (block n b) (ipv4 a) ≡ true) × (contains (block m c) (ipv4 a) ≡ true)

base_inside :
    (n b m c : ℕ) → 32 - b ≤ 32 - c → Shared n b m c → contains (block m c) (ipv4 (base n b)) ≡ true
unfolding base
base_inside n b m c h (a, p, q) =
    (contains-block m c _).1 (
      (contains-block m c a).0 q
      ∙ sym (inside n a (32 - b) (32 - c) ((contains-block n b a).0 p) h))

-- Two IPv4 blocks overlap by prefixesOverlap exactly when some IPv4 address lies in both.
pub prefixes_overlap_iff :
    (n b m c : ℕ)
    → (prefixes_overlap (block n b) (block m c) ≡ true)
      ↔ ((a : ℕ) × (contains (block n b) (ipv4 a) ≡ true) × (contains (block m c) (ipv4 a) ≡ true))
prefixes_overlap_iff n b m c = (
  λ e. elim ((overlap_cases n b m c).0 e) [
    | inl p ↦ (base m c, p, contains-base m c)
    | inr p ↦ (base n b, contains-base n b, p)
  ],
  λ (a, p, q). (overlap_cases n b m c).1 (elim (le_total (32 - b) (32 - c)) [
    | inl h ↦ inr (base_inside n b m c h (a, p, q))
    | inr h ↦ inl (base_inside m c n b h (a, q, p))
  ]),
)
  where
    le_total : (x y : ℕ) → (x ≤ y) ⊎ (y ≤ x)
    le_total x y = omega arith
