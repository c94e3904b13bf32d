-- ===== src/Dhcp/Range/Bounds.antt =====
-- What ParseRange accepts, and where the addresses of an accepted range lie.
use native.Mathlib.Nat.{pow-suc, pow-le-pow_right}
use app_runner.Prelude.{
  ap, ◌∙◌, ℕ, zero, suc, ◌+◌, ◌-◌, ◌*◌, ◌/◌, ◌^◌, ◌≤◌, ◌<◌, ◌≡◌, ◌≢◌, refl, some, arith,
  word_or-ones, word_or,
}
use app_runner.Net.{ipv4, masked}
use app_runner.Dhcp.Range.{Range, parsed, refused, no_pool, parse_range}

zero_plus : (b : ℕ) → 0 + b ≡ b
zero_plus b = omega arith

suc_plus : (d b : ℕ) → suc d + b ≡ suc (d + b)
suc_plus d b = omega arith

powers_meet : (d b : ℕ) → 2 ^ d * 2 ^ b ≡ 2 ^ (d + b)
powers_meet zero b = omega (arith, ap (λ n. 2 ^ n) (zero_plus b))
powers_meet (suc d) b =
    grind (arith, powers_meet d b, ap (λ n. 2 ^ n) (suc_plus d b), pow-suc 2 d, pow-suc 2 (d + b))

pub block_size : (b : ℕ) → 8 ≤ b → b ≤ 26 → (2 ^ (32 - b) * 2 ^ b ≡ 2 ^ 32) × (64 ≤ 2 ^ (32 - b))
block_size b p q =
    let whole : 32 - b + b ≡ 32 = omega arith in
    let six : 6 ≤ 32 - b = omega arith in
    let at_least : 2 ^ 6 ≤ 2 ^ (32 - b) = pow-le-pow_right (omega arith) six in
    (powers_meet (32 - b) b ∙ ap (λ n. 2 ^ n) whole, at_least)

block_fits : (q m k : ℕ) → q < k → q * m + m ≤ m * k
block_fits q m k h = grind arith

-- The block of m addresses that holds an address below m * k ends by m * k.
block_end : (n m k : ℕ) → 0 < m → n < m * k → n / m * m + m ≤ m * k
block_end n m k p h = block_fits (n / m) m k (grind arith)

broadcast_sum :
    (n bits : ℕ)
    → n < 2 ^ 32
    → 8 ≤ bits
    → bits ≤ 26
    → let size = 2 ^ (32 - bits) in
      word_or 32 (n / size * size) (size - 1) ≡ n / size * size + (size - 1)
broadcast_sum n bits h p q =
    let size : ℕ = 2 ^ (32 - bits) in
    word_or-ones 32 (32 - bits) (n / size) (omega arith)
      (omega (arith, block_size bits p q, block_end n size (2 ^ bits)))

-- ParseRange accepts each IPv4 prefix of 8 to 26 bits, and the addresses of the range it gives lie
-- in this order: network, server, first and last of the pool, broadcast, none of them wrapped
-- around; the pool has at least 13 addresses.
pub parse_range_accepts :
    (n bits : ℕ)
    → n < 2 ^ 32
    → 8 ≤ bits
    → bits ≤ 26
    → let size = 2 ^ (32 - bits) in
      let network = n / size * size in
      (r : Range) × (parse_range (some (record { addr = ipv4 n; bits = bits })) ≡ parsed r)
      × (r.prefix ≡ record { addr = ipv4 network; bits = bits })
      × (r.server ≡ network + 1)
      × (r.pool_start ≡ network + 50)
      × (r.pool_end + 2 ≡ network + size)
      × (r.broadcast + 1 ≡ network + size)
      × (r.pool_start + 12 ≤ r.pool_end)
      × (r.broadcast < 2 ^ 32)
unfolding parse_range masked
parse_range_accepts n bits h p q =
    let size : ℕ = 2 ^ (32 - bits) in
    let network : ℕ = n / size * size in
    (
      record {
        prefix = record { addr = ipv4 network; bits = bits };
        server = network + 1;
        pool_start = network + 50;
        pool_end = network + size - 2;
        broadcast = network + (size - 1);
      },
      ground (arith, block_size bits p q, block_end n size (2 ^ bits), broadcast_sum n bits h p q),
      refl,
      refl,
      refl,
      omega (arith, block_size bits p q),
      omega (arith, block_size bits p q),
      omega (arith, block_size bits p q),
      omega (arith, block_size bits p q, block_end n size (2 ^ bits)),
    )

-- The last check of ParseRange never fires: no IPv4 prefix is refused for want of a pool.
pub parse_range-ne-no_pool :
    (n bits : ℕ)
    → n < 2 ^ 32
    → parse_range (some (record { addr = ipv4 n; bits = bits })) ≢ refused no_pool
unfolding parse_range masked
parse_range-ne-no_pool n bits h e =
    ground
      (arith, block_size bits, block_end n (2 ^ (32 - bits)) (2 ^ bits), broadcast_sum n bits h)
