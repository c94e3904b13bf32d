-- ===== src/Net.antt =====
-- What internal/dhcp uses of Go's net/netip. A valid address is its number; the zero `netip.Addr`
-- is `none` of `Option Addr`. A text that should hold an address or a prefix stands in the model
-- for what `netip.ParseAddr` or `netip.ParsePrefix` makes of it, `none` where that fails.
use app_runner.Prelude.{ℕ, ◌-◌, ◌*◌, ◌/◌, ◌^◌, Bool, true, false, ◌==◌, ℕ_discrete}

pub data Addr : Type 0 where
  ipv4 : ℕ → Addr
  ipv6 : ℕ → Addr

unfoldable pub Addr-discrete : Discrete Addr
unfolding ℕ_discrete
Addr-discrete = hlevel ℕ_discrete

-- Go's `==` on `netip.Addr`.
abbrev pub same_addr : Addr → Addr → Bool
same_addr a b = elim (Addr-discrete a b) [ yes e ↦ true | no n ↦ false ]

pub record Prefix : Type 0 where
  pub addr : Addr
  pub bits : ℕ

contains_from : Addr → ℕ → Addr → Bool
contains_from (ipv4 n) b (ipv4 a) = n / 2 ^ (32 - b) == a / 2 ^ (32 - b)
contains_from (ipv6 n) b (ipv6 a) = n / 2 ^ (128 - b) == a / 2 ^ (128 - b)
contains_from _ b _ = false

-- `Prefix.Contains`: the same family, and the same first bits.
unfoldable pub contains : Prefix → Addr → Bool
unfolding contains_from
contains p a = contains_from p.addr p.bits a

mask : Addr → ℕ → Addr
mask (ipv4 n) b = ipv4 (n / 2 ^ (32 - b) * 2 ^ (32 - b))
mask (ipv6 n) b = ipv6 (n / 2 ^ (128 - b) * 2 ^ (128 - b))

-- `Prefix.Masked`: the bits after the prefix are cleared.
unfoldable pub masked : Prefix → Prefix
unfolding mask
masked p = record p { addr = mask p.addr p.bits }
