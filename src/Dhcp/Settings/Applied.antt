-- ===== src/Dhcp/Settings/Applied.antt =====
-- What Configure stores, and what suggestCIDRLocked suggests.
use app_runner.Prelude.{
  In, exists_none, ◌≢◌, not, ◌&&◌, Text-discrete, subst, ℕ, zero, suc, ◌+◌, ◌^◌, ◌≡◌, ◌⊎◌, inl, inr,
  refl, Bool, true, false, Option, none, some, Text, arith, lookup, lookup-insert_self, if_cases,
  exists, same, Assoc, ◌*◌,
}
use app_runner.Net.{contains, ipv4, Prefix}
use app_runner.Dhcp.Config.{BridgeConfig, DnsConfig}
use app_runner.Dhcp.Range.{prefixes_overlap, Range, Parsed, parsed, refused, parse_range}
use app_runner.Dhcp.Settings.{
  range_overlaps, Settings, SettingsRequest, ConfigureError, Checked, accepted, rejected, check_dns,
  overlaps, put_back, store, configure_range, configure_dns, new_config, configure_checked,
  configure, check_flags, suggest_from, suggest_cidr, home_network,
}

-- No other bridge with managed DHCP has a range that contains the prefix's own address, or whose own
-- address the prefix contains.
abbrev pub Apart : Text → Prefix → Assoc BridgeConfig → Type 0
Apart b p m =
    (k : Text) (x : BridgeConfig) (other : Range)
    → In (k, x) m
    → k ≢ b
    → x.enabled ≡ true
    → parse_range x.cidr ≡ parsed other
    → (contains p other.prefix.addr ≡ false) × (contains other.prefix p.addr ≡ false)

overlaps-Apart :
    (b : Text) (p : Prefix) (m : Assoc BridgeConfig) → overlaps b p m ≡ false → Apart b p m
unfolding overlaps range_overlaps prefixes_overlap
overlaps-Apart b p m h k x other i d e r =
    let t =
      exists_none
        (λ (z : Text × BridgeConfig).
          not (same z.0 b) && z.1.enabled && range_overlaps p (parse_range z.1.cidr))
        m h i in
    let s = subst (λ y. (not (same k b) && x.enabled && range_overlaps p y) ≡ false) r t in
    elim (Text-discrete k b) [ yes y ↦ absurd (d y) | no n ↦ (ground arith, ground arith) ]

-- The range is stored, no other bridge has one that overlaps it, and no workload uses the bridge.
pub record Applied (q : SettingsRequest) (s t : Settings) (p : Parsed) : Type 0 where
  pub range : Range
  pub config : BridgeConfig
  pub read : p ≡ parsed range
  pub stored : lookup q.bridge t.bridges ≡ some config
  pub enabled : config.enabled ≡ true
  pub cidr : config.cidr ≡ some range.prefix
  pub apart : Apart q.bridge range.prefix s.bridges
  pub unused : exists (λ b. same b q.bridge) s.in_use ≡ false

abbrev Applies : SettingsRequest → Settings → Parsed → Settings × Option ConfigureError → Type 0
Applies q s p r = r.1 ≡ none → Applied q s r.0 p

stored_config :
    (b : Text) (cidr : Option Prefix) (x : BridgeConfig) (saved : Bool) (s : Settings)
    → (store b cidr (some x) saved s).1 ≡ none
    → lookup b (store b cidr (some x) saved s).0.bridges ≡ some x
unfolding store put_back
stored_config b cidr x true s h = lookup-insert_self b x s.bridges
stored_config b cidr x false s h = cc

configure_dns-Applied :
    (q : SettingsRequest) (saved : Bool) (s : Settings) (r : Range) (d : Checked DnsConfig)
    → Applies q s (parsed r) (configure_dns q saved s r d)
unfolding configure_dns
configure_dns-Applied q saved s r (rejected e) h = cc
configure_dns-Applied q saved s r (accepted d) h =
    if_cases (Applies q s (parsed r)) (exists (λ b. same b q.bridge) s.in_use) (λ _ n. cc)
      (λ unused.
        if_cases (Applies q s (parsed r)) (overlaps q.bridge r.prefix s.bridges) (λ _ n. cc)
          (λ apart n. record {
            range = r;
            config = new_config q r d;
            read = refl;
            stored = stored_config q.bridge (some r.prefix) (new_config q r d) saved s n;
            enabled = refl;
            cidr = refl;
            apart = overlaps-Apart q.bridge r.prefix s.bridges apart;
            unused = unused;
          }))
      h

configure_range-Applied :
    (q : SettingsRequest) (saved : Bool) (s : Settings) (p : Parsed)
    → Applies q s p (configure_range q saved s p)
unfolding configure_range
configure_range-Applied q saved s (refused e) h = cc
configure_range-Applied q saved s (parsed r) h =
    if_cases (Applies q s (parsed r)) q.provider_ok
      (λ _. configure_dns-Applied q saved s r (check_dns q)) (λ _ n. cc) h

configure_checked-Applied :
    (q : SettingsRequest) (saved : Bool) (s : Settings) (o : Option ConfigureError)
    → q.enabled ≡ true
    → Applies q s (parse_range q.cidr) (configure_checked q saved s o)
unfolding configure_checked
configure_checked-Applied q saved s (some e) h n = cc
configure_checked-Applied q saved s none h n =
    if_cases (Applies q s (parse_range q.cidr)) q.enabled
      (λ _. configure_range-Applied q saved s (parse_range q.cidr)) (λ e. absurd (ground arith)) n

-- A Configure that enables managed DHCP and reports no error has read a range and stored it for the
-- bridge; no other bridge with managed DHCP has a range that contains its base address, or whose base
-- address it contains, and no running workload used the bridge.
pub configure-Applied :
    (q : SettingsRequest) (saved : Bool) (s : Settings)
    → q.enabled ≡ true
    → (configure q saved s).1 ≡ none
    → Applied q s (configure q saved s).0 (parse_range q.cidr)
unfolding configure
configure-Applied q saved s h n = configure_checked-Applied q saved s (check_flags q) h n

abbrev pub last_resort : Prefix
last_resort = record { addr = ipv4 (10 * 2 ^ 24); bits = 24 }

suggested :
    (b : Text) (m : Assoc BridgeConfig) (n octet : ℕ)
    → (suggest_from b m n octet ≡ last_resort) ⊎ (overlaps b (suggest_from b m n octet) m ≡ false)
unfolding suggest_from
suggested b m zero octet = inl refl
suggested b m (suc n) octet =
    if_cases (λ p. (p ≡ last_resort) ⊎ (overlaps b p m ≡ false)) (overlaps b (home_network octet) m)
      (λ _. suggested b m n (octet + 1)) (λ h. inr h)

-- The range that is suggested for a bridge is the last resort, 10.0.0.0/24, or no other bridge with
-- managed DHCP has a range that contains its base address, or whose base address it contains.
pub suggest_cidr-Apart :
    (b : Text) (s : Settings)
    → (suggest_cidr b s ≡ last_resort) ⊎ Apart b (suggest_cidr b s) s.bridges
unfolding suggest_cidr
suggest_cidr-Apart b s = elim (suggested b s.bridges 155 100) [
  | inl e ↦ inl e
  | inr h ↦ inr (overlaps-Apart b _ s.bridges h)
]
