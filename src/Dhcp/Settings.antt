-- ===== src/Dhcp/Settings.antt =====
-- The settings of the bridges (internal/dhcp/dhcp.go: Configure, Enabled, suggestCIDRLocked). What
-- other packages say to a request is part of it: whether the boot URL is one that validateHTTPBootURL accepts,
-- whether the provider accepts the bridge, and the forwarders that dns.NormalizeForwarders returns.
pub mod Refused
pub mod Applied
use app_runner.Prelude.{
  ℕ, suc, zero, ◌+◌, ◌*◌, ◌^◌, Bool, true, false, ◌&&◌, ◌||◌, not, Option, none, some, List, [],
  ◌∷◌, if◌then◌else◌, Text, Assoc, lookup, delete, insert, same, keep, exists, ◌==◌, trim_space,
}
use app_runner.Net.{Addr, ipv4, same_addr, Prefix}
use app_runner.Validate.{NameError, interface_name}
use app_runner.Dns.{normalize_suffix, default_suffix}
use app_runner.Dhcp.Config.{BridgeConfig, DnsConfig}
use app_runner.Dhcp.Range.{Range, Parsed, parsed, refused, parse_range, prefixes_overlap}
use app_runner.Dhcp.Lease.{Leases}

-- The saved state, the bridges with an error, and those whose runtime has users.
pub record Settings : Type 0 where
  pub bridges : Assoc BridgeConfig
  pub leases : Assoc Leases
  pub errors : List Text
  pub in_use : List Text

-- The arguments of Configure: the boot URL is trimmed, `cidr` is what netip.ParsePrefix makes of the
-- text, or of the default one where that is blank.
pub record SettingsRequest : Type 0 where
  pub bridge : Text
  pub enabled : Bool
  pub cidr : Option Prefix
  pub nat : Bool
  pub dns : DnsConfig
  pub boot_url : Text
  pub boot_url_ok : Bool
  pub provider_ok : Bool
  pub forwarders : Option (List Text)

pub data ConfigureError : Type 0 where
  bad_bridge nat_without_dhcp boot_without_dhcp bad_boot_url dns_without_dhcp auto_without_dns
        bad_cidr bridge_refused bad_forwarders bad_suffix running_workloads overlapping not_saved :
      ConfigureError

abbrev pub is_blank : Text → Bool
is_blank [] = true
is_blank (c ∷ t) = false

abbrev pub is_bad_name : Option NameError → Bool
is_bad_name none = false
is_bad_name (some e) = true

-- The checks before the network is read.
pub check_flags : SettingsRequest → Option ConfigureError
check_flags q =
    if is_bad_name (interface_name q.bridge)
    then some bad_bridge
    else if q.nat && not q.enabled
    then some nat_without_dhcp
    else if not (is_blank q.boot_url) && not q.enabled
    then some boot_without_dhcp
    else if not (is_blank q.boot_url) && not q.boot_url_ok
    then some bad_boot_url
    else if q.dns.enabled && not q.enabled
    then some dns_without_dhcp
    else if q.dns.auto && not q.dns.enabled
    then some auto_without_dns
    else none

abbrev pub no_dns : DnsConfig
no_dns = record { enabled = false; forwarders = []; auto = false; suffix = [] }

pub data Checked {ℓ} (A : Type ℓ) : Type ℓ where
  accepted : A → Checked A
  rejected : ConfigureError → Checked A

pub check_suffix : DnsConfig → List Text → Option Text → Checked DnsConfig
check_suffix d fs none = rejected bad_suffix
check_suffix d fs (some s) = accepted (record d { forwarders = fs; suffix = s })

pub check_forwarders : Text → DnsConfig → Option (List Text) → Checked DnsConfig
unfolding check_suffix
check_forwarders bridge d none = rejected bad_forwarders
check_forwarders bridge d (some fs) =
    if d.auto
    then check_suffix d fs (
        normalize_suffix
          (if is_blank (trim_space d.suffix) then default_suffix bridge else d.suffix))
    else accepted (record d { forwarders = fs; suffix = [] })

pub check_dns : SettingsRequest → Checked DnsConfig
unfolding check_forwarders
check_dns q =
    if q.dns.enabled then check_forwarders q.bridge q.dns q.forwarders else accepted no_dns

-- Another bridge with managed DHCP has an overlapping range.
pub range_overlaps : Prefix → Parsed → Bool
range_overlaps p (refused e) = false
range_overlaps p (parsed r) = prefixes_overlap p r.prefix

pub overlaps : Text → Prefix → Assoc BridgeConfig → Bool
unfolding range_overlaps
overlaps bridge p =
    exists λ e. not (same e.0 bridge) && e.1.enabled && range_overlaps p (parse_range e.1.cidr)

-- A text that is no prefix is not what `Prefix.String` prints.
abbrev pub same_cidr : Option Prefix → Option Prefix → Bool
same_cidr (some p) (some q) = same_addr p.addr q.addr && (p.bits == q.bits)
same_cidr _ _ = false

-- The leases of a bridge are dropped, unless its range and its state stay.
pub keeps_leases : Option Prefix → Bool → Option BridgeConfig → Bool
keeps_leases cidr enabled none = false
keeps_leases cidr enabled (some previous) =
    same_cidr previous.cidr cidr
    && ((previous.enabled && enabled) || (not previous.enabled && not enabled))

-- What a save that fails puts back.
pub put_back : {A : Type 0} → Text → Option A → Assoc A → Assoc A
put_back bridge none m = delete bridge m
put_back bridge (some a) m = insert bridge a m

pub put_back_leases : Text → Option Leases → Assoc Leases → Assoc Leases
put_back_leases bridge none m = m
put_back_leases bridge (some l) m = insert bridge l m

-- Under the lock: `cidr` and `config` are what is stored, `config` nothing where DHCP is disabled.
pub store :
    Text → Option Prefix → Option BridgeConfig → Bool → Settings → Settings × Option ConfigureError
unfolding keeps_leases put_back put_back_leases
store bridge cidr config saved s =
    let previous = lookup bridge s.bridges in
    let stored = put_back bridge config s.bridges in
    let left =
      if keeps_leases cidr (elim config [ none ↦ false | some x ↦ true ]) previous
      then s.leases
      else delete bridge s.leases in
    let errors = keep (λ b. not (same b bridge)) s.errors in
    if saved then (record s { bridges = stored; leases = left; errors = errors }, none) else (
      record s {
        bridges = put_back bridge previous stored;
        leases = put_back_leases bridge (lookup bridge s.leases) left;
        errors = errors;
      },
      some not_saved,
    )

abbrev pub new_config : SettingsRequest → Range → DnsConfig → BridgeConfig
new_config q r d = record {
  enabled = true;
  cidr = some r.prefix;
  nat = q.nat;
  dns = d;
  http_boot_url = q.boot_url;
}

pub configure_dns :
    SettingsRequest → Bool → Settings → Range → Checked DnsConfig → Settings × Option ConfigureError
unfolding store overlaps
configure_dns q saved s r (rejected e) = (s, some e)
configure_dns q saved s r (accepted d) =
    if exists (λ b. same b q.bridge) s.in_use
    then (s, some running_workloads)
    else if overlaps q.bridge r.prefix s.bridges
    then (s, some overlapping)
    else store q.bridge (some r.prefix) (some (new_config q r d)) saved s

pub configure_range : SettingsRequest → Bool → Settings → Parsed → Settings × Option ConfigureError
unfolding configure_dns check_dns
configure_range q saved s (refused e) = (s, some bad_cidr)
configure_range q saved s (parsed r) =
    if q.provider_ok then configure_dns q saved s r (check_dns q) else (s, some bridge_refused)

pub configure_checked :
    SettingsRequest → Bool → Settings → Option ConfigureError → Settings × Option ConfigureError
unfolding configure_range store
configure_checked q saved s (some e) = (s, some e)
configure_checked q saved s none =
    if q.enabled
    then configure_range q saved s (parse_range q.cidr)
    else if exists (λ b. same b q.bridge) s.in_use
    then (s, some running_workloads)
    else store q.bridge none none saved s

-- `Configure`
unfoldable pub configure : SettingsRequest → Bool → Settings → Settings × Option ConfigureError
unfolding configure_checked check_flags
configure q saved s = configure_checked q saved s (check_flags q)

-- `Enabled`
pub is_enabled : Text → Settings → Bool
is_enabled bridge s = elim (lookup bridge s.bridges) [ none ↦ false | some x ↦ x.enabled ]

-- 192.168.octet.0/24
abbrev pub home_network : ℕ → Prefix
home_network octet = record { addr = ipv4 (3232235520 + octet * 256); bits = 24 }

-- The loop of suggestCIDRLocked, for a number of rounds.
pub suggest_from : Text → Assoc BridgeConfig → ℕ → ℕ → Prefix
unfolding overlaps
suggest_from bridge m zero octet = record { addr = ipv4 (10 * 2 ^ 24); bits = 24 }
suggest_from bridge m (suc n) octet =
    let rest = suggest_from bridge m n (octet + 1) in
    if overlaps bridge (home_network octet) m then rest else home_network octet

-- `suggestCIDRLocked`
unfoldable pub suggest_cidr : Text → Settings → Prefix
unfolding suggest_from
suggest_cidr bridge s = suggest_from bridge s.bridges 155 100
