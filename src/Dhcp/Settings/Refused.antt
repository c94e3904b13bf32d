-- ===== src/Dhcp/Settings/Refused.antt =====
-- What Configure leaves behind.
use app_runner.Prelude.{
  ◌≡◌, ◌≢◌, ap, refl, if◌then◌else◌, exists, sym, Bool, true, false, Option, none, some, Text, same,
  arith, lookup, delete, Assoc, lookup-insert, lookup-delete, if_intro, ◌∙◌, Text-discrete,
}
use app_runner.Net.{Prefix}
use app_runner.Dhcp.Config.{BridgeConfig, DnsConfig}
use app_runner.Dhcp.Lease.{Leases}
use app_runner.Dhcp.Range.{Range, Parsed, parsed, refused, parse_range}
use app_runner.Dhcp.Settings.{
  Checked, Settings, SettingsRequest, ConfigureError, accepted, rejected, check_dns, overlaps,
  put_back, put_back_leases, store, configure_range, configure_dns, new_config, configure_checked,
  configure, check_flags,
}

after_put_back :
    {A : Type 0} (b j : Text) (o : Option A) (m : Assoc A)
    → lookup j (put_back b o m) ≡ (if same b j then o else lookup j m)
unfolding put_back
after_put_back b j none m = lookup-delete b j m
after_put_back b j (some a) m = lookup-insert b j a m

at_own_key :
    {A : Type 0} (b j : Text) (x : Option A) (m : Assoc A)
    → x ≡ lookup b m
    → (if same b j then x else (if same b j then none else lookup j m)) ≡ lookup j m
at_own_key b j x m e =
    elim (Text-discrete b j)
      as (λ d.
        (if (elim d [ yes p ↦ true | no n ↦ false ])
          then x
          else (if (elim d [ yes p ↦ true | no n ↦ false ]) then none else lookup j m))
        ≡ lookup j m) [ yes p ↦ e ∙ ap (λ t. lookup t m) p | no n ↦ refl ]

-- What is put back over a change hides it.
lookup-put_back :
    {A : Type 0} (b j : Text) (new : Option A) (m : Assoc A)
    → lookup j (put_back b (lookup b m) (put_back b new m)) ≡ lookup j m
lookup-put_back b j new m = ground (
  arith,
  after_put_back b j (lookup b m) (put_back b new m),
  after_put_back b j new m,
  at_own_key b j (lookup b m) m refl,
)

lookup-put_back_leases :
    (b j : Text) (kept : Bool) (o : Option Leases) (m : Assoc Leases)
    → lookup b m ≡ o
    → lookup j (put_back_leases b o (if kept then m else delete b m)) ≡ lookup j m
unfolding put_back_leases
lookup-put_back_leases b j true none m e = refl
lookup-put_back_leases b j false none m e =
    ground (arith, lookup-delete b j m, at_own_key b j none m (sym e))
lookup-put_back_leases b j true (some l) m e =
    ground (arith, lookup-insert b j l m, at_own_key b j (some l) m (sym e))
lookup-put_back_leases b j false (some l) m e = ground (
  arith,
  lookup-insert b j l (delete b m),
  lookup-delete b j m,
  at_own_key b j (some l) m (sym e),
)

-- The settings of each bridge, and its leases, are as they were.
abbrev pub Unchanged : Text → Settings → Settings → Type 0
Unchanged j s t =
    (lookup j t.bridges ≡ lookup j s.bridges) × (lookup j t.leases ≡ lookup j s.leases)

abbrev Refuses : Text → Settings → Settings × Option ConfigureError → Type 0
Refuses j s p = p.1 ≢ none → Unchanged j s p.0

store-Refuses :
    (b j : Text) (cidr : Option Prefix) (config : Option BridgeConfig) (saved : Bool) (s : Settings)
    → Refuses j s (store b cidr config saved s)
unfolding store
store-Refuses b j cidr config true s h = absurd (h refl)
store-Refuses b j cidr config false s h = (
  lookup-put_back b j config s.bridges,
  lookup-put_back_leases b j _ (lookup b s.leases) s.leases refl,
)

configure_dns-Refuses :
    (j : Text) (q : SettingsRequest) (saved : Bool) (s : Settings) (r : Range)
    (d : Checked DnsConfig)
    → Refuses j s (configure_dns q saved s r d)
unfolding configure_dns
configure_dns-Refuses j q saved s r (rejected e) h = (refl, refl)
configure_dns-Refuses j q saved s r (accepted d) h =
    if_intro (Refuses j s) (exists (λ b. same b q.bridge) s.in_use) (λ _. (refl, refl))
      (if_intro (Refuses j s) (overlaps q.bridge r.prefix s.bridges) (λ _. (refl, refl))
        (store-Refuses q.bridge j (some r.prefix) (some (new_config q r d)) saved s))
      h

configure_range-Refuses :
    (j : Text) (q : SettingsRequest) (saved : Bool) (s : Settings) (p : Parsed)
    → Refuses j s (configure_range q saved s p)
unfolding configure_range
configure_range-Refuses j q saved s (refused e) h = (refl, refl)
configure_range-Refuses j q saved s (parsed r) h =
    if_intro (Refuses j s) q.provider_ok (configure_dns-Refuses j q saved s r (check_dns q))
      (λ _. (refl, refl)) h

configure_checked-Refuses :
    (j : Text) (q : SettingsRequest) (saved : Bool) (s : Settings) (o : Option ConfigureError)
    → Refuses j s (configure_checked q saved s o)
unfolding configure_checked
configure_checked-Refuses j q saved s (some e) h = (refl, refl)
configure_checked-Refuses j q saved s none h =
    if_intro (Refuses j s) q.enabled (configure_range-Refuses j q saved s (parse_range q.cidr))
      (if_intro (Refuses j s) (exists (λ b. same b q.bridge) s.in_use) (λ _. (refl, refl))
        (store-Refuses q.bridge j none none saved s))
      h

-- A Configure that reports an error, one of saving included, leaves the settings and the leases of
-- every bridge as they were.
pub configure_unchanged :
    (j : Text) (q : SettingsRequest) (saved : Bool) (s : Settings)
    → (configure q saved s).1 ≢ none
    → (lookup j (configure q saved s).0.bridges ≡ lookup j s.bridges)
      × (lookup j (configure q saved s).0.leases ≡ lookup j s.leases)
unfolding configure
configure_unchanged j q saved s h = configure_checked-Refuses j q saved s (check_flags q) h
