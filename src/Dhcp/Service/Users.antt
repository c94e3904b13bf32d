-- ===== src/Dhcp/Service/Users.antt =====
-- A bridge is served for its users, and for them only.
use app_runner.Prelude.{
  ◌+◌, some-injective, subst, ◌≡◌, ◌≢◌, ◌⊎◌, refl, inl, inr, Bool, true, false, Option, none, some,
  Text, In, if_intro, if_cases, arith, lookup, lookup-insert_self,
}
use app_runner.Vm.{VirtualMachine}
use app_runner.Dhcp.Config.{BridgeConfig}
use app_runner.Dhcp.Range.{Range, Parsed, parsed, refused, parse_range}
use app_runner.Dhcp.Service.{
  Controllers, Runtime, Manager, Failure, with_user, joined, fail, rejoin, open_listener, start_dns,
  start_nat, start_services, serve_from, prepare_parsed, prepare_config, prepare_bridge,
  new_runtime,
}

module _ {Host : Type 0} (c : Controllers Host) where
  -- The bridge has a running runtime with the machine among its users.
  pub record Serves (b id : Text) (m : Manager Host) : Type 0 where
    pub runtime : Runtime
    pub found : lookup b m.runtimes ≡ some runtime
    pub running : runtime.running ≡ true
    pub user : In id runtime.users

  abbrev pub WasRunning : Text → Manager Host → Type 0
  WasRunning b m = (r : Runtime) × (lookup b m.runtimes ≡ some r) × (r.running ≡ true)

  -- The host is what a DHCP listener that was opened for the bridge left.
  abbrev pub Opened : Text → BridgeConfig → Host → Type 0
  Opened b config h =
      (range : Range) × (g : Host) × (parse_range config.cidr ≡ parsed range)
      × ((c.listen b range config g).1 ≡ true)
      × (h ≡ (c.listen b range config g).0)

  -- What a call of prepareBridge can do: it serves the machine, by a runtime that was running or by a
  -- listener that it opened, or it fails and changes no runtime.
  abbrev pub Served :
      Text → BridgeConfig → VirtualMachine → Manager Host → Manager Host × Failure → Type 0
  Served b config v m p =
      ((p.1 ≡ none) × Serves b v.id p.0 × (WasRunning b m ⊎ Opened b config p.0.host))
      ⊎ ((p.1 ≢ none) × (p.0.runtimes ≡ m.runtimes))

  joined-Serves :
      (b : Text) (v : VirtualMachine) (r : Runtime) (m : Manager Host)
      → r.running ≡ true
      → Serves b v.id (joined c b v r m).0
  unfolding joined
  joined-Serves b v r m h = record {
    runtime = with_user v r;
    found = lookup-insert_self b (with_user v r) m.runtimes;
    running = unfold with_user in h;
    user = unfold with_user in inl refl;
  }

  joined-Served :
      (b : Text) (config : BridgeConfig) (v : VirtualMachine) (r : Runtime) (m n : Manager Host)
      → r.running ≡ true
      → WasRunning b n ⊎ Opened b config m.host
      → Served b config v n (joined c b v r m)
  unfolding joined
  joined-Served b config v r m n h o = inl (refl, joined-Serves b v r m h, o)

  open_listener-Served :
      (b : Text) (config : BridgeConfig) (range : Range) (v : VirtualMachine) (r : Runtime)
      (s t : Bool) (h : Host) (m : Manager Host)
      → parse_range config.cidr ≡ parsed range
      → Served b config v m (open_listener c b config range v r s t h m)
  unfolding open_listener fail
  open_listener-Served b config range v r s t h m q =
      if_cases (Served b config v m) (c.listen b range config h).1
        (λ l.
          joined-Served b config v _ (record m { host = (c.listen b range config h).0 }) m refl
            (inr (range, h, q, l, refl)))
        (λ _. inr ((λ e. cc), refl))

  start_dns-Served :
      (b : Text) (config : BridgeConfig) (range : Range) (v : VirtualMachine) (r : Runtime)
      (s : Bool) (h : Host) (m : Manager Host)
      → parse_range config.cidr ≡ parsed range
      → Served b config v m (start_dns c b config range v r s h m)
  unfolding start_dns fail
  start_dns-Served b config range v r s h m q =
      if_intro (Served b config v m) config.dns.enabled
        (if_intro (Served b config v m) (c.dns_start b range.server config.dns h).1
          (open_listener-Served b config range v r s _ _ m q) (inr ((λ e. cc), refl)))
        (open_listener-Served b config range v r s false h m q)

  start_services-Served :
      (b : Text) (config : BridgeConfig) (range : Range) (v : VirtualMachine) (r : Runtime)
      (m : Manager Host)
      → parse_range config.cidr ≡ parsed range
      → Served b config v m (start_services c b config range v r m)
  unfolding start_services start_nat fail
  start_services-Served b config range v r m q =
      if_intro (Served b config v m) (c.ensure_address b range m.host).1
        (if_intro (Served b config v m) config.nat
          (if_intro (Served b config v m) (c.nat_start b range.prefix _).1
            (start_dns-Served b config range v r _ _ m q) (inr ((λ e. cc), refl)))
          (start_dns-Served b config range v r false _ m q))
        (inr ((λ e. cc), refl))

  rejoin-Served :
      (b : Text) (config : BridgeConfig) (range : Range) (v : VirtualMachine) (r : Runtime)
      (m : Manager Host)
      → WasRunning b m
      → r.running ≡ true
      → Served b config v m (rejoin c b config range v r m)
  unfolding rejoin fail
  rejoin-Served b config range v r m w h =
      if_intro (Served b config v m) _
        (if_intro (Served b config v m) (c.dns_start b range.server config.dns m.host).1
          (joined-Served b config v r
            (record m { host = (c.dns_start b range.server config.dns m.host).0 }) m h (inl w))
          (inr ((λ e. cc), refl)))
        (joined-Served b config v r m m h (inl w))

  serve_from-Served :
      (b : Text) (config : BridgeConfig) (range : Range) (v : VirtualMachine) (o : Option Runtime)
      (m : Manager Host)
      → lookup b m.runtimes ≡ o
      → parse_range config.cidr ≡ parsed range
      → Served b config v m (serve_from c b config range v o m)
  unfolding serve_from
  serve_from-Served b config range v none m f q =
      start_services-Served b config range v (new_runtime m.next_serial)
        (record m { next_serial = m.next_serial + 1 }) q
  serve_from-Served b config range v (some r) m f q =
      if_cases (Served b config v m) r.running (λ h. rejoin-Served b config range v r m (r, f, h) h)
        (λ _. start_services-Served b config range v r m q)

  prepare_parsed-Served :
      (b : Text) (config : BridgeConfig) (p : Parsed) (v : VirtualMachine) (m : Manager Host)
      → parse_range config.cidr ≡ p
      → Served b config v m (prepare_parsed c b config p v m)
  unfolding prepare_parsed
  prepare_parsed-Served b config (refused e) v m q = inr ((λ e. cc), refl)
  prepare_parsed-Served b config (parsed range) v m q =
      if_intro (Served b config v m) _ (serve_from-Served b config range v _ m refl q)
        (inr ((λ e. cc), refl))

  enabled-Served :
      (b : Text) (config : BridgeConfig) (o : Option BridgeConfig) (v : VirtualMachine)
      (m : Manager Host)
      → o ≡ some config
      → config.enabled ≡ true
      → Served b config v m (prepare_config c b o v m)
  unfolding prepare_config
  enabled-Served b config none v m e h = cc
  enabled-Served b config (some x) v m e h =
      subst (λ y. Served b y v m (prepare_config c b (some x) v m)) (some-injective e)
        (if_cases (Served b x v m) x.enabled
          (λ _. prepare_parsed-Served b x (parse_range x.cidr) v m refl)
          (λ q. absurd (ground arith)))

  -- prepareBridge serves the machine or says that it does not: on a bridge with managed DHCP, it
  -- either reports no error, and the bridge has a running runtime that counts the machine among its
  -- users and that was running before or whose DHCP listener this call opened on the bridge's range,
  -- or it reports an error, and all runtimes are as they were.
  pub prepare_bridge-Served :
      (b : Text) (config : BridgeConfig) (v : VirtualMachine) (m : Manager Host)
      → lookup b m.configs ≡ some config
      → config.enabled ≡ true
      → Served b config v m (prepare_bridge c b v m)
  unfolding prepare_bridge
  prepare_bridge-Served b config v m e h = enabled-Served b config (lookup b m.configs) v m e h
