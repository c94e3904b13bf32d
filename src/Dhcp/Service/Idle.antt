-- ===== src/Dhcp/Service/Idle.antt =====
-- Each runtime has a user.
use app_runner.Prelude.{
  not, ◌==◌, ℕ, ◌+◌, ◌≡◌, refl, Bool, false, if◌then◌else◌, Option, none, some, List, [], ◌∷◌, Text,
  All, All-delete, All-In, if_intro, if_cases, lookup, insert, In-lookup, Assoc,
}
use app_runner.Vm.{VirtualMachine}
use app_runner.Dhcp.Config.{BridgeConfig}
use app_runner.Dhcp.Range.{Range, parsed, refused, parse_range}
use app_runner.Validate.{dns_label}
use app_runner.Dhcp.Service.{
  publishes, Controllers, Runtime, Manager, Failure, with_user, joined, fail, rejoin, open_listener,
  start_dns, start_nat, start_services, set_error, serve_from, prepare_parsed, prepare_config,
  prepare_bridge, new_runtime,
}
use app_runner.Dhcp.Service.Release.{
  is_unused, without_user, drop_from, drop_user, stopped_from, serve_stopped, shutdown, stop_one,
  stop_services,
}

module _ {Host : Type 0} (c : Controllers Host) where
  -- Each runtime has a user.
  abbrev pub IsUsed : Manager Host → Type 0
  IsUsed m = All (λ (e : Text × Runtime). is_unused e.1.users ≡ false) m.runtimes

  insert-IsUsed :
      (b : Text) (r : Runtime) (rs : Assoc Runtime)
      → is_unused r.users ≡ false
      → All (λ (e : Text × Runtime). is_unused e.1.users ≡ false) rs
      → All (λ (e : Text × Runtime). is_unused e.1.users ≡ false) (insert b r rs)
  unfolding insert
  insert-IsUsed b r rs h u = (h, All-delete _ b rs u)

  abbrev Keeps : Manager Host × Failure → Type 0
  Keeps p = IsUsed p.0

  joined-IsUsed :
      (b : Text) (v : VirtualMachine) (r : Runtime) (m : Manager Host)
      → IsUsed m
      → Keeps (joined c b v r m)
  unfolding joined with_user
  joined-IsUsed b v r m u = insert-IsUsed b (with_user v r) m.runtimes refl u

  open_listener-IsUsed :
      (b : Text) (config : BridgeConfig) (range : Range) (v : VirtualMachine) (r : Runtime)
      (s t : Bool) (h : Host) (m : Manager Host)
      → IsUsed m
      → Keeps (open_listener c b config range v r s t h m)
  unfolding open_listener fail
  open_listener-IsUsed b config range v r s t h m u =
      if_intro Keeps (c.listen b range config h).1
        (joined-IsUsed b v _ (record m { host = (c.listen b range config h).0 }) u) u

  start_dns-IsUsed :
      (b : Text) (config : BridgeConfig) (range : Range) (v : VirtualMachine) (r : Runtime)
      (s : Bool) (h : Host) (m : Manager Host)
      → IsUsed m
      → Keeps (start_dns c b config range v r s h m)
  unfolding start_dns fail
  start_dns-IsUsed b config range v r s h m u =
      if_intro Keeps config.dns.enabled
        (if_intro Keeps (c.dns_start b range.server config.dns h).1
          (open_listener-IsUsed b config range v r s _ _ m u) u)
        (open_listener-IsUsed b config range v r s false h m u)

  start_services-IsUsed :
      (b : Text) (config : BridgeConfig) (range : Range) (v : VirtualMachine) (r : Runtime)
      (m : Manager Host)
      → IsUsed m
      → Keeps (start_services c b config range v r m)
  unfolding start_services start_nat fail
  start_services-IsUsed b config range v r m u =
      if_intro Keeps (c.ensure_address b range m.host).1
        (if_intro Keeps config.nat
          (if_intro Keeps (c.nat_start b range.prefix _).1
            (start_dns-IsUsed b config range v r _ _ m u) u)
          (start_dns-IsUsed b config range v r false _ m u))
        u

  serve_from-IsUsed :
      (b : Text) (config : BridgeConfig) (range : Range) (v : VirtualMachine) (o : Option Runtime)
      (m : Manager Host)
      → IsUsed m
      → Keeps (serve_from c b config range v o m)
  unfolding serve_from rejoin fail
  serve_from-IsUsed b config range v none m u =
      start_services-IsUsed b config range v (new_runtime m.next_serial)
        (record m { next_serial = m.next_serial + 1 }) u
  serve_from-IsUsed b config range v (some r) m u =
      if_intro Keeps r.running
        (if_intro Keeps _
          (if_intro Keeps (c.dns_start b range.server config.dns m.host).1
            (joined-IsUsed b v r
              (record m { host = (c.dns_start b range.server config.dns m.host).0 }) u)
            u)
          (joined-IsUsed b v r m u))
        (start_services-IsUsed b config range v r m u)

  prepare_config-IsUsed :
      (b : Text) (o : Option BridgeConfig) (v : VirtualMachine) (m : Manager Host)
      → IsUsed m
      → Keeps (prepare_config c b o v m)
  unfolding prepare_config prepare_parsed
  prepare_config-IsUsed b none v m u = u
  prepare_config-IsUsed b (some config) v m u =
      if_intro Keeps config.enabled
        (elim (parse_range config.cidr) as (λ p. Keeps (prepare_parsed c b config p v m)) [
          | refused e ↦ u
          | parsed range ↦
              if_intro Keeps (publishes c config (dns_label v.name))
                (serve_from-IsUsed b config range v (lookup b m.runtimes) m u) u
        ])
        u

  drop_from-IsUsed :
      (b id : Text) (o : Option Runtime) (m : Manager Host)
      → IsUsed m
      → IsUsed (drop_from c b id o m).0
  unfolding drop_from
  drop_from-IsUsed b id none m u = u
  drop_from-IsUsed b id (some r) m u =
      if_cases (λ (p : Manager Host × Option Runtime). IsUsed p.0)
        (is_unused (without_user id r).users) (λ _. All-delete _ b m.runtimes u)
        (λ h. insert-IsUsed b (without_user id r) m.runtimes h u)

  stopped_from-IsUsed :
      (b : Text) (k : ℕ) (failed : Bool) (o : Option Runtime) (m : Manager Host)
      → lookup b m.runtimes ≡ o
      → IsUsed m
      → IsUsed (stopped_from c b k failed o m)
  unfolding stopped_from
  stopped_from-IsUsed b k failed none m e u = u
  stopped_from-IsUsed b k failed (some r) m e u =
      let still =
        insert-IsUsed b (record r { server = false; running = false }) m.runtimes
          (All-In _ m.runtimes u (In-lookup b m.runtimes r e)) u in
      if_intro IsUsed (not (r.serial == k)) u
        (if_intro IsUsed failed (unfold set_error in still) still)

  stop_one-IsUsed :
      (b : Text) (wanted : Bool) (stop : Host → Host × Bool) (m : Manager Host)
      → IsUsed m
      → IsUsed (stop_one c b wanted stop m)
  unfolding stop_one set_error
  stop_one-IsUsed b wanted stop m u = if_intro IsUsed wanted (if_intro IsUsed (stop m.host).1 u u) u

  stop_services-IsUsed :
      (b : Text) (o : Option Runtime) (m : Manager Host) → IsUsed m → IsUsed (stop_services c b o m)
  unfolding stop_services
  stop_services-IsUsed b none m u = u
  stop_services-IsUsed b (some r) m u =
      let closed : Manager Host = record m {
        host = if r.server then (c.close b m.host).0 else m.host;
      } in
      stop_one-IsUsed b r.nat (c.nat_stop b) (stop_one c b r.dns (c.dns_stop b) closed)
        (stop_one-IsUsed b r.dns (c.dns_stop b) closed u)

  -- What happens under the manager's lock, or between two of its critical sections.
  pub data Event : Type 0 where
    prepares : Text → VirtualMachine → Event
    drops : Text → Text → Event
    stops : Text → Runtime → Event
    ends : Text → ℕ → Bool → Event
    shuts : Event

  pub happen : Manager Host → Event → Manager Host
  unfolding prepare_bridge drop_user stop_services serve_stopped shutdown
  happen m (prepares b v) = (prepare_bridge c b v m).0
  happen m (drops b id) = (drop_user c b id m).0
  happen m (stops b r) = stop_services c b (some r) m
  happen m (ends b k failed) = serve_stopped c b k failed m
  happen m shuts = (shutdown c m).0

  pub happen_all : Manager Host → List Event → Manager Host
  unfolding happen
  happen_all m [] = m
  happen_all m (e ∷ es) = happen_all (happen m e) es

  happen-IsUsed : (m : Manager Host) (e : Event) → IsUsed m → IsUsed (happen m e)
  unfolding happen prepare_bridge drop_user serve_stopped shutdown
  happen-IsUsed m (prepares b v) u = prepare_config-IsUsed b (lookup b m.configs) v m u
  happen-IsUsed m (drops b id) u = drop_from-IsUsed b id (lookup b m.runtimes) m u
  happen-IsUsed m (stops b r) u = stop_services-IsUsed b (some r) m u
  happen-IsUsed m (ends b k failed) u =
      stopped_from-IsUsed b k failed (lookup b m.runtimes) m refl u
  happen-IsUsed m shuts u = tt

  -- In every order of preparations, releases, listeners that end and shutdowns, whichever of the
  -- calls of the provider and the controllers fail, a manager whose runtimes each have a user stays
  -- so.
  pub happen_all-IsUsed : (m : Manager Host) (es : List Event) → IsUsed m → IsUsed (happen_all m es)
  unfolding happen_all
  happen_all-IsUsed m [] u = u
  happen_all-IsUsed m (e ∷ es) u = happen_all-IsUsed (happen m e) es (happen-IsUsed m e u)
