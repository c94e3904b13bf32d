-- ===== src/Dhcp/Service/Release.antt =====
-- The end of a bridge's services, and the calls for a whole machine (internal/dhcp/dhcp.go: Prepare,
-- Release, releaseBridge, Reconcile, Shutdown, serve). releaseBridge leaves its lock before it stops
-- the services, so it is two steps; `release_bridge` is a call that nothing interrupts.
use app_runner.Prelude.{
  ℕ, ◌==◌, Bool, true, false, ◌&&◌, not, Option, none, some, List, [], ◌∷◌, ◌++◌, if◌then◌else◌,
  Text, same, keep, Assoc, lookup, delete, insert,
}
use app_runner.Vm.{VirtualMachine, bridges, is_active}
use app_runner.Dhcp.Service.{
  Controllers, Runtime, Manager, not_recovered, not_closed, Failure, set_error, prepare_bridge,
}

pub without_user : Text → Runtime → Runtime
without_user id r = record r { users = keep (λ u. not (same u id)) r.users; vms = delete id r.vms }

abbrev pub is_unused : List Text → Bool
is_unused [] = true
is_unused (u ∷ us) = false

-- The first error of two.
abbrev pub join : Failure → Failure → Failure
join none e = e
join (some x) e = some x

module _ {Host : Type 0} (c : Controllers Host) where
  -- Under the lock: the runtime to stop, if its last user is gone.
  unfoldable pub drop_from :
      Text → Text → Option Runtime → Manager Host → Manager Host × Option Runtime
  unfolding without_user
  drop_from b id none m = (m, none)
  drop_from b id (some r) m =
      let left = without_user id r in
      if is_unused left.users
      then (record m { runtimes = delete b m.runtimes }, some left)
      else (record m { runtimes = insert b left m.runtimes }, none)

  unfoldable pub drop_user : Text → Text → Manager Host → Manager Host × Option Runtime
  unfolding drop_from
  drop_user b id m = drop_from b id (lookup b m.runtimes) m

  unfoldable pub stop_one : Text → Bool → (Host → Host × Bool) → Manager Host → Manager Host
  stop_one b wanted stop m =
      if wanted
      then (let (h, ok) = stop m.host in
          let stopped : Manager Host = record m { host = h } in
          if ok then stopped else set_error c b stopped)
      else m

  -- After the lock.
  unfoldable pub stop_services : Text → Option Runtime → Manager Host → Manager Host
  unfolding stop_one
  stop_services b none m = m
  stop_services b (some r) m =
      let closed : Manager Host = record m {
        host = if r.server then (c.close b m.host).0 else m.host;
      } in
      stop_one b r.nat (c.nat_stop b) (stop_one b r.dns (c.dns_stop b) closed)

  -- `releaseBridge`
  pub release_bridge : Text → Text → Manager Host → Manager Host
  unfolding drop_user stop_services
  release_bridge b id m = let (m', r) = drop_user b id m in stop_services b r m'

  pub release_all : List Text → Text → Manager Host → Manager Host
  unfolding release_bridge
  release_all [] id m = m
  release_all (b ∷ bs) id m = release_all bs id (release_bridge b id m)

  -- `Release`
  pub release : VirtualMachine → Manager Host → Manager Host
  unfolding release_all
  release v m = release_all (bridges v) v.id m

  -- The loop of Prepare, with the bridges prepared so far in their order.
  pub prepare_all : List Text → List Text → VirtualMachine → Manager Host → Manager Host × Failure
  unfolding release_all
  prepare_all done [] v m = (m, none)
  prepare_all done (b ∷ bs) v m =
      let (m', e) = prepare_bridge c b v m in
      let rest = prepare_all (done ++ b ∷ []) bs v m' in
      elim e [ none ↦ rest | some x ↦ (release_all done v.id m', some x) ]

  -- `Prepare`
  pub prepare : VirtualMachine → Manager Host → Manager Host × Failure
  unfolding prepare_all
  prepare v m = prepare_all [] (bridges v) v m

  -- The loop of Reconcile.
  prepare_active : List VirtualMachine → Manager Host → Manager Host × Failure
  unfolding prepare
  prepare_active [] m = (m, none)
  prepare_active (v ∷ vs) m =
      if is_active v.status
      then (let (m1, e) = prepare v m in let (m2, f) = prepare_active vs m1 in (m2, join e f))
      else prepare_active vs m

  -- `Reconcile`
  pub reconcile : List VirtualMachine → Manager Host → Manager Host × Failure
  unfolding prepare_active
  reconcile vs m =
      let (m1, e) = prepare_active vs m in
      let (h, ok) = c.nat_finish m1.host in
      (record m1 { host = h }, join e (if ok then none else some not_recovered))

  close_all : Assoc Runtime → Host → Host × Bool
  close_all [] h = (h, true)
  close_all ((b, r) ∷ rs) h =
      if r.server
      then (let (h1, ok) = c.close b h in let (h2, rest) = close_all rs h1 in (h2, ok && rest))
      else close_all rs h

  -- `Shutdown`
  unfoldable pub shutdown : Manager Host → Manager Host × Failure
  unfolding close_all
  shutdown m =
      let (h1, closed) = close_all m.runtimes m.host in
      let (h2, dns_closed) = c.dns_close h1 in
      (
        record m { host = h2; runtimes = [] },
        if closed && dns_closed then none else some not_closed,
      )

  unfoldable pub stopped_from : Text → ℕ → Bool → Option Runtime → Manager Host → Manager Host
  stopped_from b k failed none m = m
  stopped_from b k failed (some r) m =
      let down : Manager Host = record m {
        runtimes = insert b (record r { server = false; running = false }) m.runtimes;
      } in
      if not (r.serial == k) then m else if failed then set_error c b down else down

  -- The end of `serve`: the listener of the runtime with a serial number returned, with an error or
  -- not.
  unfoldable pub serve_stopped : Text → ℕ → Bool → Manager Host → Manager Host
  unfolding stopped_from
  serve_stopped b k failed m = stopped_from b k failed (lookup b m.runtimes) m
