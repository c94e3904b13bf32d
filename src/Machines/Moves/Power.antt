-- ===== src/Machines/Moves/Power.antt =====
-- Starting and stopping, as moves.
use app_runner.Prelude.{
  ℕ, ◌≡◌, refl, inl, inr, Bool, true, false, not, ◌&&◌, ◌==◌, Option, none, some, Text, lookup,
  if_intro, if_cases,
}
use app_runner.Vm.{VirtualMachine, is_active, running, stopped, stopping, error}
use app_runner.Machines.{
  Platform, Launch, launched, not_launched, Manager, MachineError, find, change, at_rest,
  signal_exit, clear_timer, save_quietly,
}
use app_runner.Machines.Power.{
  started, stopping_machine, exited_machine, is_stopping_status, is_stopped_status, start_error,
  launch_at, start_checked, start, begin_force_stop, finish_force_stop, graceful_at, stop,
  escalate_stop, process_exited, reboot, get, console_socket,
}
use app_runner.Machines.Rules.{machine_rule, idle_rule}
use app_runner.Machines.Moves.{view, SameHardware, switches, Moves, here, after, still}
use app_runner.Machines.Moves.Guards.{Goes, reconciled-Goes}

module _ {Host : Type 0} (p : Platform Host) where
  launch_at-Goes :
      (id : Text) (v : VirtualMachine) (m : Manager Host) (r : Host × Launch)
      → find id m.machines ≡ some v
      → lookup id m.busy ≡ none
      → Goes p (view m) (launch_at p id v m r)
  unfolding launch_at save_quietly is_active
  launch_at-Goes id v m (h, launched pid) f i =
      let up : Moves (view m)
          (record (view m) { machines = change id (started pid v) m.machines }) =
        after still (
          switches id v (started pid v) f refl refl (refl, refl, refl, refl) (inr (inr (inr i)))) in
      if_intro (Goes p (view m)) (p.save (change id (started pid v) m.machines) h).1 up up
  launch_at-Goes id v m (h, not_launched e) f i =
      after still (switches id v _ f refl refl (refl, refl, refl, refl) (inl refl))

  start_checked-Goes :
      (id : Text) (v : VirtualMachine) (o : Option MachineError) (m : Manager Host)
      → find id m.machines ≡ some v
      → lookup id m.busy ≡ none
      → Goes p (view m) (start_checked p id v o m)
  unfolding start_checked
  start_checked-Goes id v (some e) m f i = here
  start_checked-Goes id v none m f i =
      let h = (p.prepare v m.host).0 in
      if_intro (Goes p (view m)) (p.prepare v m.host).1
        (launch_at-Goes id v (record m { host = h }) (p.launch v h) f i) here

  pub start-Goes : (id : Text) (m : Manager Host) → Goes p (view m) (start p id m)
  unfolding start
  start-Goes id m = reconciled-Goes p m _ (λ n.
      machine_rule (Goes p (view n)) id (λ e. here)
        (λ v f.
          idle_rule (Goes p (view n)) id (λ e. here)
            (λ i.
              if_intro (Goes p (view n)) (not (is_active v.status))
                (start_checked-Goes id v (start_error p v n.host) n f i) here)))

  -- A machine stays, or becomes a stopping one.
  abbrev to_stopping :
      (id : Text) (v : VirtualMachine) (m : Manager Host)
      → find id m.machines ≡ some v
      → is_active v.status ≡ true
      → Moves (view m) (record (view m) { machines = change id (stopping_machine v) m.machines })
  to_stopping id v m f a =
      after still (
        switches id v (stopping_machine v) f refl refl (refl, refl, refl, refl) (inr (inr (inl a))))

  begin_force_stop-Goes :
      (id : Text) (v : VirtualMachine) (m : Manager Host)
      → find id m.machines ≡ some v
      → is_active v.status ≡ true
      → Goes p (view m) (begin_force_stop p id v m)
  unfolding begin_force_stop
  begin_force_stop-Goes id v m f a =
      if_intro (Goes p (view m)) (p.force_stop v m.host).1
        (if_intro (Goes p (view m)) _ (to_stopping id v m f a) (to_stopping id v m f a)) here

  graceful_at-Goes :
      (id : Text) (v : VirtualMachine) (timeout : ℕ) (m : Manager Host)
      → find id m.machines ≡ some v
      → is_active v.status ≡ true
      → Goes p (view m) (graceful_at p id v timeout m)
  unfolding graceful_at
  graceful_at-Goes id v timeout m f a =
      if_intro (Goes p (view m)) (p.graceful_stop v m.host).1
        (if_intro (Goes p (view m)) _
          (if_intro (λ (n : Manager Host). Moves (view m) (view n)) _ (to_stopping id v m f a)
            (to_stopping id v m f a))
          (to_stopping id v m f a))
        here

  pub stop-Goes :
      (id : Text) (force : Bool) (timeout : ℕ) (m : Manager Host)
      → Goes p (view m) (stop p id force timeout m)
  unfolding stop
  stop-Goes id force timeout m = reconciled-Goes p m _ (λ n.
      machine_rule (Goes p (view n)) id (λ e. here)
        (λ v f.
          if_cases (Goes p (view n)) (is_active v.status)
            (λ a.
              if_intro (Goes p (view n)) force (begin_force_stop-Goes id v n f a)
                (graceful_at-Goes id v timeout n f a))
            (λ _. here)))

  pub finish_force_stop-Goes :
      (id : Text) (m : Manager Host) → Goes p (view m) (finish_force_stop p id m)
  unfolding finish_force_stop signal_exit is_active
  finish_force_stop-Goes id m =
      machine_rule (Goes p (view m)) id (λ e. here)
        (λ v f.
          let rest : Moves (view m)
              (record (view m) { machines = change id (at_rest v) m.machines }) =
            after still
              (switches id v (at_rest v) f refl refl (refl, refl, refl, refl) (inl refl)) in
          if_intro (Goes p (view m)) (is_stopped_status v.status) here
            (if_intro (Goes p (view m)) _ rest rest))

  stopping_is_active :
      (v : VirtualMachine) (b : Bool)
      → ((is_stopping_status v.status && b) ≡ true)
      → is_active v.status ≡ true
  unfolding is_active
  stopping_is_active v b h =
      elim v.status as (λ s. (is_stopping_status s && b) ≡ true → is_active s ≡ true) [
        | running ↦ (λ _. refl)
        | stopping ↦ (λ _. refl)
        | stopped ↦ (λ e. cc)
        | error ↦ (λ e. cc)
      ]
        h

  pub escalate_stop-Goes :
      (id : Text) (pid : ℕ) (m : Manager Host) → Goes p (view m) (escalate_stop p id pid m)
  unfolding escalate_stop
  escalate_stop-Goes id pid m =
      machine_rule (Goes p (view m)) id (λ e. here)
        (λ v f.
          if_cases (Goes p (view m)) (is_stopping_status v.status && v.pid == pid)
            (λ a.
              begin_force_stop-Goes id v (clear_timer id m) f
                (stopping_is_active v (v.pid == pid) a))
            (λ _. here))

  exited-SameHardware :
      (e : Option Text) (v : VirtualMachine)
      → ((exited_machine e v).id ≡ v.id)
        × ((exited_machine e v).name ≡ v.name)
        × SameHardware v (exited_machine e v)
        × (is_active (exited_machine e v).status ≡ false)
  unfolding is_active
  exited-SameHardware none v = (refl, refl, (refl, refl, refl, refl), refl)
  exited-SameHardware (some e) v =
      if_intro
        (λ w. (w.id ≡ v.id) × (w.name ≡ v.name) × SameHardware v w × (is_active w.status ≡ false))
        (is_stopping_status v.status) (refl, refl, (refl, refl, refl, refl), refl)
        (refl, refl, (refl, refl, refl, refl), refl)

  pub process_exited-Goes :
      (id : Text) (pid : ℕ) (e : Option Text) (m : Manager Host)
      → Goes p (view m) (process_exited p id pid e m)
  unfolding process_exited signal_exit save_quietly
  process_exited-Goes id pid e m =
      machine_rule (Goes p (view m)) id (λ e. here)
        (λ v f.
          let (i, n, s, a) = exited-SameHardware e v in
          if_intro (Goes p (view m)) _ here
            (after still (switches id v (exited_machine e v) f i n s (inl a))))

  pub reboot-Goes : (id : Text) (m : Manager Host) → Goes p (view m) (reboot p id m)
  unfolding reboot
  reboot-Goes id m = reconciled-Goes p m _ (λ n.
      machine_rule (Goes p (view n)) id (λ e. here)
        (λ v f. if_intro (Goes p (view n)) _ (if_intro (Goes p (view n)) _ here here) here))

  pub get-Goes : (id : Text) (m : Manager Host) → Goes p (view m) (get p id m)
  unfolding get
  get-Goes id m =
      reconciled-Goes p m _ (λ n. machine_rule (Goes p (view n)) id (λ e. here) (λ v f. here))

  pub console_socket-Goes : (id : Text) (m : Manager Host) → Goes p (view m) (console_socket p id m)
  unfolding console_socket
  console_socket-Goes id m = reconciled-Goes p m _ (λ n.
      machine_rule (Goes p (view n)) id (λ e. here) (λ v f. if_intro (Goes p (view n)) _ here here))
