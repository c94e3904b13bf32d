-- ===== src/Machines/Power.antt =====
-- Starting and stopping (internal/vm/vm.go: Start, Stop, escalateStop, forceStopLocked,
-- processExited, Reboot, Reset, ConsoleSocket).
use app_runner.Prelude.{
  ℕ, Bool, true, false, ◌&&◌, ◌||◌, not, Option, none, some, List, [], ◌∷◌, ◌==◌, if◌then◌else◌,
  ltb, Text, same, exists, keep, insert, is_some,
}
use app_runner.Vm.{
  VirtualMachine, Disk, Firmware, bios, uefi, VmStatus, stopped, running, stopping, error,
  is_active, is_blank, bridges,
}
use app_runner.Machines.{
  Platform, Launch, launched, not_launched, FileStatus, present, absent, unreadable, Manager,
  MachineError, already_running, not_running, bridge_unavailable, host_unavailable, not_saved,
  disk_missing, image_missing, iso_missing, cloud_init_missing, uefi_missing, not_started,
  not_stopped, not_reset, Result, change, fail, check, require_idle, on_machine, clear_timer,
  signal_exit, at_rest, reconciled, save_quietly,
}
use app_runner.Machines.Checks.{resolve_iso_storage_file, image_extensions}

abbrev pub is_present : FileStatus → Bool
is_present present = true
is_present absent = false
is_present unreadable = false

abbrev pub is_uefi : Firmware → Bool
is_uefi uefi = true
is_uefi bios = false

abbrev pub is_running_status : VmStatus → Bool
is_running_status running = true
is_running_status stopping = false
is_running_status stopped = false
is_running_status error = false

abbrev pub is_stopping_status : VmStatus → Bool
is_stopping_status stopping = true
is_stopping_status running = false
is_stopping_status stopped = false
is_stopping_status error = false

abbrev pub is_stopped_status : VmStatus → Bool
is_stopped_status stopped = true
is_stopped_status running = false
is_stopped_status stopping = false
is_stopped_status error = false

-- The state of a machine whose process was started: an override of the boot device that does not
-- persist is used up.
abbrev pub started : ℕ → VirtualMachine → VirtualMachine
started pid v = record v {
  pid = pid;
  status = running;
  last_error = [];
  ipmi = record v.ipmi { boot_device = if v.ipmi.boot_persistent then v.ipmi.boot_device else 0 };
}

abbrev pub stopping_machine : VirtualMachine → VirtualMachine
stopping_machine v = record v { status = stopping }

-- The machine after its process ended; an error of a process that was not asked to stop is kept.
abbrev pub exited_machine : Option Text → VirtualMachine → VirtualMachine
exited_machine none v = at_rest v
exited_machine (some e) v =
    if is_stopping_status v.status then at_rest v else record (at_rest v) { last_error = e }

module _ {Host : Type 0} (p : Platform Host) where
  unfoldable pub disk_error : Text → List Disk → Host → Option MachineError
  disk_error id [] h = none
  disk_error id (d ∷ ds) h =
      let rest = disk_error id ds h in
      if not (is_present (p.stat (p.disk_path id d.id) h))
      then some disk_missing
      else if not (is_blank d.source_image)
          && not (is_some (resolve_iso_storage_file p d.source_image image_extensions h))
      then some image_missing
      else rest

  -- What keeps a machine from starting, in the order of Start's checks.
  unfoldable pub start_error : VirtualMachine → Host → Option MachineError
  unfolding disk_error
  start_error v h =
      if not (p.qemu_available h) || not (p.kvm_available h)
      then some host_unavailable
      else if exists (λ b. not (p.bridge_available b h)) (bridges v)
      then some bridge_unavailable
      else elim (disk_error v.id v.disks h) [
        | some e ↦ some e
        | none ↦
            if exists
              (λ c.
                not (is_blank c.iso_name) && not (is_present (p.stat (p.iso_path c.iso_name) h)))
              v.cdroms
            then some iso_missing
            else if v.cloud_init.enabled && not (is_present (p.stat (p.cloud_init_iso v.id) h))
            then some cloud_init_missing
            else if is_uefi v.firmware
                && (not (p.regular_file p.uefi_code_path h)
                    || not (p.regular_file (p.uefi_vars v.id) h))
            then some uefi_missing
            else none
      ]

  -- The process runs, or it does not; the definition is saved.
  unfoldable pub launch_at : Text → VirtualMachine → Manager Host → Host × Launch → Result Host
  unfolding save_quietly
  launch_at id v m (h, launched pid) =
      let w = started pid v in
      let vs = change id w m.machines in
      let (h1, ok) = p.save vs h in
      let m1 : Manager Host = record m { machines = vs; exits = id ∷ m.exits; host = h1 } in
      if ok
      then (m1, none)
      else fail not_saved (record m1 { host = p.release v (p.force_stop w h1).0 })
  launch_at id v m (h, not_launched e) = fail not_started (
      save_quietly p (record m {
        machines = change id (record v { status = error; last_error = e }) m.machines;
        exits = keep (λ x. not (same x id)) m.exits;
        host = p.release v h;
      }))

  unfoldable pub start_checked :
      Text → VirtualMachine → Option MachineError → Manager Host → Result Host
  unfolding launch_at
  start_checked id v (some e) m = fail e m
  start_checked id v none m =
      let (h, ok) = p.prepare v m.host in
      check ok bridge_unavailable (record m { host = h })
        (launch_at id v (record m { host = h }) (p.launch v h))

  unfoldable pub start : Text → Manager Host → Result Host
  unfolding reconciled on_machine require_idle start_checked
  start id m = reconciled p m (λ m. on_machine id m (λ v. require_idle id m (
      check (not (is_active v.status)) already_running m
        (start_checked id v (start_error v m.host) m))))

  -- forceStopLocked until it leaves the lock to wait for the exit.
  unfoldable pub begin_force_stop : Text → VirtualMachine → Manager Host → Result Host
  begin_force_stop id v m =
      let (h, ok) = p.force_stop v m.host in
      check ok not_stopped (record (clear_timer id m) { host = h })
        (let vs = change id (stopping_machine v) m.machines in
          let (h1, saved) = p.save vs h in
          check saved not_saved (record (clear_timer id m) { machines = vs; host = h1 })
            (record (clear_timer id m) { machines = vs; host = h1 }, none))

  -- forceStopLocked from where it takes the lock again.
  unfoldable pub finish_force_stop : Text → Manager Host → Result Host
  unfolding on_machine signal_exit
  finish_force_stop id m = on_machine id m (λ v.
      if is_stopped_status v.status
      then (m, none)
      else (let vs = change id (at_rest v) m.machines in
          let (h, saved) = p.save vs (p.release v m.host) in
          let m1 : Manager Host = record (signal_exit id m) { machines = vs; host = h } in
          check saved not_saved m1 (m1, none)))

  -- The timer that a Stop with a timeout sets.
  arm : Text → VirtualMachine → ℕ → Manager Host → Manager Host
  arm id v timeout m =
      if ltb 0 timeout
      then record m { stop_timers = insert id v.pid m.stop_timers }
      else clear_timer id m

  unfoldable pub graceful_at : Text → VirtualMachine → ℕ → Manager Host → Result Host
  unfolding arm
  graceful_at id v timeout m =
      let (h, ok) = p.graceful_stop v m.host in
      check ok not_stopped (record m { host = h })
        (let vs = change id (stopping_machine v) m.machines in
          let (h1, saved) = p.save vs h in
          let m1 : Manager Host = record m { machines = vs; host = h1 } in
          check saved not_saved m1 (arm id v timeout m1, none))

  -- Stop; a forced one goes on with `finish_force_stop`.
  unfoldable pub stop : Text → Bool → ℕ → Manager Host → Result Host
  unfolding reconciled on_machine begin_force_stop graceful_at
  stop id force timeout m = reconciled p m (λ m. on_machine id m (λ v.
      check (is_active v.status) not_running m
        (if force then begin_force_stop id v m else graceful_at id v timeout m)))

  -- escalateStop, the function of a timer, which only logs a failure; where it forces the machine off, it goes on with
  -- `finish_force_stop`.
  unfoldable pub escalate_stop : Text → ℕ → Manager Host → Result Host
  unfolding on_machine begin_force_stop
  escalate_stop id pid m = on_machine id (clear_timer id m) (λ v.
      if is_stopping_status v.status && v.pid == pid
      then begin_force_stop id v (clear_timer id m)
      else (clear_timer id m, none))

  -- processExited, which QEMU's driver calls.
  unfoldable pub process_exited : Text → ℕ → Option Text → Manager Host → Result Host
  unfolding on_machine signal_exit save_quietly
  process_exited id pid e m = on_machine id m (λ v.
      if v.pid == 0 || (not (pid == 0) && not (v.pid == pid))
      then (m, none)
      else (let m1 : Manager Host = record (signal_exit id m) {
        machines = change id (exited_machine e v) m.machines;
      } in
          let m2 = save_quietly p m1 in (record m2 { host = p.release v m2.host }, none)))

  -- Reboot, and Reset, which is Reboot without the definition.
  unfoldable pub reboot : Text → Manager Host → Result Host
  unfolding reconciled on_machine
  reboot id m = reconciled p m (λ m. on_machine id m (λ v.
      check (is_running_status v.status) not_running m (
        let (h, ok) = p.reset v m.host in
        check ok not_reset (record m { host = h }) (record m { host = h }, none))))

  -- Get, and the check of ConsoleSocket on what it returns.
  unfoldable pub get : Text → Manager Host → Result Host
  unfolding reconciled on_machine
  get id m = reconciled p m (λ m. on_machine id m (λ v. (m, none)))

  unfoldable pub console_socket : Text → Manager Host → Result Host
  unfolding reconciled on_machine
  console_socket id m =
      reconciled p m
        (λ m. on_machine id m (λ v. check (is_active v.status) not_running m (m, none)))
