-- ===== src/Machines/Steps.antt =====
-- Everything that can happen to the manager, in any order: the operations, their parts under the
-- lock, the functions of the timers and of QEMU's driver, and work without the lock.
use app_runner.Prelude.{
  ℕ, ◌≡◌, Bool, false, Option, none, some, List, Text, lookup, true, inl, inr, Bool-cases, arith,
}
use app_runner.Vm.{VirtualMachine, Disk, CloudInit, IpmiConfig, is_active}
use app_runner.Machines.{Platform, Manager, cloning, adding_disk, find}
use app_runner.Machines.Checks.{DiskSpec, NicSpec}
use app_runner.Machines.Power.{
  start, finish_force_stop, stop, escalate_stop, process_exited, reboot, get, console_socket,
}
use app_runner.Machines.Devices.{add_nic, update_nic, remove_nic}
use app_runner.Machines.Media.{
  begin_add_disk, finish_add_disk, remove_disk, add_cdrom, update_cdrom, remove_cdrom,
  configure_ipmi, set_ipmi_boot_flags,
}
use app_runner.Machines.Creation.{CreateOptions, NewIds, begin_create}
use app_runner.Machines.Produce.{finish_create}
use app_runner.Machines.Clone.{begin_clone, finish_clone}
use app_runner.Machines.Definition.{Changes, update, configure_cloud_init, delete_machine}
use app_runner.Machines.Moves.{View, view, Moves, here}
use app_runner.Machines.Moves.Power.{
  start-Goes, finish_force_stop-Goes, stop-Goes, escalate_stop-Goes, process_exited-Goes,
  reboot-Goes, get-Goes, console_socket-Goes,
}
use app_runner.Machines.Moves.Devices.{add_nic-Goes, update_nic-Goes, remove_nic-Goes}
use app_runner.Machines.Moves.Media.{
  begin_add_disk-Goes, finish_add_disk-Goes, remove_disk-Goes, add_cdrom-Goes, update_cdrom-Goes,
  remove_cdrom-Goes, configure_ipmi-Goes, set_ipmi_boot_flags-Goes,
}
use app_runner.Machines.Moves.Creation.{
  IsFresh, begin_create-Goes, finish_create-Goes, begin_clone-Goes, finish_clone-Goes,
}
use app_runner.Machines.Moves.Definition.{
  update-Goes, configure_cloud_init-Goes, delete_machine-Goes,
}

-- No busy machine is active.
abbrev pub IsQuiet : View → Type 0
IsQuiet a =
    (id : Text) (v : VirtualMachine)
    → find id a.machines ≡ some v
    → is_active v.status ≡ true
    → lookup id a.busy ≡ none

module _ {Host : Type 0} (p : Platform Host) where
  -- A new identity is fresh, and what was begun ends where it has begun.
  pub data Step (m : Manager Host) : Manager Host → Type 0 where
    starts : (id : Text) → Step m (start p id m).0
    stops : (id : Text) (force : Bool) (timeout : ℕ) → Step m (stop p id force timeout m).0
    force_stops : (id : Text) → Step m (finish_force_stop p id m).0
    escalates : (id : Text) (pid : ℕ) → Step m (escalate_stop p id pid m).0
    exits : (id : Text) (pid : ℕ) (e : Option Text) → Step m (process_exited p id pid e m).0
    reboots : (id : Text) → Step m (reboot p id m).0
    gets : (id : Text) → Step m (get p id m).0
    connects : (id : Text) → Step m (console_socket p id m).0
    adds_nic :
        (id : Text) (spec : NicSpec) (new_id : Option Text) → Step m (add_nic p id spec new_id m).0
    updates_nic : (id nic : Text) (spec : NicSpec) → Step m (update_nic p id nic spec m).0
    removes_nic : (id nic : Text) → Step m (remove_nic p id nic m).0
    begins_disk :
        (id : Text) (spec : DiskSpec) (new_id : Option Text)
        → Step m (begin_add_disk p id spec new_id m).0
    ends_disk :
        (created : Bool) (id : Text) (d : Disk)
        → lookup id m.busy ≡ some adding_disk
        → Step m (finish_add_disk p created id d m).0
    removes_disk : (id disk : Text) → Step m (remove_disk p id disk m).0
    adds_cdrom : (id iso : Text) (new_id : Option Text) → Step m (add_cdrom p id iso new_id m).0
    updates_cdrom : (id drive iso : Text) → Step m (update_cdrom p id drive iso m).0
    removes_cdrom : (id drive : Text) → Step m (remove_cdrom p id drive m).0
    configures_ipmi : (id : Text) (c : IpmiConfig) → Step m (configure_ipmi p id c m).0
    sets_boot_flags :
        (id : Text) (boot : ℕ) (persistent : Bool)
        → Step m (set_ipmi_boot_flags p id boot persistent m).0
    begins_create :
        (ids : NewIds) (now : ℕ) (o : CreateOptions)
        → IsFresh p ids m
        → Step m (begin_create p ids now o m).0
    ends_create :
        (created : List Disk) (ok : Bool) (v : VirtualMachine)
        → lookup v.id m.creating ≡ some v
        → Step m (finish_create p created ok v m).0
    begins_clone :
        (ids : NewIds) (now : ℕ) (id name : Text)
        → IsFresh p ids m
        → Step m (begin_clone p ids now id name m).0
    ends_clone :
        (source : Text) (created : List Disk) (ok : Bool) (v : VirtualMachine)
        → lookup source m.busy ≡ some cloning
        → lookup v.id m.creating ≡ some v
        → Step m (finish_clone p source created ok v m).0
    updates : (id : Text) (u : Changes) → Step m (update p id u m).0
    configures_cloud_init : (id : Text) (c : CloudInit) → Step m (configure_cloud_init p id c m).0
    deletes : (id : Text) → Step m (delete_machine p id m).0
    works : (h : Host) → Step m (record m { host = h })

  pub data Reach (m : Manager Host) : Manager Host → Type 0 where
    begin : Reach m m
    next : {s t : Manager Host} → Reach m s → Step s t → Reach m t

  busy-inactive :
      (m : Manager Host) (id : Text)
      → IsQuiet (view m)
      → lookup id m.busy ≡ some adding_disk
      → (v : VirtualMachine) → find id m.machines ≡ some v
      → is_active v.status ≡ false
  busy-inactive m id q b v f = elim (Bool-cases (is_active v.status)) [
    | inl a ↦ ground (arith, q id v f a)
    | inr i ↦ i
  ]

  -- Every step is a sequence of moves.
  pub Step-Moves : {m n : Manager Host} → Step m n → IsQuiet (view m) → Moves (view m) (view n)
  Step-Moves {m} (starts id) q = start-Goes p id m
  Step-Moves {m} (stops id force timeout) q = stop-Goes p id force timeout m
  Step-Moves {m} (force_stops id) q = finish_force_stop-Goes p id m
  Step-Moves {m} (escalates id pid) q = escalate_stop-Goes p id pid m
  Step-Moves {m} (exits id pid e) q = process_exited-Goes p id pid e m
  Step-Moves {m} (reboots id) q = reboot-Goes p id m
  Step-Moves {m} (gets id) q = get-Goes p id m
  Step-Moves {m} (connects id) q = console_socket-Goes p id m
  Step-Moves {m} (adds_nic id spec new_id) q = add_nic-Goes p id spec new_id m
  Step-Moves {m} (updates_nic id nic spec) q = update_nic-Goes p id nic spec m
  Step-Moves {m} (removes_nic id nic) q = remove_nic-Goes p id nic m
  Step-Moves {m} (begins_disk id spec new_id) q = begin_add_disk-Goes p id spec new_id m
  Step-Moves {m} (ends_disk created id d b) q =
      finish_add_disk-Goes p created id d m (busy-inactive m id q b)
  Step-Moves {m} (removes_disk id disk) q = remove_disk-Goes p id disk m
  Step-Moves {m} (adds_cdrom id iso new_id) q = add_cdrom-Goes p id iso new_id m
  Step-Moves {m} (updates_cdrom id drive iso) q = update_cdrom-Goes p id drive iso m
  Step-Moves {m} (removes_cdrom id drive) q = remove_cdrom-Goes p id drive m
  Step-Moves {m} (configures_ipmi id c) q = configure_ipmi-Goes p id c m
  Step-Moves {m} (sets_boot_flags id boot persistent) q =
      set_ipmi_boot_flags-Goes p id boot persistent m
  Step-Moves {m} (begins_create ids now o f) q = begin_create-Goes p ids now o m f
  Step-Moves {m} (ends_create created ok v l) q = finish_create-Goes p created ok v m l
  Step-Moves {m} (begins_clone ids now id name f) q = begin_clone-Goes p ids now id name m f
  Step-Moves {m} (ends_clone source created ok v b l) q =
      finish_clone-Goes p source created ok v m l
  Step-Moves {m} (updates id u) q = update-Goes p id u m
  Step-Moves {m} (configures_cloud_init id c) q = configure_cloud_init-Goes p id c m
  Step-Moves {m} (deletes id) q = delete_machine-Goes p id m
  Step-Moves {m} (works h) q = here
