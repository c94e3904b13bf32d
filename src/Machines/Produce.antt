-- ===== src/Machines/Produce.antt =====
-- The end of Create: the files of a new machine, and its listing (internal/vm/vm.go: Create).
use app_runner.Prelude.{
  Bool, true, false, not, List, [], ◌∷◌, ◌++◌, if◌then◌else◌, Text, delete, none,
}
use app_runner.Vm.{VirtualMachine, Disk}
use app_runner.Machines.{Platform, Manager, not_saved, not_created, Result, fail}
use app_runner.Machines.Files.{create_disk_file}
use app_runner.Machines.Power.{is_uefi}

module _ {Host : Type 0} (p : Platform Host) where
  -- What the work without the lock leaves: the host, the disks it created, whether it succeeded.
  abbrev pub Work : Type 0
  Work = Host × List Disk × Bool

  create_disks : Text → List Disk → Host → Work
  create_disks id [] h = (h, [], true)
  create_disks id (d ∷ ds) h =
      let (h1, ok) = create_disk_file p id d h in
      let (h2, created, all_ok) = create_disks id ds h1 in
      if ok then (h2, d ∷ created, all_ok) else (h1, [], false)

  -- Create's files other than the disks; `copy_vars` is how the UEFI variables come about.
  finish_files : VirtualMachine → Host → Host × Bool
  finish_files v h =
      let (h1, has_dir) = p.make_dir (p.state_dir v.id) h in
      let (h2, copied) =
        if is_uefi v.firmware
        then p.copy_file p.uefi_vars_path (p.uefi_vars v.id) h1
        else (h1, true) in
      if not has_dir
      then (h1, false)
      else if not copied
      then (h2, false)
      else if v.cloud_init.enabled
      then p.build_iso (p.cloud_init_iso v.id) v h2
      else (h2, true)

  pub produce : VirtualMachine → Host → Work
  unfolding create_disks finish_files
  produce v h =
      let (h1, created, ok) = create_disks v.id v.disks h in
      let (h2, rest_ok) = finish_files v h1 in
      if ok then (h2, created, rest_ok) else (h1, created, false)

  remove_disks : Text → List Disk → Host → Host
  remove_disks id [] h = h
  remove_disks id (d ∷ ds) h = remove_disks id ds (p.remove_file (p.disk_path id d.id) h).0

  pub cleanup : Text → List Disk → Host → Host
  unfolding remove_disks
  cleanup id created h = (p.remove_all (p.state_dir id) (remove_disks id created h)).0

  -- Create from where it takes the lock again.
  unfoldable pub finish_create : List Disk → Bool → VirtualMachine → Manager Host → Result Host
  unfolding cleanup
  finish_create created ok v m =
      let m1 : Manager Host = record m { creating = delete v.id m.creating } in
      let vs = m.machines ++ v ∷ [] in
      let (h, saved) = p.save vs m.host in
      if not ok
      then fail not_created (record m1 { host = cleanup v.id created m.host })
      else if saved
      then (record m1 { machines = vs; host = h }, none)
      else fail not_saved (record m1 { host = cleanup v.id created h })
