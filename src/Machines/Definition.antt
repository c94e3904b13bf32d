-- ===== src/Machines/Definition.antt =====
-- The definition of a machine, its end, and the start of the manager (internal/vm/vm.go: Update,
-- ConfigureCloudInit, Delete, NewManager, validateStoredDefinitions).
use app_runner.Prelude.{
  ℕ, Bool, true, false, ◌&&◌, ◌||◌, not, Option, none, some, List, [], ◌∷◌, if◌then◌else◌, Text,
  same, exists, trim_space,
}
use app_runner.Vm.{VirtualMachine, Disk, Nic, CloudInit, no_cloud_init, is_active, is_blank}
use app_runner.Machines.{
  Platform, Manager, name_exists, delete_running, device_running, not_saved, not_removed,
  not_staged, Result, change, remove, fail, check, require_valid, require_idle, on_machine,
  name_in_use, reconciled, reconcile, commit,
}
use app_runner.Machines.Checks.{validate_identity_and_resources, validate_cloud_init}
use app_runner.Machines.Files.{stage_cloud_init_iso, commit_iso, rollback_iso}

-- `Update`: the fields that change.
pub record Changes : Type 0 where
  pub name : Option Text
  pub description : Option Text
  pub cpus : Option ℕ
  pub memory_mib : Option ℕ

abbrev text_or : Option Text → Text → Text
text_or none t = t
text_or (some u) t = trim_space u

abbrev number_or : Option ℕ → ℕ → ℕ
number_or none n = n
number_or (some k) n = k

unfoldable pub candidate : Changes → VirtualMachine → VirtualMachine
candidate u v = record v {
  name = text_or u.name v.name;
  description = text_or u.description v.description;
  cpus = number_or u.cpus v.cpus;
  memory_mib = number_or u.memory_mib v.memory_mib;
}

abbrev pub with_cloud_init : CloudInit → VirtualMachine → VirtualMachine
with_cloud_init c v = record v { cloud_init = c }

abbrev pub same_flag : Bool → Bool → Bool
same_flag true b = b
same_flag false b = not b

abbrev pub same_cloud_init : CloudInit → CloudInit → Bool
same_cloud_init c d = same_flag c.enabled d.enabled && same c.user_data d.user_data

module _ {Host : Type 0} (p : Platform Host) where
  -- The machine is changed and saved, with its cloud-init ISO staged.
  unfoldable pub commit_staged :
      Text → VirtualMachine → Manager Host → Host × Option Bool → Result Host
  unfolding commit_iso rollback_iso
  commit_staged id w m (h, none) = fail not_staged (record m { host = h })
  commit_staged id w m (h, some had) =
      let vs = change id w m.machines in
      let (h1, ok) = p.save vs h in
      if ok
      then (record m { machines = vs; host = commit_iso p id h1 }, none)
      else fail not_saved (record m { host = rollback_iso p id had h1 })

  unfoldable pub update_at : Text → VirtualMachine → VirtualMachine → Manager Host → Result Host
  unfolding name_in_use commit_staged commit
  update_at id v w m =
      require_valid (validate_identity_and_resources w.name w.description w.cpus w.memory_mib) m (
        if not (same w.name v.name) && name_in_use w.name id m
        then fail name_exists m
        else if not (same v.name w.name) && w.cloud_init.enabled
        then commit_staged id w m (stage_cloud_init_iso p w m.host)
        else commit p id w m)

  unfoldable pub update : Text → Changes → Manager Host → Result Host
  unfolding reconciled on_machine require_idle update_at candidate
  update id u m =
      reconciled p m
        (λ m. on_machine id m (λ v. require_idle id m (update_at id v (candidate u v) m)))

  unfoldable pub set_cloud_init : Text → CloudInit → VirtualMachine → Manager Host → Result Host
  unfolding commit_staged
  set_cloud_init id c v m =
      if same_cloud_init v.cloud_init c
      then (m, none)
      else check (not (is_active v.status)) device_running m (
          commit_staged id (with_cloud_init c v) m
            (stage_cloud_init_iso p (with_cloud_init c v) m.host))

  unfoldable pub configure_cloud_init : Text → CloudInit → Manager Host → Result Host
  unfolding reconciled on_machine require_idle set_cloud_init
  configure_cloud_init id c m = require_valid (validate_cloud_init c) m (
      reconciled p m (λ m.
        on_machine id m (λ v.
          require_idle id m (set_cloud_init id (if c.enabled then c else no_cloud_init) v m))))

  remove_disk_files : Text → List Disk → Host → Host × Bool
  remove_disk_files id [] h = (h, true)
  remove_disk_files id (d ∷ ds) h =
      let (h1, ok) = p.remove_file (p.disk_path id d.id) h in
      let rest = remove_disk_files id ds h1 in if ok then rest else (h1, false)

  -- The files of a machine: its disks, its sockets, the directory of its state.
  pub remove_files : VirtualMachine → Host → Host × Bool
  unfolding remove_disk_files
  remove_files v h =
      let (h1, disks_gone) = remove_disk_files v.id v.disks h in
      let (h2, qmp_gone) = p.remove_file (p.qmp_socket v.id) h1 in
      let (h3, vnc_gone) = p.remove_file (p.vnc_socket v.id) h2 in
      if not disks_gone
      then (h1, false)
      else if not qmp_gone
      then (h2, false)
      else if not vnc_gone
      then (h3, false)
      else p.remove_all (p.state_dir v.id) h3

  unfoldable pub delete_at : Text → VirtualMachine → Manager Host → Result Host
  unfolding remove_files
  delete_at id v m =
      let (h, gone) = remove_files v (p.disable_ipmi v m.host) in
      let vs = remove id m.machines in
      let (h1, ok) = p.save vs h in
      let m1 : Manager Host = record m { machines = vs; host = h1 } in
      check gone not_removed (record m { host = h }) (check ok not_saved m1 (m1, none))

  unfoldable pub delete_machine : Text → Manager Host → Result Host
  unfolding reconciled on_machine require_idle delete_at
  delete_machine id m = reconciled p m (λ m. on_machine id m (λ v.
      require_idle id m (check (not (is_active v.status)) delete_running m (delete_at id v m))))

  -- validateStoredDefinitions, on machines that have a firmware: the source puts in BIOS for one that
  -- the file leaves out.
  pub stored_ok : List VirtualMachine → Bool
  stored_ok [] = true
  stored_ok (v ∷ vs) =
      not (is_blank v.id)
      && not (exists (λ (d : Disk). is_blank d.id) v.disks)
      && not (exists (λ (n : Nic). is_blank n.id || is_blank n.mac_address) v.nics)
      && stored_ok vs

  -- NewManager, from the machines that the store has loaded.
  pub new_manager : List VirtualMachine → Host → Option (Manager Host)
  unfolding stored_ok reconcile
  new_manager vs h =
      let (m, ok) = reconcile p (record {
        machines = vs;
        creating = [];
        busy = [];
        exits = [];
        stop_timers = [];
        host = h;
      }) in
      if stored_ok vs && ok then some m else none
