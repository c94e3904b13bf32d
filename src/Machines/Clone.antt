-- ===== src/Machines/Clone.antt =====
-- Cloning a machine (internal/vm/vm.go: Clone, reserveCloneLocked).
use app_runner.Prelude.{
  ℕ, Bool, true, false, not, List, [], ◌∷◌, map, if◌then◌else◌, Text, insert, delete, trim_space,
  is_some,
}
use app_runner.Vm.{VirtualMachine, Disk, stopped, no_ipmi}
use app_runner.Machines.{
  Platform, Manager, cloning, name_exists, clone_running, id_exists, Result, find, fail, check,
  require_valid, require_idle, on_machine, name_in_use, reconciled,
}
use app_runner.Machines.Checks.{validate_identity_and_resources}
use app_runner.Machines.Power.{is_uefi, is_stopped_status}
use app_runner.Machines.Devices.{on_id}
use app_runner.Machines.Creation.{
  NewIds, reserve_made, reserve, disk_spec, nic_request, iso_of, on_made,
}
use app_runner.Machines.Produce.{Work, finish_create}

module _ {Host : Type 0} (p : Platform Host) where
  -- The clone without its devices: its own identity, and no BMC.
  abbrev pub bare_clone : VirtualMachine → Text → Text → ℕ → VirtualMachine
  bare_clone source id name now = record source {
    id = id;
    name = name;
    status = stopped;
    created_at = now;
    last_error = [];
    pid = 0;
    disks = [];
    cdroms = [];
    nics = [];
    ipmi = no_ipmi;
  }

  -- The source stays readable, but is busy.
  unfoldable pub reserve_busy : Text → Manager Host → VirtualMachine → Result Host
  unfolding reserve
  reserve_busy id m v = reserve p (record m { busy = insert id cloning m.busy }) v

  unfoldable pub reserve_clone : NewIds → ℕ → VirtualMachine → Text → Manager Host → Result Host
  unfolding name_in_use on_id reserve_made on_made reserve_busy
  reserve_clone ids now source name m =
      if name_in_use name [] m
      then fail name_exists m
      else on_id p ids.machine m (λ id.
        if is_some (find id m.machines)
        then fail id_exists m
        else on_made p
            (reserve_made p ids (map disk_spec source.disks) (map iso_of source.cdroms)
              (map nic_request source.nics) (bare_clone source id name now) m)
            m (reserve_busy source.id m))

  -- Clone until it leaves the lock.
  unfoldable pub begin_clone : NewIds → ℕ → Text → Text → Manager Host → Result Host
  unfolding reconciled on_machine require_idle reserve_clone
  begin_clone ids now id name m = reconciled p m (λ m. on_machine id m (λ source.
      check (is_stopped_status source.status) clone_running m (
        require_idle id m (
          require_valid
            (validate_identity_and_resources (trim_space name) source.description source.cpus
              source.memory_mib)
            m (reserve_clone ids now source (trim_space name) m)))))

  copy_disks : VirtualMachine → VirtualMachine → List Disk → List Disk → Host → Work p
  copy_disks s v [] es h = (h, [], true)
  copy_disks s v (d ∷ ds) [] h = (h, [], true)
  copy_disks s v (d ∷ ds) (e ∷ es) h =
      let (h1, ok) = p.copy_file (p.disk_path s.id d.id) (p.disk_path v.id e.id) h in
      let (h2, created, all_ok) = copy_disks s v ds es h1 in
      if ok then (h2, e ∷ created, all_ok) else (h1, [], false)

  copy_rest : VirtualMachine → VirtualMachine → Host → Host × Bool
  copy_rest s v h =
      let (h1, built) =
        if v.cloud_init.enabled then p.build_iso (p.cloud_init_iso v.id) v h else (h, true) in
      if not built
      then (h1, false)
      else if is_uefi v.firmware
      then p.copy_file (p.uefi_vars s.id) (p.uefi_vars v.id) h1
      else (h1, true)

  -- What Clone does without the lock, from the source as it was.
  pub copy_files : VirtualMachine → VirtualMachine → Host → Work p
  unfolding copy_disks copy_rest
  copy_files s v h =
      let (h1, has_dir) = p.make_dir (p.state_dir v.id) h in
      let (h2, created, copied) = copy_disks s v s.disks v.disks h1 in
      let (h3, ok) = copy_rest s v h2 in
      if not has_dir
      then (h1, [], false)
      else if copied
      then (h3, created, ok)
      else (h2, created, false)

  -- Clone from where it takes the lock again.
  unfoldable pub finish_clone :
      Text → List Disk → Bool → VirtualMachine → Manager Host → Result Host
  unfolding finish_create
  finish_clone source created ok v m =
      finish_create p created ok v (record m { busy = delete source m.busy })
