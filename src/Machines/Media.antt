-- ===== src/Machines/Media.antt =====
-- Disks, CD-ROM drives and the virtual BMC (internal/vm/vm.go: AddDisk, RemoveDisk, AddCDROM,
-- UpdateCDROM, RemoveCDROM, ConfigureIPMI, SetIPMIBootFlags).
use app_runner.Prelude.{
  ℕ, Bool, true, false, ◌&&◌, not, Option, none, some, [], ◌∷◌, ◌++◌, if◌then◌else◌, Text, codes,
  same, insert, delete, trim_space,
}
use app_runner.Vm.{VirtualMachine, Disk, Cdrom, IpmiConfig, no_ipmi, is_active, is_blank}
use app_runner.Machines.{
  Platform, FileStatus, absent, present, unreadable, Manager, adding_disk, no_such_disk,
  no_such_cdrom, not_found, device_running, not_saved, not_created, not_removed, not_staged,
  media_not_changed, ipmi_failed, Result, find, change, fail, check, require_valid, require_idle,
  on_machine, commit,
}
use app_runner.Machines.Checks.{
  DiskSpec, normalize_storage_name, validate_disk_spec, validate_optional_iso, validate_ipmi_config,
}
use app_runner.Machines.Devices.{
  device, replace_device, drop_device, disk_id, cdrom_id, with_disks, with_cdroms, with_ipmi,
  on_device, on_id,
}

-- A failed rename of a file that does not exist is no error.
abbrev pub is_absent : FileStatus → Bool
is_absent absent = true
is_absent present = false
is_absent unreadable = false

module _ {Host : Type 0} (p : Platform Host) where
  abbrev pub new_disk : Text → DiskSpec → Disk
  new_disk id spec = record {
    id = id;
    size_gib = spec.size_gib;
    source_image = normalize_storage_name p spec.source_image;
  }

  -- AddDisk until it leaves the lock; it goes on with `create_disk_file` and `finish_add_disk`.
  unfoldable pub begin_add_disk : Text → DiskSpec → Option Text → Manager Host → Result Host
  unfolding on_machine require_idle on_id
  begin_add_disk id spec new_id m =
      require_valid
        (validate_disk_spec p
          (record spec { source_image = normalize_storage_name p spec.source_image }) m.host)
        m
        (on_machine id m (λ v. check (not (is_active v.status)) device_running m (
          require_idle id m
            (on_id p new_id m (λ disk. (record m { busy = insert id adding_disk m.busy }, none))))))

  unfoldable pub remove_disk_file : Text → Disk → Manager Host → Manager Host
  remove_disk_file id d m = record m { host = (p.remove_file (p.disk_path id d.id) m.host).0 }

  unfoldable pub add_disk_at : Text → Disk → Option VirtualMachine → Manager Host → Result Host
  unfolding remove_disk_file
  add_disk_at id d none m = fail not_found (remove_disk_file id d m)
  add_disk_at id d (some v) m =
      let vs = change id (with_disks (v.disks ++ d ∷ []) v) m.machines in
      let (h, ok) = p.save vs m.host in
      if ok
      then (record m { machines = vs; host = h }, none)
      else fail not_saved (remove_disk_file id d (record m { host = h }))

  -- AddDisk from where it takes the lock again; the Boolean is whether the file was created.
  unfoldable pub finish_add_disk : Bool → Text → Disk → Manager Host → Result Host
  unfolding add_disk_at
  finish_add_disk created id d m =
      let m1 : Manager Host = record m { busy = delete id m.busy } in
      check created not_created m1 (add_disk_at id d (find id m.machines) m1)

  abbrev pub removing_path : Text → Disk → Text
  removing_path id d = p.disk_path id d.id ++ codes ".removing"

  unfoldable pub remove_disk_at : Text → VirtualMachine → Disk → Manager Host → Result Host
  remove_disk_at id v d m =
      let path = p.disk_path id d.id in
      let (h, moved) = p.rename path (removing_path id d) m.host in
      if not moved && not (is_absent (p.stat path m.host))
      then fail not_staged (record m { host = h })
      else (let vs = change id (with_disks (drop_device disk_id d.id v.disks) v) m.machines in
          let (h1, ok) = p.save vs h in
          if ok
          then (let (h2, gone) = p.remove_file (removing_path id d) h1 in
              let m1 : Manager Host = record m { machines = vs; host = h2 } in
              check gone not_removed m1 (m1, none))
          else fail not_saved (record m { host = (p.rename (removing_path id d) path h1).0 }))

  -- What the operations on disks and drives begin with.
  unfoldable pub on_idle : Text → Manager Host → (VirtualMachine → Result Host) → Result Host
  unfolding on_machine require_idle
  on_idle id m f = on_machine id m (λ v. require_idle id m (f v))

  unfoldable pub remove_disk : Text → Text → Manager Host → Result Host
  unfolding on_idle on_device remove_disk_at
  remove_disk id disk m = on_idle id m (λ v.
      check (not (is_active v.status)) device_running m
        (on_device p (device disk_id disk v.disks) no_such_disk m (λ d. remove_disk_at id v d m)))

  unfoldable pub add_cdrom : Text → Text → Option Text → Manager Host → Result Host
  unfolding on_idle on_id commit
  add_cdrom id iso new_id m =
      let name = normalize_storage_name p iso in
      require_valid (validate_optional_iso p name m.host) m (
        on_idle id m (λ v. check (not (is_active v.status)) device_running m (
          on_id p new_id m (λ drive.
            commit p id (with_cdroms (v.cdroms ++ record { id = drive; iso_name = name } ∷ []) v)
              m))))

  -- The path of a medium; an empty drive has none.
  pub medium : Text → Text
  medium name = if is_blank name then [] else p.iso_path name

  -- A running machine gets the medium at once, and the old one back where it cannot be saved.
  unfoldable pub change_medium : Text → VirtualMachine → Cdrom → Text → Manager Host → Result Host
  unfolding commit medium
  change_medium id v c name m =
      let w =
        with_cdroms (replace_device cdrom_id c.id (record c { iso_name = name }) v.cdroms) v in
      if is_active v.status
      then (let (h, ok) = p.change_media v c.id (medium name) m.host in
          let vs = change id w m.machines in
          let (h1, saved) = p.save vs h in
          check ok media_not_changed (record m { host = h })
            (if saved
              then (record m { machines = vs; host = h1 }, none)
              else fail not_saved
                  (record m { host = (p.change_media v c.id (medium c.iso_name) h1).0 })))
      else commit p id w m

  unfoldable pub update_cdrom : Text → Text → Text → Manager Host → Result Host
  unfolding on_idle on_device change_medium
  update_cdrom id drive iso m =
      let name = normalize_storage_name p iso in
      require_valid (validate_optional_iso p name m.host) m (
        on_idle id m (λ v.
          on_device p (device cdrom_id drive v.cdroms) no_such_cdrom m
            (λ c. if same c.iso_name name then (m, none) else change_medium id v c name m)))

  unfoldable pub remove_cdrom : Text → Text → Manager Host → Result Host
  unfolding on_idle on_device commit
  remove_cdrom id drive m = on_idle id m (λ v. check (not (is_active v.status)) device_running m (
      on_device p (device cdrom_id drive v.cdroms) no_such_cdrom m
        (λ c. commit p id (with_cdroms (drop_device cdrom_id drive v.cdroms) v) m)))

  -- The definition is saved; where that fails, the earlier endpoint is brought back.
  unfoldable pub save_ipmi : Text → VirtualMachine → IpmiConfig → Manager Host → Result Host
  save_ipmi id v c m =
      let vs = change id (with_ipmi c v) m.machines in
      let (h, ok) = p.save vs m.host in
      if ok
      then (record m { machines = vs; host = h }, none)
      else fail not_saved (record m {
        host = if v.ipmi.enabled then (p.configure_ipmi v h).0 else p.disable_ipmi v h;
      })

  unfoldable pub enable_ipmi : Text → VirtualMachine → IpmiConfig → Manager Host → Result Host
  unfolding save_ipmi
  enable_ipmi id v c m = require_valid (validate_ipmi_config p c) m (
      let (h, ok) = p.configure_ipmi (with_ipmi c v) m.host in
      check ok ipmi_failed (record m { host = h }) (save_ipmi id v c (record m { host = h })))

  -- The configuration without the blanks around its fields; a blank password stays the current one.
  pub trimmed : IpmiConfig → VirtualMachine → IpmiConfig
  trimmed c v = record c {
    bridge_name = trim_space c.bridge_name;
    address = trim_space c.address;
    username = trim_space c.username;
    password = if is_blank c.password then v.ipmi.password else c.password;
  }

  unfoldable pub configure_ipmi : Text → IpmiConfig → Manager Host → Result Host
  unfolding on_idle enable_ipmi save_ipmi trimmed
  configure_ipmi id c m = on_idle id m (λ v.
      if c.enabled
      then enable_ipmi id v (trimmed c v) m
      else save_ipmi id v no_ipmi (record m { host = p.disable_ipmi v m.host }))

  abbrev pub boot_flags : ℕ → Bool → VirtualMachine → VirtualMachine
  boot_flags boot persistent v =
      with_ipmi (record v.ipmi { boot_device = boot; boot_persistent = persistent }) v

  unfoldable pub set_ipmi_boot_flags : Text → ℕ → Bool → Manager Host → Result Host
  unfolding on_machine
  set_ipmi_boot_flags id boot persistent m = on_machine id m (λ v.
      let vs = change id (boot_flags boot persistent v) m.machines in
      let (h, ok) = p.save vs m.host in
      let m1 : Manager Host = record m { machines = vs; host = h } in
      check ok not_saved m1 (m1, none))
