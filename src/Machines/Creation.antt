-- ===== src/Machines/Creation.antt =====
-- Creating and cloning machines (internal/vm/vm.go: Create, reserveVMLocked, Clone,
-- reserveCloneLocked). New identities are arguments; a list that is too short stands for a
-- generator that fails.
use app_runner.Prelude.{
  ℕ, ◌||◌, not, Option, none, some, List, [], ◌∷◌, ◌++◌, map, if◌then◌else◌, Text, exists, insert,
  trim_space,
}
use app_runner.Vm.{
  VirtualMachine, Disk, Cdrom, Nic, Firmware, bios, uefi, CloudInit, stopped, no_cloud_init,
  no_ipmi, is_blank,
}
use app_runner.Machines.{
  Platform, Manager, FieldError, bad_firmware, no_uefi, mac_in_use, MachineError, invalid,
  name_exists, no_id, Result, fail, require_valid, name_in_use,
}
use app_runner.Machines.Checks.{
  DiskSpec, NicSpec, NicRequest, Normalized, normalized, rejected, normalize_nic_spec,
  normalize_storage_name, validate_disk_spec, validate_optional_iso, validate_cloud_init,
  validate_identity_and_resources,
}
use app_runner.Machines.Devices.{with_nics, requested_nic, is_taken, on_id}

-- A firmware of a request: the default, one of the two, or another text.
pub data FirmwareChoice : Type 0 where
  default other : FirmwareChoice
  chosen : Firmware → FirmwareChoice

pub record CreateOptions : Type 0 where
  pub name : Text
  pub description : Text
  pub cpus : ℕ
  pub memory_mib : ℕ
  pub firmware : FirmwareChoice
  pub disks : List DiskSpec
  pub isos : List Text
  pub nics : List NicSpec
  pub cloud_init : CloudInit

pub record NewIds : Type 0 where
  pub machine : Option Text
  pub disks : List Text
  pub cdroms : List Text
  pub nics : List Text

-- A new definition, or why there is none.
pub data Made : Type 0 where
  made : VirtualMachine → Made
  unmade : MachineError → Made

pub first_error : List (Option FieldError) → Option FieldError
first_error [] = none
first_error (some e ∷ es) = some e
first_error (none ∷ es) = first_error es

pub new_disks : List Text → List DiskSpec → Option (List Disk)
new_disks ids [] = some []
new_disks [] (s ∷ ss) = none
new_disks (i ∷ ids) (s ∷ ss) = elim (new_disks ids ss) [
  | none ↦ none
  | some ds ↦ some (record { id = i; size_gib = s.size_gib; source_image = s.source_image } ∷ ds)
]

pub new_cdroms : List Text → List Text → Option (List Cdrom)
new_cdroms ids [] = some []
new_cdroms [] (n ∷ ns) = none
new_cdroms (i ∷ ids) (n ∷ ns) = elim (new_cdroms ids ns) [
  | none ↦ none
  | some cs ↦ some (record { id = i; iso_name = n } ∷ cs)
]

-- The stored requests: what a source asks of its clone.
abbrev pub disk_spec : Disk → DiskSpec
disk_spec d = record { size_gib = d.size_gib; source_image = d.source_image }

abbrev pub nic_request : Nic → NicRequest
nic_request n = record { mode = n.mode; bridge_name = n.bridge_name; mac_address = [] }

abbrev pub iso_of : Cdrom → Text
iso_of c = c.iso_name

module _ {Host : Type 0} (p : Platform Host) where
  pub normal_options : CreateOptions → CreateOptions
  normal_options o = record o {
    name = trim_space o.name;
    description = trim_space o.description;
    disks =
        map (λ (s : DiskSpec). record s { source_image = normalize_storage_name p s.source_image })
          o.disks;
    isos = map (normalize_storage_name p) o.isos;
  }

  nic_error : Normalized → Option FieldError
  nic_error (normalized r) = none
  nic_error (rejected e) = some e

  nic_requests : List Normalized → List NicRequest
  nic_requests [] = []
  nic_requests (normalized r ∷ ns) = r ∷ nic_requests ns
  nic_requests (rejected e ∷ ns) = nic_requests ns

  -- UEFI is the default of a machine with a disk from a cloud image.
  pub firmware_of : FirmwareChoice → List DiskSpec → Option Firmware
  firmware_of (chosen f) ds = some f
  firmware_of other ds = none
  firmware_of default ds =
      some (if exists (λ (d : DiskSpec). not (is_blank d.source_image)) ds then uefi else bios)

  firmware_error : Option Firmware → Host → Option FieldError
  firmware_error none h = some bad_firmware
  firmware_error (some bios) h = none
  firmware_error (some uefi) h =
      if not (p.regular_file p.uefi_code_path h) || not (p.regular_file p.uefi_vars_path h)
      then some no_uefi
      else none

  -- The checks of Create on normal options, in its order.
  pub validate_options : CreateOptions → Host → Option FieldError
  unfolding firmware_error nic_error firmware_of
  validate_options o h = first_error (
      validate_identity_and_resources o.name o.description o.cpus o.memory_mib
        ∷ map (λ s. validate_disk_spec p s h) o.disks
      ++ map (λ n. validate_optional_iso p n h) o.isos
      ++ map (λ n. nic_error (normalize_nic_spec p n)) o.nics
      ++ validate_cloud_init o.cloud_init ∷ firmware_error (firmware_of o.firmware o.disks) h ∷ [])

  -- The interfaces of a new machine, one after the other, none with an address that is in use.
  unfoldable pub add_nics : List Text → List NicRequest → VirtualMachine → Manager Host → Made
  unfolding is_taken requested_nic
  add_nics ids [] v m = made v
  add_nics [] (r ∷ rs) v m = unmade no_id
  add_nics (i ∷ ids) (r ∷ rs) v m =
      let n = requested_nic p v.id i r in
      let rest = add_nics ids rs (with_nics (v.nics ++ n ∷ []) v) m in
      if is_taken p n.mac_address v m then unmade (invalid mac_in_use) else rest

  unfoldable pub on_made : Made → Manager Host → (VirtualMachine → Result Host) → Result Host
  on_made (unmade e) m f = fail e m
  on_made (made v) m f = f v

  unfoldable pub with_devices :
      Option (List Disk)
      → Option (List Cdrom)
      → List Text
      → List NicRequest
      → VirtualMachine
      → Manager Host
      → Made
  unfolding add_nics
  with_devices none cs ids rs v m = unmade no_id
  with_devices (some ds) none ids rs v m = unmade no_id
  with_devices (some ds) (some cs) ids rs v m =
      add_nics ids rs (record v { disks = ds; cdroms = cs }) m

  -- `m.creating[vm.ID] = vm`: the definition is reserved.
  unfoldable pub reserve : Manager Host → VirtualMachine → Result Host
  reserve m v = (record m { creating = insert v.id v m.creating }, none)

  -- What reserveVMLocked and reserveCloneLocked do with the definition `v` without its devices.
  unfoldable pub reserve_made :
      NewIds → List DiskSpec → List Text → List NicRequest → VirtualMachine → Manager Host → Made
  unfolding with_devices new_disks new_cdroms
  reserve_made ids ds isos rs v m =
      with_devices (new_disks ids.disks ds) (new_cdroms ids.cdroms isos) ids.nics rs v m

  unfoldable pub bare_machine : CreateOptions → Text → Option Firmware → ℕ → VirtualMachine
  bare_machine o id f now = record {
    id = id;
    name = o.name;
    description = o.description;
    cpus = o.cpus;
    memory_mib = o.memory_mib;
    firmware = elim f [ none ↦ bios | some x ↦ x ];
    status = stopped;
    created_at = now;
    last_error = [];
    pid = 0;
    disks = [];
    cdroms = [];
    nics = [];
    cloud_init = if o.cloud_init.enabled then o.cloud_init else no_cloud_init;
    ipmi = no_ipmi;
  }

  unfoldable pub reserve_vm : NewIds → ℕ → CreateOptions → Manager Host → Result Host
  unfolding name_in_use on_id on_made reserve_made bare_machine reserve nic_requests firmware_of
  reserve_vm ids now o m =
      if name_in_use o.name [] m
      then fail name_exists m
      else on_id p ids.machine m (λ id.
        on_made
          (reserve_made ids o.disks o.isos (nic_requests (map (normalize_nic_spec p) o.nics))
            (bare_machine o id (firmware_of o.firmware o.disks) now) m)
          m (reserve m))

  -- Create until it leaves the lock: checks, then `reserve_vm` on the normal options.
  unfoldable pub begin_create : NewIds → ℕ → CreateOptions → Manager Host → Result Host
  unfolding normal_options validate_options reserve_vm
  begin_create ids now o m =
      require_valid (validate_options (normal_options o) m.host) m
        (reserve_vm ids now (normal_options o) m)
