-- ===== src/Machines/Devices.antt =====
-- Changing a machine's devices (internal/vm/vm.go: AddNIC, UpdateNIC, RemoveNIC, AddDisk,
-- RemoveDisk, AddCDROM, UpdateCDROM, RemoveCDROM, ConfigureIPMI, SetIPMIBootFlags). A new identity
-- is an argument, `none` where none can be generated.
use app_runner.Prelude.{
  Bool, true, false, ◌&&◌, ◌||◌, not, Option, none, some, List, [], ◌∷◌, ◌++◌, if◌then◌else◌, Text,
  same, equal_fold,
}
use app_runner.Vm.{
  VirtualMachine, Disk, Cdrom, Nic, IpmiConfig, NetworkMode, nat_mode, bridge_mode, is_active,
  is_blank, has_mac_address,
}
use app_runner.Machines.{
  Platform, Manager, FieldError, mac_in_use, no_such_nic, invalid, device_running, no_id, Result,
  mac_address_in_use, fail, check, require_idle, on_machine, reconciled, commit,
}
use app_runner.Machines.Checks.{
  NicSpec, NicRequest, Normalized, normalized, rejected, normalize_nic_spec,
}
use app_runner.Machines.Files.{nic_mac_address}

abbrev pub is_bridge : NetworkMode → Bool
is_bridge bridge_mode = true
is_bridge nat_mode = false

abbrev pub same_mode : NetworkMode → NetworkMode → Bool
same_mode nat_mode m = not (is_bridge m)
same_mode bridge_mode m = is_bridge m

-- `sameDefinition`
pub same_definition : Nic → Nic → Bool
same_definition n k =
    same n.id k.id
    && same_mode n.mode k.mode
    && same n.bridge_name k.bridge_name
    && equal_fold n.mac_address k.mac_address

-- `slices.IndexFunc`, assignment and `slices.Delete` at an identity.
module _ {A : Type 0} (id_of : A → Text) where
  unfoldable pub device : Text → List A → Option A
  device id [] = none
  device id (d ∷ ds) = let rest = device id ds in if same (id_of d) id then some d else rest

  unfoldable pub replace_device : Text → A → List A → List A
  replace_device id e [] = []
  replace_device id e (d ∷ ds) =
      let rest = replace_device id e ds in if same (id_of d) id then e ∷ ds else d ∷ rest

  unfoldable pub drop_device : Text → List A → List A
  drop_device id [] = []
  drop_device id (d ∷ ds) =
      let rest = drop_device id ds in if same (id_of d) id then ds else d ∷ rest

abbrev pub nic_id : Nic → Text
nic_id n = n.id

abbrev pub disk_id : Disk → Text
disk_id d = d.id

abbrev pub cdrom_id : Cdrom → Text
cdrom_id c = c.id

abbrev pub with_nics : List Nic → VirtualMachine → VirtualMachine
with_nics ns v = record v { nics = ns }

abbrev pub with_disks : List Disk → VirtualMachine → VirtualMachine
with_disks ds v = record v { disks = ds }

abbrev pub with_cdroms : List Cdrom → VirtualMachine → VirtualMachine
with_cdroms cs v = record v { cdroms = cs }

abbrev pub with_ipmi : IpmiConfig → VirtualMachine → VirtualMachine
with_ipmi c v = record v { ipmi = c }

module _ {Host : Type 0} (p : Platform Host) where
  unfoldable pub on_device :
      {A : Type 0} → Option A → FieldError → Manager Host → (A → Result Host) → Result Host
  on_device none e m f = fail (invalid e) m
  on_device (some a) e m f = f a

  unfoldable pub on_id : Option Text → Manager Host → (Text → Result Host) → Result Host
  on_id none m f = fail no_id m
  on_id (some id) m f = f id

  unfoldable pub on_request : Normalized → Manager Host → (NicRequest → Result Host) → Result Host
  on_request (rejected e) m f = fail (invalid e) m
  on_request (normalized r) m f = f r

  -- The interface that `newNICLocked` makes; it is used where its address is free.
  unfoldable pub requested_nic : Text → Text → NicRequest → Nic
  requested_nic id nic r = record {
    id = nic;
    mode = r.mode;
    bridge_name = r.bridge_name;
    mac_address = if is_blank r.mac_address then nic_mac_address p id nic else r.mac_address;
  }

  -- The check of `newNICLocked`.
  unfoldable pub is_taken : Text → VirtualMachine → Manager Host → Bool
  is_taken mac v m = mac_address_in_use mac m || has_mac_address mac v

  unfoldable pub add_nic_at : Text → VirtualMachine → Nic → Manager Host → Result Host
  unfolding is_taken commit
  add_nic_at id v n m =
      if is_taken n.mac_address v m
      then fail (invalid mac_in_use) m
      else commit p id (with_nics (v.nics ++ n ∷ []) v) m

  -- What the operations on interfaces begin with.
  unfoldable pub on_idle_machine :
      Text → Manager Host → (VirtualMachine → Manager Host → Result Host) → Result Host
  unfolding reconciled on_machine require_idle
  on_idle_machine id m f = reconciled p m (λ m. on_machine id m (λ v. require_idle id m (f v m)))

  unfoldable pub add_nic : Text → NicSpec → Option Text → Manager Host → Result Host
  unfolding on_request on_idle_machine on_id add_nic_at requested_nic
  add_nic id spec new_id m = on_request (normalize_nic_spec p spec) m (λ r.
      on_idle_machine id m (λ v m.
        check (not (is_active v.status)) device_running m
          (on_id new_id m (λ nic. add_nic_at id v (requested_nic v.id nic r) m))))

  -- The interface that an update asks for; a blank address stays the current one.
  pub updated_nic : Nic → NicRequest → Nic
  updated_nic n r = record {
    id = n.id;
    mode = r.mode;
    bridge_name = r.bridge_name;
    mac_address = if is_blank r.mac_address then n.mac_address else r.mac_address;
  }

  unfoldable pub update_nic_at : Text → VirtualMachine → Nic → Nic → Manager Host → Result Host
  unfolding commit mac_address_in_use
  update_nic_at id v n k m =
      if same_definition k n
      then (m, none)
      else check (not (is_active v.status)) device_running m (
          if not (equal_fold k.mac_address n.mac_address) && mac_address_in_use k.mac_address m
          then fail (invalid mac_in_use) m
          else commit p id (with_nics (replace_device nic_id n.id k v.nics) v) m)

  unfoldable pub update_nic : Text → Text → NicSpec → Manager Host → Result Host
  unfolding on_request on_idle_machine on_device update_nic_at
  update_nic id nic spec m = on_request (normalize_nic_spec p spec) m (λ r.
      on_idle_machine id m (λ v m.
        on_device (device nic_id nic v.nics) no_such_nic m
          (λ n. update_nic_at id v n (updated_nic n r) m)))

  unfoldable pub remove_nic : Text → Text → Manager Host → Result Host
  unfolding on_idle_machine on_device commit
  remove_nic id nic m = on_idle_machine id m (λ v m.
      check (not (is_active v.status)) device_running m (
        on_device (device nic_id nic v.nics) no_such_nic m
          (λ n. commit p id (with_nics (drop_device nic_id nic v.nics) v) m)))
