-- ===== src/Machines.antt =====
-- The virtual machine manager (internal/vm/vm.go): its state, and what the operations of its
-- children share. What runs under `m.mu` is one function; an operation that leaves the lock is a
-- function for each part. A result is the error that is returned, `none` for success; the
-- definition that a success returns is the machine's entry in the new state.
pub mod Checks
pub mod Files
pub mod Power
pub mod Devices
pub mod Media
pub mod Creation
pub mod Produce
pub mod Clone
pub mod Definition
pub mod Rules
pub mod Weights
pub mod Moves
pub mod Steps
pub mod Invariants
pub mod Quiet
pub mod Sound
pub mod Edits
pub mod Live
pub mod Stale
pub mod Frozen
pub mod RoundTrip
pub mod Started
use app_runner.Prelude.{
  ℕ, Bool, true, false, ◌&&◌, ◌||◌, not, Option, none, some, List, [], ◌∷◌, ◌==◌, if◌then◌else◌,
  Text, same, equal_fold, exists, keep, Assoc, lookup, delete, is_some,
}
use app_runner.Net.{Addr}
use app_runner.Vm.{VirtualMachine, Disk, Firmware, is_active, has_mac_address, VmStatus, stopped}

-- What `Hypervisor.Start` returns.
pub data Launch : Type 0 where
  launched : ℕ → Launch
  not_launched : Text → Launch

-- Whether `os.Stat` finds a file.
pub data FileStatus : Type 0 where
  present absent unreadable : FileStatus

-- What the manager calls: the store, the hypervisor, the network services and the virtual BMC
-- (where one is not configured, its calls do nothing, and ConfigureIPMI fails), the file system, and
-- Go's libraries. They act on a value of `Host`; the Boolean is whether a call succeeds.
pub record Platform (Host : Type 0) : Type 0 where
  pub save : List VirtualMachine → Host → Host × Bool
  pub is_running : VirtualMachine → Host → Bool
  pub launch : VirtualMachine → Host → Host × Launch
  pub graceful_stop : VirtualMachine → Host → Host × Bool
  pub force_stop : VirtualMachine → Host → Host × Bool
  pub reset : VirtualMachine → Host → Host × Bool
  pub change_media : VirtualMachine → Text → Text → Host → Host × Bool
  pub create_disk : Text → ℕ → Host → Host × Bool
  pub create_linked_disk : Text → Text → ℕ → Host → Host × Bool
  pub qemu_available : Host → Bool
  pub kvm_available : Host → Bool
  pub bridge_available : Text → Host → Bool
  pub prepare : VirtualMachine → Host → Host × Bool
  pub release : VirtualMachine → Host → Host
  pub configure_ipmi : VirtualMachine → Host → Host × Bool
  pub disable_ipmi : VirtualMachine → Host → Host
  pub build_iso : Text → VirtualMachine → Host → Host × Bool
  pub stat : Text → Host → FileStatus
  pub regular_file : Text → Host → Bool
  pub remove_file : Text → Host → Host × Bool
  pub remove_all : Text → Host → Host × Bool
  pub make_dir : Text → Host → Host × Bool
  pub rename : Text → Text → Host → Host × Bool
  pub copy_file : Text → Text → Host → Host × Bool
  pub resolve_inside : Text → Host → Option Text
  pub disk_path : Text → Text → Text
  pub iso_path : Text → Text
  pub state_dir : Text → Text
  pub cloud_init_iso : Text → Text
  pub uefi_vars : Text → Text
  pub qmp_socket : Text → Text
  pub vnc_socket : Text → Text
  pub uefi_code_path : Text
  pub uefi_vars_path : Text
  pub clean_path : Text → Text
  pub is_abs : Text → Bool
  pub extension : Text → Text
  pub parse_mac : Text → Option (List ℕ)
  pub print_mac : List ℕ → Text
  pub sha256 : Text → List ℕ
  pub parse_addr : Text → Option Addr

pub data BusyReason : Type 0 where
  cloning adding_disk : BusyReason

-- `exits` are the machines with an exit channel, `stop_timers` the armed timers by machine, each
-- with the process that it is to kill.
pub record Manager (Host : Type 0) : Type 0 where
  pub machines : List VirtualMachine
  pub creating : Assoc VirtualMachine
  pub busy : Assoc BusyReason
  pub exits : List Text
  pub stop_timers : Assoc ℕ
  pub host : Host

pub data FieldError : Type 0 where
  no_name long_name bad_label long_description bad_cpus bad_memory bad_size bad_image bad_iso
        bad_user_data bad_mode bad_bridge bad_mac bad_firmware no_uefi mac_in_use no_such_nic
        no_such_disk no_such_cdrom bad_address bad_username bad_password :
      FieldError

pub data MachineError : Type 0 where
  not_found already_running not_running name_exists bridge_unavailable host_unavailable
        delete_running device_running clone_running not_saved no_id id_exists disk_missing
        image_missing iso_missing cloud_init_missing uefi_missing not_started not_stopped not_reset
        not_created not_copied not_removed not_staged media_not_changed ipmi_failed no_state_dir :
      MachineError
  is_busy : BusyReason → MachineError
  invalid : FieldError → MachineError

abbrev pub Failure : Type 0
Failure = Option MachineError

abbrev pub Result : Type 0 → Type 0
Result Host = Manager Host × Failure

-- `indexByID`: the first machine of the identity.
unfoldable pub find : Text → List VirtualMachine → Option VirtualMachine
find id [] = none
find id (v ∷ vs) = let rest = find id vs in if same v.id id then some v else rest

-- `m.vms[index] = …` at that machine.
unfoldable pub change : Text → VirtualMachine → List VirtualMachine → List VirtualMachine
change id w [] = []
change id w (v ∷ vs) = let rest = change id w vs in if same v.id id then w ∷ vs else v ∷ rest

-- `append(m.vms[:index], m.vms[index+1:]...)`
unfoldable pub remove : Text → List VirtualMachine → List VirtualMachine
remove id [] = []
remove id (v ∷ vs) = let rest = remove id vs in if same v.id id then vs else v ∷ rest

module _ {Host : Type 0} where
  -- `nameInUseLocked`
  pub name_in_use : Text → Text → Manager Host → Bool
  name_in_use name exclude m =
      exists (λ v. not (same v.id exclude) && equal_fold v.name name) m.machines
      || exists (λ e. equal_fold e.1.name name) m.creating

  -- `macAddressInUseLocked`
  unfoldable pub mac_address_in_use : Text → Manager Host → Bool
  mac_address_in_use mac m =
      exists (has_mac_address mac) m.machines || exists (λ e. has_mac_address mac e.1) m.creating

  abbrev pub fail : MachineError → Manager Host → Result Host
  fail e m = (m, some e)

  -- `if !b { return err }`
  abbrev pub check : Bool → MachineError → Manager Host → Result Host → Result Host
  check b e m rest = if b then rest else (m, some e)

  pub when_idle : Option BusyReason → Manager Host → Result Host → Result Host
  when_idle none m rest = rest
  when_idle (some r) m rest = (m, some (is_busy r))

  -- `requireIdleLocked`
  pub require_idle : Text → Manager Host → Result Host → Result Host
  unfolding when_idle
  require_idle id m rest = when_idle (lookup id m.busy) m rest

  pub when_found :
      Option VirtualMachine → Manager Host → (VirtualMachine → Result Host) → Result Host
  when_found none m f = (m, some not_found)
  when_found (some v) m f = f v

  -- `index := m.indexByID(id); if index == -1 { return ErrNotFound }`
  pub on_machine : Text → Manager Host → (VirtualMachine → Result Host) → Result Host
  unfolding when_found
  on_machine id m f = when_found (find id m.machines) m f

  -- `if err != nil { return err }` after a validation
  abbrev pub require_valid : Option FieldError → Manager Host → Result Host → Result Host
  require_valid none m rest = rest
  require_valid (some e) m rest = (m, some (invalid e))

  -- `cancelStopTimerLocked`
  abbrev pub clear_timer : Text → Manager Host → Manager Host
  clear_timer id m = record m { stop_timers = delete id m.stop_timers }

  -- `signalExitLocked`
  pub signal_exit : Text → Manager Host → Manager Host
  signal_exit id m = record m {
    exits = keep (λ x. not (same x id)) m.exits;
    stop_timers = delete id m.stop_timers;
  }

abbrev pub at_rest : VirtualMachine → VirtualMachine
at_rest v = record v { pid = 0; status = stopped }

module _ {Host : Type 0} (p : Platform Host) where
  pub is_lost : Host → VirtualMachine → Bool
  is_lost h v = is_active v.status && (v.pid == 0 || not (p.is_running v h))

  -- What is done about a lost machine, other than to its definition.
  unfoldable pub let_go : VirtualMachine → Manager Host → Manager Host
  unfolding signal_exit
  let_go v m =
      let signalled = signal_exit v.id m in record signalled { host = p.release v signalled.host }

  -- The loop of reconcileLocked: the machines, the rest of the state, and whether one was lost.
  unfoldable pub reconcile_list :
      List VirtualMachine → Manager Host → List VirtualMachine × Manager Host × Bool
  unfolding is_lost let_go
  reconcile_list [] m = ([], m, false)
  reconcile_list (v ∷ vs) m =
      let one = is_lost m.host v in
      let (vs', m', more) = reconcile_list vs (if one then let_go v m else m) in
      ((if one then at_rest v else v) ∷ vs', m', one || more)

  -- `reconcileLocked`; the Boolean is whether it succeeds.
  unfoldable pub reconcile : Manager Host → Manager Host × Bool
  unfolding reconcile_list
  reconcile m =
      let (vs, m1, lost) = reconcile_list m.machines m in
      let m2 : Manager Host = record m1 { machines = vs } in
      if lost then (let (h, ok) = p.save vs m2.host in (record m2 { host = h }, ok)) else (m2, true)

  pub after_reconcile : Manager Host × Bool → (Manager Host → Result Host) → Result Host
  after_reconcile (m, true) f = f m
  after_reconcile (m, false) f = (m, some not_saved)

  -- `if err := m.reconcileLocked(); err != nil { return err }`
  pub reconciled : Manager Host → (Manager Host → Result Host) → Result Host
  unfolding after_reconcile
  reconciled m f = after_reconcile (reconcile m) f

  -- The machine is changed and the store saved; where that fails, the change is taken back.
  pub commit : Text → VirtualMachine → Manager Host → Result Host
  commit id w m =
      let vs = change id w m.machines in
      let (h, ok) = p.save vs m.host in
      if ok
      then (record m { machines = vs; host = h }, none)
      else (record m { host = h }, some not_saved)

  -- `saveLocked`, which only logs an error.
  pub save_quietly : Manager Host → Manager Host
  save_quietly m = record m { host = (p.save m.machines m.host).0 }
