-- ===== src/Vm.antt =====
-- The definition of a virtual machine (internal/vm/vm.go: VirtualMachine, its devices, Bridges,
-- UsesBridge, HasMACAddress, IsActive). Times are nanoseconds.
pub mod Bridges
use app_runner.Prelude.{
  ℕ, Bool, true, false, ◌&&◌, not, List, [], ◌∷◌, ◌++◌, if◌then◌else◌, Text, same, equal_fold,
  exists,
}

pub data VmStatus : Type 0 where
  stopped running stopping error : VmStatus

pub data NetworkMode : Type 0 where
  nat_mode bridge_mode : NetworkMode

pub data Firmware : Type 0 where
  bios uefi : Firmware

pub record Disk : Type 0 where
  pub id : Text
  pub size_gib : ℕ
  pub source_image : Text

pub record Cdrom : Type 0 where
  pub id : Text
  pub iso_name : Text

pub record Nic : Type 0 where
  pub id : Text
  pub mode : NetworkMode
  pub bridge_name : Text
  pub mac_address : Text

pub record CloudInit : Type 0 where
  pub enabled : Bool
  pub user_data : Text

pub record IpmiConfig : Type 0 where
  pub enabled : Bool
  pub bridge_name : Text
  pub address : Text
  pub username : Text
  pub password : Text
  pub boot_device : ℕ
  pub boot_persistent : Bool

-- The stored definition: what is annotated for a reader (leases, the state of the virtual BMC) is
-- left out.
pub record VirtualMachine : Type 0 where
  pub id : Text
  pub name : Text
  pub description : Text
  pub cpus : ℕ
  pub memory_mib : ℕ
  pub firmware : Firmware
  pub status : VmStatus
  pub created_at : ℕ
  pub last_error : Text
  pub pid : ℕ
  pub disks : List Disk
  pub cdroms : List Cdrom
  pub nics : List Nic
  pub cloud_init : CloudInit
  pub ipmi : IpmiConfig

abbrev pub no_cloud_init : CloudInit
no_cloud_init = record { enabled = false; user_data = [] }

abbrev pub no_ipmi : IpmiConfig
no_ipmi = record {
  enabled = false;
  bridge_name = [];
  address = [];
  username = [];
  password = [];
  boot_device = 0;
  boot_persistent = false;
}

abbrev pub is_bridge_mode : NetworkMode → Bool
is_bridge_mode bridge_mode = true
is_bridge_mode nat_mode = false

abbrev pub is_blank : Text → Bool
is_blank [] = true
is_blank (c ∷ t) = false

-- `slices.Contains`
unfoldable pub contains_text : Text → List Text → Bool
contains_text b bs = exists (λ c. same c b) bs

-- The loop of `Bridges`, from the bridges found so far.
unfoldable pub bridges_from : List Text → List Nic → List Text
unfolding contains_text
bridges_from found [] = found
bridges_from found (n ∷ ns) =
    bridges_from
      (if is_bridge_mode n.mode
          && not (is_blank n.bridge_name)
          && not (contains_text n.bridge_name found)
        then found ++ n.bridge_name ∷ []
        else found)
      ns

unfoldable pub bridges : VirtualMachine → List Text
unfolding bridges_from
bridges v = bridges_from [] v.nics

unfoldable pub uses_bridge : Text → VirtualMachine → Bool
unfolding bridges contains_text
uses_bridge bridge v = contains_text bridge (bridges v)

unfoldable pub has_mac_address : Text → VirtualMachine → Bool
has_mac_address mac v = exists (λ n. equal_fold n.mac_address mac) v.nics

-- A machine whose process is there: `StatusRunning` or `StatusStopping`.
unfoldable pub is_active : VmStatus → Bool
is_active running = true
is_active stopping = true
is_active stopped = false
is_active error = false
