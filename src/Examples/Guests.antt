-- ===== src/Examples/Guests.antt =====
-- The theorems on the VM manager: a host on which every call succeeds, one whose store is full, and
-- two machines.
use app_runner.Machines.Devices.{drop_device}
use app_runner.Machines.Files.{nic_mac_address}
use app_runner.Machines.{mac_address_in_use}
use app_runner.Machines.Frozen.{Step-Frozen}
use app_runner.Vm.{stopping, has_mac_address}
use app_runner.Prelude.{trim_space, Text-discrete}
use app_runner.Machines.Checks.{normalize_nic_spec}
use app_runner.Vm.{bridges}
use app_runner.Machines.Power.{stop, start_error, started}
use app_runner.Prelude.{Text-discrete, lookup}
use app_runner.Prelude.{
  ℕ, ◌+◌, ◌≡◌, ◌⊎◌, refl, true, false, none, some, List, [], ◌∷◌, codes, arith, Text, All,
}
use app_runner.Vm.{
  VirtualMachine, bios, nat_mode, stopped, running, no_cloud_init, no_ipmi, is_active,
}
use app_runner.Machines.{Platform, launched, present, Manager, find, reconcile, not_saved, change}
use app_runner.Machines.Checks.{NicSpec}
use app_runner.Machines.Power.{start, escalate_stop, process_exited, finish_force_stop}
use app_runner.Machines.Devices.{add_nic, remove_nic, device, nic_id}
use app_runner.Machines.RoundTrip.{remove_nic-add_nic}
use app_runner.Machines.Moves.{
  view, total, tally, id_weight, name_weight, mac_weight, count, SameHardware,
}
use app_runner.Machines.Steps.{begin, next, starts, adds_nic}
use app_runner.Machines.Sound.{IsSound, Reach-IsSound}
use app_runner.Machines.Started.{IsStarted, start-IsStarted}
use app_runner.Machines.Live.{IsCalm, IsLive, reconcile-IsLive}
use app_runner.Machines.Edits.{adding_nic, edit, edit_unchanged}
use app_runner.Machines.Stale.{stale_spares, finish_force_stop_blind}

-- A host counts the calls that change it.
abbrev platform : Platform ℕ
platform = record {
  save = λ vs h. (h + 1, true);
  is_running = λ v h. true;
  launch = λ v h. (h + 1, launched 7);
  graceful_stop = λ v h. (h + 1, true);
  force_stop = λ v h. (h + 1, true);
  reset = λ v h. (h + 1, true);
  change_media = λ v d t h. (h + 1, true);
  create_disk = λ t n h. (h + 1, true);
  create_linked_disk = λ t s n h. (h + 1, true);
  qemu_available = λ h. true;
  kvm_available = λ h. true;
  bridge_available = λ b h. true;
  prepare = λ v h. (h + 1, true);
  release = λ v h. h + 1;
  configure_ipmi = λ v h. (h + 1, true);
  disable_ipmi = λ v h. h + 1;
  build_iso = λ t v h. (h + 1, true);
  stat = λ t h. present;
  regular_file = λ t h. true;
  remove_file = λ t h. (h + 1, true);
  remove_all = λ t h. (h + 1, true);
  make_dir = λ t h. (h + 1, true);
  rename = λ t s h. (h + 1, true);
  copy_file = λ t s h. (h + 1, true);
  resolve_inside = λ t h. some t;
  disk_path = λ t d. d;
  iso_path = λ t. t;
  state_dir = λ t. t;
  cloud_init_iso = λ t. t;
  uefi_vars = λ t. t;
  qmp_socket = λ t. t;
  vnc_socket = λ t. t;
  uefi_code_path = [];
  uefi_vars_path = [];
  clean_path = λ t. t;
  is_abs = λ t. false;
  extension = λ t. t;
  parse_mac = λ t. none;
  print_mac = λ a. a;
  sha256 = λ t. 1 ∷ 2 ∷ 3 ∷ [];
  parse_addr = λ t. none;
}

abbrev full_disk : Platform ℕ
full_disk = record platform { save = λ vs h. (h, false) }

abbrev guest : Text → Text → VirtualMachine
guest id name = record {
  id = id;
  name = name;
  description = [];
  cpus = 2;
  memory_mib = 1024;
  firmware = bios;
  status = stopped;
  created_at = 0;
  last_error = [];
  pid = 0;
  disks = [];
  cdroms = [];
  nics = [];
  cloud_init = no_cloud_init;
  ipmi = no_ipmi;
}

abbrev one : VirtualMachine
one = guest (codes "1") (codes "web")

abbrev other : VirtualMachine
other = record (guest (codes "2") (codes "db")) { status = running; pid = 5 }

abbrev with_machines : List VirtualMachine → Manager ℕ
with_machines vs = record {
  machines = vs;
  creating = [];
  busy = [];
  exits = [];
  stop_timers = [];
  host = 0;
}

abbrev idle : Manager ℕ
idle = with_machines (one ∷ [])

abbrev two : Manager ℕ
two = with_machines (one ∷ other ∷ [])

abbrev nat_nic : NicSpec
nat_nic = record { mode = some nat_mode; bridge_name = []; mac_address = [] }

idle-IsSound : IsSound (view idle)
unfolding total tally id_weight name_weight mac_weight count lookup find is_active
idle-IsSound = record {
  unique = record {
    unique_ids = λ x. ground arith;
    no_blank_id = ground arith;
    unique_names = λ x. ground arith;
    unique_macs = λ x. ground arith;
  };
  quiet = λ id v f a. refl;
  new = tt;
}

abbrev wired : Manager ℕ
wired = (add_nic platform (codes "1") nat_nic (some (codes "n")) idle).0

abbrev up : Manager ℕ
up = (start platform (codes "1") wired).0

Reach-IsSound_example : IsSound (view up)
Reach-IsSound_example =
    Reach-IsSound platform
      (next (next begin (adds_nic (codes "1") nat_nic (some (codes "n")))) (starts (codes "1")))
      idle-IsSound

wired-IsSound : IsSound (view wired)
wired-IsSound =
    Reach-IsSound platform (next begin (adds_nic (codes "1") nat_nic (some (codes "n"))))
      idle-IsSound

abbrev wired_one : VirtualMachine
wired_one = record one {
  nics =
      record {
        id = codes "n";
        mode = nat_mode;
        bridge_name = [];
        mac_address = 82 ∷ 84 ∷ 0 ∷ 1 ∷ 2 ∷ 3 ∷ [];
      }
      ∷ [];
}

found_wired : find (codes "1") wired.machines ≡ some wired_one
unfolding find add_nic normalize_nic_spec trim_space reconcile is_active Text-discrete lookup
    mac_address_in_use has_mac_address change nic_mac_address
found_wired = refl

found_up : find (codes "1") up.machines ≡ some (started 7 wired_one)
unfolding find start reconcile add_nic normalize_nic_spec trim_space is_active Text-discrete lookup
    mac_address_in_use has_mac_address change start_error bridges nic_mac_address
found_up = refl

started_active : is_active (started 7 wired_one).status ≡ true
unfolding is_active
started_active = refl

Step-Frozen_example : SameHardware wired_one (started 7 wired_one)
Step-Frozen_example =
    Step-Frozen platform {m = wired} {n = up} (codes "1") wired_one (started 7 wired_one)
      (starts (codes "1")) wired-IsSound found_wired found_up started_active

starts_one : (start platform (codes "1") two).1 ≡ none
unfolding start find is_active reconcile Text-discrete lookup start_error bridges
starts_one = refl

start-IsStarted_example :
    IsStarted platform (codes "1") (reconcile platform two).0 (start platform (codes "1") two)
start-IsStarted_example = start-IsStarted platform (codes "1") two starts_one

calm : IsCalm platform
calm = record { save_calm = λ vs v h. refl; release_calm = λ u v h. refl }

reconcile-IsLive_example :
    All (IsLive platform (reconcile platform two).0.host) (reconcile platform two).0.machines
reconcile-IsLive_example = reconcile-IsLive platform calm two

not_stored :
    (edit full_disk (adding_nic (codes "1") nat_nic (some (codes "n"))) idle).1 ≡ some not_saved
unfolding start find is_active edit normalize_nic_spec trim_space reconcile Text-discrete lookup
    has_mac_address
not_stored = refl

edit_unchanged_example :
    ((edit full_disk (adding_nic (codes "1") nat_nic (some (codes "n"))) idle).0.machines
      ≡ idle.machines)
    ⊎ ((edit full_disk (adding_nic (codes "1") nat_nic (some (codes "n"))) idle).0.machines
        ≡ (reconcile full_disk idle).0.machines)
edit_unchanged_example =
    edit_unchanged full_disk (adding_nic (codes "1") nat_nic (some (codes "n"))) idle not_saved
      not_stored

found_other : find (codes "2") two.machines ≡ some other
unfolding find Text-discrete
found_other = refl

stale_spares_example :
    ((find (codes "2") (escalate_stop platform (codes "2") 4 two).0.machines ≡ some other)
      ⊎ ((codes "2" ≡ codes "2") × (other.pid ≡ 4) × (other.status ≡ stopping)))
    × ((find (codes "2") (process_exited platform (codes "2") 4 none two).0.machines ≡ some other)
        ⊎ ((codes "2" ≡ codes "2") × (other.pid ≡ 4)))
stale_spares_example =
    stale_spares platform (codes "2") 4 none two (codes "2") other (omega arith) found_other

-- A forced stop has begun, and the process has ended.
abbrev after_exit : Manager ℕ
after_exit = (process_exited platform (codes "2") 5 none (stop platform (codes "2") true 0 two).0).0

restarts : (start platform (codes "2") after_exit).1 ≡ none
unfolding start stop process_exited find is_active reconcile Text-discrete lookup change start_error
    bridges
restarts = refl

finish_force_stop_blind_example :
    let n = (start platform (codes "2") after_exit).0 in
    let after = (finish_force_stop platform (codes "2") n).0 in
    (w : VirtualMachine) × (x : VirtualMachine) × (find (codes "2") n.machines ≡ some w)
    × (w.status ≡ running)
    × (find (codes "2") after.machines ≡ some x)
    × (x.status ≡ stopped)
    × (x.pid ≡ 0)
    × (after.host ≡ (platform.save (change (codes "2") x n.machines) (platform.release w n.host)).0)
finish_force_stop_blind_example = finish_force_stop_blind platform (codes "2") after_exit restarts

no_such_nic : device nic_id (codes "n") one.nics ≡ none
unfolding device
no_such_nic = refl

with_nic : (add_nic platform (codes "1") nat_nic (some (codes "n")) idle).1 ≡ none
unfolding add_nic normalize_nic_spec trim_space reconcile is_active find Text-discrete lookup
    mac_address_in_use has_mac_address
with_nic = refl

without_nic :
    (remove_nic platform
      (codes "1")
      (codes "n")
      (add_nic platform (codes "1") nat_nic (some (codes "n")) idle).0).1
    ≡ none
unfolding add_nic remove_nic reconcile normalize_nic_spec trim_space is_active find Text-discrete
    lookup mac_address_in_use has_mac_address change device
without_nic = refl

found_idle : find (codes "1") idle.machines ≡ some one
unfolding find Text-discrete
found_idle = refl

found_again :
    find
      (codes "1")
      (remove_nic platform
        (codes "1")
        (codes "n")
        (add_nic platform (codes "1") nat_nic (some (codes "n")) idle).0).0.machines
    ≡ some one
unfolding add_nic remove_nic find reconcile normalize_nic_spec trim_space is_active Text-discrete
    lookup mac_address_in_use has_mac_address change device drop_device
found_again = refl

remove_nic-add_nic_example : SameHardware one one
remove_nic-add_nic_example =
    remove_nic-add_nic platform (codes "1") (codes "n") nat_nic one one idle found_idle no_such_nic
      with_nic without_nic found_again
