-- ===== src/Examples/Networks.antt =====
-- The theorems on the host's network: changes that wait, forwarding, machines and names.
use app_runner.Validate.{interface_name}
use app_runner.Prelude.{◌≢◌, ◌⊎◌, In, inr, false, Text-discrete}
use app_runner.Prelude.{
  ℕ, ◌+◌, ◌≡◌, ◌↔◌, refl, true, false, none, some, [], ◌∷◌, inl, codes, arith, lookup, insert,
}
use app_runner.Net.{ipv4, Prefix, masked}
use app_runner.Validate.{dns_label, IsLabel, dns_label_iff}
use app_runner.Vm.{
  Nic, running, stopping, bios, no_cloud_init, no_ipmi, VirtualMachine, bridge_mode, stopped,
  uses_bridge, is_active,
}
use app_runner.Hostnet.Change.{
  Change, delete_bridge, create_bridge, set_bridge_down, validate_change, validate_workload_safety,
}
use app_runner.Hostnet.Change.Safety.{validate_workload_safety-Spared}
use app_runner.Hostnet.Pending.{
  apply_run, Provider, Manager, Env, apply, confirm, revert, rollback_after_timeout, recover,
}
use app_runner.Hostnet.Pending.Death.{apply-Journaled}
use app_runner.Hostnet.Pending.Rollback.{
  Remains, Waits, apply-Waits, undone, Settled, unconfirmed_undone, confirmed_stays,
}
use app_runner.Nat
use app_runner.Nat.Forwarding
use app_runner.Nat.{Outcomes, start, stop, is_nil}
use app_runner.Nat.Forwarding.{start-IsValid, stop-IsValid, stop_restores, start_serves}

-- A host is the number of its bridges.
abbrev provider : Provider ℕ ℕ
provider = record {
  snapshot = λ c h. some h;
  apply = λ c h. (h + 1, true);
  restore = λ s h. (s, true);
}

abbrev env : Env
env = record {
  new_id = some (codes "1");
  now = 0;
  written = true;
  removed = true;
  dhcp_enabled = false;
  machines = some [];
}

abbrev change : Change
change = record {
  change_type = create_bridge;
  bridge_name = codes "br0";
  interface_name = [];
  migrate_addresses = false;
}

abbrev idle : Manager ℕ ℕ
idle = undone provider 3

abbrev changed : Manager ℕ ℕ
changed = (apply provider env change idle).0

changes : (apply provider env change idle).1 ≡ none
unfolding apply apply_run validate_change validate_workload_safety interface_name Text-discrete
changes = refl

apply-Waits_example : Waits provider 3 changed
apply-Waits_example = apply-Waits provider env change idle changes

waiting : Waits provider 3 changed
waiting = apply-Waits provider env change idle changes

apply-Journaled_example :
    ((x : Manager ℕ ℕ) (h : ℕ)
      → In x (apply_run provider env change idle).2
      → (s : ℕ) × (provider.snapshot change idle.host ≡ some s)
        × ((provider.restore s h).1 ≡ true
            → env.removed ≡ true
            → recover provider env (record x { host = h })
              ≡ (undone provider (provider.restore s h).0, none)))
    × ((apply_run provider env change idle).2 ≡ []
        → (apply provider env change idle).0.host ≡ idle.host)
apply-Journaled_example = apply-Journaled provider env env change idle

-- The example has states between its calls.
journals : (apply_run provider env change idle).2 ≢ []
unfolding apply_run validate_change validate_workload_safety interface_name Text-discrete
journals e = cc

unconfirmed_undone_example :
    let r = provider.restore waiting.waiting.snapshot 9 in
    let n : Manager ℕ ℕ = record changed { host = 9 } in
    (provider.snapshot waiting.change 3 ≡ some waiting.waiting.snapshot)
    × (r.1 ≡ true
        → env.removed ≡ true
        → (revert provider env waiting.waiting.id n ≡ (undone provider r.0, none))
          × (rollback_after_timeout provider env waiting.waiting.id n ≡ undone provider r.0)
          × (recover provider env n ≡ (undone provider r.0, none)))
    × ((r.1 ≡ false) ⊎ (env.removed ≡ false)
        → Remains provider waiting.waiting (revert provider env waiting.waiting.id n).0
          × Remains provider waiting.waiting
              (rollback_after_timeout provider env waiting.waiting.id n)
          × Remains provider waiting.waiting (recover provider env n).0)
unconfirmed_undone_example = unconfirmed_undone provider env 3 changed waiting 9

confirmed_stays_example :
    ((confirm provider env waiting.waiting.id changed).0 ≡ undone provider changed.host)
    × Settled provider env (codes "1") (confirm provider env waiting.waiting.id changed).0
confirmed_stays_example = confirmed_stays provider env 3 changed waiting env (codes "1") refl

abbrev guest : VirtualMachine
guest = record {
  id = codes "7";
  name = codes "guest";
  description = [];
  cpus = 2;
  memory_mib = 1024;
  firmware = bios;
  status = stopped;
  created_at = 0;
  last_error = [];
  pid = 0;
  disks = [];
  cdroms = [];
  nics =
      record {
        id = codes "n";
        mode = bridge_mode;
        bridge_name = codes "br0";
        mac_address = codes "00:0a";
      }
      ∷ [];
  cloud_init = no_cloud_init;
  ipmi = no_ipmi;
}

abbrev brings_down : Change
brings_down = record change { change_type = set_bridge_down }

guest_spared : validate_workload_safety false (some (guest ∷ [])) brings_down ≡ none
unfolding validate_workload_safety uses_bridge Text-discrete is_active
guest_spared = refl

abbrev guest_nic : Nic
guest_nic = record {
  id = codes "n";
  mode = bridge_mode;
  bridge_name = codes "br0";
  mac_address = codes "00:0a";
}

validate_workload_safety-Spared_example :
    (guest.status ≢ running) × (guest.status ≢ stopping) × (brings_down.change_type ≢ delete_bridge)
validate_workload_safety-Spared_example =
    validate_workload_safety-Spared false (guest ∷ []) brings_down guest guest_nic guest_spared
      (inr (inl refl)) (inl refl) (inl refl) refl refl (λ e. cc)

dns_label_iff_example : (dns_label (codes "a-1") ≡ none) ↔ IsLabel (codes "a-1")
dns_label_iff_example = dns_label_iff (codes "a-1")

abbrev all_succeed : Outcomes
all_succeed c = true

abbrev prefix : Prefix
prefix = record { addr = ipv4 (10 + 256); bits = 24 }

abbrev no_network : Nat.Manager
no_network = record {
  active = [];
  original = false;
  changed = false;
  owned = false;
  recovering = false;
  file = none;
  rules = [];
  forwarding = false;
}

no_network-IsValid : Forwarding.IsValid false no_network
no_network-IsValid = record {
  recorded = λ e. refl;
  untouched = λ e. refl;
  takes_back = λ e. absurd (ground arith);
  serving = λ e. absurd (ground arith);
}

abbrev one_network : Nat.Manager
one_network = (start all_succeed (codes "br0") prefix no_network).0

one_network-IsValid : Forwarding.IsValid false one_network
one_network-IsValid =
    start-IsValid false all_succeed (codes "br0") prefix no_network no_network-IsValid

starts : (start all_succeed (codes "br0") prefix no_network).1 ≡ none
unfolding start lookup
starts = refl

start_serves_example :
    (one_network.forwarding ≡ true)
    × (one_network.rules ≡ one_network.active)
    × (lookup (codes "br0") one_network.active ≡ some (masked prefix))
unfolding lookup
start_serves_example =
    start_serves false all_succeed (codes "br0") prefix no_network no_network-IsValid refl starts

serving_one : is_nil one_network.active ≡ false
unfolding start lookup insert
serving_one = refl

stops : (stop all_succeed (codes "br0") one_network).1 ≡ none
unfolding start stop lookup insert Text-discrete
stops = refl

stops_last : is_nil (stop all_succeed (codes "br0") one_network).0.active ≡ true
unfolding start stop lookup insert Text-discrete
stops_last = refl

stop_restores_example :
    let after = (stop all_succeed (codes "br0") one_network).0 in
    (after.forwarding ≡ false) × (after.rules ≡ []) × (after.file ≡ none) × (after.owned ≡ false)
stop_restores_example =
    stop_restores false all_succeed (codes "br0") one_network one_network-IsValid serving_one stops
      stops_last
