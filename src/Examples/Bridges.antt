-- ===== src/Examples/Bridges.antt =====
-- The theorems on the settings and the services of bridges.
use app_runner.Net.{contains}
use app_runner.Dhcp.Range.{prefixes_overlap}
use app_runner.Prelude.{word_or}
use app_runner.Net.{Prefix, ipv4, masked}
use app_runner.Validate.{interface_name}
use app_runner.Prelude.{Text-discrete}
use app_runner.Prelude.{
  ℕ, ◌+◌, ◌≡◌, ◌≢◌, ◌⊎◌, refl, true, false, none, some, List, [], ◌∷◌, Text, codes, lookup, arith,
}
use app_runner.Vm.{bios, no_cloud_init, no_ipmi, VirtualMachine, running}
use app_runner.Dhcp.Config.{BridgeConfig}
use app_runner.Dhcp.Range.{parse_range}
use app_runner.Dhcp.Service.{Controllers, Manager, prepare_bridge}
use app_runner.Dhcp.Service.Users.{Served, prepare_bridge-Served}
use app_runner.Dhcp.Service.Idle.{
  IsUsed, Event, prepares, drops, ends, shuts, happen_all, happen_all-IsUsed,
}
use app_runner.Dhcp.Settings.{Settings, SettingsRequest, not_saved, configure, suggest_cidr, no_dns}
use app_runner.Dhcp.Settings.Refused.{configure_unchanged}
use app_runner.Dhcp.Settings.Applied.{
  Apart, Applied, configure-Applied, last_resort, suggest_cidr-Apart,
}
use app_runner.Examples.Leases.{network, range}

-- A host is the number of calls made to it; each of them succeeds.
abbrev controllers : Controllers ℕ
controllers = record {
  ensure_address = λ b r h. (h + 1, true);
  nat_running = λ b h. false;
  nat_start = λ b p h. (h + 1, true);
  nat_stop = λ b h. (h + 1, true);
  nat_finish = λ h. (h + 1, true);
  dns_running = λ b h. false;
  dns_start = λ b a d h. (h + 1, true);
  dns_stop = λ b h. (h + 1, true);
  dns_close = λ h. (h + 1, true);
  listen = λ b r x h. (h + 1, true);
  close = λ b h. (h + 1, true);
}

abbrev bridge : Text
bridge = codes "br0"

abbrev served_config : BridgeConfig
served_config = record {
  enabled = true;
  cidr = some range.prefix;
  nat = true;
  dns = no_dns;
  http_boot_url = [];
}

abbrev idle_manager : Manager ℕ
idle_manager = record {
  host = 0;
  configs = (bridge, served_config) ∷ [];
  runtimes = [];
  errors = [];
  next_serial = 0;
}

abbrev guest : VirtualMachine
guest = record {
  id = codes "7";
  name = codes "guest";
  description = [];
  cpus = 2;
  memory_mib = 1024;
  firmware = bios;
  status = running;
  created_at = 0;
  last_error = [];
  pid = 1;
  disks = [];
  cdroms = [];
  nics = [];
  cloud_init = no_cloud_init;
  ipmi = no_ipmi;
}

configured : lookup bridge idle_manager.configs ≡ some served_config
unfolding lookup Text-discrete
configured = refl

prepare_bridge-Served_example :
    Served controllers bridge served_config guest idle_manager
      (prepare_bridge controllers bridge guest idle_manager)
prepare_bridge-Served_example =
    prepare_bridge-Served controllers bridge served_config guest idle_manager configured refl

abbrev happenings : List (Event controllers)
happenings = prepares bridge guest ∷ ends bridge 0 true ∷ drops bridge (codes "7") ∷ shuts ∷ []

happen_all-IsUsed_example : IsUsed controllers (happen_all controllers idle_manager happenings)
happen_all-IsUsed_example = happen_all-IsUsed controllers idle_manager happenings tt

-- The range of another bridge, the next /24.
abbrev other_prefix : Prefix
other_prefix = record { addr = ipv4 (network + 256); bits = 24 }

abbrev settings : Settings
settings = record {
  bridges = (codes "br1", record served_config { cidr = some other_prefix }) ∷ [];
  leases = [];
  errors = [];
  in_use = [];
}

abbrev asked : SettingsRequest
asked = record {
  bridge = bridge;
  enabled = true;
  cidr = some range.prefix;
  nat = true;
  dns = no_dns;
  boot_url = [];
  boot_url_ok = true;
  provider_ok = true;
  forwarders = none;
}

configures : (configure asked true settings).1 ≡ none
unfolding configure interface_name Text-discrete parse_range masked word_or prefixes_overlap
    contains
configures = refl

configure-Applied_example :
    Applied asked settings (configure asked true settings).0 (parse_range asked.cidr)
configure-Applied_example = configure-Applied asked true settings refl configures

not_stored : (configure asked false settings).1 ≡ some not_saved
unfolding configure interface_name Text-discrete parse_range masked word_or prefixes_overlap
    contains
not_stored = refl

unsaved : (configure asked false settings).1 ≢ none
unsaved e = ground (arith, not_stored)

configure_unchanged_example :
    (lookup bridge (configure asked false settings).0.bridges ≡ lookup bridge settings.bridges)
    × (lookup bridge (configure asked false settings).0.leases ≡ lookup bridge settings.leases)
configure_unchanged_example = configure_unchanged bridge asked false settings unsaved

suggest_cidr-Apart_example :
    (suggest_cidr bridge settings ≡ last_resort)
    ⊎ Apart bridge (suggest_cidr bridge settings) settings.bridges
suggest_cidr-Apart_example = suggest_cidr-Apart bridge settings
