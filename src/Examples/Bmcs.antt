-- ===== src/Examples/Bmcs.antt =====
-- The theorems on the virtual BMCs: a network that counts its calls, and a machine with a BMC.
use app_runner.Prelude.{ℕ, ◌+◌, true, false, none, some, [], ◌∷◌, codes, lookup}
use app_runner.Net.{ipv4}
use app_runner.Vm.{VirtualMachine, bios, stopped, no_cloud_init}
use app_runner.Bmc.{Network, Manager, configure, server_stopped}
use app_runner.Bmc.Apart.{IsApart, begin, next, configures, ends, Reach-IsApart}

abbrev network : Network ℕ
network = record {
  require_bridge = λ b h. true;
  bridge_addresses = λ b h. some (record { addr = ipv4 167772161; bits = 24 } ∷ []);
  host_addresses = λ h. some (ipv4 167772161 ∷ []);
  add_address = λ b q h. (h + 1, true);
  delete_address = λ b q h. h + 1;
  listen = λ a h. (h + 1, true);
  close_connection = λ a h. h + 1;
  close_server = λ r h. h + 1;
  add_user = λ u. true;
  parse_addr = λ t. some (ipv4 167772162);
  prefix_for_bridge = λ b. none;
}

abbrev managed : VirtualMachine
managed = record {
  id = codes "1";
  name = codes "web";
  description = [];
  cpus = 2;
  memory_mib = 1024;
  firmware = bios;
  status = stopped;
  created_at = 0;
  last_error = [];
  pid = 0;
  disks = [];
  cdroms = [];
  nics = [];
  cloud_init = no_cloud_init;
  ipmi = record {
    enabled = true;
    bridge_name = codes "br0";
    address = codes "10.0.0.2";
    username = codes "admin";
    password = codes "secret";
    boot_device = 0;
    boot_persistent = false;
  };
}

abbrev empty : Manager ℕ
empty = record { runtimes = []; next_serial = 0; host = 0 }

empty-IsApart : IsApart [] 0
unfolding lookup
empty-IsApart = record { one_holder = λ i j r s f g e. cc; given = λ i r f. cc }

Reach-IsApart_example :
    IsApart
      (server_stopped network (codes "1") 0 none (configure network managed empty).0).runtimes
      (server_stopped network (codes "1") 0 none (configure network managed empty).0).next_serial
Reach-IsApart_example =
    Reach-IsApart network (next (next begin (configures managed)) (ends (codes "1") 0 none))
      empty-IsApart
