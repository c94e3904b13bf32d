-- ===== src/Hostnet/Change.antt =====
-- A change to the host's network and the checks made before it (internal/hostnet/manager.go:
-- Change, ValidateChange, validateWorkloadSafety, describeChange). The machines are those that
-- the VM manager lists, `none` where that fails; `dhcp_enabled` is whether managed DHCP serves the
-- bridge.
pub mod Safety
use app_runner.Prelude.{
  Bool, true, false, ◌&&◌, ◌||◌, not, Option, none, some, List, [], ◌∷◌, ◌++◌, if◌then◌else◌, Text,
  same, codes,
}
use app_runner.Validate.{interface_name}
use app_runner.Vm.{VirtualMachine, uses_bridge, is_active, is_blank}

pub data ChangeType : Type 0 where
  create_bridge delete_bridge set_bridge_up set_bridge_down attach_interface detach_interface
        unsupported :
      ChangeType

pub record Change : Type 0 where
  pub change_type : ChangeType
  pub bridge_name : Text
  pub interface_name : Text
  pub migrate_addresses : Bool

pub data ChangeError : Type 0 where
  bad_bridge_name bad_interface_name extra_interface self_attach unsupported_change : ChangeError

abbrev pub ok_name : Text → Bool
ok_name t = elim (interface_name t) [ none ↦ true | some e ↦ false ]

validate_kind : ChangeType → Text → Text → Option ChangeError
validate_kind unsupported bridge port = some unsupported_change
validate_kind attach_interface bridge port =
    if not (ok_name port)
    then some bad_interface_name
    else if same port bridge
    then some self_attach
    else none
validate_kind detach_interface bridge port =
    if not (ok_name port)
    then some bad_interface_name
    else if same port bridge
    then some self_attach
    else none
validate_kind _ bridge port = if is_blank port then none else some extra_interface

-- `ValidateChange`
unfoldable pub validate_change : Change → Option ChangeError
unfolding validate_kind
validate_change c =
    if not (ok_name c.bridge_name)
    then some bad_bridge_name
    else validate_kind c.change_type c.bridge_name c.interface_name

pub data SafetyError : Type 0 where
  dhcp_in_use machines_unknown : SafetyError
  assigned running : Text → SafetyError

abbrev pub is_delete : ChangeType → Bool
is_delete delete_bridge = true
is_delete _ = false

-- The changes that take a bridge away from its workloads.
abbrev pub is_risky : ChangeType → Bool
is_risky delete_bridge = true
is_risky set_bridge_down = true
is_risky detach_interface = true
is_risky _ = false

pub check_machines : Bool → Text → List VirtualMachine → Option SafetyError
check_machines deleting bridge [] = none
check_machines deleting bridge (v ∷ vs) =
    let rest = check_machines deleting bridge vs in
    if not (uses_bridge bridge v)
    then rest
    else if deleting
    then some (assigned v.name)
    else if is_active v.status
    then some (running v.name)
    else rest

check_list : Bool → Text → Option (List VirtualMachine) → Option SafetyError
check_list deleting bridge none = some machines_unknown
check_list deleting bridge (some vs) = check_machines deleting bridge vs

-- `validateWorkloadSafety`
unfoldable pub validate_workload_safety :
    Bool → Option (List VirtualMachine) → Change → Option SafetyError
unfolding check_list check_machines
validate_workload_safety dhcp_enabled machines c =
    if not (is_risky c.change_type)
    then none
    else if is_delete c.change_type && dhcp_enabled
    then some dhcp_in_use
    else check_list (is_delete c.change_type) c.bridge_name machines

-- `describeChange`; an unsupported type, which ValidateChange refuses, is left out.
unfoldable pub describe_change : Change → Text
describe_change c = elim c.change_type [
  | create_bridge ↦ codes "Create bridge " ++ c.bridge_name
  | delete_bridge ↦ codes "Delete bridge " ++ c.bridge_name
  | set_bridge_up ↦ codes "Bring bridge " ++ c.bridge_name ++ codes " up"
  | set_bridge_down ↦ codes "Bring bridge " ++ c.bridge_name ++ codes " down"
  | attach_interface ↦ codes "Attach " ++ c.interface_name ++ codes " to " ++ c.bridge_name
  | detach_interface ↦ codes "Detach " ++ c.interface_name ++ codes " from " ++ c.bridge_name
  | unsupported ↦ []
]
