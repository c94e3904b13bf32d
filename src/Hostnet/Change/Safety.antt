-- ===== src/Hostnet/Change/Safety.antt =====
-- A change that passes the checks leaves every workload its bridge.
use app_runner.Prelude.{
  ◌≢◌, ◌⊎◌, ◌∙◌, refl, ◌≡◌, inl, inr, Bool, true, false, none, some, List, [], ◌∷◌, In, arith, Text,
  subst, sym,
}
use app_runner.Vm.{Nic, bridge_mode, running, stopping, VirtualMachine, uses_bridge, is_active}
use app_runner.Vm.Bridges.{nic-uses_bridge}
use app_runner.Hostnet.Change.{
  Change, delete_bridge, set_bridge_down, detach_interface, check_machines, is_delete, is_risky,
  validate_workload_safety,
}

-- What must hold of a machine that uses the bridge.
abbrev Spared : Bool → VirtualMachine → Type 0
Spared deleting v = (deleting ≡ false) × (is_active v.status ≡ false)

check_machines-Spared :
    (deleting : Bool) (bridge : Text) (vs : List VirtualMachine) (v : VirtualMachine)
    → check_machines deleting bridge vs ≡ none
    → In v vs
    → uses_bridge bridge v ≡ true
    → Spared deleting v
unfolding check_machines
check_machines-Spared deleting bridge [] v h i u = absurd i
check_machines-Spared deleting bridge (w ∷ vs) v h (inl e) u =
    let u' : uses_bridge bridge w ≡ true = subst (λ x. uses_bridge bridge x ≡ true) e u in
    subst (Spared deleting) (sym e) (ground arith)
check_machines-Spared deleting bridge (w ∷ vs) v h (inr i) u =
    check_machines-Spared deleting bridge vs v (ground arith) i u

-- A bridge is not pulled from under a workload: where validateWorkloadSafety passes a deletion, a
-- bring-down or a detachment, no listed machine that has an interface bridged to the named bridge
-- is running or stopping, and if there is such a machine at all, the change is no deletion.
pub validate_workload_safety-Spared :
    (dhcp_enabled : Bool) (vs : List VirtualMachine) (c : Change) (v : VirtualMachine) (n : Nic)
    → validate_workload_safety dhcp_enabled (some vs) c ≡ none
    → (c.change_type ≡ delete_bridge)
      ⊎ (c.change_type ≡ set_bridge_down)
      ⊎ (c.change_type ≡ detach_interface)
    → In v vs
    → In n v.nics
    → n.mode ≡ bridge_mode
    → n.bridge_name ≡ c.bridge_name
    → c.bridge_name ≢ []
    → (v.status ≢ running) × (v.status ≢ stopping) × (c.change_type ≢ delete_bridge)
unfolding validate_workload_safety is_active
validate_workload_safety-Spared dhcp_enabled vs c v n h t i j m e k =
    let r : is_risky c.change_type ≡ true = elim t [
      | inl x ↦ rw x refl
      | inr (inl x) ↦ rw x refl
      | inr (inr x) ↦ rw x refl
    ] in
    let u : uses_bridge c.bridge_name v ≡ true =
      subst (λ b. uses_bridge b v ≡ true) e (nic-uses_bridge v n j m (λ x. k (sym e ∙ x))) in
    let (d, a) =
      check_machines-Spared (is_delete c.change_type) c.bridge_name vs v (ground arith) i u in
    (λ x. ground arith, λ x. ground arith, λ x. ground arith)
