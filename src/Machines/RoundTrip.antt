-- ===== src/Machines/RoundTrip.antt =====
-- A network interface that is added and removed again.
use app_runner.Prelude.{
  some-injective, ◌≡◌, refl, ap, sym, subst, ◌∙◌, not, none, some, List, [], ◌∷◌, ◌++◌, Text,
  Text-discrete, arith, if_cases,
}
use app_runner.Vm.{VirtualMachine, Nic, is_active}
use app_runner.Machines.{Platform, Manager, MachineError, Result, find, change, reconcile, commit}
use app_runner.Machines.Checks.{NicSpec, normalize_nic_spec}
use app_runner.Machines.Devices.{
  nic_id, with_nics, device, drop_device, is_taken, requested_nic, add_nic_at, add_nic,
  on_idle_machine, remove_nic,
}
use app_runner.Machines.Rules.{machine_rule, idle_rule, device_rule, request_rule, reconciled_rule}
use app_runner.Machines.Weights.{find-id}
use app_runner.Machines.Quiet.{find-change}
use app_runner.Machines.Moves.{SameHardware}
use app_runner.Machines.Moves.Guards.{reconcile-Goes}
use app_runner.Machines.Frozen.{SoftMoves-Stands, SameHardware-trans}

drop_device-append :
    (n : Nic) (ns : List Nic)
    → device nic_id n.id ns ≡ none
    → drop_device nic_id n.id (ns ++ n ∷ []) ≡ ns
unfolding device drop_device
drop_device-append n [] h = ground arith
drop_device-append n (k ∷ ns) h = elim (Text-discrete k.id n.id) [
  | yes y ↦ absurd (ground arith)
  | no d ↦ ground (arith, drop_device-append n ns)
]

dropped :
    (u v : VirtualMachine) (k : Nic)
    → device nic_id k.id v.nics ≡ none
    → SameHardware (with_nics (v.nics ++ k ∷ []) v) u
    → SameHardware v (with_nics (drop_device nic_id k.id u.nics) u)
dropped u v k h (n, d, f, c) =
    (ap (drop_device nic_id k.id) n ∙ drop_device-append k v.nics h, d, f, c)

module _ {Host : Type 0} (p : Platform Host) where
  -- A success has added an interface of that identity.
  Adds : Text → Text → Manager Host → Result Host → Type 0
  Adds id new n r =
      (r.1 ≡ none)
      → (v : VirtualMachine) × (k : Nic) × (find id n.machines ≡ some v)
        × (k.id ≡ new)
        × (find id r.0.machines ≡ some (with_nics (v.nics ++ k ∷ []) v))

  -- A success has removed the interface of that identity.
  Drops : Text → Text → Manager Host → Result Host → Type 0
  Drops id new n r =
      (r.1 ≡ none)
      → (v : VirtualMachine) × (find id n.machines ≡ some v)
        × (find id r.0.machines ≡ some (with_nics (drop_device nic_id new v.nics) v))

  no_add : (id new : Text) (n m : Manager Host) (e : MachineError) → Adds id new n (m, some e)
  unfolding Adds
  no_add id new n m e h = absurd (ground arith)

  no_drop : (id new : Text) (n m : Manager Host) (e : MachineError) → Drops id new n (m, some e)
  unfolding Drops
  no_drop id new n m e h = absurd (ground arith)

  commit-find :
      (id : Text) (v w : VirtualMachine) (n : Manager Host)
      → find id n.machines ≡ some v
      → w.id ≡ v.id
      → (commit p id w n).1 ≡ none
      → find id (commit p id w n).0.machines ≡ some w
  unfolding commit
  commit-find id v w n f e =
      if_cases (λ (r : Result Host). r.1 ≡ none → find id r.0.machines ≡ some w)
        (p.save (change id w n.machines) n.host).1
        (λ _ _. find-change id w n.machines v f (e ∙ find-id id v n.machines f))
        (λ _ h. absurd (ground arith))

  commit-Adds :
      (id : Text) (v : VirtualMachine) (k : Nic) (n : Manager Host)
      → find id n.machines ≡ some v
      → Adds id k.id n (commit p id (with_nics (v.nics ++ k ∷ []) v) n)
  unfolding Adds
  commit-Adds id v k n f h = (v, k, f, refl, commit-find id v _ n f refl h)

  commit-Drops :
      (id new : Text) (v : VirtualMachine) (n : Manager Host)
      → find id n.machines ≡ some v
      → Drops id new n (commit p id (with_nics (drop_device nic_id new v.nics) v) n)
  unfolding Drops
  commit-Drops id new v n f h = (v, f, commit-find id v _ n f refl h)

  add_nic-Adds :
      (id new : Text) (spec : NicSpec) (m : Manager Host)
      → Adds id new (reconcile p m).0 (add_nic p id spec (some new) m)
  unfolding add_nic on_idle_machine add_nic_at requested_nic
  add_nic-Adds id new spec m =
      let n = (reconcile p m).0 in
      let Q = Adds id new n in
      request_rule Q p (normalize_nic_spec p spec) (no_add id new n m) (λ r _.
        reconciled_rule Q p m _ (no_add id new n n) (
          machine_rule Q id (no_add id new n n) (λ v f. idle_rule Q id (no_add id new n n) (λ _.
            if_cases Q (not (is_active v.status))
              (λ _.
                let k = requested_nic p v.id new r in
                if_cases Q (is_taken p k.mac_address v n) (λ _. no_add id new n n _)
                  (λ _. commit-Adds id v k n f))
              (λ _. no_add id new n n _)))))

  remove_nic-Drops :
      (id new : Text) (m : Manager Host) → Drops id new (reconcile p m).0 (remove_nic p id new m)
  unfolding remove_nic on_idle_machine
  remove_nic-Drops id new m =
      let n = (reconcile p m).0 in
      let Q = Drops id new n in
      reconciled_rule Q p m _ (no_drop id new n n) (
        machine_rule Q id (no_drop id new n n) (λ v f. idle_rule Q id (no_drop id new n n) (λ _.
          if_cases Q (not (is_active v.status))
            (λ _.
              device_rule Q p (device nic_id new v.nics) _ (no_drop id new n n)
                (λ k _. commit-Drops id new v n f))
            (λ _. no_drop id new n n _))))

  -- An interface that was added and is removed leaves no trace: where AddNIC gives it an identity
  -- that the machine's interfaces do not have, and AddNIC and then RemoveNIC of that identity report
  -- no error, the machine has the interfaces and the other hardware of before.
  pub remove_nic-add_nic :
      (id new : Text) (spec : NicSpec) (v w : VirtualMachine) (m : Manager Host)
      → find id m.machines ≡ some v
      → device nic_id new v.nics ≡ none
      → (add_nic p id spec (some new) m).1 ≡ none
      → (remove_nic p id new (add_nic p id spec (some new) m).0).1 ≡ none
      → find id (remove_nic p id new (add_nic p id spec (some new) m).0).0.machines ≡ some w
      → SameHardware v w
  unfolding Adds Drops
  remove_nic-add_nic id new spec v w m f d added removed g =
      let (v1, f1, s1) = SoftMoves-Stands (reconcile-Goes p m) id v f in
      let (v2, k, f2, e, f3) = add_nic-Adds id new spec m added in
      let (u1, g1, t1) =
        SoftMoves-Stands (reconcile-Goes p (add_nic p id spec (some new) m).0) id _ f3 in
      let (u2, g2, g3) = remove_nic-Drops id new (add_nic p id spec (some new) m).0 removed in
      let s2 : SameHardware v v2 = subst (SameHardware v) (some-injective (sym f1 ∙ f2)) s1 in
      let t2 =
        subst (SameHardware (with_nics (v2.nics ++ k ∷ []) v2)) (some-injective (sym g1 ∙ g2)) t1 in
      let d2 : device nic_id k.id v2.nics ≡ none =
        ap (λ i. device nic_id i v2.nics) e ∙ ap (device nic_id new) s2.0 ∙ d in
      let r : SameHardware v2 (with_nics (drop_device nic_id new u2.nics) u2) =
        subst (λ i. SameHardware v2 (with_nics (drop_device nic_id i u2.nics) u2)) e
          (dropped u2 v2 k d2 t2) in
      subst (SameHardware v) (some-injective (sym g3 ∙ g))
        (SameHardware-trans v v2 (with_nics (drop_device nic_id new u2.nics) u2) s2 r)
