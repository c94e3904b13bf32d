-- ===== src/Machines/Moves/Devices.antt =====
-- Adding, changing and removing network interfaces, as moves.
use app_runner.Prelude.{
  ◌≤◌, ◌≡◌, refl, sym, subst, ◌⊎◌, inl, inr, false, not, ◌&&◌, Option, some, [], ◌∷◌, ◌++◌, Text,
  Text-discrete, same, fold, equal_fold, if_intro, if_cases, arith,
}
use app_runner.Vm.{VirtualMachine, Nic, is_active, has_mac_address}
use app_runner.Machines.{Platform, Manager, Result, find, change, commit, mac_address_in_use}
use app_runner.Machines.Checks.{NicSpec, normalize_nic_spec}
use app_runner.Machines.Devices.{
  nic_id, with_nics, device, replace_device, is_taken, requested_nic, add_nic_at, add_nic,
  on_idle_machine, same_definition, updated_nic, update_nic_at, update_nic, remove_nic,
}
use app_runner.Machines.Rules.{machine_rule, idle_rule, device_rule, id_rule, request_rule}
use app_runner.Machines.Weights.{
  exists-count, count-append, count-replace_device, count-drop_device, device-id, find-tally,
  mac_address_in_use-total,
}
use app_runner.Machines.Moves.{
  View, view, count, total, mac_weight, Move, rebuilds, here, after, still,
}
use app_runner.Machines.Moves.Guards.{Goes, reconciled-Goes}

-- The addresses that a machine gains are used nowhere.
abbrev pub Gains : View → VirtualMachine → VirtualMachine → Type 0
Gains a v w =
    (x : Text)
    → (mac_weight x w ≤ mac_weight x v) ⊎ ((mac_weight x w ≤ 1) × (total (mac_weight x) a ≡ 0))

module _ {Host : Type 0} (p : Platform Host) where
  -- A committed change goes where the change goes; one that is taken back stays.
  pub commit-Goes :
      (id : Text) (w : VirtualMachine) (m : Manager Host)
      → Move (view m) (record (view m) { machines = change id w m.machines })
      → Goes p (view m) (commit p id w m)
  unfolding commit
  commit-Goes id w m st =
      if_intro (Goes p (view m)) (p.save (change id w m.machines) m.host).1 (after still st) here

  pub on_idle_machine-Goes :
      (id : Text) (m : Manager Host) (f : VirtualMachine → Manager Host → Result Host)
      → ((v : VirtualMachine) (n : Manager Host)
          → find id n.machines ≡ some v
          → Goes p (view n) (f v n))
      → Goes p (view m) (on_idle_machine p id m f)
  unfolding on_idle_machine
  on_idle_machine-Goes id m f g = reconciled-Goes p m _ (λ n.
      machine_rule (Goes p (view n)) id (λ e. here)
        (λ v h. idle_rule (Goes p (view n)) id (λ e. here) (λ i. g v n h)))

  pub with_nics-Gains :
      (v : VirtualMachine) (n : Nic) (m : Manager Host)
      → is_taken p n.mac_address v m ≡ false
      → Gains (view m) v (with_nics (v.nics ++ n ∷ []) v)
  unfolding is_taken mac_weight has_mac_address count
  with_nics-Gains v n m h x = elim (Text-discrete (fold n.mac_address) x) [
    | yes y ↦ inr (
        subst
          (λ z.
            (mac_weight z (with_nics (v.nics ++ n ∷ []) v) ≤ 1)
            × (total (mac_weight z) (view m) ≡ 0))
          y
          (
            ground (
              arith,
              count-append (λ (k : Nic). same (fold k.mac_address) (fold n.mac_address)) v.nics
                  (n ∷ []),
              exists-count (λ (k : Nic). same (fold k.mac_address) (fold n.mac_address)) v.nics,
            ),
            mac_address_in_use-total n.mac_address m (ground arith),
          ))
    | no d ↦
        inl
          (ground (arith, count-append (λ (k : Nic). same (fold k.mac_address) x) v.nics (n ∷ [])))
  ]

  add_nic_at-Goes :
      (id : Text) (v : VirtualMachine) (n : Nic) (m : Manager Host)
      → find id m.machines ≡ some v
      → is_active v.status ≡ false
      → Goes p (view m) (add_nic_at p id v n m)
  unfolding add_nic_at
  add_nic_at-Goes id v n m f a =
      if_cases (Goes p (view m)) (is_taken p n.mac_address v m) (λ _. here)
        (λ h. commit-Goes id _ m (rebuilds id v _ f refl refl refl a (with_nics-Gains v n m h)))

  pub add_nic-Goes :
      (id : Text) (spec : NicSpec) (new_id : Option Text) (m : Manager Host)
      → Goes p (view m) (add_nic p id spec new_id m)
  unfolding add_nic
  add_nic-Goes id spec new_id m =
      request_rule (Goes p (view m)) p (normalize_nic_spec p spec) (λ e. here)
        (λ r _. on_idle_machine-Goes id m _ (λ v n f.
          if_cases (Goes p (view n)) (not (is_active v.status))
            (λ a.
              id_rule (Goes p (view n)) p new_id (λ e. here)
                (λ nic _. add_nic_at-Goes id v (requested_nic p v.id nic r) n f (ground arith)))
            (λ _. here)))

  replaced-Gains :
      (id : Text) (v : VirtualMachine) (n k : Nic) (m : Manager Host)
      → find id m.machines ≡ some v
      → device nic_id n.id v.nics ≡ some n
      → (not (equal_fold k.mac_address n.mac_address) && mac_address_in_use k.mac_address m) ≡ false
      → Gains (view m) v (with_nics (replace_device nic_id n.id k v.nics) v)
  unfolding mac_weight total
  replaced-Gains id v n k m f d h x =
      let c =
        count-replace_device nic_id (λ (j : Nic). same (fold j.mac_address) x) n.id n k v.nics d in
      elim (Text-discrete (fold k.mac_address) x) [
        | yes y ↦ elim (Text-discrete (fold k.mac_address) (fold n.mac_address)) [
          | yes s ↦ inl (ground (arith, c))
          | no e ↦
              let z : total (mac_weight x) (view m) ≡ 0 =
                subst (λ t. total (mac_weight t) (view m) ≡ 0) y
                  (mac_address_in_use-total k.mac_address m (ground arith)) in
              inr (ground (arith, c, find-tally (mac_weight x) id v m.machines f), z)
        ]
        | no e ↦ inl (ground (arith, c))
      ]

  update_nic_at-Goes :
      (id : Text) (v : VirtualMachine) (n k : Nic) (m : Manager Host)
      → find id m.machines ≡ some v
      → device nic_id n.id v.nics ≡ some n
      → Goes p (view m) (update_nic_at p id v n k m)
  unfolding update_nic_at
  update_nic_at-Goes id v n k m f d = if_intro (Goes p (view m)) (same_definition k n) here (
      if_cases (Goes p (view m)) (not (is_active v.status))
        (λ a.
          if_cases (Goes p (view m))
            (not (equal_fold k.mac_address n.mac_address) && mac_address_in_use k.mac_address m)
            (λ _. here)
            (λ h.
              commit-Goes id _ m (
                rebuilds id v _ f refl refl refl (ground arith) (replaced-Gains id v n k m f d h))))
        (λ _. here))

  pub update_nic-Goes :
      (id nic : Text) (spec : NicSpec) (m : Manager Host)
      → Goes p (view m) (update_nic p id nic spec m)
  unfolding update_nic
  update_nic-Goes id nic spec m =
      request_rule (Goes p (view m)) p (normalize_nic_spec p spec) (λ e. here)
        (λ r _. on_idle_machine-Goes id m _ (λ v n f.
          device_rule (Goes p (view n)) p (device nic_id nic v.nics) _ (λ e. here)
            (λ k d. update_nic_at-Goes id v k (updated_nic p k r) n f (
              subst (λ i. device nic_id i v.nics ≡ some k) (sym (device-id nic_id nic k v.nics d))
                d))))

  pub remove_nic-Goes : (id nic : Text) (m : Manager Host) → Goes p (view m) (remove_nic p id nic m)
  unfolding remove_nic mac_weight
  remove_nic-Goes id nic m = on_idle_machine-Goes id m _ (λ v n f.
      if_cases (Goes p (view n)) (not (is_active v.status))
        (λ a.
          device_rule (Goes p (view n)) p (device nic_id nic v.nics) _ (λ e. here)
            (λ k d. commit-Goes id _ n (
              rebuilds id v _ f refl refl refl (ground arith)
                (λ x. inl (count-drop_device nic_id _ nic v.nics)))))
        (λ _. here))
