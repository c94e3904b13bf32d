-- ===== src/Machines/Moves/Definition.antt =====
-- Changing and deleting definitions, as moves.
use app_runner.Prelude.{
  ◌≡◌, refl, ◌⊎◌, inl, inr, Bool, not, ◌&&◌, Option, none, some, Text, Text-discrete, same, lookup,
  if_intro, if_cases, arith,
}
use app_runner.Vm.{VirtualMachine, CloudInit, is_active}
use app_runner.Machines.{Platform, Manager, find, change, name_in_use}
use app_runner.Machines.Files.{stage_cloud_init_iso}
use app_runner.Machines.Definition.{
  Changes, candidate, with_cloud_init, commit_staged, update_at, update, set_cloud_init,
  configure_cloud_init, delete_at, delete_machine,
}
use app_runner.Machines.Rules.{valid_rule, machine_rule, idle_rule}
use app_runner.Machines.Moves.{
  view, mac_weight, NameFree, Move, renames, rebuilds, removes, here, after, still,
}
use app_runner.Machines.Moves.Guards.{Goes, reconciled-Goes}
use app_runner.Machines.Moves.Devices.{commit-Goes}

module _ {Host : Type 0} (p : Platform Host) where
  commit_staged-Goes :
      (id : Text) (w : VirtualMachine) (m : Manager Host) (r : Host × Option Bool)
      → Move (view m) (record (view m) { machines = change id w m.machines })
      → Goes p (view m) (commit_staged p id w m r)
  unfolding commit_staged
  commit_staged-Goes id w m (h, none) st = here
  commit_staged-Goes id w m (h, some had) st = if_intro (Goes p (view m)) _ (after still st) here

  update_at-Goes :
      (id : Text) (u : Changes) (v : VirtualMachine) (m : Manager Host)
      → find id m.machines ≡ some v
      → Goes p (view m) (update_at p id v (candidate u v) m)
  unfolding update_at candidate name_in_use
  update_at-Goes id u v m f =
      let w = candidate u v in
      valid_rule (Goes p (view m)) _ (λ e. here)
        (if_cases (Goes p (view m)) (not (same w.name v.name) && name_in_use w.name id m)
          (λ _. here)
          (λ h.
            let free : (w.name ≡ v.name) ⊎ NameFree w.name id (view m) =
              elim (Text-discrete w.name v.name) [
                | yes e ↦ inl e
                | no n ↦ inr (ground arith, ground arith)
              ] in
            let st : Move (view m) (record (view m) { machines = change id w m.machines }) =
              renames id v w f refl refl (refl, refl, refl, refl) free in
            if_intro (Goes p (view m)) (not (same v.name w.name) && w.cloud_init.enabled)
              (commit_staged-Goes id w m (stage_cloud_init_iso p w m.host) st)
              (commit-Goes p id w m st)))

  pub update-Goes : (id : Text) (u : Changes) (m : Manager Host) → Goes p (view m) (update p id u m)
  unfolding update
  update-Goes id u m = reconciled-Goes p m _ (λ n.
      machine_rule (Goes p (view n)) id (λ e. here)
        (λ v f. idle_rule (Goes p (view n)) id (λ e. here) (λ i. update_at-Goes id u v n f)))

  set_cloud_init-Goes :
      (id : Text) (c : CloudInit) (v : VirtualMachine) (m : Manager Host)
      → find id m.machines ≡ some v
      → Goes p (view m) (set_cloud_init p id c v m)
  unfolding set_cloud_init mac_weight
  set_cloud_init-Goes id c v m f = if_intro (Goes p (view m)) _ here (
      if_cases (Goes p (view m)) (not (is_active v.status))
        (λ a.
          commit_staged-Goes id (with_cloud_init c v) m _
            (rebuilds id v _ f refl refl refl (ground arith) (λ x. inl (omega arith))))
        (λ _. here))

  pub configure_cloud_init-Goes :
      (id : Text) (c : CloudInit) (m : Manager Host)
      → Goes p (view m) (configure_cloud_init p id c m)
  unfolding configure_cloud_init
  configure_cloud_init-Goes id c m =
      valid_rule (Goes p (view m)) _ (λ e. here)
        (reconciled-Goes p m _ (λ n.
          machine_rule (Goes p (view n)) id (λ e. here)
            (λ v f.
              idle_rule (Goes p (view n)) id (λ e. here) (λ i. set_cloud_init-Goes id _ v n f))))

  delete_at-Goes :
      (id : Text) (v : VirtualMachine) (m : Manager Host)
      → find id m.machines ≡ some v
      → lookup id m.busy ≡ none
      → Goes p (view m) (delete_at p id v m)
  unfolding delete_at
  delete_at-Goes id v m f i =
      let gone = after still (removes id v f i) in
      if_intro (Goes p (view m)) _ (if_intro (Goes p (view m)) _ gone gone) here

  pub delete_machine-Goes : (id : Text) (m : Manager Host) → Goes p (view m) (delete_machine p id m)
  unfolding delete_machine
  delete_machine-Goes id m = reconciled-Goes p m _ (λ n.
      machine_rule (Goes p (view n)) id (λ e. here)
        (λ v f.
          idle_rule (Goes p (view n)) id (λ e. here)
            (λ i. if_intro (Goes p (view n)) _ (delete_at-Goes id v n f i) here)))
