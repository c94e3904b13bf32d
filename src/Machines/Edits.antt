-- ===== src/Machines/Edits.antt =====
-- What an operation that reports an error has changed: where a save fails, the definitions are
-- those of before.
use app_runner.Prelude.{
  ◌≡◌, refl, ◌⊎◌, inl, inr, Bool, not, ◌&&◌, Option, none, some, List, Text, same, if_intro,
  equal_fold, arith,
}
use app_runner.Vm.{VirtualMachine, Cdrom, CloudInit, IpmiConfig, is_active, no_ipmi, Nic}
use app_runner.Machines.{
  Platform, Manager, MachineError, Result, Failure, change, reconcile, reconciled, commit,
  mac_address_in_use, name_in_use,
}
use app_runner.Machines.Checks.{
  NicSpec, normalize_nic_spec, normalize_storage_name, validate_optional_iso,
}
use app_runner.Machines.Devices.{
  add_nic_at, add_nic, on_idle_machine, update_nic_at, update_nic, remove_nic, device, nic_id,
  cdrom_id, with_ipmi, same_definition, with_cdroms, replace_device, is_taken, requested_nic,
}
use app_runner.Machines.Media.{
  on_idle, add_cdrom, change_medium, update_cdrom, remove_cdrom, save_ipmi, enable_ipmi,
  configure_ipmi, trimmed, medium,
}
use app_runner.Machines.Files.{stage_cloud_init_iso}
use app_runner.Machines.Definition.{
  Changes, candidate, with_cloud_init, commit_staged, update_at, update, set_cloud_init,
  configure_cloud_init, same_cloud_init,
}
use app_runner.Machines.Rules.{
  valid_rule, machine_rule, idle_rule, device_rule, id_rule, request_rule, reconciled_rule,
}

-- The operations that change one definition and save it.
pub data Edit : Type 0 where
  adding_nic : Text → NicSpec → Option Text → Edit
  updating_nic : Text → Text → NicSpec → Edit
  removing_nic : Text → Text → Edit
  adding_cdrom : Text → Text → Option Text → Edit
  updating_cdrom : Text → Text → Text → Edit
  removing_cdrom : Text → Text → Edit
  configuring_ipmi : Text → IpmiConfig → Edit
  updating : Text → Changes → Edit
  configuring_cloud_init : Text → CloudInit → Edit

module _ {Host : Type 0} (p : Platform Host) where
  unfoldable pub edit : Edit → Manager Host → Result Host
  unfolding add_nic update_nic remove_nic add_cdrom update_cdrom remove_cdrom configure_ipmi update
      configure_cloud_init
  edit (adding_nic id spec new_id) m = add_nic p id spec new_id m
  edit (updating_nic id nic spec) m = update_nic p id nic spec m
  edit (removing_nic id nic) m = remove_nic p id nic m
  edit (adding_cdrom id iso new_id) m = add_cdrom p id iso new_id m
  edit (updating_cdrom id drive iso) m = update_cdrom p id drive iso m
  edit (removing_cdrom id drive) m = remove_cdrom p id drive m
  edit (configuring_ipmi id c) m = configure_ipmi p id c m
  edit (updating id u) m = update p id u m
  edit (configuring_cloud_init id c) m = configure_cloud_init p id c m

  -- The machines of before, or of after the reconciliation.
  Unchanged : Manager Host → Result Host → Type 0
  Unchanged m r =
      (r.1 ≡ none) ⊎ (r.0.machines ≡ m.machines) ⊎ (r.0.machines ≡ (reconcile p m).0.machines)

  -- What follows the reconciliation succeeds, or keeps the machines.
  Kept : List VirtualMachine → Result Host → Type 0
  Kept vs r = (r.1 ≡ none) ⊎ (r.0.machines ≡ vs)

  done : (vs : List VirtualMachine) (a : Manager Host) → Kept vs (a, none)
  unfolding Kept
  done vs a = inl refl

  early : (n : Manager Host) (e : MachineError) → Kept n.machines (n, some e)
  unfolding Kept
  early n e = inr refl

  stays :
      (vs : List VirtualMachine) (a : Manager Host) (f : Failure) → a.machines ≡ vs → Kept vs (a, f)
  unfolding Kept
  stays vs a f h = inr h

  refuses : (m : Manager Host) (e : MachineError) → Unchanged m (m, some e)
  unfolding Unchanged
  refuses m e = inr (inl refl)

  Kept-Unchanged : (m : Manager Host) (r : Result Host) → Kept m.machines r → Unchanged m r
  unfolding Kept Unchanged
  Kept-Unchanged m r (inl h) = inl h
  Kept-Unchanged m r (inr h) = inr (inl h)

  reconciled_rest :
      (m : Manager Host) (r : Result Host) → Kept (reconcile p m).0.machines r → Unchanged m r
  unfolding Kept Unchanged
  reconciled_rest m r (inl h) = inl h
  reconciled_rest m r (inr h) = inr (inr h)

  commit-Kept :
      (id : Text) (w : VirtualMachine) (m : Manager Host) → Kept m.machines (commit p id w m)
  unfolding commit
  commit-Kept id w m =
      if_intro (Kept m.machines) (p.save (change id w m.machines) m.host).1 (done _ _)
        (stays _ _ _ refl)

  commit_staged-Kept :
      (id : Text) (w : VirtualMachine) (m : Manager Host) (r : Host × Option Bool)
      → Kept m.machines (commit_staged p id w m r)
  unfolding commit_staged
  commit_staged-Kept id w m (h, none) = stays _ _ _ refl
  commit_staged-Kept id w m (h, some had) =
      if_intro (Kept m.machines) (p.save (change id w m.machines) h).1 (done _ _) (stays _ _ _ refl)

  reconciled-Unchanged :
      (m : Manager Host) (f : Manager Host → Result Host)
      → ((n : Manager Host) → Kept n.machines (f n))
      → Unchanged m (reconciled p m f)
  reconciled-Unchanged m f k =
      reconciled_rule (Unchanged m) p m f (λ e. reconciled_rest m _ (early (reconcile p m).0 e))
        (reconciled_rest m (f (reconcile p m).0) (k (reconcile p m).0))

  on_idle_machine-Unchanged :
      (id : Text) (m : Manager Host) (f : VirtualMachine → Manager Host → Result Host)
      → ((v : VirtualMachine) (n : Manager Host) → Kept n.machines (f v n))
      → Unchanged m (on_idle_machine p id m f)
  unfolding on_idle_machine
  on_idle_machine-Unchanged id m f k = reconciled-Unchanged m _ (λ n.
      machine_rule (Kept n.machines) id (early n)
        (λ v h. idle_rule (Kept n.machines) id (early n) (λ i. k v n)))

  on_idle-Unchanged :
      (id : Text) (m : Manager Host) (f : VirtualMachine → Result Host)
      → ((v : VirtualMachine) → Kept m.machines (f v))
      → Unchanged m (on_idle p id m f)
  unfolding on_idle
  on_idle-Unchanged id m f k =
      machine_rule (Unchanged m) id (refuses m)
        (λ v h. idle_rule (Unchanged m) id (refuses m) (λ i. Kept-Unchanged m (f v) (k v)))

  update_nic_at-Kept :
      (id : Text) (v : VirtualMachine) (n k : Nic) (m : Manager Host)
      → Kept m.machines (update_nic_at p id v n k m)
  unfolding update_nic_at
  update_nic_at-Kept id v n k m = if_intro (Kept m.machines) (same_definition k n) (done _ _) (
      if_intro (Kept m.machines) (not (is_active v.status))
        (if_intro (Kept m.machines)
          (not (equal_fold k.mac_address n.mac_address) && mac_address_in_use k.mac_address m)
          (stays _ _ _ refl) (commit-Kept id _ m))
        (stays _ _ _ refl))

  change_medium-Kept :
      (id : Text) (v : VirtualMachine) (c : Cdrom) (name : Text) (m : Manager Host)
      → Kept m.machines (change_medium p id v c name m)
  unfolding change_medium
  change_medium-Kept id v c name m =
      let w =
        with_cdroms (replace_device cdrom_id c.id (record c { iso_name = name }) v.cdroms) v in
      let (h, ok) = p.change_media v c.id (medium p name) m.host in
      if_intro (Kept m.machines) (is_active v.status)
        (if_intro (Kept m.machines) ok
          (if_intro (Kept m.machines) (p.save (change id w m.machines) h).1 (done _ _)
            (stays _ _ _ refl))
          (stays _ _ _ refl))
        (commit-Kept id _ m)

  save_ipmi-Kept :
      (id : Text) (v : VirtualMachine) (c : IpmiConfig) (m : Manager Host)
      → Kept m.machines (save_ipmi p id v c m)
  unfolding save_ipmi
  save_ipmi-Kept id v c m =
      if_intro (Kept m.machines) (p.save (change id (with_ipmi c v) m.machines) m.host).1 (done _ _)
        (stays _ _ _ refl)

  enable_ipmi-Kept :
      (id : Text) (v : VirtualMachine) (c : IpmiConfig) (m : Manager Host)
      → Kept m.machines (enable_ipmi p id v c m)
  unfolding enable_ipmi
  enable_ipmi-Kept id v c m = valid_rule (Kept m.machines) _ (early m) (
      if_intro (Kept m.machines) (p.configure_ipmi (with_ipmi c v) m.host).1
        (save_ipmi-Kept id v c (record m { host = (p.configure_ipmi (with_ipmi c v) m.host).0 }))
        (stays _ _ _ refl))

  update_at-Kept :
      (id : Text) (v w : VirtualMachine) (m : Manager Host) → Kept m.machines (update_at p id v w m)
  unfolding update_at
  update_at-Kept id v w m = valid_rule (Kept m.machines) _ (early m) (
      if_intro (Kept m.machines) (not (same w.name v.name) && name_in_use w.name id m)
        (stays _ _ _ refl)
        (if_intro (Kept m.machines) (not (same v.name w.name) && w.cloud_init.enabled)
          (commit_staged-Kept id w m (stage_cloud_init_iso p w m.host)) (commit-Kept id w m)))

  set_cloud_init-Kept :
      (id : Text) (c : CloudInit) (v : VirtualMachine) (m : Manager Host)
      → Kept m.machines (set_cloud_init p id c v m)
  unfolding set_cloud_init
  set_cloud_init-Kept id c v m =
      if_intro (Kept m.machines) (same_cloud_init v.cloud_init c) (done _ _) (
        if_intro (Kept m.machines) (not (is_active v.status))
          (commit_staged-Kept id _ m (stage_cloud_init_iso p (with_cloud_init c v) m.host))
          (stays _ _ _ refl))

  edit-Unchanged : (e : Edit) (m : Manager Host) → Unchanged m (edit e m)
  unfolding edit add_nic add_nic_at update_nic remove_nic add_cdrom update_cdrom remove_cdrom
      configure_ipmi update configure_cloud_init
  edit-Unchanged (adding_nic id spec new_id) m =
      request_rule (Unchanged m) p (normalize_nic_spec p spec) (refuses m) (λ r _.
        on_idle_machine-Unchanged id m _ (λ v n.
          if_intro (Kept n.machines) (not (is_active v.status))
            (id_rule (Kept n.machines) p new_id (early n) (λ nic _.
              if_intro (Kept n.machines) (is_taken p (requested_nic p v.id nic r).mac_address v n)
                (early n _) (commit-Kept id _ n)))
            (early n _)))
  edit-Unchanged (updating_nic id nic spec) m =
      request_rule (Unchanged m) p (normalize_nic_spec p spec) (refuses m) (λ r _.
        on_idle_machine-Unchanged id m _ (λ v n.
          device_rule (Kept n.machines) p (device nic_id nic v.nics) _ (early n)
            (λ k _. update_nic_at-Kept id v k _ n)))
  edit-Unchanged (removing_nic id nic) m = on_idle_machine-Unchanged id m _ (λ v n.
      if_intro (Kept n.machines) (not (is_active v.status))
        (device_rule (Kept n.machines) p (device nic_id nic v.nics) _ (early n)
          (λ k _. commit-Kept id _ n))
        (early n _))
  edit-Unchanged (adding_cdrom id iso new_id) m =
      valid_rule (Unchanged m) (validate_optional_iso p (normalize_storage_name p iso) m.host)
        (refuses m)
        (on_idle-Unchanged id m _ (λ v.
          if_intro (Kept m.machines) (not (is_active v.status))
            (id_rule (Kept m.machines) p new_id (early m) (λ d _. commit-Kept id _ m)) (early m _)))
  edit-Unchanged (updating_cdrom id drive iso) m =
      valid_rule (Unchanged m) (validate_optional_iso p (normalize_storage_name p iso) m.host)
        (refuses m)
        (on_idle-Unchanged id m _ (λ v.
          device_rule (Kept m.machines) p (device cdrom_id drive v.cdroms) _ (early m) (λ c _.
            if_intro (Kept m.machines) (same c.iso_name (normalize_storage_name p iso)) (done _ _)
              (change_medium-Kept id v c _ m))))
  edit-Unchanged (removing_cdrom id drive) m = on_idle-Unchanged id m _ (λ v.
      if_intro (Kept m.machines) (not (is_active v.status))
        (device_rule (Kept m.machines) p (device cdrom_id drive v.cdroms) _ (early m)
          (λ c _. commit-Kept id _ m))
        (early m _))
  edit-Unchanged (configuring_ipmi id c) m = on_idle-Unchanged id m _ (λ v.
      if_intro (Kept m.machines) c.enabled (enable_ipmi-Kept id v (trimmed p c v) m)
        (save_ipmi-Kept id v no_ipmi (record m { host = p.disable_ipmi v m.host })))
  edit-Unchanged (updating id u) m = reconciled-Unchanged m _ (λ n.
      machine_rule (Kept n.machines) id (early n) (λ v f.
        idle_rule (Kept n.machines) id (early n) (λ i. update_at-Kept id v (candidate u v) n)))
  edit-Unchanged (configuring_cloud_init id c) m = valid_rule (Unchanged m) _ (refuses m) (
      reconciled-Unchanged m _ (λ n.
        machine_rule (Kept n.machines) id (early n)
          (λ v f. idle_rule (Kept n.machines) id (early n) (λ i. set_cloud_init-Kept id _ v n))))

  -- An operation on a definition that reports an error, of saving included, leaves every definition
  -- as it was, or as the reconciliation before it left it; the operations are AddNIC, UpdateNIC,
  -- RemoveNIC, AddCDROM, UpdateCDROM, RemoveCDROM, ConfigureIPMI, Update and ConfigureCloudInit, and
  -- not SetIPMIBootFlags, which keeps its change where the save fails.
  pub edit_unchanged :
      (e : Edit) (m : Manager Host) (err : MachineError)
      → (edit e m).1 ≡ some err
      → ((edit e m).0.machines ≡ m.machines) ⊎ ((edit e m).0.machines ≡ (reconcile p m).0.machines)
  unfolding Unchanged
  edit_unchanged e m err h = elim (edit-Unchanged e m) [ inl n ↦ absurd (ground arith) | inr u ↦ u ]
