-- ===== src/Machines/Moves/Media.antt =====
-- Disks, drives and the BMC, as moves.
use app_runner.Prelude.{
  ℕ, ◌≡◌, refl, inl, inr, Bool, false, not, ◌&&◌, Option, none, some, List, ◌∷◌, [], ◌++◌, Text,
  delete, if_intro, if_cases, arith,
}
use app_runner.Vm.{VirtualMachine, Disk, Cdrom, IpmiConfig, no_ipmi, is_active}
use app_runner.Machines.{Platform, Manager, adding_disk, Result, find, change}
use app_runner.Machines.Checks.{DiskSpec}
use app_runner.Machines.Devices.{
  device, drop_device, disk_id, cdrom_id, with_disks, with_cdroms, with_ipmi,
}
use app_runner.Machines.Media.{
  begin_add_disk, remove_disk_file, add_disk_at, finish_add_disk, remove_disk_at, removing_path,
  is_absent, on_idle, remove_disk, add_cdrom, change_medium, update_cdrom, remove_cdrom, save_ipmi,
  enable_ipmi, trimmed, configure_ipmi, set_ipmi_boot_flags,
}
use app_runner.Machines.Rules.{valid_rule, machine_rule, idle_rule, device_rule, id_rule}
use app_runner.Machines.Moves.{
  View, view, mac_weight, Move, switches, rebuilds, locks, unlocks, here, after, still, SoftMoves,
  softly, only,
}
use app_runner.Machines.Moves.Guards.{Goes, Moves-append}
use app_runner.Machines.Moves.Devices.{commit-Goes}

module _ {Host : Type 0} (p : Platform Host) where
  -- The disks of a machine that is not active change.
  with_disks-Move :
      (id : Text) (v : VirtualMachine) (ds : List Disk) (a : View)
      → find id a.machines ≡ some v
      → is_active v.status ≡ false
      → Move a (record a { machines = change id (with_disks ds v) a.machines })
  unfolding mac_weight
  with_disks-Move id v ds a f i =
      rebuilds id v (with_disks ds v) f refl refl refl i (λ x. inl (omega arith))

  pub begin_add_disk-Goes :
      (id : Text) (spec : DiskSpec) (new_id : Option Text) (m : Manager Host)
      → Goes p (view m) (begin_add_disk p id spec new_id m)
  unfolding begin_add_disk
  begin_add_disk-Goes id spec new_id m =
      valid_rule (Goes p (view m)) _ (λ e. here)
        (machine_rule (Goes p (view m)) id (λ e. here)
          (λ v f.
            if_cases (Goes p (view m)) (not (is_active v.status))
              (λ a.
                idle_rule (Goes p (view m)) id (λ e. here)
                  (λ i.
                    id_rule (Goes p (view m)) p new_id (λ e. here)
                      (λ d _. after still (locks id adding_disk v f (ground arith)))))
              (λ _. here)))

  add_disk_at-Goes :
      (id : Text) (d : Disk) (o : Option VirtualMachine) (m : Manager Host)
      → find id m.machines ≡ o
      → ((v : VirtualMachine) → find id m.machines ≡ some v → is_active v.status ≡ false)
      → Goes p (view m) (add_disk_at p id d o m)
  unfolding add_disk_at remove_disk_file
  add_disk_at-Goes id d none m f a = here
  add_disk_at-Goes id d (some v) m f a =
      if_intro (Goes p (view m)) _
        (after still (with_disks-Move id v (v.disks ++ d ∷ []) (view m) f (a v f))) here

  -- AddDisk goes on with a machine that is not active.
  pub finish_add_disk-Goes :
      (created : Bool) (id : Text) (d : Disk) (m : Manager Host)
      → ((v : VirtualMachine) → find id m.machines ≡ some v → is_active v.status ≡ false)
      → Goes p (view m) (finish_add_disk p created id d m)
  unfolding finish_add_disk
  finish_add_disk-Goes created id d m a =
      let m1 : Manager Host = record m { busy = delete id m.busy } in
      let free : SoftMoves (view m) (view m1) = softly still (unlocks id) tt in
      if_intro (Goes p (view m)) created
        (Moves-append free (add_disk_at-Goes id d (find id m.machines) m1 refl a)) (only free)

  on_idle-Goes :
      (id : Text) (m : Manager Host) (f : VirtualMachine → Result Host)
      → ((v : VirtualMachine) → find id m.machines ≡ some v → Goes p (view m) (f v))
      → Goes p (view m) (on_idle p id m f)
  unfolding on_idle
  on_idle-Goes id m f g =
      machine_rule (Goes p (view m)) id (λ e. here)
        (λ v h. idle_rule (Goes p (view m)) id (λ e. here) (λ i. g v h))

  remove_disk_at-Goes :
      (id : Text) (v : VirtualMachine) (d : Disk) (m : Manager Host)
      → find id m.machines ≡ some v
      → is_active v.status ≡ false
      → Goes p (view m) (remove_disk_at p id v d m)
  unfolding remove_disk_at
  remove_disk_at-Goes id v d m f a =
      let path = p.disk_path id d.id in
      let ds = drop_device disk_id d.id v.disks in
      let (h, moved) = p.rename path (removing_path p id d) m.host in
      let (h1, ok) = p.save (change id (with_disks ds v) m.machines) h in
      let gone = after still (with_disks-Move id v ds (view m) f a) in
      if_intro (Goes p (view m)) (not moved && not (is_absent (p.stat path m.host))) here (
        if_intro (Goes p (view m)) ok
          (if_intro (Goes p (view m)) (p.remove_file (removing_path p id d) h1).1 gone gone) here)

  pub remove_disk-Goes :
      (id disk : Text) (m : Manager Host) → Goes p (view m) (remove_disk p id disk m)
  unfolding remove_disk
  remove_disk-Goes id disk m = on_idle-Goes id m _ (λ v f.
      if_cases (Goes p (view m)) (not (is_active v.status))
        (λ a.
          device_rule (Goes p (view m)) p (device disk_id disk v.disks) _ (λ e. here)
            (λ d _. remove_disk_at-Goes id v d m f (ground arith)))
        (λ _. here))

  -- The drives change, or the BMC: the hardware and the power stay.
  with_cdroms-Move :
      (id : Text) (v : VirtualMachine) (cs : List Cdrom) (a : View)
      → find id a.machines ≡ some v
      → Move a (record a { machines = change id (with_cdroms cs v) a.machines })
  with_cdroms-Move id v cs a f =
      switches id v (with_cdroms cs v) f refl refl (refl, refl, refl, refl) (inr (inl refl))

  with_ipmi-Move :
      (id : Text) (v : VirtualMachine) (c : IpmiConfig) (a : View)
      → find id a.machines ≡ some v
      → Move a (record a { machines = change id (with_ipmi c v) a.machines })
  with_ipmi-Move id v c a f =
      switches id v (with_ipmi c v) f refl refl (refl, refl, refl, refl) (inr (inl refl))

  pub add_cdrom-Goes :
      (id iso : Text) (new_id : Option Text) (m : Manager Host)
      → Goes p (view m) (add_cdrom p id iso new_id m)
  unfolding add_cdrom
  add_cdrom-Goes id iso new_id m =
      valid_rule (Goes p (view m)) _ (λ e. here)
        (on_idle-Goes id m _ (λ v f.
          if_intro (Goes p (view m)) (not (is_active v.status))
            (id_rule (Goes p (view m)) p new_id (λ e. here)
              (λ d _. commit-Goes p id _ m (with_cdroms-Move id v _ (view m) f)))
            here))

  change_medium-Goes :
      (id : Text) (v : VirtualMachine) (c : Cdrom) (name : Text) (m : Manager Host)
      → find id m.machines ≡ some v
      → Goes p (view m) (change_medium p id v c name m)
  unfolding change_medium
  change_medium-Goes id v c name m f =
      let st = with_cdroms-Move id v _ (view m) f in
      if_intro (Goes p (view m)) (is_active v.status)
        (if_intro (Goes p (view m)) _ (if_intro (Goes p (view m)) _ (after still st) here) here)
        (commit-Goes p id _ m st)

  pub update_cdrom-Goes :
      (id drive iso : Text) (m : Manager Host) → Goes p (view m) (update_cdrom p id drive iso m)
  unfolding update_cdrom
  update_cdrom-Goes id drive iso m =
      valid_rule (Goes p (view m)) _ (λ e. here)
        (on_idle-Goes id m _ (λ v f.
          device_rule (Goes p (view m)) p (device cdrom_id drive v.cdroms) _ (λ e. here)
            (λ c _. if_intro (Goes p (view m)) _ here (change_medium-Goes id v c _ m f))))

  pub remove_cdrom-Goes :
      (id drive : Text) (m : Manager Host) → Goes p (view m) (remove_cdrom p id drive m)
  unfolding remove_cdrom
  remove_cdrom-Goes id drive m = on_idle-Goes id m _ (λ v f.
      if_intro (Goes p (view m)) (not (is_active v.status))
        (device_rule (Goes p (view m)) p (device cdrom_id drive v.cdroms) _ (λ e. here)
          (λ c _. commit-Goes p id _ m (with_cdroms-Move id v _ (view m) f)))
        here)

  save_ipmi-Goes :
      (id : Text) (v : VirtualMachine) (c : IpmiConfig) (m : Manager Host)
      → find id m.machines ≡ some v
      → Goes p (view m) (save_ipmi p id v c m)
  unfolding save_ipmi
  save_ipmi-Goes id v c m f =
      if_intro (Goes p (view m)) _ (after still (with_ipmi-Move id v c (view m) f)) here

  enable_ipmi-Goes :
      (id : Text) (v : VirtualMachine) (c : IpmiConfig) (m : Manager Host)
      → find id m.machines ≡ some v
      → Goes p (view m) (enable_ipmi p id v c m)
  unfolding enable_ipmi
  enable_ipmi-Goes id v c m f =
      valid_rule (Goes p (view m)) _ (λ e. here)
        (if_intro (Goes p (view m)) _
          (save_ipmi-Goes id v c (record m { host = (p.configure_ipmi (with_ipmi c v) m.host).0 })
            f)
          here)

  pub configure_ipmi-Goes :
      (id : Text) (c : IpmiConfig) (m : Manager Host) → Goes p (view m) (configure_ipmi p id c m)
  unfolding configure_ipmi
  configure_ipmi-Goes id c m = on_idle-Goes id m _ (λ v f.
      if_intro (Goes p (view m)) c.enabled (enable_ipmi-Goes id v (trimmed p c v) m f)
        (save_ipmi-Goes id v no_ipmi (record m { host = p.disable_ipmi v m.host }) f))

  pub set_ipmi_boot_flags-Goes :
      (id : Text) (boot : ℕ) (persistent : Bool) (m : Manager Host)
      → Goes p (view m) (set_ipmi_boot_flags p id boot persistent m)
  unfolding set_ipmi_boot_flags
  set_ipmi_boot_flags-Goes id boot persistent m =
      machine_rule (Goes p (view m)) id (λ e. here)
        (λ v f.
          let st = after still (with_ipmi-Move id v _ (view m) f) in
          if_intro (Goes p (view m)) _ st st)
