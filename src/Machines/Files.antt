-- ===== src/Machines/Files.antt =====
-- The files of a machine (internal/vm/vm.go: createDiskFile, stageCloudInitISO, NICMACAddress).
use app_runner.Prelude.{
  Bool, true, false, Option, none, some, ◌∷◌, ◌++◌, if◌then◌else◌, Text, codes, take,
}
use app_runner.Vm.{VirtualMachine, Disk, is_blank}
use app_runner.Machines.{Platform, FileStatus, present, absent, unreadable}
use app_runner.Machines.Checks.{resolve_iso_storage_file, image_extensions}

module _ {Host : Type 0} (p : Platform Host) where
  linked_disk : Text → Disk → Option Text → Host → Host × Bool
  linked_disk path d none h = (h, false)
  linked_disk path d (some source) h = p.create_linked_disk path source d.size_gib h

  pub create_disk_file : Text → Disk → Host → Host × Bool
  unfolding linked_disk
  create_disk_file id d h =
      if is_blank d.source_image
      then p.create_disk (p.disk_path id d.id) d.size_gib h
      else linked_disk (p.disk_path id d.id) d
          (resolve_iso_storage_file p d.source_image image_extensions h) h

  -- 52:54:00 and three bytes of a digest.
  unfoldable pub nic_mac_address : Text → Text → Text
  nic_mac_address id nic = p.print_mac (82 ∷ 84 ∷ 0 ∷ take 3 (p.sha256 (id ++ codes "/" ++ nic)))

  abbrev pub staged_path : Text → Text
  staged_path id = p.cloud_init_iso id ++ codes ".new"

  abbrev pub backup_path : Text → Text
  backup_path id = p.cloud_init_iso id ++ codes ".previous"

  -- `none` where staging failed; else whether there was an ISO before.
  abbrev Staged : Type 0
  Staged = Host × Option Bool

  -- The new ISO takes its place; `had` is whether the old one was moved away.
  stage_new : VirtualMachine → Bool → Host → Staged
  stage_new v had h =
      if v.cloud_init.enabled
      then (let (h1, ok) = p.rename (staged_path v.id) (p.cloud_init_iso v.id) h in
          if ok
          then (h1, some had)
          else if had
          then ((p.rename (backup_path v.id) (p.cloud_init_iso v.id) h1).0, none)
          else (h1, none))
      else (h, some had)

  stage_old : VirtualMachine → FileStatus → Host → Staged
  unfolding stage_new
  stage_old v present h =
      let (h1, ok) = p.rename (p.cloud_init_iso v.id) (backup_path v.id) h in
      if ok then stage_new v true h1 else ((p.remove_file (staged_path v.id) h1).0, none)
  stage_old v absent h = stage_new v false h
  stage_old v unreadable h = ((p.remove_file (staged_path v.id) h).0, none)

  stage_built : VirtualMachine → Host × Bool → Staged
  unfolding stage_old
  stage_built v (h, true) = stage_old v (p.stat (p.cloud_init_iso v.id) h) h
  stage_built v (h, false) = (h, none)

  pub stage_cloud_init_iso : VirtualMachine → Host → Staged
  unfolding stage_built
  stage_cloud_init_iso v h =
      let (h1, made) = p.make_dir (p.state_dir v.id) h in
      if made
      then (let (h2, staged_gone) = p.remove_file (staged_path v.id) h1 in
          if staged_gone
          then (let (h3, backup_gone) = p.remove_file (backup_path v.id) h2 in
              if backup_gone
              then stage_built v
                  (if v.cloud_init.enabled then p.build_iso (staged_path v.id) v h3 else (h3, true))
              else (h3, none))
          else (h2, none))
      else (h1, none)

  unfoldable pub commit_iso : Text → Host → Host
  commit_iso id h = (p.remove_file (backup_path id) h).0

  unfoldable pub rollback_iso : Text → Bool → Host → Host
  rollback_iso id had h =
      let h1 = (p.remove_file (p.cloud_init_iso id) h).0 in
      let h2 = if had then (p.rename (backup_path id) (p.cloud_init_iso id) h1).0 else h1 in
      (p.remove_file (staged_path id) h2).0
