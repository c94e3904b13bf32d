-- ===== src/Machines/Started.antt =====
-- What Start has done when it returns.
use app_runner.Machines.Moves.{SameHardware}
use app_runner.Vm.Bridges.{nic-bridges, not_blank}
use app_runner.Prelude.{
  ◌&&◌, List, [], ◌∷◌, In, exists_none, some-injective, ℕ, ◌≡◌, ◌≢◌, refl, ap, sym, subst, ◌∙◌, ◌⊎◌,
  true, false, not, Option, none, some, Text, Text-discrete, lookup, arith, inl, inr, if_intro,
  if_cases,
}
use app_runner.Vm.{
  Nic, Disk, Cdrom, bridge_mode, running, uefi, bridges, is_blank, VirtualMachine, is_active, error,
}
use app_runner.Machines.{
  FileStatus, present, absent, unreadable, Platform, Launch, launched, not_launched, Manager,
  MachineError, not_saved, Result, find, change, reconcile, save_quietly,
}
use app_runner.Machines.Power.{
  is_present, disk_error, started, start_error, launch_at, start_checked, start,
}
use app_runner.Machines.Rules.{machine_rule, idle_rule, reconciled_rule}
use app_runner.Machines.Quiet.{find-change, find-change_other, not_both}
use app_runner.Machines.Weights.{find-id}

is_present-present : (s : FileStatus) → is_present s ≡ true → s ≡ present
is_present-present present h = refl
is_present-present absent h = cc
is_present-present unreadable h = cc

module _ {Host : Type 0} (p : Platform Host) where
  -- What a machine needs to start: the host's emulation, the bridges of its interfaces, and the
  -- files of its disks, drives, cloud-init seed and UEFI firmware.
  pub record CanStart (v : VirtualMachine) (h : Host) : Type 0 where
    pub qemu : p.qemu_available h ≡ true
    pub kvm : p.kvm_available h ≡ true
    pub bridged :
        (n : Nic)
        → In n v.nics
        → n.mode ≡ bridge_mode
        → n.bridge_name ≢ []
        → p.bridge_available n.bridge_name h ≡ true
    pub disks : (d : Disk) → In d v.disks → p.stat (p.disk_path v.id d.id) h ≡ present
    pub drives :
        (c : Cdrom) → In c v.cdroms → c.iso_name ≢ [] → p.stat (p.iso_path c.iso_name) h ≡ present
    pub seed : v.cloud_init.enabled ≡ true → p.stat (p.cloud_init_iso v.id) h ≡ present
    pub firmware :
        v.firmware ≡ uefi
        → (p.regular_file p.uefi_code_path h ≡ true) × (p.regular_file (p.uefi_vars v.id) h ≡ true)

  disk_error-present :
      (id : Text) (ds : List Disk) (h : Host) (d : Disk)
      → disk_error p id ds h ≡ none
      → In d ds
      → p.stat (p.disk_path id d.id) h ≡ present
  unfolding disk_error
  disk_error-present id [] h d e i = absurd i
  disk_error-present id (x ∷ ds) h d e (inl q) =
      subst (λ (y : Disk). p.stat (p.disk_path id y.id) h ≡ present) (sym q)
        (is_present-present (p.stat (p.disk_path id x.id) h) (ground arith))
  disk_error-present id (x ∷ ds) h d e (inr i) = disk_error-present id ds h d (ground arith) i

  start_error-CanStart : (v : VirtualMachine) (h : Host) → start_error p v h ≡ none → CanStart v h
  unfolding start_error
  start_error-CanStart v h e = record {
    qemu = ground arith;
    kvm = ground arith;
    bridged = λ n i m k.
        let t =
          exists_none (λ (b : Text). not (p.bridge_available b h)) (bridges v) (ground arith)
            (nic-bridges v n i m k) in
        ground arith;
    disks = λ d i. disk_error-present v.id v.disks h d (ground arith) i;
    drives = λ c i k.
        let t =
          exists_none
            (λ (c : Cdrom).
              not (is_blank c.iso_name) && not (is_present (p.stat (p.iso_path c.iso_name) h)))
            v.cdroms (ground arith) i in
        let b = not_blank c.iso_name k in
        is_present-present (p.stat (p.iso_path c.iso_name) h) (ground arith);
    seed = λ c. is_present-present (p.stat (p.cloud_init_iso v.id) h) (ground arith);
    firmware = λ u. (ground arith, ground arith);
  }

  -- The machine was idle and not active, had all that it needs, its network was prepared, and its
  -- process was launched: it is recorded as running in this process, without an error, with its
  -- devices as they were, and without a boot override that does not persist.
  pub record IsStarted (id : Text) (n : Manager Host) (r : Result Host) : Type 0 where
    pub v : VirtualMachine
    pub w : VirtualMachine
    pub pid : ℕ
    pub was_found : find id n.machines ≡ some v
    pub was_idle : lookup id n.busy ≡ none
    pub was_inactive : is_active v.status ≡ false
    pub could_start : CanStart v n.host
    pub was_prepared : (p.prepare v n.host).1 ≡ true
    pub was_launched : (p.launch v (p.prepare v n.host).0).1 ≡ launched pid
    pub is_recorded : find id r.0.machines ≡ some w
    pub runs : w.status ≡ running
    pub process : w.pid ≡ pid
    pub no_error : w.last_error ≡ []
    pub same_hardware : SameHardware v w
    pub override_used : v.ipmi.boot_persistent ≡ false → w.ipmi.boot_device ≡ 0

  -- No machine has become active, and the active ones are as they were.
  NoneStarted : Manager Host → Result Host → Type 0
  NoneStarted n r =
      (j : Text) (w : VirtualMachine)
      → find j r.0.machines ≡ some w
      → is_active w.status ≡ true
      → find j n.machines ≡ some w

  -- A success has started the machine; an error other than that of a save has started none.
  StartsOrNot : Text → Manager Host → Result Host → Type 0
  StartsOrNot id n r =
      (IsStarted id n r × (r.1 ≡ none)) ⊎ (r.1 ≡ some not_saved) ⊎ (NoneStarted n r × (r.1 ≢ none))

  early : (id : Text) (n : Manager Host) (e : MachineError) → StartsOrNot id n (n, some e)
  unfolding StartsOrNot NoneStarted
  early id n e = inr (inr (λ j w f a. f, λ h. ground arith))

  unprepared :
      (id : Text) (n : Manager Host) (h : Host) (e : MachineError)
      → StartsOrNot id n (record n { host = h }, some e)
  unfolding StartsOrNot NoneStarted
  unprepared id n h e = inr (inr (λ j w f a. f, λ h. ground arith))

  launch_at-StartsOrNot :
      (id : Text) (n : Manager Host) (v : VirtualMachine) (r : Host × Launch)
      → find id n.machines ≡ some v
      → lookup id n.busy ≡ none
      → is_active v.status ≡ false
      → start_error p v n.host ≡ none
      → (p.prepare v n.host).1 ≡ true
      → p.launch v (p.prepare v n.host).0 ≡ r
      → StartsOrNot id n (launch_at p id v (record n { host = (p.prepare v n.host).0 }) r)
  unfolding launch_at save_quietly StartsOrNot NoneStarted is_active
  launch_at-StartsOrNot id n v (h, launched k) f i a s g l =
      let up = find-change id (started k v) n.machines v f (find-id id v n.machines f) in
      if_intro (StartsOrNot id n) (p.save (change id (started k v) n.machines) h).1
        (inl (
          record {
            v = v;
            w = started k v;
            pid = k;
            was_found = f;
            was_idle = i;
            was_inactive = a;
            could_start = start_error-CanStart v n.host s;
            was_prepared = g;
            was_launched = ap (λ (x : Host × Launch). x.1) l;
            is_recorded = up;
            runs = refl;
            process = refl;
            no_error = refl;
            same_hardware = (refl, refl, refl, refl);
            override_used = λ z. ground arith;
          },
          refl,
        ))
        (inr (inl refl))
  launch_at-StartsOrNot id n v (h, not_launched e) f i a s g l =
      let w = record v { status = error; last_error = e } in
      inr (
        inr (
          λ j u q t. elim (Text-discrete id j) [
            | yes y ↦ not_both t (
                ap (λ (x : VirtualMachine). is_active x.status)
                  (some-injective (
                    sym (subst (λ k. find k (change id w n.machines) ≡ some u) (sym y) q)
                    ∙ find-change id w n.machines v f (find-id id v n.machines f))))
            | no d ↦ sym (find-change_other id j w n.machines d (find-id id v n.machines f)) ∙ q
          ],
          λ x. ground arith,
        ))

  start_checked-StartsOrNot :
      (id : Text) (n : Manager Host) (v : VirtualMachine) (o : Option MachineError)
      → find id n.machines ≡ some v
      → lookup id n.busy ≡ none
      → is_active v.status ≡ false
      → start_error p v n.host ≡ o
      → StartsOrNot id n (start_checked p id v o n)
  unfolding start_checked
  start_checked-StartsOrNot id n v (some e) f i a s = early id n e
  start_checked-StartsOrNot id n v none f i a s =
      if_cases (StartsOrNot id n) (p.prepare v n.host).1
        (λ g. launch_at-StartsOrNot id n v (p.launch v (p.prepare v n.host).0) f i a s g refl)
        (λ _. unprepared id n _ _)

  start-StartsOrNot :
      (id : Text) (m : Manager Host) → StartsOrNot id (reconcile p m).0 (start p id m)
  unfolding start
  start-StartsOrNot id m =
      let n = (reconcile p m).0 in
      reconciled_rule (StartsOrNot id n) p m _ (early id n) (
        machine_rule (StartsOrNot id n) id (early id n) (λ v f.
          idle_rule (StartsOrNot id n) id (early id n) (λ i.
            if_cases (StartsOrNot id n) (not (is_active v.status))
              (λ a.
                start_checked-StartsOrNot id n v (start_error p v n.host) f i (ground arith) refl)
              (λ _. early id n _))))

  -- A Start that reports no error has started the machine: of the machines as reconciled, it was
  -- idle and not active, the emulator, its bridges and the files of its disks, drives, cloud-init
  -- seed and firmware were there, its network was prepared and its process launched, and it is
  -- recorded as running in that process, without an error, with the hardware that it had, and
  -- without a boot override that does not persist.
  pub start-IsStarted :
      (id : Text) (m : Manager Host)
      → (start p id m).1 ≡ none
      → IsStarted id (reconcile p m).0 (start p id m)
  unfolding StartsOrNot
  start-IsStarted id m h = elim (start-StartsOrNot id m) [
    | inl s ↦ s.0
    | inr (inl e) ↦ absurd (ground arith)
    | inr (inr n) ↦ absurd (n.1 h)
  ]

  -- A Start that reports an error other than that of saving makes no machine active: each machine
  -- that is active afterwards was so, and is as the reconciliation left it.
  pub start_refused :
      (id j : Text) (w : VirtualMachine) (m : Manager Host) (e : MachineError)
      → (start p id m).1 ≡ some e
      → e ≢ not_saved
      → find j (start p id m).0.machines ≡ some w
      → is_active w.status ≡ true
      → find j (reconcile p m).0.machines ≡ some w
  unfolding StartsOrNot NoneStarted
  start_refused id j w m e h d f a = elim (start-StartsOrNot id m) [
    | inl s ↦ absurd (ground arith)
    | inr (inl k) ↦ absurd (ground arith)
    | inr (inr n) ↦ n.0 j w f a
  ]
