-- ===== src/Machines/Moves/Creation.antt =====
-- Creating and cloning, as moves.
use app_runner.Machines.Weights.{find-id}
use app_runner.Machines.Clone.{begin_clone, reserve_clone, reserve_busy, finish_clone, bare_clone}
use app_runner.Machines.Power.{is_stopped_status}
use app_runner.Prelude.{
  ℕ, ◌≤◌, ◌≡◌, refl, ◌∙◌, sym, ap, subst, insert, fold, ◌++◌, ◌⊎◌, inl, inr, false, Option, none,
  some, List, [], ◌∷◌, Text, same, if_cases, arith, trim_space, is_some, map, delete, lookup, Bool,
  true, if_intro, not,
}
use app_runner.Vm.{VirtualMachine, Disk, Cdrom, is_active, Nic, running, stopping, stopped, error}
use app_runner.Machines.{Platform, Manager, name_in_use, reconcile, find, cloning}
use app_runner.Machines.Checks.{NicRequest, DiskSpec}
use app_runner.Machines.Devices.{with_nics, requested_nic, is_taken}
use app_runner.Machines.Creation.{
  CreateOptions, NewIds, Made, made, unmade, add_nics, with_devices, reserve_made, reserve,
  bare_machine, reserve_vm, begin_create, normal_options, firmware_of, disk_spec, iso_of,
  nic_request,
}
use app_runner.Machines.Produce.{finish_create}
use app_runner.Machines.Rules.{
  valid_rule, id_rule, made_rule, machine_rule, idle_rule, reconciled_rule,
}
use app_runner.Machines.Moves.{
  View, view, count, NameFree, total, id_weight, mac_weight, Move, reserves, here, after, admits,
  withdraws, locks, unlocks, still, softly, only,
}
use app_runner.Machines.Moves.Guards.{Goes, Moves-append, reconcile-Goes, total-reconcile}
use app_runner.Machines.Moves.Devices.{with_nics-Gains}

-- A new identity is not blank, and nobody's.
abbrev pub Fresh : Text → View → Type 0
Fresh id a = (same id [] ≡ false) × (total (id_weight id) a ≡ 0)

-- A definition that could be reserved: its addresses are its own.
abbrev OwnMacs : View → VirtualMachine → Type 0
OwnMacs a v =
    (x : Text) → (mac_weight x v ≡ 0) ⊎ ((mac_weight x v ≤ 1) × (total (mac_weight x) a ≡ 0))

abbrev Like : VirtualMachine → VirtualMachine → Type 0
Like v w = (w.id ≡ v.id) × (w.name ≡ v.name) × (w.status ≡ v.status)

-- What is made of a definition keeps its identity, and has addresses of its own.
abbrev Good : View → VirtualMachine → Made → Type 0
Good a v (made w) = OwnMacs a w × Like v w
Good a v (unmade e) = Unit

module _ {Host : Type 0} (p : Platform Host) where
  with_nic-OwnMacs :
      (v : VirtualMachine) (n : Nic) (m : Manager Host)
      → OwnMacs (view m) v
      → is_taken p n.mac_address v m ≡ false
      → OwnMacs (view m) (with_nics (v.nics ++ n ∷ []) v)
  with_nic-OwnMacs v n m o h x = elim (with_nics-Gains p v n m h x) [
    | inr g ↦ inr g
    | inl l ↦ elim (o x) [ inl z ↦ inl (omega arith) | inr z ↦ inr (omega arith, z.1) ]
  ]

  Good-Like : (a : View) (v u : VirtualMachine) (o : Made) → Like v u → Good a u o → Good a v o
  Good-Like a v u (unmade e) l g = tt
  Good-Like a v u (made w) l (g, (i, n, s)) = (g, (i ∙ l.0, n ∙ l.1, s ∙ l.2))

  add_nics-Good :
      (ids : List Text) (rs : List NicRequest) (v : VirtualMachine) (m : Manager Host)
      → OwnMacs (view m) v
      → Good (view m) v (add_nics p ids rs v m)
  unfolding add_nics
  add_nics-Good ids [] v m o = (o, (refl, refl, refl))
  add_nics-Good [] (r ∷ rs) v m o = tt
  add_nics-Good (i ∷ ids) (r ∷ rs) v m o =
      let n = requested_nic p v.id i r in
      let u = with_nics (v.nics ++ n ∷ []) v in
      if_cases (Good (view m) v) (is_taken p n.mac_address v m) (λ _. tt)
        (λ h.
          Good-Like (view m) v u _ (refl, refl, refl)
            (add_nics-Good ids rs u m (with_nic-OwnMacs v n m o h)))

  with_devices-Good :
      (ds : Option (List Disk)) (cs : Option (List Cdrom)) (ids : List Text) (rs : List NicRequest)
      (v : VirtualMachine) (m : Manager Host)
      → v.nics ≡ []
      → Good (view m) v (with_devices p ds cs ids rs v m)
  unfolding with_devices mac_weight count
  with_devices-Good none cs ids rs v m e = tt
  with_devices-Good (some ds) none ids rs v m e = tt
  with_devices-Good (some ds) (some cs) ids rs v m e =
      Good-Like (view m) v (record v { disks = ds; cdroms = cs }) _ (refl, refl, refl)
        (add_nics-Good ids rs (record v { disks = ds; cdroms = cs }) m
          (λ x. inl (ap (count (λ (n : Nic). same (fold n.mac_address) x)) e)))

  reserve_made-Good :
      (ids : NewIds) (ds : List DiskSpec) (isos : List Text) (rs : List NicRequest)
      (v : VirtualMachine) (m : Manager Host)
      → v.nics ≡ []
      → Good (view m) v (reserve_made p ids ds isos rs v m)
  unfolding reserve_made
  reserve_made-Good ids ds isos rs v m e = with_devices-Good _ _ ids.nics rs v m e

  -- What is reserved is stopped, and has a name, an identity and addresses that are free.
  reserve-Move :
      (v w : VirtualMachine) (a : View)
      → is_active v.status ≡ false
      → Fresh v.id a
      → NameFree v.name [] a
      → OwnMacs a w
      → Like v w
      → Move a (record a { creating = insert w.id w a.creating })
  reserve-Move v w a s (b, z) f o (i, n, t) =
      reserves w (ap is_active t ∙ s) (ap (λ x. same x []) i ∙ b)
        (ap (λ x. total (id_weight x) a) i ∙ z) (subst (λ x. NameFree x [] a) (sym n) f) o

  abbrev pub IsFresh : NewIds → Manager Host → Type 0
  IsFresh ids m = (id : Text) → ids.machine ≡ some id → Fresh id (view m)

  pub begin_create-Goes :
      (ids : NewIds) (now : ℕ) (o : CreateOptions) (m : Manager Host)
      → IsFresh ids m
      → Goes p (view m) (begin_create p ids now o m)
  unfolding begin_create reserve_vm name_in_use reserve bare_machine is_active
  begin_create-Goes ids now o m fresh =
      let q = normal_options p o in
      valid_rule (Goes p (view m)) _ (λ e. here)
        (if_cases (Goes p (view m)) (name_in_use q.name [] m) (λ _. here)
          (λ h.
            id_rule (Goes p (view m)) p ids.machine (λ e. here)
              (λ id e.
                made_rule (Goes p (view m)) p _ (λ e. here)
                  (λ w k.
                    let b = bare_machine p q id (firmware_of p q.firmware q.disks) now in
                    let (own, like) =
                      subst (Good (view m) b) k (reserve_made-Good ids q.disks q.isos _ b m refl) in
                    after still (
                      reserve-Move b w (view m) refl (fresh id e) (ground arith, ground arith) own
                        like)))))

  -- A reserved definition becomes a machine, or is withdrawn.
  pub finish_create-Goes :
      (created : List Disk) (ok : Bool) (v : VirtualMachine) (m : Manager Host)
      → lookup v.id m.creating ≡ some v
      → Goes p (view m) (finish_create p created ok v m)
  unfolding finish_create
  finish_create-Goes created ok v m l =
      if_intro (Goes p (view m)) (not ok) (after still (withdraws v.id)) (
        if_intro (Goes p (view m)) (p.save (m.machines ++ v ∷ []) m.host).1
          (after still (admits v l)) (after still (withdraws v.id)))

  stopped-inactive :
      (v : VirtualMachine) → is_stopped_status v.status ≡ true → is_active v.status ≡ false
  unfolding is_active
  stopped-inactive v h =
      elim v.status as (λ s. is_stopped_status s ≡ true → is_active s ≡ false) [
        | running ↦ (λ e. cc)
        | stopping ↦ (λ e. cc)
        | stopped ↦ (λ _. refl)
        | error ↦ (λ _. refl)
      ]
        h

  reserve_clone-Goes :
      (ids : NewIds) (now : ℕ) (s : VirtualMachine) (name : Text) (m : Manager Host)
      → IsFresh ids m
      → find s.id m.machines ≡ some s
      → is_active s.status ≡ false
      → Goes p (view m) (reserve_clone p ids now s name m)
  unfolding reserve_clone reserve_busy name_in_use reserve is_active insert total
  reserve_clone-Goes ids now s name m fresh f a =
      if_cases (Goes p (view m)) (name_in_use name [] m) (λ _. here)
        (λ h.
          id_rule (Goes p (view m)) p ids.machine (λ e. here)
            (λ id e. if_intro (Goes p (view m)) (is_some (find id m.machines)) here (
              made_rule (Goes p (view m)) p _ (λ e. here)
                (λ w k.
                  let b = bare_clone p s id name now in
                  let (own, like) = subst (Good (view m) b) k (
                    reserve_made-Good ids (map disk_spec s.disks) (map iso_of s.cdroms)
                      (map nic_request s.nics) b m refl) in
                  after (softly still (locks s.id cloning s f a) tt) (
                    reserve-Move b w (record (view m) { busy = insert s.id cloning m.busy }) refl
                      (fresh id e) (ground arith, ground arith) own like)))))

  pub begin_clone-Goes :
      (ids : NewIds) (now : ℕ) (id name : Text) (m : Manager Host)
      → IsFresh ids m
      → Goes p (view m) (begin_clone p ids now id name m)
  unfolding begin_clone id_weight
  begin_clone-Goes ids now id name m fresh =
      let n = (reconcile p m).0 in
      let fresh_now : IsFresh ids n =
        λ i e. let (b, z) = fresh i e in (b, total-reconcile p (id_weight i) (λ v. refl) m ∙ z) in
      reconciled_rule (Goes p (view m)) p m _ (λ e. only (reconcile-Goes p m))
        (Moves-append (reconcile-Goes p m) (
          machine_rule (Goes p (view n)) id (λ e. here)
            (λ v f.
              if_cases (Goes p (view n)) (is_stopped_status v.status)
                (λ h.
                  idle_rule (Goes p (view n)) id (λ e. here)
                    (λ _.
                      valid_rule (Goes p (view n)) _ (λ e. here)
                        (reserve_clone-Goes ids now v (trim_space name) n fresh_now
                          (subst (λ i. find i n.machines ≡ some v) (sym (find-id id v n.machines f))
                            f)
                          (stopped-inactive v h))))
                (λ _. here))))

  pub finish_clone-Goes :
      (source : Text) (created : List Disk) (ok : Bool) (v : VirtualMachine) (m : Manager Host)
      → lookup v.id m.creating ≡ some v
      → Goes p (view m) (finish_clone p source created ok v m)
  unfolding finish_clone
  finish_clone-Goes source created ok v m l =
      Moves-append (softly still (unlocks source) tt)
        (finish_create-Goes created ok v (record m { busy = delete source m.busy }) l)
