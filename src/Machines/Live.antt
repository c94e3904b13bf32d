-- ===== src/Machines/Live.antt =====
-- After the reconciliation, what counts as active runs.
use app_runner.Prelude.{
  ◌≡◌, ◌≢◌, refl, ◌∙◌, Bool, true, false, List, [], ◌∷◌, if◌then◌else◌, arith, All, All-map,
  if_intro, if_cases, Bool-cases, inl, inr, ◌⊎◌, sym,
}
use app_runner.Vm.{VirtualMachine, is_active}
use app_runner.Machines.{
  Platform, Manager, at_rest, is_lost, signal_exit, let_go, reconcile_list, reconcile,
}

module _ {Host : Type 0} (p : Platform Host) where
  -- To save definitions and to let a machine's network go ends no process.
  pub record IsCalm : Type 0 where
    pub save_calm :
        (vs : List VirtualMachine) (v : VirtualMachine) (h : Host)
        → p.is_running v (p.save vs h).0 ≡ p.is_running v h
    pub release_calm :
        (u v : VirtualMachine) (h : Host) → p.is_running v (p.release u h) ≡ p.is_running v h

  -- The machine is active only with a process that runs.
  pub IsLive : Host → VirtualMachine → Type 0
  IsLive h v = (is_active v.status ≡ false) ⊎ ((v.pid ≢ 0) × (p.is_running v h ≡ true))

  module _ (calm : IsCalm) where
    SameProcesses : Host → Host → Type 0
    SameProcesses h k = (v : VirtualMachine) → p.is_running v k ≡ p.is_running v h

    let_go-SameProcesses :
        (b : Bool) (v : VirtualMachine) (m : Manager Host)
        → SameProcesses m.host (if b then let_go p v m else m).host
    unfolding let_go signal_exit SameProcesses
    let_go-SameProcesses b v m =
        if_intro
          (λ (n : Manager Host).
            (u : VirtualMachine) → p.is_running u n.host ≡ p.is_running u m.host)
          b (λ u. calm.release_calm v u m.host) (λ u. refl)

    reconcile_list-SameProcesses :
        (vs : List VirtualMachine) (m : Manager Host)
        → SameProcesses m.host (reconcile_list p vs m).1.host
    unfolding reconcile_list SameProcesses
    reconcile_list-SameProcesses [] m u = refl
    reconcile_list-SameProcesses (v ∷ vs) m u =
        let b = is_lost p m.host v in
        reconcile_list-SameProcesses vs (if b then let_go p v m else m) u
        ∙ let_go-SameProcesses b v m u

    IsLive-SameProcesses :
        (h k : Host) → SameProcesses h k → (v : VirtualMachine) → IsLive h v → IsLive k v
    unfolding SameProcesses IsLive
    IsLive-SameProcesses h k s v (inl i) = inl i
    IsLive-SameProcesses h k s v (inr (n, r)) = inr (n, s v ∙ r)

    saved_calm : (vs : List VirtualMachine) (h : Host) → SameProcesses h (p.save vs h).0
    unfolding SameProcesses
    saved_calm vs h v = calm.save_calm vs v h

    flipped : (h k : Host) → SameProcesses h k → SameProcesses k h
    unfolding SameProcesses
    flipped h k s v = sym (s v)

    settled-IsLive :
        (h : Host) (v : VirtualMachine) → IsLive h (if is_lost p h v then at_rest v else v)
    unfolding is_lost IsLive is_active
    settled-IsLive h v =
        if_cases (IsLive h) (is_lost p h v) (λ _. inl refl)
          (λ e. elim (Bool-cases (is_active v.status)) [
            | inl a ↦ inr (ground arith, ground arith)
            | inr i ↦ inl i
          ])

    reconcile_list-IsLive :
        (vs : List VirtualMachine) (m : Manager Host)
        → All (IsLive m.host) (reconcile_list p vs m).0
    unfolding reconcile_list
    reconcile_list-IsLive [] m = tt
    reconcile_list-IsLive (v ∷ vs) m =
        let b = is_lost p m.host v in
        let n = if b then let_go p v m else m in
        (
          settled-IsLive m.host v,
          All-map (IsLive n.host)
              (IsLive-SameProcesses n.host m.host
                (flipped m.host n.host (let_go-SameProcesses b v m)))
              _ (reconcile_list-IsLive vs n),
        )

    -- Whatever the reconciliation finds, and whether it can save what it changed or not: where
    -- saving and releasing end no process, each machine that it leaves active has a process, and
    -- that process runs.
    pub reconcile-IsLive :
        (m : Manager Host) → All (IsLive (reconcile p m).0.host) (reconcile p m).0.machines
    unfolding reconcile
    reconcile-IsLive m =
        let (vs, m1, lost) = reconcile_list p m.machines m in
        let live : All (IsLive m1.host) vs =
          All-map (IsLive m.host)
            (IsLive-SameProcesses m.host m1.host (reconcile_list-SameProcesses m.machines m)) vs
            (reconcile_list-IsLive m.machines m) in
        if_intro (λ (r : Manager Host × Bool). All (IsLive r.0.host) r.0.machines) lost
          (All-map (IsLive m1.host)
            (IsLive-SameProcesses m1.host (p.save vs m1.host).0 (saved_calm vs m1.host)) vs live)
          live
