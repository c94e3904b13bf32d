-- ===== src/Machines/Stale.antt =====
-- Messages that come too late: what is done about a process is done about no other.
use app_runner.Machines.Started.{start-IsStarted}
use app_runner.Machines.Rules.{machine_rule}
use app_runner.Prelude.{
  ◌⊎◌, inl, inr, ◌&&◌, ◌||◌, ◌==◌, true, not, List, Text-discrete, sym, subst, some-injective, ℕ,
  ◌≡◌, ◌≢◌, refl, false, Option, none, some, Text, arith, ◌∙◌, if_intro, if_cases,
}
use app_runner.Vm.{VmStatus, stopping, stopped, running, error, VirtualMachine}
use app_runner.Machines.{
  save_quietly, Platform, Manager, Result, find, change, at_rest, on_machine, when_found,
  signal_exit,
}
use app_runner.Machines.Power.{
  begin_force_stop, is_stopping_status, stopping_machine, exited_machine, start, is_stopped_status,
  escalate_stop, process_exited, finish_force_stop,
}
use app_runner.Machines.Quiet.{find-change_other, find-change}
use app_runner.Machines.Weights.{find-id}

pub on_machine-find :
    {Host : Type 0} (id : Text) (m : Manager Host) (f : VirtualMachine → Result Host)
    (v : VirtualMachine)
    → find id m.machines ≡ some v
    → on_machine id m f ≡ f v
unfolding on_machine when_found
on_machine-find id m f v h = ground arith

is_stopping-stopping : (s : VmStatus) → is_stopping_status s ≡ true → s ≡ stopping
is_stopping-stopping stopping h = refl
is_stopping-stopping running h = cc
is_stopping-stopping stopped h = cc
is_stopping-stopping error h = cc

not_stopped : (s : VmStatus) → s ≡ running → is_stopped_status s ≡ false
not_stopped s h = rw h refl

exited-id : (e : Option Text) (v : VirtualMachine) → (exited_machine e v).id ≡ v.id
exited-id none v = refl
exited-id (some t) v =
    if_intro (λ (x : VirtualMachine). x.id ≡ v.id) (is_stopping_status v.status) refl refl

-- A machine is as it was, or it is the one with that identity, and something holds of it.
abbrev Spares :
    (VirtualMachine → Type 0) → Text → Text → VirtualMachine → List VirtualMachine → Type 0
Spares Hit id j w vs = (find j vs ≡ some w) ⊎ ((j ≡ id) × Hit w)

change-Spares :
    (Hit : VirtualMachine → Type 0) (id j : Text) (v w x : VirtualMachine)
    (vs : List VirtualMachine)
    → find j vs ≡ some w
    → find id vs ≡ some v
    → x.id ≡ id
    → Hit v
    → Spares Hit id j w (change id x vs)
change-Spares Hit id j v w x vs f g e h = elim (Text-discrete id j) [
  | yes y ↦
      inr (sym y, subst Hit (some-injective (sym g ∙ subst (λ k. find k vs ≡ some w) (sym y) f)) h)
  | no d ↦ inl (find-change_other id j x vs d e ∙ f)
]

module _ {Host : Type 0} (p : Platform Host) where
  escalate_stop-Spares :
      (id : Text) (pid : ℕ) (m : Manager Host) (j : Text) (w : VirtualMachine)
      → find j m.machines ≡ some w
      → Spares
          (λ x. (x.pid ≡ pid) × (x.status ≡ stopping))
          id
          j
          w
          (escalate_stop p id pid m).0.machines
  unfolding escalate_stop begin_force_stop
  escalate_stop-Spares id pid m j w f =
      let Hit = λ (x : VirtualMachine). (x.pid ≡ pid) × (x.status ≡ stopping) in
      let Q = λ (r : Result Host). Spares Hit id j w r.0.machines in
      let kept : Spares Hit id j w m.machines = inl f in
      machine_rule Q id (λ e. kept)
        (λ v g.
          if_cases Q (is_stopping_status v.status && v.pid == pid)
            (λ s.
              let changed =
                change-Spares Hit id j v w (stopping_machine v) m.machines f g
                  (find-id id v m.machines g)
                  (ground arith, is_stopping-stopping v.status (ground arith)) in
              if_intro Q (p.force_stop v m.host).1 (if_intro Q _ changed changed) kept)
            (λ _. kept))

  process_exited-Spares :
      (id : Text) (pid : ℕ) (e : Option Text) (m : Manager Host) (j : Text) (w : VirtualMachine)
      → pid ≢ 0
      → find j m.machines ≡ some w
      → Spares (λ x. x.pid ≡ pid) id j w (process_exited p id pid e m).0.machines
  unfolding process_exited save_quietly signal_exit
  process_exited-Spares id pid e m j w z f =
      let Q = λ (r : Result Host). Spares (λ x. x.pid ≡ pid) id j w r.0.machines in
      let kept : Spares (λ x. x.pid ≡ pid) id j w m.machines = inl f in
      machine_rule Q id (λ e. kept)
        (λ v g.
          if_cases Q (v.pid == 0 || (not (pid == 0) && not (v.pid == pid))) (λ _. kept)
            (λ s.
              change-Spares (λ x. x.pid ≡ pid) id j v w (exited_machine e v) m.machines f g
                (exited-id e v ∙ find-id id v m.machines g) (ground arith)))

  -- A stop's timer and the exit of a process, of a process ID that is not zero, are about that
  -- process only: whenever they come, every machine stays as it is, but for the one that they
  -- name, if it still has that process and, for the timer, is still stopping.
  pub stale_spares :
      (id : Text) (pid : ℕ) (e : Option Text) (m : Manager Host) (j : Text) (w : VirtualMachine)
      → pid ≢ 0
      → find j m.machines ≡ some w
      → ((find j (escalate_stop p id pid m).0.machines ≡ some w)
          ⊎ ((j ≡ id) × (w.pid ≡ pid) × (w.status ≡ stopping)))
        × ((find j (process_exited p id pid e m).0.machines ≡ some w) ⊎ ((j ≡ id) × (w.pid ≡ pid)))
  stale_spares id pid e m j w z f = (
    elim (escalate_stop-Spares id pid m j w f) [ inl q ↦ inl q | inr (a, q) ↦ inr (a, q.0, q.1) ],
    process_exited-Spares id pid e m j w z f,
  )

  forgets :
      (id : Text) (v : VirtualMachine) (m : Manager Host)
      → find id m.machines ≡ some v
      → is_stopped_status v.status ≡ false
      → (find id (finish_force_stop p id m).0.machines ≡ some (at_rest v))
        × ((finish_force_stop p id m).0.host
            ≡ (p.save (change id (at_rest v) m.machines) (p.release v m.host)).0)
  unfolding finish_force_stop signal_exit
  forgets id v m f s =
      let w = at_rest v in
      let found : find id (change id w m.machines) ≡ some w =
        find-change id w m.machines v f (find-id id v m.machines f) in
      let forgotten : Result Host → Type 0 = λ r.
        (find id r.0.machines ≡ some w)
        × (r.0.host ≡ (p.save (change id w m.machines) (p.release v m.host)).0) in
      rw (on_machine-find id m _ v f) (
        if_cases forgotten (is_stopped_status v.status) (λ t. absurd (ground arith))
          (λ _.
            if_intro forgotten (p.save (change id w m.machines) (p.release v m.host)).1
              (found, refl) (found, refl)))

  -- What is left of a forced stop does not look at the process: if it comes after a Start of the
  -- machine that reported no error, the machine was running, and the process that was just launched
  -- is forgotten (the machine is recorded as stopped, without a process) and its network released,
  -- while the hypervisor is told nothing.
  pub finish_force_stop_blind :
      (id : Text) (m : Manager Host)
      → (start p id m).1 ≡ none
      → let n = (start p id m).0 in
        let after = (finish_force_stop p id n).0 in
        (w : VirtualMachine) × (x : VirtualMachine) × (find id n.machines ≡ some w)
        × (w.status ≡ running)
        × (find id after.machines ≡ some x)
        × (x.status ≡ stopped)
        × (x.pid ≡ 0)
        × (after.host ≡ (p.save (change id x n.machines) (p.release w n.host)).0)
  finish_force_stop_blind id m h =
      let s = start-IsStarted p id m h in
      let (f, g) = forgets id s.w (start p id m).0 s.is_recorded (not_stopped s.w.status s.runs) in
      (s.w, at_rest s.w, s.is_recorded, s.runs, f, refl, refl, g)
