-- ===== src/Machines/Moves/Guards.antt =====
-- What an operation begins with, as moves: the reconciliation, and the guards that change nothing.
use app_runner.Prelude.{
  ℕ, ◌+◌, ap, arith, ◌≡◌, refl, ◌∙◌, ◌⊎◌, inl, inr, Bool, List, [], ◌∷◌, if◌then◌else◌, Text,
  if_intro,
}
use app_runner.Vm.{VirtualMachine}
use app_runner.Machines.{
  Platform, Manager, Result, at_rest, let_go, is_lost, reconcile_list, reconcile, reconciled,
  signal_exit,
}
use app_runner.Machines.Rules.{reconciled_rule}
use app_runner.Machines.Weights.{Settled-tally}
use app_runner.Machines.Moves.{
  total, tally, View, view, Settled, settles, Moves, after, still, SoftMoves, softly, only,
}

SoftMoves-append : {a b c : View} → SoftMoves a b → SoftMoves b c → SoftMoves a c
SoftMoves-append m still = m
SoftMoves-append m (softly n st h) = softly (SoftMoves-append m n) st h

pub Moves-append : {a b c : View} → SoftMoves a b → Moves b c → Moves a c
Moves-append m (only n) = only (SoftMoves-append m n)
Moves-append m (after n st) = after (SoftMoves-append m n) st

module _ {Host : Type 0} (p : Platform Host) where
  abbrev pub Goes : View → Result Host → Type 0
  Goes a r = Moves a (view r.0)

  -- What an operation leaves as it found it.
  abbrev Stays : Manager Host → Manager Host → Type 0
  Stays m n = (n.creating ≡ m.creating) × (n.busy ≡ m.busy)

  let_go-Stays :
      (b : Bool) (v : VirtualMachine) (m : Manager Host) → Stays m (if b then let_go p v m else m)
  unfolding let_go signal_exit
  let_go-Stays b v m = if_intro (Stays m) b (refl, refl) (refl, refl)

  reconcile_list-Stays :
      (vs : List VirtualMachine) (m : Manager Host) → Stays m (reconcile_list p vs m).1
  unfolding reconcile_list
  reconcile_list-Stays [] m = (refl, refl)
  reconcile_list-Stays (v ∷ vs) m =
      let one = is_lost p m.host v in
      let (c, b) = let_go-Stays one v m in
      let (c', b') = reconcile_list-Stays vs (if one then let_go p v m else m) in (c' ∙ c, b' ∙ b)

  reconcile_list-Settled :
      (vs : List VirtualMachine) (m : Manager Host) → Settled vs (reconcile_list p vs m).0
  unfolding reconcile_list
  reconcile_list-Settled [] m = tt
  reconcile_list-Settled (v ∷ vs) m =
      let one = is_lost p m.host v in
      (
        if_intro (λ w. (w ≡ v) ⊎ (w ≡ at_rest v)) one (inr refl) (inl refl),
        reconcile_list-Settled vs (if one then let_go p v m else m),
      )

  -- The reconciliation is a move.
  pub reconcile-Goes : (m : Manager Host) → SoftMoves (view m) (view (reconcile p m).0)
  unfolding reconcile
  reconcile-Goes m =
      let (vs, m1, lost) = reconcile_list p m.machines m in
      let (c, b) = reconcile_list-Stays m.machines m in
      let done : SoftMoves (view m)
          (record { machines = vs; creating = m1.creating; busy = m1.busy }) =
        rw (c, b) (softly still (settles vs (reconcile_list-Settled m.machines m)) tt) in
      if_intro (λ (r : Manager Host × Bool). SoftMoves (view m) (view r.0)) lost done done

  -- The reconciliation keeps a sum whose weight rest does not change.
  pub total-reconcile :
      (f : VirtualMachine → ℕ)
      → ((v : VirtualMachine) → f (at_rest v) ≡ f v)
      → (m : Manager Host) → total f (view (reconcile p m).0) ≡ total f (view m)
  unfolding reconcile total
  total-reconcile f r m =
      let (vs, m1, lost) = reconcile_list p m.machines m in
      let (c, b) = reconcile_list-Stays m.machines m in
      let same_total : tally f vs + tally (λ e. f e.1) m1.creating ≡ total f (view m) = omega (
        arith,
        Settled-tally f r m.machines vs (reconcile_list-Settled m.machines m),
        ap (tally (λ (e : Text × VirtualMachine). f e.1)) c,
      ) in
      if_intro (λ (r : Manager Host × Bool). total f (view r.0) ≡ total f (view m)) lost same_total
        same_total

  -- An operation that reconciles first.
  pub reconciled-Goes :
      (m : Manager Host) (f : Manager Host → Result Host)
      → ((n : Manager Host) → Goes (view n) (f n))
      → Goes (view m) (reconciled p m f)
  reconciled-Goes m f g =
      reconciled_rule (Goes (view m)) p m f (λ e. only (reconcile-Goes m))
        (Moves-append (reconcile-Goes m) (g (reconcile p m).0))
