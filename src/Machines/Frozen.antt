-- ===== src/Machines/Frozen.antt =====
-- The hardware of a machine that runs does not change under it.
use app_runner.Prelude.{
  some-injective, ◌≤◌, ◌≡◌, refl, ap, sym, subst, ◌∙◌, inl, inr, true, false, none, some, List, [],
  ◌∷◌, ◌++◌, Text, Text-discrete, arith,
}
use app_runner.Vm.{VirtualMachine, is_active}
use app_runner.Machines.{Platform, Manager, find, change, remove, at_rest}
use app_runner.Machines.Moves.{
  View, view, tally, total, id_weight, Settled, SameHardware, Move, settles, switches, renames,
  rebuilds, reserves, withdraws, admits, locks, unlocks, removes, SoftMoves, still, softly, IsSoft,
  Moves, only, after,
}
use app_runner.Machines.Weights.{find-id}
use app_runner.Machines.Steps.{Step, Step-Moves}
use app_runner.Machines.Invariants.{IsUnique}
use app_runner.Machines.Quiet.{
  find-change, find-change_other, find-remove_other, find-append_found, not_both,
}
use app_runner.Machines.Sound.{IsSound, SoftMoves-IsSound}

-- The machine of an identity is still there, with the same hardware.
abbrev Stands : Text → VirtualMachine → List VirtualMachine → Type 0
Stands i v vs = (w : VirtualMachine) × (find i vs ≡ some w) × SameHardware v w

same_fields : (x u : VirtualMachine) → x ≡ u → SameHardware u x
same_fields x u p = (
  ap (λ (y : VirtualMachine). y.nics) p,
  ap (λ (y : VirtualMachine). y.disks) p,
  ap (λ (y : VirtualMachine). y.firmware) p,
  ap (λ (y : VirtualMachine). y.cloud_init) p,
)

Stands-SameHardware :
    (i : Text) (v w : VirtualMachine) (vs : List VirtualMachine)
    → Stands i v vs
    → find i vs ≡ some w
    → SameHardware v w
Stands-SameHardware i v w vs (u, k, e) h = subst (SameHardware v) (some-injective (sym k ∙ h)) e

Settled-Stands :
    (i : Text) (v : VirtualMachine) (vs ws : List VirtualMachine)
    → Settled vs ws
    → find i vs ≡ some v
    → (w : VirtualMachine) × (find i ws ≡ some w) × SameHardware v w
unfolding find
Settled-Stands i v [] [] s f = absurd (ground arith)
Settled-Stands i v [] (x ∷ ws) s f = absurd s
Settled-Stands i v (u ∷ vs) [] s f = absurd s
Settled-Stands i v (u ∷ vs) (x ∷ ws) (e, s) f =
    let same_id : x.id ≡ u.id = elim e [
      | inl p ↦ ap (λ (y : VirtualMachine). y.id) p
      | inr p ↦ ap (λ (y : VirtualMachine). y.id) p
    ] in
    elim (Text-discrete u.id i) [
      | yes y ↦
          let uv : u ≡ v = some-injective (ground arith) in
          let kept : SameHardware u x = elim e [
            | inl p ↦ same_fields x u p
            | inr p ↦ same_fields x (at_rest u) p
          ] in
          (x, ground arith, subst (λ t. SameHardware t x) uv kept)
      | no n ↦ let (w, g, h) = Settled-Stands i v vs ws s (ground arith) in (w, ground arith, h)
    ]

changed-Stands :
    (id i : Text) (v w u : VirtualMachine) (a : View)
    → find id a.machines ≡ some v
    → w.id ≡ v.id
    → SameHardware v w
    → find i a.machines ≡ some u
    → Stands i u (change id w a.machines)
changed-Stands id i v w u a f e h g =
    let e' : w.id ≡ id = e ∙ find-id id v a.machines f in
    elim (Text-discrete id i) [
      | yes y ↦ (
        w,
        subst (λ j. find j (change id w a.machines) ≡ some w) y
            (find-change id w a.machines v f e'),
        subst (λ x. SameHardware x w)
            (some-injective (sym f ∙ subst (λ j. find j a.machines ≡ some u) (sym y) g)) h,
      )
      | no n ↦ (u, find-change_other id i w a.machines n e' ∙ g, (refl, refl, refl, refl))
    ]

soft-Stands :
    {a b : View} (st : Move a b)
    → IsSoft st
    → (i : Text) (v : VirtualMachine) → find i a.machines ≡ some v
    → Stands i v b.machines
soft-Stands {a} (settles vs s) h i v f = Settled-Stands i v a.machines vs s f
soft-Stands {a} (switches id v w f e n h k) t i u g = changed-Stands id i v w u a f e h g
soft-Stands {a} (renames id v w f e s h n) t i u g = changed-Stands id i v w u a f e h g
soft-Stands {a} (rebuilds id v w f e s n k m) t i u g = absurd t
soft-Stands {a} (reserves v s b z n m) t i u g = (u, g, (refl, refl, refl, refl))
soft-Stands {a} (withdraws id) t i u g = (u, g, (refl, refl, refl, refl))
soft-Stands {a} (admits v l) t i u g = absurd t
soft-Stands {a} (locks id r v f k) t i u g = (u, g, (refl, refl, refl, refl))
soft-Stands {a} (unlocks id) t i u g = (u, g, (refl, refl, refl, refl))
soft-Stands {a} (removes id v f k) t i u g = absurd t

pub SameHardware-trans :
    (u v w : VirtualMachine) → SameHardware u v → SameHardware v w → SameHardware u w
SameHardware-trans u v w (n, d, f, c) (n', d', f', c') = (n' ∙ n, d' ∙ d, f' ∙ f, c' ∙ c)

pub SoftMoves-Stands :
    {a b : View}
    → SoftMoves a b
    → (i : Text) (v : VirtualMachine) → find i a.machines ≡ some v
    → Stands i v b.machines
SoftMoves-Stands still i v f = (v, f, (refl, refl, refl, refl))
SoftMoves-Stands (softly ms st t) i v f =
    let (u, g, h) = SoftMoves-Stands ms i v f in
    let (w, k, h') = soft-Stands st t i u g in (w, k, SameHardware-trans v u w h h')

absent : (id : Text) (vs : List VirtualMachine) → tally (id_weight id) vs ≡ 0 → find id vs ≡ none
unfolding tally id_weight find
absent id [] u = refl
absent id (x ∷ xs) u = ground (arith, absent id xs)

-- An identity is found once at most.
removed_none :
    (id : Text) (vs : List VirtualMachine)
    → tally (id_weight id) vs ≤ 1
    → find id (remove id vs) ≡ none
unfolding tally id_weight find remove
removed_none id [] u = refl
removed_none id (x ∷ xs) u = elim (Text-discrete x.id id) [
  | yes y ↦ ground (arith, absent id xs)
  | no n ↦ ground (arith, removed_none id xs)
]

module _ (i : Text) (v w : VirtualMachine) (a : View) (g : find i a.machines ≡ some v) where
  rebuilt-SameHardware :
      (id : Text) (u x : VirtualMachine)
      → find id a.machines ≡ some u
      → x.id ≡ u.id
      → x.status ≡ u.status
      → is_active u.status ≡ false
      → find i (change id x a.machines) ≡ some w
      → is_active w.status ≡ true
      → SameHardware v w
  rebuilt-SameHardware id u x f e s k h act =
      let e' : x.id ≡ id = e ∙ find-id id u a.machines f in
      elim (Text-discrete id i) [
        | yes y ↦
            let xw : x ≡ w = some-injective (
              sym (find-change id x a.machines u f e')
              ∙ subst (λ j. find j (change id x a.machines) ≡ some w) (sym y) h) in
            not_both act
              (ap (λ (z : VirtualMachine). is_active z.status) (sym xw) ∙ ap is_active s ∙ k)
        | no n ↦
            subst (SameHardware v)
              (some-injective (sym g ∙ sym (find-change_other id i x a.machines n e') ∙ h))
              (refl, refl, refl, refl)
      ]

  admitted-SameHardware :
      (u : VirtualMachine) → find i (a.machines ++ u ∷ []) ≡ some w → SameHardware v w
  admitted-SameHardware u h =
      subst (SameHardware v) (some-injective (sym (find-append_found i u v a.machines g) ∙ h))
        (refl, refl, refl, refl)

  removed-SameHardware :
      (id : Text) → IsUnique a → find i (remove id a.machines) ≡ some w → SameHardware v w
  unfolding total
  removed-SameHardware id q h = elim (Text-discrete id i) [
    | yes y ↦ absurd (
        ground (
          arith,
          subst (λ j. find j (remove id a.machines) ≡ none) y
              (removed_none id a.machines (omega (arith, q.unique_ids id))),
        ))
    | no n ↦
        subst (SameHardware v)
          (some-injective (sym g ∙ sym (find-remove_other id i a.machines n) ∙ h))
          (refl, refl, refl, refl)
  ]

Move-Frozen :
    {a b : View}
    → Move a b
    → IsUnique a
    → (i : Text) (v w : VirtualMachine) → find i a.machines ≡ some v
    → find i b.machines ≡ some w
    → is_active w.status ≡ true
    → SameHardware v w
Move-Frozen {a} (rebuilds id u x f e s n k m) q i v w g h act =
    rebuilt-SameHardware i v w a g id u x f e s k h act
Move-Frozen {a} (admits u l) q i v w g h act = admitted-SameHardware i v w a g u h
Move-Frozen {a} (removes id u f k) q i v w g h act = removed-SameHardware i v w a g id q h
Move-Frozen {a} (settles vs s) q i v w g h act =
    Stands-SameHardware i v w _ (soft-Stands {a = a} (settles vs s) tt i v g) h
Move-Frozen {a} (switches id u x f e n hw k) q i v w g h act =
    Stands-SameHardware i v w _ (soft-Stands {a = a} (switches id u x f e n hw k) tt i v g) h
Move-Frozen {a} (renames id u x f e s hw n) q i v w g h act =
    Stands-SameHardware i v w _ (soft-Stands {a = a} (renames id u x f e s hw n) tt i v g) h
Move-Frozen {a} (reserves u s b z n m) q i v w g h act =
    Stands-SameHardware i v w _ (soft-Stands {a = a} (reserves u s b z n m) tt i v g) h
Move-Frozen {a} (withdraws id) q i v w g h act =
    Stands-SameHardware i v w _ (soft-Stands {a = a} (withdraws id) tt i v g) h
Move-Frozen {a} (locks id r u f k) q i v w g h act =
    Stands-SameHardware i v w _ (soft-Stands {a = a} (locks id r u f k) tt i v g) h
Move-Frozen {a} (unlocks id) q i v w g h act =
    Stands-SameHardware i v w _ (soft-Stands {a = a} (unlocks id) tt i v g) h

Moves-Frozen :
    {a b : View}
    → Moves a b
    → IsSound a
    → (i : Text) (v w : VirtualMachine) → find i a.machines ≡ some v
    → find i b.machines ≡ some w
    → is_active w.status ≡ true
    → SameHardware v w
Moves-Frozen (only ms) s i v w g h act = Stands-SameHardware i v w _ (SoftMoves-Stands ms i v g) h
Moves-Frozen (after ms st) s i v w g h act =
    let (u, k, e) = SoftMoves-Stands ms i v g in
    SameHardware-trans v u w e (Move-Frozen st (SoftMoves-IsSound ms s).unique i u w k h act)

module _ {Host : Type 0} (p : Platform Host) where
  -- No step, of any operation, changes the network interfaces, the disks, the firmware or the
  -- cloud-init of a machine that is active after it: in a sound state, a machine that is there
  -- before and after a step, and active after it, has the hardware that it had.
  pub Step-Frozen :
      {m n : Manager Host} (i : Text) (v w : VirtualMachine)
      → Step p m n
      → IsSound (view m)
      → find i m.machines ≡ some v
      → find i n.machines ≡ some w
      → is_active w.status ≡ true
      → SameHardware v w
  Step-Frozen i v w st s g h act = Moves-Frozen (Step-Moves p st s.quiet) s i v w g h act
