-- ===== src/Machines/Quiet.antt =====
-- Which machine an identity finds after a move, and that no busy machine is active.
use app_runner.Prelude.{
  some-injective, ◌≡◌, ◌≢◌, refl, ap, sym, subst, ◌∙◌, ◌⊎◌, inl, inr, Bool, true, false, none, some,
  List, [], ◌∷◌, ◌++◌, Text, Text-discrete, lookup, delete, insert, arith, All, All-In, All-delete,
  In-lookup, lookup-delete, lookup-insert,
}
use app_runner.Vm.{VirtualMachine, is_active}
use app_runner.Machines.{find, change, remove, at_rest, BusyReason}
use app_runner.Machines.Moves.{
  View, Settled, Move, settles, switches, renames, rebuilds, reserves, withdraws, admits, locks,
  unlocks, removes,
}
use app_runner.Machines.Weights.{find-id}
use app_runner.Machines.Steps.{IsQuiet}

pub find-change :
    (id : Text) (w : VirtualMachine) (vs : List VirtualMachine) (v : VirtualMachine)
    → find id vs ≡ some v
    → w.id ≡ id
    → find id (change id w vs) ≡ some w
unfolding find change
find-change id w [] v f i = cc
find-change id w (x ∷ xs) v f i = elim (Text-discrete x.id id) [
  | yes y ↦ ground arith
  | no n ↦ ground (arith, find-change id w xs v)
]

pub find-change_other :
    (id i : Text) (w : VirtualMachine) (vs : List VirtualMachine)
    → id ≢ i
    → w.id ≡ id
    → find i (change id w vs) ≡ find i vs
unfolding find change
find-change_other id i w [] d e = refl
find-change_other id i w (x ∷ xs) d e = ground (arith, find-change_other id i w xs)

pub find-remove_other :
    (id i : Text) (vs : List VirtualMachine) → id ≢ i → find i (remove id vs) ≡ find i vs
unfolding find remove
find-remove_other id i [] d = refl
find-remove_other id i (x ∷ xs) d = ground (arith, find-remove_other id i xs)

pub find-append :
    (i : Text) (v : VirtualMachine) (vs : List VirtualMachine)
    → (find i (vs ++ v ∷ []) ≡ find i vs) ⊎ (find i (vs ++ v ∷ []) ≡ some v)
unfolding find
find-append i v [] = elim (Text-discrete v.id i) [
  | yes y ↦ inr (ground arith)
  | no n ↦ inl (ground arith)
]
find-append i v (x ∷ xs) = elim (Text-discrete x.id i) [
  | yes y ↦ inl (ground arith)
  | no n ↦ ground (arith, find-append i v xs)
]

pub find-append_found :
    (i : Text) (u v : VirtualMachine) (vs : List VirtualMachine)
    → find i vs ≡ some v
    → find i (vs ++ u ∷ []) ≡ some v
unfolding find
find-append_found i u v [] h = cc
find-append_found i u v (x ∷ xs) h = ground (arith, find-append_found i u v xs)

pub find-Settled :
    (i : Text) (vs ws : List VirtualMachine) (w : VirtualMachine)
    → Settled vs ws
    → find i ws ≡ some w
    → (v : VirtualMachine) × (find i vs ≡ some v) × ((w ≡ v) ⊎ (w ≡ at_rest v))
unfolding find
find-Settled i [] [] w s f = absurd (ground arith)
find-Settled i [] (x ∷ xs) w s f = absurd s
find-Settled i (v ∷ vs) [] w s f = absurd (ground arith)
find-Settled i (v ∷ vs) (x ∷ xs) w (e, s) f =
    let same_id : x.id ≡ v.id = elim e [
      | inl p ↦ ap (λ (u : VirtualMachine). u.id) p
      | inr p ↦ ap (λ (u : VirtualMachine). u.id) p
    ] in
    elim (Text-discrete v.id i) [
      | yes y ↦
          let q : w ≡ x = ground arith in
          (v, ground arith, elim e [ inl p ↦ inl (q ∙ p) | inr p ↦ inr (q ∙ p) ])
      | no n ↦ let (u, g, r) = find-Settled i vs xs w s (ground arith) in (u, ground arith, r)
    ]

-- A definition in the making is not active.
abbrev pub AreNew : View → Type 0
AreNew a = All (λ (e : Text × VirtualMachine). is_active e.1.status ≡ false) a.creating

pub not_both : {A : Type 0} {b : Bool} → b ≡ true → b ≡ false → A
not_both t f = absurd (ground arith)

Settled-IsQuiet :
    (a : View) (vs : List VirtualMachine)
    → Settled a.machines vs
    → IsQuiet a
    → IsQuiet (record a { machines = vs })
unfolding is_active
Settled-IsQuiet a vs s q i w f act =
    let (v, g, r) = find-Settled i a.machines vs w s f in
    elim r [
      | inl e ↦ q i v g (ap (λ (u : VirtualMachine). is_active u.status) (sym e) ∙ act)
      | inr e ↦ not_both act (ap (λ (u : VirtualMachine). is_active u.status) e)
    ]

changed-IsQuiet :
    (id : Text) (v w : VirtualMachine) (a : View)
    → find id a.machines ≡ some v
    → w.id ≡ v.id
    → (is_active w.status ≡ false)
      ⊎ (w.status ≡ v.status)
      ⊎ (is_active v.status ≡ true)
      ⊎ (lookup id a.busy ≡ none)
    → IsQuiet a
    → IsQuiet (record a { machines = change id w a.machines })
changed-IsQuiet id v w a f e k q i u g act = elim (Text-discrete id i) [
  | yes y ↦
      let wu : w ≡ u = some-injective (
        sym (find-change id w a.machines v f (e ∙ find-id id v a.machines f))
        ∙ subst (λ j. find j (change id w a.machines) ≡ some u) (sym y) g) in
      let wact : is_active w.status ≡ true =
        ap (λ (x : VirtualMachine). is_active x.status) wu ∙ act in
      subst (λ j. lookup j a.busy ≡ none) y
        (elim k [
          | inl n ↦ not_both wact n
          | inr (inl s) ↦ q id v f (ap is_active (sym s) ∙ wact)
          | inr (inr (inl t)) ↦ q id v f t
          | inr (inr (inr l)) ↦ l
        ])
  | no n ↦
      q i u (sym (find-change_other id i w a.machines n (e ∙ find-id id v a.machines f)) ∙ g) act
]

admitted-IsQuiet :
    (v : VirtualMachine) (a : View)
    → lookup v.id a.creating ≡ some v
    → AreNew a
    → IsQuiet a
    → IsQuiet (record a { machines = a.machines ++ v ∷ []; creating = delete v.id a.creating })
admitted-IsQuiet v a l c q i u f act = elim (find-append i v a.machines) [
  | inl e ↦ q i u (sym e ∙ f) act
  | inr e ↦ not_both act (
      ap (λ (x : VirtualMachine). is_active x.status) (some-injective (sym f ∙ e))
      ∙ All-In _ a.creating c (In-lookup v.id a.creating v l))
]

locked-IsQuiet :
    (id : Text) (r : BusyReason) (v : VirtualMachine) (a : View)
    → find id a.machines ≡ some v
    → is_active v.status ≡ false
    → IsQuiet a
    → IsQuiet (record a { busy = insert id r a.busy })
locked-IsQuiet id r v a f k q i u g act = elim (Text-discrete id i) [
  | yes y ↦ not_both act (
      ap (λ (x : VirtualMachine). is_active x.status)
        (some-injective (sym g ∙ subst (λ j. find j a.machines ≡ some v) y f))
      ∙ k)
  | no n ↦ ground (arith, lookup-insert id i r a.busy, q i u g act)
]

unlocked-IsQuiet :
    (id : Text) (a : View) → IsQuiet a → IsQuiet (record a { busy = delete id a.busy })
unlocked-IsQuiet id a q i u g act = ground (arith, lookup-delete id i a.busy, q i u g act)

removed-IsQuiet :
    (id : Text) (a : View)
    → lookup id a.busy ≡ none
    → IsQuiet a
    → IsQuiet (record a { machines = remove id a.machines })
removed-IsQuiet id a k q i u g act = elim (Text-discrete id i) [
  | yes y ↦ subst (λ j. lookup j a.busy ≡ none) y k
  | no n ↦ q i u (sym (find-remove_other id i a.machines n) ∙ g) act
]

-- No busy machine is active: every move keeps it so.
pub Move-IsQuiet : {a b : View} → Move a b → AreNew a → IsQuiet a → IsQuiet b
Move-IsQuiet {a} (settles vs s) c q = Settled-IsQuiet a vs s q
Move-IsQuiet {a} (switches id v w f i n h k) c q = changed-IsQuiet id v w a f i k q
Move-IsQuiet {a} (renames id v w f i s h n) c q = changed-IsQuiet id v w a f i (inr (inl s)) q
Move-IsQuiet {a} (rebuilds id v w f i s n k g) c q = changed-IsQuiet id v w a f i (inr (inl s)) q
Move-IsQuiet {a} (reserves v s b z n g) c q = q
Move-IsQuiet {a} (withdraws id) c q = q
Move-IsQuiet {a} (admits v l) c q = admitted-IsQuiet v a l c q
Move-IsQuiet {a} (locks id r v f k) c q = locked-IsQuiet id r v a f k q
Move-IsQuiet {a} (unlocks id) c q = unlocked-IsQuiet id a q
Move-IsQuiet {a} (removes id v f k) c q = removed-IsQuiet id a k q

pub Move-AreNew : {a b : View} → Move a b → AreNew a → AreNew b
unfolding insert
Move-AreNew {a} (settles vs s) c = c
Move-AreNew {a} (switches id v w f i n h k) c = c
Move-AreNew {a} (renames id v w f i s h n) c = c
Move-AreNew {a} (rebuilds id v w f i s n k g) c = c
Move-AreNew {a} (reserves v s b z n g) c = (s, All-delete _ v.id a.creating c)
Move-AreNew {a} (withdraws id) c = All-delete _ id a.creating c
Move-AreNew {a} (admits v l) c = All-delete _ v.id a.creating c
Move-AreNew {a} (locks id r v f k) c = c
Move-AreNew {a} (unlocks id) c = c
Move-AreNew {a} (removes id v f k) c = c
