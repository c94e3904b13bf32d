-- ===== src/Machines/Invariants.antt =====
-- What every move keeps, and so every step of the manager: identities, names and addresses are
-- unique, and a busy machine is not active.
use app_runner.Prelude.{
  ℕ, ◌+◌, ◌≤◌, ◌≡◌, refl, Bool, false, ◌&&◌, not, some, List, [], ◌∷◌, Text, Text-discrete, same,
  fold, equal_fold, exists, insert, arith, subst, ap, if◌then◌else◌, ◌⊎◌, inl, inr,
}
use app_runner.Vm.{VirtualMachine, Nic}
use app_runner.Machines.{find, change, at_rest}
use app_runner.Machines.Moves.{
  View, tally, id_weight, name_weight, mac_weight, total, NameFree, count, Move, settles, switches,
  renames, rebuilds, reserves, withdraws, admits, locks, unlocks, removes,
}
use app_runner.Machines.Weights.{
  change-tally, delete-tally, exists-tally, tally-append, Settled-tally, remove-tally, lookup-tally,
}

-- The identities, the names and the addresses of all machines and reserved definitions are distinct,
-- the latter two up to case; no identity is blank.
pub record IsUnique (a : View) : Type 0 where
  pub unique_ids : (x : Text) → total (id_weight x) a ≤ 1
  pub no_blank_id : total (id_weight []) a ≡ 0
  pub unique_names : (x : Text) → total (name_weight x) a ≤ 1
  pub unique_macs : (x : Text) → total (mac_weight x) a ≤ 1

abbrev of_others : Text → Text → VirtualMachine → Bool
of_others id name v = not (same v.id id) && equal_fold v.name name

none_named :
    (id name : Text) (vs : List VirtualMachine)
    → tally (id_weight id) vs ≡ 0
    → exists (of_others id name) vs ≡ false
    → tally (name_weight (fold name)) vs ≡ 0
unfolding tally id_weight name_weight
none_named id name [] z h = refl
none_named id name (v ∷ vs) z h = ground (arith, none_named id name vs)

only_named :
    (id name : Text) (v : VirtualMachine) (vs : List VirtualMachine)
    → find id vs ≡ some v
    → tally (id_weight id) vs ≤ 1
    → exists (of_others id name) vs ≡ false
    → tally (name_weight (fold name)) vs ≡ name_weight (fold name) v
unfolding tally id_weight name_weight find
only_named id name v [] f u h = cc
only_named id name v (x ∷ xs) f u h = elim (Text-discrete x.id id) [
  | yes y ↦ ground (arith, none_named id name xs)
  | no n ↦ ground (arith, only_named id name v xs)
]

-- A change of one machine changes a sum by what the machine gains.
change-total :
    (f : VirtualMachine → ℕ) (id : Text) (v w : VirtualMachine) (a : View)
    → find id a.machines ≡ some v
    → total f (record a { machines = change id w a.machines }) + f v ≡ total f a + f w
unfolding total
change-total f id v w a h = omega (arith, change-tally f id v w a.machines h)

insert-total :
    (f : VirtualMachine → ℕ) (k : Text) (v : VirtualMachine) (a : View)
    → total f (record a { creating = insert k v a.creating }) ≤ f v + total f a
unfolding total insert tally
insert-total f k v a = omega (arith, delete-tally f k a.creating)

-- A move that keeps the sums keeps them at 1.
kept-IsUnique :
    (a b : View)
    → ((f : VirtualMachine → ℕ)
        → ((v : VirtualMachine) → f (at_rest v) ≡ f v)
        → total f b ≤ total f a)
    → IsUnique a
    → IsUnique b
unfolding id_weight name_weight mac_weight
kept-IsUnique a b le u = record {
  unique_ids = λ x. omega (arith, le (id_weight x) (λ v. refl), u.unique_ids x);
  no_blank_id = omega (arith, le (id_weight []) (λ v. refl), u.no_blank_id);
  unique_names = λ x. omega (arith, le (name_weight x) (λ v. refl), u.unique_names x);
  unique_macs = λ x. omega (arith, le (mac_weight x) (λ v. refl), u.unique_macs x);
}

module _ (id : Text) (v w : VirtualMachine) (a : View) (f : find id a.machines ≡ some v) where
  abbrev changed : View
  changed = record a { machines = change id w a.machines }

  -- A change that keeps the identity leaves names and addresses to be looked at.
  changed-IsUnique :
      w.id ≡ v.id
      → ((x : Text) → total (name_weight x) changed ≤ 1)
      → ((x : Text) → total (mac_weight x) changed ≤ 1)
      → IsUnique a
      → IsUnique changed
  unfolding id_weight
  changed-IsUnique i n m u =
      let same_ids : (x : Text) → total (id_weight x) changed ≡ total (id_weight x) a = λ x. omega (
        arith,
        change-total (id_weight x) id v w a f,
        ap {B = ℕ} (λ y. if same y x then 1 else 0) i,
      ) in
      record {
        unique_ids = λ x. omega (arith, same_ids x, u.unique_ids x);
        no_blank_id = omega (arith, same_ids [], u.no_blank_id);
        unique_names = n;
        unique_macs = m;
      }

  same_name :
      w.name ≡ v.name → (x : Text) → total (name_weight x) a ≤ 1 → total (name_weight x) changed ≤ 1
  unfolding name_weight
  same_name n x h = omega (
    arith,
    change-total (name_weight x) id v w a f,
    ap {B = ℕ} (λ y. if same (fold y) x then 1 else 0) n,
  )

  same_macs :
      w.nics ≡ v.nics → (x : Text) → total (mac_weight x) a ≤ 1 → total (mac_weight x) changed ≤ 1
  unfolding mac_weight count
  same_macs n x h = omega (
    arith,
    change-total (mac_weight x) id v w a f,
    ap (count (λ (k : Nic). same (fold k.mac_address) x)) n,
  )

  -- A name that no other machine has is the machine's own at most.
  free-total :
      NameFree w.name id a
      → IsUnique a
      → total (name_weight (fold w.name)) a ≡ name_weight (fold w.name) v
  unfolding total name_weight
  free-total (hm, hc) u = omega (
    arith,
    only_named id w.name v a.machines f (omega (arith, u.unique_ids id)) hm,
    exists-tally (λ e. equal_fold e.1.name w.name) (λ e. name_weight (fold w.name) e.1)
        (λ e h. ground arith) a.creating hc,
  )

  free_name : NameFree w.name id a → IsUnique a → (x : Text) → total (name_weight x) changed ≤ 1
  unfolding name_weight
  free_name h u x = elim (Text-discrete (fold w.name) x) [
    | yes y ↦
        subst (λ z. total (name_weight z) changed ≤ 1) y
          (ground (arith, change-total (name_weight (fold w.name)) id v w a f, free-total h u))
    | no n ↦ ground (arith, change-total (name_weight x) id v w a f, u.unique_names x)
  ]

  -- Addresses that are used nowhere else.
  gained_macs :
      ((x : Text)
        → (mac_weight x w ≤ mac_weight x v) ⊎ ((mac_weight x w ≤ 1) × (total (mac_weight x) a ≡ 0)))
      → ((x : Text) → total (mac_weight x) a ≤ 1)
      → (x : Text) → total (mac_weight x) changed ≤ 1
  gained_macs g h x = elim (g x) [
    | inl l ↦ omega (arith, change-total (mac_weight x) id v w a f, h x)
    | inr r ↦ omega (arith, change-total (mac_weight x) id v w a f, r.0, r.1)
  ]

unused_name :
    (name : Text) (a : View)
    → NameFree name [] a
    → IsUnique a
    → total (name_weight (fold name)) a ≡ 0
unfolding total name_weight
unused_name name a (hm, hc) u = omega (
  arith,
  none_named [] name a.machines (omega (arith, u.no_blank_id)) hm,
  exists-tally (λ e. equal_fold e.1.name name) (λ e. name_weight (fold name) e.1)
      (λ e h. ground arith) a.creating hc,
)

reserved-IsUnique :
    (v : VirtualMachine) (a : View)
    → (same v.id [] ≡ false)
    → total (id_weight v.id) a ≡ 0
    → NameFree v.name [] a
    → ((x : Text) → (mac_weight x v ≡ 0) ⊎ ((mac_weight x v ≤ 1) × (total (mac_weight x) a ≡ 0)))
    → IsUnique a
    → IsUnique (record a { creating = insert v.id v a.creating })
unfolding id_weight name_weight
reserved-IsUnique v a b z n g u = record {
  unique_ids = λ x. elim (Text-discrete v.id x) [
    | yes y ↦
        subst (λ i. total (id_weight i) (record a { creating = insert v.id v a.creating }) ≤ 1) y
          (ground (arith, insert-total (id_weight v.id) v.id v a))
    | no d ↦ ground (arith, insert-total (id_weight x) v.id v a, u.unique_ids x)
  ];
  no_blank_id = ground (arith, insert-total (id_weight []) v.id v a, u.no_blank_id);
  unique_names = λ x. elim (Text-discrete (fold v.name) x) [
    | yes y ↦
        subst (λ i. total (name_weight i) (record a { creating = insert v.id v a.creating }) ≤ 1) y
          (ground
            (arith, insert-total (name_weight (fold v.name)) v.id v a, unused_name v.name a n u))
    | no d ↦ ground (arith, insert-total (name_weight x) v.id v a, u.unique_names x)
  ];
  unique_macs = λ x. elim (g x) [
    | inl l ↦ omega (arith, insert-total (mac_weight x) v.id v a, u.unique_macs x)
    | inr r ↦ omega (arith, insert-total (mac_weight x) v.id v a, r.0, r.1)
  ];
}

-- No two machines, made or in the making, share an identity, a name or an address: every move keeps
-- it so.
pub Move-IsUnique : {a b : View} → Move a b → IsUnique a → IsUnique b
unfolding total tally
Move-IsUnique {a} (settles vs s) u =
    kept-IsUnique a _ (λ f r. omega (arith, Settled-tally f r a.machines vs s)) u
Move-IsUnique {a} (switches id v w f i n h k) u =
    changed-IsUnique id v w a f i (λ x. same_name id v w a f n x (u.unique_names x))
      (λ x. same_macs id v w a f h.0 x (u.unique_macs x)) u
Move-IsUnique {a} (renames id v w f i s h (inl n)) u =
    changed-IsUnique id v w a f i (λ x. same_name id v w a f n x (u.unique_names x))
      (λ x. same_macs id v w a f h.0 x (u.unique_macs x)) u
Move-IsUnique {a} (renames id v w f i s h (inr n)) u =
    changed-IsUnique id v w a f i (free_name id v w a f n u)
      (λ x. same_macs id v w a f h.0 x (u.unique_macs x)) u
Move-IsUnique {a} (rebuilds id v w f i s n k g) u =
    changed-IsUnique id v w a f i (λ x. same_name id v w a f n x (u.unique_names x))
      (gained_macs id v w a f g u.unique_macs) u
Move-IsUnique {a} (reserves v s b z n g) u = reserved-IsUnique v a b z n g u
Move-IsUnique {a} (withdraws id) u =
    kept-IsUnique a _ (λ f r. omega (arith, delete-tally f id a.creating)) u
Move-IsUnique {a} (admits v l) u =
    kept-IsUnique a _
      (λ f r. omega (arith, tally-append f a.machines (v ∷ []), lookup-tally f v.id v a.creating l))
      u
Move-IsUnique {a} (locks id r v f i) u = kept-IsUnique a _ (λ f r. omega arith) u
Move-IsUnique {a} (unlocks id) u = kept-IsUnique a _ (λ f r. omega arith) u
Move-IsUnique {a} (removes id v f i) u =
    kept-IsUnique a _ (λ f r. omega (arith, remove-tally f id a.machines)) u
