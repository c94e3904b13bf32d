-- ===== src/Machines/Moves.antt =====
-- What the manager promises of its machines, without the host, the timers and the exit channels: the
-- moves that a definition can make. Each operation is a sequence of moves (the children).
pub mod Guards
pub mod Power
pub mod Devices
pub mod Media
pub mod Creation
pub mod Definition
use app_runner.Prelude.{
  ℕ, ◌+◌, ◌≤◌, ◌≡◌, ◌⊎◌, Bool, true, false, ◌&&◌, not, none, some, List, [], ◌∷◌, ◌++◌,
  if◌then◌else◌, Text, same, fold, equal_fold, exists, Assoc, lookup, delete, insert,
}
use app_runner.Vm.{VirtualMachine, Nic, is_active}
use app_runner.Machines.{Manager, BusyReason, find, change, remove, at_rest}

-- The part of the manager's state that a client sees.
pub record View : Type 0 where
  pub machines : List VirtualMachine
  pub creating : Assoc VirtualMachine
  pub busy : Assoc BusyReason

abbrev pub view : {Host : Type 0} → Manager Host → View
view m = record { machines = m.machines; creating = m.creating; busy = m.busy }

-- Number of members that pass a test, and sum over the members.
unfoldable pub count : {A : Type 0} → (A → Bool) → List A → ℕ
count p [] = 0
count p (x ∷ xs) = (if p x then 1 else 0) + count p xs

unfoldable pub tally : {A : Type 0} → (A → ℕ) → List A → ℕ
tally f [] = 0
tally f (x ∷ xs) = f x + tally f xs

-- What a machine has of an identity, of a name and of an address, the latter two up to case.
unfoldable pub id_weight : Text → VirtualMachine → ℕ
id_weight x v = if same v.id x then 1 else 0

unfoldable pub name_weight : Text → VirtualMachine → ℕ
name_weight x v = if same (fold v.name) x then 1 else 0

unfoldable pub mac_weight : Text → VirtualMachine → ℕ
unfolding count
mac_weight x v = count (λ (n : Nic). same (fold n.mac_address) x) v.nics

-- The sum over the machines and the reserved definitions.
unfoldable pub total : (VirtualMachine → ℕ) → View → ℕ
unfolding tally
total f a = tally f a.machines + tally (λ e. f e.1) a.creating

-- Machines that come to rest, and machines that stay.
abbrev pub Settled : List VirtualMachine → List VirtualMachine → Type 0
Settled [] [] = Unit
Settled [] (w ∷ ws) = ⊥
Settled (v ∷ vs) [] = ⊥
Settled (v ∷ vs) (w ∷ ws) = ((w ≡ v) ⊎ (w ≡ at_rest v)) × Settled vs ws

-- What the guest sees of a machine, and what other machines must not share.
abbrev pub SameHardware : VirtualMachine → VirtualMachine → Type 0
SameHardware v w =
    (w.nics ≡ v.nics)
    × (w.disks ≡ v.disks)
    × (w.firmware ≡ v.firmware)
    × (w.cloud_init ≡ v.cloud_init)

abbrev pub NameFree : Text → Text → View → Type 0
NameFree name exclude a =
    (exists (λ v. not (same v.id exclude) && equal_fold v.name name) a.machines ≡ false)
    × (exists (λ e. equal_fold e.1.name name) a.creating ≡ false)

pub data Move (a : View) : View → Type 0 where
  -- Machines whose process is gone come to rest.
  settles : (vs : List VirtualMachine) → Settled a.machines vs → Move a (record a { machines = vs })
  -- The power, the drives or the BMC of a machine change; a busy one does not become active.
  switches :
      (id : Text) (v w : VirtualMachine)
      → find id a.machines ≡ some v
      → w.id ≡ v.id
      → w.name ≡ v.name
      → SameHardware v w
      → (is_active w.status ≡ false)
        ⊎ (w.status ≡ v.status)
        ⊎ (is_active v.status ≡ true)
        ⊎ (lookup id a.busy ≡ none)
      → Move a (record a { machines = change id w a.machines })
  -- A machine gets another name, which no other machine has, or other resources.
  renames :
      (id : Text) (v w : VirtualMachine)
      → find id a.machines ≡ some v
      → w.id ≡ v.id
      → w.status ≡ v.status
      → SameHardware v w
      → (w.name ≡ v.name) ⊎ NameFree w.name id a
      → Move a (record a { machines = change id w a.machines })
  -- The hardware of a machine that is not active changes; an address that it gains is used nowhere.
  rebuilds :
      (id : Text) (v w : VirtualMachine)
      → find id a.machines ≡ some v
      → w.id ≡ v.id
      → w.status ≡ v.status
      → w.name ≡ v.name
      → is_active v.status ≡ false
      → ((x : Text)
          → (mac_weight x w ≤ mac_weight x v)
            ⊎ ((mac_weight x w ≤ 1) × (total (mac_weight x) a ≡ 0)))
      → Move a (record a { machines = change id w a.machines })
  -- A definition is reserved: its identity, its name and its addresses are nobody else's.
  reserves :
      (v : VirtualMachine)
      → is_active v.status ≡ false
      → (same v.id [] ≡ false)
      → total (id_weight v.id) a ≡ 0
      → NameFree v.name [] a
      → ((x : Text) → (mac_weight x v ≡ 0) ⊎ ((mac_weight x v ≤ 1) × (total (mac_weight x) a ≡ 0)))
      → Move a (record a { creating = insert v.id v a.creating })
  withdraws : (id : Text) → Move a (record a { creating = delete id a.creating })
  -- A reserved definition becomes a machine.
  admits :
      (v : VirtualMachine)
      → lookup v.id a.creating ≡ some v
      → Move a (record a { machines = a.machines ++ v ∷ []; creating = delete v.id a.creating })
  -- A machine becomes busy, and is idle again.
  locks :
      (id : Text) (r : BusyReason) (v : VirtualMachine)
      → find id a.machines ≡ some v
      → is_active v.status ≡ false
      → Move a (record a { busy = insert id r a.busy })
  unlocks : (id : Text) → Move a (record a { busy = delete id a.busy })
  removes :
      (id : Text) (v : VirtualMachine)
      → find id a.machines ≡ some v
      → lookup id a.busy ≡ none
      → Move a (record a { machines = remove id a.machines })

-- A move that neither changes the hardware of a machine nor lets one come or go.
abbrev pub IsSoft : {a b : View} → Move a b → Type 0
IsSoft (settles vs s) = Unit
IsSoft (switches id v w f i n h k) = Unit
IsSoft (renames id v w f i s h n) = Unit
IsSoft (rebuilds id v w f i s n k g) = ⊥
IsSoft (reserves v s b z n g) = Unit
IsSoft (withdraws id) = Unit
IsSoft (admits v l) = ⊥
IsSoft (locks id r v f i) = Unit
IsSoft (unlocks id) = Unit
IsSoft (removes id v f i) = ⊥

pub data SoftMoves (a : View) : View → Type 0 where
  still : SoftMoves a a
  softly : {b c : View} → SoftMoves a b → (st : Move b c) → IsSoft st → SoftMoves a c

-- The moves of one operation: soft ones, and at most one other, the last.
pub data Moves (a : View) : View → Type 0 where
  only : {b : View} → SoftMoves a b → Moves a b
  after : {b c : View} → SoftMoves a b → Move b c → Moves a c

abbrev pub here : {a : View} → Moves a a
here = only still
