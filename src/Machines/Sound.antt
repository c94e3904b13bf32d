-- ===== src/Machines/Sound.antt =====
-- The invariant of the manager, over every order of its steps.
use app_runner.Machines.{Platform, Manager}
use app_runner.Machines.Moves.{View, view, Move, Moves, after, SoftMoves, softly, still, only}
use app_runner.Machines.Steps.{Reach, begin, next, Step-Moves, IsQuiet}
use app_runner.Machines.Invariants.{IsUnique, Move-IsUnique}
use app_runner.Machines.Quiet.{AreNew, Move-IsQuiet, Move-AreNew}

-- Identities, names and addresses are unique, no busy machine is active, and nothing is active
-- while it is made.
pub record IsSound (a : View) : Type 0 where
  pub unique : IsUnique a
  pub quiet : IsQuiet a
  pub new : AreNew a

Move-IsSound : {a b : View} → Move a b → IsSound a → IsSound b
Move-IsSound st s = record {
  unique = Move-IsUnique st s.unique;
  quiet = Move-IsQuiet st s.new s.quiet;
  new = Move-AreNew st s.new;
}

pub SoftMoves-IsSound : {a b : View} → SoftMoves a b → IsSound a → IsSound b
SoftMoves-IsSound still s = s
SoftMoves-IsSound (softly ms st h) s = Move-IsSound st (SoftMoves-IsSound ms s)

Moves-IsSound : {a b : View} → Moves a b → IsSound a → IsSound b
Moves-IsSound (only ms) s = SoftMoves-IsSound ms s
Moves-IsSound (after ms st) s = Move-IsSound st (SoftMoves-IsSound ms s)

module _ {Host : Type 0} (p : Platform Host) where
  -- In every order of the manager's operations, their parts without the lock included, with any
  -- outcome of the host's calls, and where each new identity that is drawn is one that no machine has,
  -- a sound state stays sound: no two machines, made or in the making,
  -- share an identity, a name or a MAC address up to case, and no machine is active while one of its
  -- disks is made or it is cloned.
  pub Reach-IsSound : {m n : Manager Host} → Reach p m n → IsSound (view m) → IsSound (view n)
  Reach-IsSound begin s = s
  Reach-IsSound (next r st) s =
      let t = Reach-IsSound r s in Moves-IsSound (Step-Moves p st t.quiet) t
