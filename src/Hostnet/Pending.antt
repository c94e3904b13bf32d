-- ===== src/Hostnet/Pending.antt =====
-- The pending network change (internal/hostnet/manager.go: Apply, Confirm, Revert,
-- recoverPendingChange, rollbackAfterTimeout, armTimerLocked, savePending, clearPendingLocked).
-- The provider that inspects and mutates the host is a parameter, as it is in Go; a host is a value
-- of `Host`, and what the provider saves of it a value of `Saved`. Each function is one that runs
-- under `m.mu`. The file is what a restart finds.
pub mod Rollback
pub mod Death
use app_runner.Prelude.{
  ℕ, ◌+◌, Bool, true, false, ◌&&◌, ◌||◌, not, Option, none, some, List, [], ◌∷◌, if◌then◌else◌,
  Text, same,
}
use app_runner.Vm.{VirtualMachine}
use app_runner.Hostnet.Change.{
  Change, ChangeError, SafetyError, validate_change, validate_workload_safety, describe_change,
}

-- `hostnet.Provider`; the Boolean is whether the call succeeds.
pub record Provider (Host Saved : Type 0) : Type 0 where
  pub snapshot : Change → Host → Option Saved
  pub apply : Change → Host → Host × Bool
  pub restore : Saved → Host → Host × Bool

pub record PendingChange (Saved : Type 0) : Type 0 where
  pub id : Text
  pub description : Text
  pub expires_at : ℕ
  pub snapshot : Saved

-- `timer` is the change that the armed timer rolls back.
pub record Manager (Host Saved : Type 0) : Type 0 where
  pub host : Host
  pub pending : Option (PendingChange Saved)
  pub file : Option (PendingChange Saved)
  pub timer : Option Text

pub data HostnetError : Type 0 where
  invalid : ChangeError → HostnetError
  unsafe : SafetyError → HostnetError
  change_pending not_found snapshot_failed no_id not_written apply_failed rollback_failed
        restore_failed not_removed :
      HostnetError

-- What the calls of the outside return: the new identity, the clock, whether the state file can be
-- written and removed, whether DHCP serves the bridge, and the machines.
pub record Env : Type 0 where
  pub new_id : Option Text
  pub now : ℕ
  pub written : Bool
  pub removed : Bool
  pub dhcp_enabled : Bool
  pub machines : Option (List VirtualMachine)

-- 15 seconds.
abbrev pub confirmation_window : ℕ
confirmation_window = 15000000000

abbrev pub new_pending : {Saved : Type 0} → Env → Change → Saved → Text → PendingChange Saved
new_pending env c s id = record {
  id = id;
  description = describe_change c;
  expires_at = env.now + confirmation_window;
  snapshot = s;
}

module _ {Host Saved : Type 0} (provider : Provider Host Saved) where
  -- `clearPendingLocked`
  pub clear_pending : Bool → Manager Host Saved → Manager Host Saved × Option HostnetError
  clear_pending removed m =
      if removed
      then (record m { file = none; timer = none; pending = none }, none)
      else (m, some not_removed)

  -- A call of Apply: the state and the error that it ends with, and the states between its calls on
  -- the outside, once it has begun to write.
  abbrev pub Run : Type 0
  Run = Manager Host Saved × Option HostnetError × List (Manager Host Saved)

  pub apply_at : Env → Change → PendingChange Saved → Manager Host Saved → Host × Bool → Run
  unfolding clear_pending
  apply_at env c p m (host, true) =
      let changed : Manager Host Saved = record m { host = host } in
      (record changed { timer = some p.id }, none, changed ∷ [])
  apply_at env c p m (host, false) =
      let (restored, ok) = provider.restore p.snapshot host in
      let (m', _) = clear_pending env.removed (record m { host = restored }) in
      (
        m',
        if ok then some apply_failed else some rollback_failed,
        record m { host = host } ∷ record m { host = restored } ∷ [],
      )

  pub apply_saved : Env → Change → Saved → Option Text → Manager Host Saved → Run
  unfolding apply_at
  apply_saved env c s none m = (m, some no_id, [])
  apply_saved env c s (some id) m =
      let p = new_pending env c s id in
      let written : Manager Host Saved = record m { pending = some p; file = some p } in
      let (m', e, moments) = apply_at env c p written (provider.apply c m.host) in
      if env.written then (m', e, written ∷ moments) else (m, some not_written, [])

  pub apply_snapshot : Env → Change → Option Saved → Manager Host Saved → Run
  unfolding apply_saved
  apply_snapshot env c none m = (m, some snapshot_failed, [])
  apply_snapshot env c (some s) m = apply_saved env c s env.new_id m

  pub apply_safe : Env → Change → Option SafetyError → Manager Host Saved → Run
  unfolding apply_snapshot
  apply_safe env c (some e) m = (m, some (unsafe e), [])
  apply_safe env c none m = apply_snapshot env c (provider.snapshot c m.host) m

  pub apply_valid :
      Env → Change → Option ChangeError → Option (PendingChange Saved) → Manager Host Saved → Run
  unfolding apply_safe
  apply_valid env c (some e) p m = (m, some (invalid e), [])
  apply_valid env c none (some p) m = (m, some change_pending, [])
  apply_valid env c none none m =
      apply_safe env c (validate_workload_safety env.dhcp_enabled env.machines c) m

  unfoldable pub apply_run : Env → Change → Manager Host Saved → Run
  unfolding apply_valid
  apply_run env c m = apply_valid env c (validate_change c) m.pending m

  -- `Apply`
  unfoldable pub apply :
      Env → Change → Manager Host Saved → Manager Host Saved × Option HostnetError
  unfolding apply_run
  apply env c m = let (m', e, moments) = apply_run env c m in (m', e)

  abbrev pub matches : Text → Option (PendingChange Saved) → Bool
  matches id none = false
  matches id (some p) = same p.id id

  -- `Confirm`
  unfoldable pub confirm :
      Env → Text → Manager Host Saved → Manager Host Saved × Option HostnetError
  unfolding clear_pending
  confirm env id m =
      if matches id m.pending then clear_pending env.removed m else (m, some not_found)

  -- The pending change is restored and cleared.
  pub restore_pending :
      Bool
      → Option (PendingChange Saved)
      → Manager Host Saved
      → Manager Host Saved × Option HostnetError
  unfolding clear_pending
  restore_pending removed none m = (m, some not_found)
  restore_pending removed (some p) m =
      let (host, ok) = provider.restore p.snapshot m.host in
      if ok
      then clear_pending removed (record m { host = host })
      else (record m { host = host }, some restore_failed)

  -- `Revert`
  unfoldable pub revert : Env → Text → Manager Host Saved → Manager Host Saved × Option HostnetError
  unfolding restore_pending
  revert env id m =
      if matches id m.pending then restore_pending env.removed m.pending m else (m, some not_found)

  -- `rollbackAfterTimeout`, which the timer calls; it only logs an error.
  unfoldable pub rollback_after_timeout : Env → Text → Manager Host Saved → Manager Host Saved
  unfolding restore_pending
  rollback_after_timeout env id m =
      if matches id m.pending then (restore_pending env.removed m.pending m).0 else m

  -- A new process starts on a host with a state file: `recoverPendingChange`.
  pub recover_from :
      Env → Host → Option (PendingChange Saved) → Manager Host Saved × Option HostnetError
  recover_from env host none =
      (record { host = host; pending = none; file = none; timer = none }, none)
  recover_from env host (some p) =
      let (restored, ok) = provider.restore p.snapshot host in
      let kept : Manager Host Saved = record {
        host = restored;
        pending = none;
        file = some p;
        timer = none;
      } in
      if not ok
      then (kept, some restore_failed)
      else if env.removed
      then (record kept { file = none }, none)
      else (kept, some not_removed)

  unfoldable pub recover : Env → Manager Host Saved → Manager Host Saved × Option HostnetError
  unfolding recover_from
  recover env m = recover_from env m.host m.file
