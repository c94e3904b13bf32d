-- ===== src/Hostnet/Pending/Rollback.antt =====
-- An unconfirmed change is undone.
use app_runner.Prelude.{
  ◌⊎◌, false, ◌≡◌, ◌≢◌, refl, sym, subst, ap, true, Option, none, some, arith, Text,
}
use app_runner.Hostnet.Change.{
  Change, ChangeError, SafetyError, validate_change, validate_workload_safety,
}
use app_runner.Hostnet.Pending.{
  Provider, PendingChange, Manager, not_found, Env, apply_valid, apply_safe, apply_snapshot,
  apply_saved, new_pending, apply_run, apply, confirm, revert, rollback_after_timeout, recover,
}

module _ {Host Saved : Type 0} (provider : Provider Host Saved) where
  -- A change waits, is on disk and is timed, and holds what was saved of the host `before`.
  pub record Waits (before : Host) (m : Manager Host Saved) : Type 0 where
    pub change : Change
    pub waiting : PendingChange Saved
    pub saved : provider.snapshot change before ≡ some waiting.snapshot
    pub pending : m.pending ≡ some waiting
    pub file : m.file ≡ some waiting
    pub timer : m.timer ≡ some waiting.id
    pub applied : m.host ≡ (provider.apply change before).0

  apply_at-Waits :
      (env : Env) (c : Change) (s : Saved) (id : Text) (m : Manager Host Saved)
      → provider.snapshot c m.host ≡ some s
      → (apply_saved provider env c s (some id) m).1 ≡ none
      → Waits m.host (apply_saved provider env c s (some id) m).0
  unfolding apply_saved
  apply_at-Waits env c s id m e h = record {
    change = c;
    waiting = new_pending env c s id;
    saved = e;
    pending = ground arith;
    file = ground arith;
    timer = ground arith;
    applied = ground arith;
  }

  no_id_fails :
      (env : Env) (c : Change) (s : Saved) (m : Manager Host Saved)
      → (apply_saved provider env c s none m).1 ≢ none
  unfolding apply_saved
  no_id_fails env c s m e = cc

  apply_snapshot-Waits :
      (env : Env) (c : Change) (m : Manager Host Saved) (o : Option Saved) (id : Option Text)
      → provider.snapshot c m.host ≡ o
      → env.new_id ≡ id
      → (apply_snapshot provider env c o m).1 ≡ none
      → Waits m.host (apply_snapshot provider env c o m).0
  unfolding apply_snapshot
  apply_snapshot-Waits env c m none id e i h = cc
  apply_snapshot-Waits env c m (some s) none e i h =
      absurd
        (ground (arith, ap (λ t. (apply_saved provider env c s t m).1) i, no_id_fails env c s m))
  apply_snapshot-Waits env c m (some s) (some id) e i h =
      subst
        (λ t.
          (apply_saved provider env c s t m).1 ≡ none
          → Waits m.host (apply_saved provider env c s t m).0)
        (sym i) (apply_at-Waits env c s id m e) h

  apply_safe-Waits :
      (env : Env) (c : Change) (m : Manager Host Saved) (o : Option SafetyError)
      → (apply_safe provider env c o m).1 ≡ none
      → Waits m.host (apply_safe provider env c o m).0
  unfolding apply_safe
  apply_safe-Waits env c m (some x) h = cc
  apply_safe-Waits env c m none h =
      apply_snapshot-Waits env c m (provider.snapshot c m.host) env.new_id refl refl h

  apply_valid-Waits :
      (env : Env) (c : Change) (m : Manager Host Saved) (o : Option ChangeError)
      (p : Option (PendingChange Saved))
      → (apply_valid provider env c o p m).1 ≡ none
      → Waits m.host (apply_valid provider env c o p m).0
  unfolding apply_valid
  apply_valid-Waits env c m (some x) p h = cc
  apply_valid-Waits env c m none (some q) h = cc
  apply_valid-Waits env c m none none h =
      apply_safe-Waits env c m (validate_workload_safety env.dhcp_enabled env.machines c) h

  -- An Apply that reports no error leaves the change waiting: on disk, timed, and with what was
  -- saved of the host before the change was made.
  pub apply-Waits :
      (env : Env) (c : Change) (m : Manager Host Saved)
      → (apply provider env c m).1 ≡ none
      → Waits m.host (apply provider env c m).0
  unfolding apply apply_run
  apply-Waits env c m h = apply_valid-Waits env c m (validate_change c) m.pending h

  abbrev pub undone : Host → Manager Host Saved
  undone before = record { host = before; pending = none; file = none; timer = none }

  -- Neither a timer that fires late, nor a Revert, nor a restart changes anything.
  abbrev pub Settled : Env → Text → Manager Host Saved → Type 0
  Settled late id kept =
      (rollback_after_timeout provider late id kept ≡ kept)
      × (revert provider late id kept ≡ (kept, some not_found))
      × (recover provider late kept ≡ (kept, none))

  settled : (late : Env) (id : Text) (h : Host) → Settled late id (undone h)
  unfolding revert rollback_after_timeout recover
  settled late id h = (refl, refl, refl)

  -- The change is still to be undone.
  abbrev pub Remains : PendingChange Saved → Manager Host Saved → Type 0
  Remains q m = m.file ≡ some q

  module _ (env : Env) (before : Host) (m : Manager Host Saved) (w : Waits before m) where
    -- An unconfirmed change is undone, or still to be undone: while an applied change waits, and
    -- whatever became of the host since, Revert, the timeout and the next start of the process each
    -- restore the snapshot that Apply took of the host before the change. Where that restore
    -- succeeds and the state file can be removed, they leave the host as the restore does, and
    -- nothing pending, on disk or timed; where the restore or the removal fails, the state file
    -- still holds the change.
    pub unconfirmed_undone :
        (host : Host)
        → let r = provider.restore w.waiting.snapshot host in
          let n : Manager Host Saved = record m { host = host } in
          (provider.snapshot w.change before ≡ some w.waiting.snapshot)
          × (r.1 ≡ true
              → env.removed ≡ true
              → (revert provider env w.waiting.id n ≡ (undone r.0, none))
                × (rollback_after_timeout provider env w.waiting.id n ≡ undone r.0)
                × (recover provider env n ≡ (undone r.0, none)))
          × ((r.1 ≡ false) ⊎ (env.removed ≡ false)
              → Remains w.waiting (revert provider env w.waiting.id n).0
                × Remains w.waiting (rollback_after_timeout provider env w.waiting.id n)
                × Remains w.waiting (recover provider env n).0)
    unfolding revert rollback_after_timeout recover
    unconfirmed_undone host = (
      w.saved,
      λ h r. (
        ground (arith, w.pending, w.file),
        ground (arith, w.pending, w.file),
        ground (arith, w.pending, w.file),
      ),
      λ f. (
        ground (arith, w.pending, w.file),
        ground (arith, w.pending, w.file),
        ground (arith, w.pending, w.file),
      ),
    )

    kept_by_confirm : env.removed ≡ true → (confirm provider env w.waiting.id m).0 ≡ undone m.host
    unfolding confirm
    kept_by_confirm r = ground (arith, w.pending, w.file)

    -- A confirmed change stays: where the state file can be removed, Confirm keeps the host, and
    -- afterwards neither a timer that fires late, nor a Revert, nor a restart changes it.
    pub confirmed_stays :
        (late : Env) (id : Text)
        → env.removed ≡ true
        → let kept = (confirm provider env w.waiting.id m).0 in
          (kept ≡ undone m.host) × Settled late id kept
    confirmed_stays late id r =
        let kept = kept_by_confirm r in
        (kept, subst (Settled late id) (sym kept) (settled late id m.host))
