-- ===== src/Hostnet/Pending/Death.antt =====
-- A process that dies while Apply is at work.
use app_runner.Prelude.{
  ◌≡◌, refl, sym, Bool, true, false, Option, none, some, [], In, inl, inr, arith, Text, ap, ◌∙◌,
  subst, if_intro,
}
use app_runner.Hostnet.Change.{
  Change, ChangeError, SafetyError, validate_change, validate_workload_safety,
}
use app_runner.Hostnet.Pending.{
  Provider, PendingChange, Manager, Env, Run, apply_run, apply_valid, apply_safe, apply_snapshot,
  apply_saved, apply_at, apply, recover, new_pending,
}
use app_runner.Hostnet.Pending.Rollback.{undone}

module _ {Host Saved : Type 0} (provider : Provider Host Saved) where
  -- The state file has the snapshot.
  abbrev Keeps : Saved → Manager Host Saved → Type 0
  Keeps s x = (q : PendingChange Saved) × (x.file ≡ some q) × (q.snapshot ≡ s)

  -- Each state on the way has a snapshot of the host before in its file, and if there is none, the
  -- host is as it was.
  abbrev Journaled : Change → Manager Host Saved → Run provider → Type 0
  Journaled c m r =
      ((x : Manager Host Saved)
        → In x r.2
        → (s : Saved) × (provider.snapshot c m.host ≡ some s) × Keeps s x)
      × (r.2 ≡ [] → r.0.host ≡ m.host)

  apply_at-Keeps :
      (env : Env) (c : Change) (q : PendingChange Saved) (m : Manager Host Saved) (r : Host × Bool)
      (x : Manager Host Saved)
      → m.file ≡ some q
      → In x (apply_at provider env c q m r).2
      → x.file ≡ some q
  unfolding apply_at
  apply_at-Keeps env c q m (h, true) x f (inl e) = ap (λ (y : Manager Host Saved). y.file) e ∙ f
  apply_at-Keeps env c q m (h, true) x f (inr i) = absurd i
  apply_at-Keeps env c q m (h, false) x f (inl e) = ap (λ (y : Manager Host Saved). y.file) e ∙ f
  apply_at-Keeps env c q m (h, false) x f (inr (inl e)) =
      ap (λ (y : Manager Host Saved). y.file) e ∙ f
  apply_at-Keeps env c q m (h, false) x f (inr (inr i)) = absurd i

  apply_saved-Journaled :
      (env : Env) (c : Change) (s : Saved) (id : Option Text) (m : Manager Host Saved)
      → provider.snapshot c m.host ≡ some s
      → Journaled c m (apply_saved provider env c s id m)
  unfolding apply_saved
  apply_saved-Journaled env c s none m e = (λ x i. absurd i, λ _. refl)
  apply_saved-Journaled env c s (some id) m e =
      let q = new_pending env c s id in
      if_intro (Journaled c m) env.written
        (
          (λ x i. (
            s,
            e,
            (
              q,
              elim i [
                | inl y ↦ ap (λ (z : Manager Host Saved). z.file) y
                | inr j ↦
                    apply_at-Keeps env c q (record m { pending = some q; file = some q })
                      (provider.apply c m.host) x refl j
              ],
              refl,
            ),
          )),
          λ n. cc,
        )
        (λ x i. absurd i, λ _. refl)

  apply_snapshot-Journaled :
      (env : Env) (c : Change) (o : Option Saved) (m : Manager Host Saved)
      → provider.snapshot c m.host ≡ o
      → Journaled c m (apply_snapshot provider env c o m)
  unfolding apply_snapshot
  apply_snapshot-Journaled env c none m e = (λ x i. absurd i, λ _. refl)
  apply_snapshot-Journaled env c (some s) m e = apply_saved-Journaled env c s env.new_id m e

  apply_safe-Journaled :
      (env : Env) (c : Change) (o : Option SafetyError) (m : Manager Host Saved)
      → Journaled c m (apply_safe provider env c o m)
  unfolding apply_safe
  apply_safe-Journaled env c (some e) m = (λ x i. absurd i, λ _. refl)
  apply_safe-Journaled env c none m =
      apply_snapshot-Journaled env c (provider.snapshot c m.host) m refl

  apply_valid-Journaled :
      (env : Env) (c : Change) (e : Option ChangeError) (q : Option (PendingChange Saved))
      (m : Manager Host Saved)
      → Journaled c m (apply_valid provider env c e q m)
  unfolding apply_valid
  apply_valid-Journaled env c (some e) q m = (λ x i. absurd i, λ _. refl)
  apply_valid-Journaled env c none (some q) m = (λ x i. absurd i, λ _. refl)
  apply_valid-Journaled env c none none m =
      apply_safe-Journaled env c (validate_workload_safety env.dhcp_enabled env.machines c) m

  recover-Keeps :
      (late : Env) (s : Saved) (x : Manager Host Saved) (h : Host)
      → Keeps s x
      → (provider.restore s h).1 ≡ true
      → late.removed ≡ true
      → recover provider late (record x { host = h })
        ≡ (undone provider (provider.restore s h).0, none)
  unfolding recover
  recover-Keeps late s x h (q, f, e) r d =
      let t = subst (λ y. (provider.restore y h).1 ≡ true) (sym e) r in
      subst
        (λ y.
          recover provider late (record x { host = h })
          ≡ (undone provider (provider.restore y h).0, none))
        e (ground (arith, f, t, d))

  -- Apply can be undone when the process dies while it is at work: at whatever point it dies between
  -- Apply's calls, after the state file was written and before it is removed, and whatever the host
  -- has become, within a call that changes it too, the next process restores the snapshot that Apply took of the host before, where that
  -- restore succeeds and the state file can be removed; and an Apply that has written nothing has
  -- not changed the host.
  pub apply-Journaled :
      (env late : Env) (c : Change) (m : Manager Host Saved)
      → ((x : Manager Host Saved) (h : Host)
          → In x (apply_run provider env c m).2
          → (s : Saved) × (provider.snapshot c m.host ≡ some s)
            × ((provider.restore s h).1 ≡ true
                → late.removed ≡ true
                → recover provider late (record x { host = h })
                  ≡ (undone provider (provider.restore s h).0, none)))
        × ((apply_run provider env c m).2 ≡ [] → (apply provider env c m).0.host ≡ m.host)
  unfolding apply_run apply
  apply-Journaled env late c m =
      let (a, b) = apply_valid-Journaled env c (validate_change c) m.pending m in
      (λ x h i. let (s, e, k) = a x i in (s, e, recover-Keeps late s x h k), b)
