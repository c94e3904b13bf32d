-- ===== src/Bmc/Apart.antt =====
-- Virtual BMCs whose addresses differ, in every order of the manager's operations and of the ends
-- of their servers.
use app_runner.Prelude.{
  some-injective, ℕ, ◌+◌, ◌<◌, ◌≡◌, ◌⊎◌, inl, inr, refl, sym, subst, ap, ◌∙◌, Bool, false, not,
  ◌&&◌, ◌==◌, lookup-insert_self, Option, none, some, List, [], ◌∷◌, Text, Text-discrete, same,
  arith, if_cases, if_intro, Assoc, lookup, delete, insert, lookup-delete, lookup-insert, exists-In,
  In-lookup,
}
use app_runner.Net.{Addr, same_addr, Prefix}
use app_runner.Vm.{VirtualMachine}
use app_runner.Bmc.{
  Endpoint, Network, Manager, BmcError, Result, is_used, serve_on, serve_at, disable_locked,
  configure_in, configure, disable, server_stopped, restore, reconcile, disable_all, close,
  disable_runtime, stopped_at,
}

-- No two runtimes share an address, and none has a serial number that is still to be given.
pub record IsApart (rs : Assoc Endpoint) (next : ℕ) : Type 0 where
  pub one_holder :
      (i j : Text) (r s : Endpoint)
      → lookup i rs ≡ some r
      → lookup j rs ≡ some s
      → r.address ≡ s.address
      → i ≡ j
  pub given : (i : Text) (r : Endpoint) → lookup i rs ≡ some r → r.serial < next

found_in-delete :
    (k i : Text) (r : Endpoint) (rs : Assoc Endpoint)
    → lookup i (delete k rs) ≡ some r
    → lookup i rs ≡ some r
found_in-delete k i r rs h = ground (arith, lookup-delete k i rs)

delete-IsApart : (k : Text) (n : ℕ) (rs : Assoc Endpoint) → IsApart rs n → IsApart (delete k rs) n
delete-IsApart k n rs a = record {
  one_holder = λ i j r s f g e.
      a.one_holder i j r s (found_in-delete k i r rs f) (found_in-delete k j s rs g) e;
  given = λ i r f. a.given i r (found_in-delete k i r rs f);
}

-- No other machine has the address.
IsFree : Text → Addr → Assoc Endpoint → Type 0
IsFree k x rs = (j : Text) (s : Endpoint) → lookup j rs ≡ some s → s.address ≡ x → j ≡ k

delete-IsFree :
    (k i : Text) (x : Addr) (rs : Assoc Endpoint) → IsFree k x rs → IsFree k x (delete i rs)
unfolding IsFree
delete-IsFree k i x rs h j s f e = h j s (found_in-delete i j s rs f) e

-- An entry of a map into which another was put is that one, or one of before.
found_in-insert :
    (k i : Text) (e r : Endpoint) (rs : Assoc Endpoint)
    → lookup i (insert k e rs) ≡ some r
    → ((i ≡ k) × (r ≡ e)) ⊎ (lookup i rs ≡ some r)
found_in-insert k i e r rs h = elim (Text-discrete k i) [
  | yes y ↦ inl (
    sym y,
    some-injective
        (sym h ∙ subst (λ j. lookup j (insert k e rs) ≡ some e) y (lookup-insert_self k e rs)),
  )
  | no d ↦ inr (ground (arith, lookup-insert k i e rs))
]

insert-IsApart :
    (k : Text) (e : Endpoint) (n : ℕ) (rs : Assoc Endpoint)
    → e.serial < n
    → IsFree k e.address rs
    → IsApart rs n
    → IsApart (insert k e rs) n
unfolding IsFree
insert-IsApart k e n rs l free a = record {
  one_holder = λ i j r s f g x. elim (found_in-insert k i e r rs f) [
    | inl (p, q) ↦ elim (found_in-insert k j e s rs g) [
      | inl (p', q') ↦ p ∙ sym p'
      | inr g' ↦ p ∙ sym (free j s g' (sym x ∙ ap (λ t. t.address) q))
    ]
    | inr f' ↦ elim (found_in-insert k j e s rs g) [
      | inl (p', q') ↦ free i r f' (x ∙ ap (λ t. t.address) q') ∙ sym p'
      | inr g' ↦ a.one_holder i j r s f' g' x
    ]
  ];
  given = λ i r f. elim (found_in-insert k i e r rs f) [
    | inl (p, q) ↦ subst (λ t. t.serial < n) (sym q) l
    | inr f' ↦ a.given i r f'
  ];
}

is_used-IsFree :
    (k : Text) (x : Addr) (rs : Assoc Endpoint) → is_used k x rs ≡ false → IsFree k x rs
unfolding is_used IsFree
is_used-IsFree k x rs h j s f e = elim (Text-discrete j k) [
  | yes y ↦ y
  | no d ↦
      let t =
        exists-In (λ (e : Text × Endpoint). not (same e.0 k) && same_addr e.1.address x) rs
          (ground arith) (In-lookup j rs s f) in
      absurd (ground arith)
]

weaken-IsApart : (n : ℕ) (rs : Assoc Endpoint) → IsApart rs n → IsApart rs (n + 1)
weaken-IsApart n rs a = record {
  one_holder = a.one_holder;
  given = λ i r f. let l = a.given i r f in omega arith;
}

module _ {Host : Type 0} (p : Network Host) where
  -- The runtimes of a manager are apart.
  abbrev Sound : Manager Host → Type 0
  Sound m = IsApart m.runtimes m.next_serial

  serve_on-IsApart :
      (v : VirtualMachine) (q : Prefix) (r : Host × Bool) (m : Manager Host)
      → IsFree v.id q.addr m.runtimes
      → Sound m
      → Sound (serve_on p v q r m).0
  unfolding serve_on
  serve_on-IsApart v q (h, ok) m free a =
      if_intro (λ (r : Result Host). Sound r.0) (not ok) a
        (if_intro (λ (r : Result Host). Sound r.0) (p.add_user v.ipmi.username)
          (insert-IsApart v.id _ (m.next_serial + 1) m.runtimes (omega arith) free
            (weaken-IsApart m.next_serial m.runtimes a))
          a)

  serve_at-IsApart :
      (v : VirtualMachine) (q : Prefix) (r : Host × Option BmcError) (m : Manager Host)
      → IsFree v.id q.addr m.runtimes
      → Sound m
      → Sound (serve_at p v q r m).0
  unfolding serve_at
  serve_at-IsApart v q (h, some e) m free a = a
  serve_at-IsApart v q (h, none) m free a = serve_on-IsApart v q (p.listen q.addr h) m free a

  disable_runtime-IsApart :
      (id : Text) (o : Option Endpoint) (m : Manager Host)
      → Sound m
      → Sound (disable_runtime p id o m)
  unfolding disable_runtime
  disable_runtime-IsApart id none m a = a
  disable_runtime-IsApart id (some r) m a = delete-IsApart id m.next_serial m.runtimes a

  disable_locked-IsApart : (id : Text) (m : Manager Host) → Sound m → Sound (disable_locked p id m)
  unfolding disable_locked
  disable_locked-IsApart id m = disable_runtime-IsApart id (lookup id m.runtimes) m

  disable_runtime-IsFree :
      (id : Text) (x : Addr) (o : Option Endpoint) (m : Manager Host)
      → IsFree id x m.runtimes
      → IsFree id x (disable_runtime p id o m).runtimes
  unfolding disable_runtime
  disable_runtime-IsFree id x none m h = h
  disable_runtime-IsFree id x (some r) m h = delete-IsFree id id x m.runtimes h

  configure_in-IsApart :
      (v : VirtualMachine) (q : BmcError ⊎ Prefix) (m : Manager Host)
      → Sound m
      → Sound (configure_in p v q m).0
  unfolding configure_in disable_locked
  configure_in-IsApart v (inl e) m a = a
  configure_in-IsApart v (inr q) m a =
      if_cases (λ (r : Result Host). Sound r.0) (is_used v.id q.addr m.runtimes) (λ _. a)
        (λ f.
          serve_at-IsApart v q _ (disable_locked p v.id m)
            (disable_runtime-IsFree v.id q.addr (lookup v.id m.runtimes) m
              (is_used-IsFree v.id q.addr m.runtimes f))
            (disable_locked-IsApart v.id m a))

  configure-IsApart : (v : VirtualMachine) (m : Manager Host) → Sound m → Sound (configure p v m).0
  unfolding configure
  configure-IsApart v m a =
      if_intro (λ (r : Result Host). Sound r.0) (not v.ipmi.enabled)
        (disable_locked-IsApart v.id m a)
        (if_intro (λ (r : Result Host). Sound r.0) _ a (configure_in-IsApart v _ m a))

  replace-IsApart :
      (id : Text) (r e : Endpoint) (n : ℕ) (rs : Assoc Endpoint)
      → lookup id rs ≡ some r
      → e.address ≡ r.address
      → e.serial ≡ r.serial
      → IsApart rs n
      → IsApart (insert id e rs) n
  unfolding IsFree
  replace-IsApart id r e n rs f x s a =
      insert-IsApart id e n rs (subst (λ k. k < n) (sym s) (a.given id r f))
        (λ j t g y. a.one_holder j id t r g f (y ∙ x)) a

  stopped_at-IsApart :
      (id : Text) (k : ℕ) (e : Option Text) (o : Option Endpoint) (m : Manager Host)
      → lookup id m.runtimes ≡ o
      → Sound m
      → Sound (stopped_at p id k e o m)
  unfolding stopped_at
  stopped_at-IsApart id k e none m f a = a
  stopped_at-IsApart id k e (some r) m f a =
      if_intro Sound (r.serial == k) (replace-IsApart id r _ m.next_serial m.runtimes f refl refl a)
        a

  restore_all-IsApart :
      (vs : List VirtualMachine) (m : Manager Host) → Sound m → Sound (reconcile p vs m).0
  unfolding reconcile restore
  restore_all-IsApart [] m a = a
  restore_all-IsApart (v ∷ vs) m a =
      restore_all-IsApart vs _
        (if_intro (λ (r : Result Host). Sound r.0) v.ipmi.enabled (configure-IsApart v _ a) a)

  disable_all-IsApart :
      (rs : Assoc Endpoint) (m : Manager Host) → Sound m → Sound (disable_all p rs m)
  unfolding disable_all
  disable_all-IsApart [] m a = a
  disable_all-IsApart ((id, r) ∷ rs) m a =
      disable_all-IsApart rs (disable_locked p id m) (disable_locked-IsApart id m a)

  -- An operation, or the end of a server.
  pub data Step (m : Manager Host) : Manager Host → Type 0 where
    configures : (v : VirtualMachine) → Step m (configure p v m).0
    disables : (v : VirtualMachine) → Step m (disable p v m)
    ends : (id : Text) (k : ℕ) (e : Option Text) → Step m (server_stopped p id k e m)
    reconciles : (vs : List VirtualMachine) → Step m (reconcile p vs m).0
    closes : Step m (close p m)

  pub data Reach (m : Manager Host) : Manager Host → Type 0 where
    begin : Reach m m
    next : {a b : Manager Host} → Reach m a → Step a b → Reach m b

  Step-IsApart : {m n : Manager Host} → Step m n → Sound m → Sound n
  unfolding disable server_stopped close
  Step-IsApart {m} (configures v) a = configure-IsApart v m a
  Step-IsApart {m} (disables v) a = disable_locked-IsApart v.id m a
  Step-IsApart {m} (ends id k e) a = stopped_at-IsApart id k e (lookup id m.runtimes) m refl a
  Step-IsApart {m} (reconciles vs) a = restore_all-IsApart vs m a
  Step-IsApart {m} closes a = disable_all-IsApart m.runtimes m a

  -- In every order of the manager's operations and of the ends of its servers, with any outcome of
  -- the calls on the host, no two machines' virtual BMCs share an address, and each runtime keeps a
  -- serial number that no later one is given.
  pub Reach-IsApart :
      {m n : Manager Host}
      → Reach m n
      → IsApart m.runtimes m.next_serial
      → IsApart n.runtimes n.next_serial
  Reach-IsApart begin a = a
  Reach-IsApart (next r st) a = Step-IsApart st (Reach-IsApart r a)
