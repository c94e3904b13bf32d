-- ===== src/Dhcp/Lease/Answer.antt =====
-- The answers of acquireLease: strict requests, and when the pool is exhausted.
use app_runner.Prelude.{
  ℕ, ◌+◌, ◌-◌, ◌≤◌, ◌<◌, ◌≡◌, inl, inr, refl, Bool, true, false, not, ◌&&◌, Option, none, some, [],
  Text, fold, equal_fold, All, All-map, In, All-In, exists, length, length-keep-le, Bool-cases,
  if_cases, if_intro, exists-In, Option-cases, arith, lookup, In-lookup,
}
use app_runner.Net.{Addr}
use app_runner.Dhcp.Range.{Range, address_in_pool}
use app_runner.Dhcp.Lease.{
  Lease, Leases, Outcome, leased, no_lease, has_hardware, stale, prune, select, renew_selected,
  renew_hardware, renew_client, in_use, scan_pool, choose, grant_new, acquire_from, acquire,
}
use app_runner.Dhcp.Lease.Select.{select-Found}
use app_runner.Dhcp.Lease.Acquire.{prune_live}
use app_runner.Dhcp.Lease.Pool.{first_free-none, in_use_count}
use app_runner.Dhcp.Lease.Grant.{address_missing, address_of_live}

-- A strict request is answered with the requested address or not at all.
module _ (now : ℕ) (key hw : Text) (q : Addr) (saved : Bool) (m : Leases) where
  abbrev OnlyRequested : Leases × Outcome → Type 0
  OnlyRequested p = (a : Option Addr) → p.1 ≡ leased a → a ≡ some q

  renew_selected_strict :
      (e : Text × Lease) → OnlyRequested (renew_selected key hw (some q) true now saved m e)
  unfolding renew_selected
  renew_selected_strict (sk, s) a h = ground arith

  renew_client_strict :
      (s : Lease) → OnlyRequested (renew_client key hw (some q) true now saved m s)
  unfolding renew_client
  renew_client_strict s a h = ground arith

  grant_new_strict :
      (r : Range) → OnlyRequested (grant_new key hw now saved m (choose r (some q) true m))
  unfolding grant_new choose
  grant_new_strict r a h = ground arith

-- A client that insists on an address (a DHCPREQUEST that names it) gets that address or an error,
-- never another address.
pub acquire_strict :
    (r : Range) (now : ℕ) (key hardware : Text) (q : Addr) (saved : Bool) (m : Leases)
    (a : Option Addr)
    → (acquire r now key hardware (some q) true saved m).1 ≡ leased a
    → a ≡ some q
unfolding acquire acquire_from renew_hardware
acquire_strict r now key hardware q saved m a h = from (lookup key (prune r now m)) a h
  where
    live : Leases
    live = prune r now m

    hw : Text
    hw = fold hardware

    from :
        (o : Option Lease)
        → OnlyRequested now key hw q saved m (acquire_from r now key hw (some q) true saved live o)
    from (some s) =
        if_intro (OnlyRequested now key hw q saved m) (equal_fold s.hardware_address hw)
          (renew_selected_strict now key hw q saved live
            (select key hw (some q) ([], no_lease) live))
          (renew_client_strict now key hw q saved live s)
    from none =
        if_intro (OnlyRequested now key hw q saved m) (exists (has_hardware hw) live)
          (renew_selected_strict now key hw q saved live
            (select key hw (some q) ([], no_lease) live))
          (grant_new_strict now key hw q saved live r)

abbrev pub pool_size : Range → ℕ
pool_size r = r.pool_end + 1 - r.pool_start

scan_pool-none : (r : Range) (m : Leases) → scan_pool r m ≡ none → pool_size r ≤ length m
unfolding scan_pool
scan_pool-none r m e =
    in_use_count m (pool_size r) r.pool_start
      (λ x p q. first_free-none m (pool_size r) r.pool_start x e p q)

choose_answers :
    (r : Range) (requested : Option Addr) (m : Leases)
    → length m < pool_size r
    → (a : Addr) × (choose r requested false m ≡ leased (some a))
unfolding choose
choose_answers r requested m room = elim (Option-cases (scan_pool r m)) [
  | inl e ↦ absurd (omega (arith, scan_pool-none r m e))
  | inr (a, e) ↦ answer requested a e
]
  where
    answer :
        (q : Option Addr) (a : Addr)
        → scan_pool r m ≡ some a
        → (b : Addr) × (choose r q false m ≡ leased (some b))
    answer none a e = (a, ground arith)
    answer (some q) a e = elim (Bool-cases (address_in_pool r q && not (in_use m q))) [
      | inl h ↦ (q, ground arith)
      | inr h ↦ (a, ground arith)
    ]

-- What a lenient request gets, where the table can be saved.
module _ (r : Range) (now : ℕ) (key hw : Text) (requested : Option Addr) (m : Leases) where
  abbrev Answered : Leases × Outcome → Type 0
  Answered p = (a : Addr) × (p.1 ≡ leased (some a))

  renew_hardware_answers :
      All (λ e. stale r now e.1 ≡ false) m
      → exists (has_hardware hw) m ≡ true
      → Answered (renew_hardware key hw requested false now true m)
  unfolding renew_hardware renew_selected
  renew_hardware_answers live known =
      let (i, g) =
        select-Found key hw requested no_lease m
          (All-map _ (λ x h. address_of_live r now x.1 h) m live) known in
      elim (Option-cases (select key hw requested ([], no_lease) m).1.address) [
        | inl p ↦ absurd (ground arith)
        | inr (a, p) ↦ (a, rw (p, renew_selected))
      ]

  renew_client_answers :
      (s : Lease)
      → stale r now s ≡ false
      → Answered (renew_client key hw requested false now true m s)
  unfolding renew_client
  renew_client_answers s live = elim (Option-cases s.address) [
    | inl p ↦ absurd (address_missing r now s live p)
    | inr (a, p) ↦ (a, ground arith)
  ]

  grant_new_answers :
      length m < pool_size r → Answered (grant_new key hw now true m (choose r requested false m))
  unfolding grant_new
  grant_new_answers room = let (a, e) = choose_answers r requested m room in (a, rw (e, grant_new))

  acquire_from_answers :
      All (λ e. stale r now e.1 ≡ false) m
      → length m < pool_size r
      → (o : Option Lease) → lookup key m ≡ o
      → Answered (acquire_from r now key hw requested false true m o)
  unfolding acquire_from
  acquire_from_answers live room (some s) e =
      let i : In (key, s) m = In-lookup key m s e in
      if_cases Answered (equal_fold s.hardware_address hw)
        (λ h. renew_hardware_answers live (exists-In (has_hardware hw) m h i))
        (λ _. renew_client_answers s (All-In _ m live i))
  acquire_from_answers live room none e =
      if_cases Answered (exists (has_hardware hw) m) (λ h. renew_hardware_answers live h)
        (λ _. grant_new_answers room)

-- The pool is never refused while it has room: where the table has fewer leases than the pool has
-- addresses and can be saved, a client that does not insist on an address gets one.
pub acquire_answers :
    (r : Range) (now : ℕ) (key hardware : Text) (requested : Option Addr) (m : Leases)
    → length m < pool_size r
    → (a : Addr) × ((acquire r now key hardware requested false true m).1 ≡ leased (some a))
unfolding acquire
acquire_answers r now key hardware requested m room =
    acquire_from_answers r now key (fold hardware) requested (prune r now m) (prune_live r now m)
      (unfold prune in
        omega (arith, length-keep-le (λ (e : Text × Lease). not (stale r now e.1)) m))
      _ refl
