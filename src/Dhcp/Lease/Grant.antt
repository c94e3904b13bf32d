-- ===== src/Dhcp/Lease/Grant.antt =====
-- What acquireLease does to the table, and what a client gets.
use app_runner.Prelude.{
  ℕ, ◌+◌, ◌-◌, ◌≡◌, ◌≢◌, ◌⊎◌, inl, inr, refl, subst, Bool, true, false, not, ◌&&◌, ◌||◌, Option,
  none, some, [], ◌∷◌, Text, Text-discrete, same, All, All-map, All-keep, In, All-In, keep, exists,
  if_intro, Option-cases, arith, if◌then◌else◌, is_some, lookup, delete, insert, All-delete,
}
use app_runner.Net.{Addr}
use app_runner.Dhcp.Range.{Range, address_in_pool, address_in_static_range}
use app_runner.Dhcp.Lease.{
  Lease, Leases, Outcome, leased, failed, not_saved, no_lease, has_hardware, differs, stale, select,
  rest_of, renew_selected, renew_hardware, renew_client, in_use, scan_pool, choose, grant_new,
  lease_duration,
}
use app_runner.Dhcp.Lease.Table.{
  Distinct, Distinct-keep, Distinct-delete, Apart, Distinct-insert, Distinct-Apart,
}
use app_runner.Dhcp.Lease.Select.{select-Found}
use app_runner.Dhcp.Lease.Pool.{first_free_found}

-- Deleting the one entry that holds an address frees it.
Apart-delete : (k j : Text) (a : Option Addr) (m : Leases) → Apart k a m → Apart j a (delete k m)
unfolding delete
Apart-delete k j a [] h = tt
Apart-delete k j a (e ∷ m) h =
    elim (Text-discrete e.0 k)
      as (λ b.
        Apart j a
          (if (elim b [ yes e ↦ true | no n ↦ false ]) then delete k m else e ∷ delete k m)) [
            | yes p ↦ Apart-delete k j a m h.1
            | no n ↦ ((λ _. h.0 n), Apart-delete k j a m h.1)
          ]

Apart-unused : (k : Text) (a : Addr) (m : Leases) → in_use m a ≡ false → Apart k (some a) m
unfolding in_use
Apart-unused k a [] h = tt
Apart-unused k a (e ∷ m) h = (λ _ p. ground arith, Apart-unused k a m (ground arith))

rest_of-Distinct : (key hw sk : Text) (m : Leases) → Distinct m → Distinct (rest_of key hw sk m)
unfolding rest_of
rest_of-Distinct key hw sk m d =
    elim (same sk key)
      as (λ b. Distinct (
        if b
        then keep (λ e. same e.0 sk || not (has_hardware hw e)) m
        else delete sk (keep (λ e. same e.0 sk || not (has_hardware hw e)) m))) [
          | true ↦ Distinct-keep _ m d
          | false ↦ Distinct-delete sk _ (Distinct-keep _ m d)
        ]

rest_of-Apart :
    (key hw sk : Text) (a : Option Addr) (m : Leases)
    → Apart sk a m
    → Apart key a (rest_of key hw sk m)
unfolding rest_of
rest_of-Apart key hw sk a m h =
    elim (Text-discrete sk key)
      as (λ b. Apart key a (
        if (elim b [ yes e ↦ true | no n ↦ false ])
        then keep (λ e. same e.0 sk || not (has_hardware hw e)) m
        else delete sk (keep (λ e. same e.0 sk || not (has_hardware hw e)) m))) [
          | yes p ↦
              subst (λ t. Apart t a (keep (λ e. same e.0 sk || not (has_hardware hw e)) m)) p
                (All-keep _ _ m h)
          | no n ↦ Apart-delete sk key a _ (All-keep _ _ m h)
        ]

-- A lease that lies where its kind of lease may lie.
abbrev Fits : Range → Lease → Addr → Type 0
Fits r l a = (if l.static then address_in_static_range r a else address_in_pool r a) ≡ true

Fits-of_live :
    (r : Range) (now : ℕ) (l : Lease) (a : Addr)
    → stale r now l ≡ false
    → l.address ≡ some a
    → Fits r l a
unfolding stale
Fits-of_live r now l a h e = ground arith

pub address_of_live :
    (r : Range) (now : ℕ) (l : Lease) → stale r now l ≡ false → is_some l.address ≡ true
unfolding stale
address_of_live r now l h = ground arith

pub address_missing : (r : Range) (now : ℕ) (l : Lease) → stale r now l ≡ false → l.address ≢ none
unfolding stale
address_missing r now l h e = ground arith

-- After the client's own entry is deleted, no entry holds its address.
Apart-delete_self :
    (k : Text) (a : Option Addr) (m : Leases)
    → Apart k a m
    → All (λ e. e.1.address ≢ a) (delete k m)
unfolding delete
Apart-delete_self k a [] h = tt
Apart-delete_self k a (e ∷ m) h =
    elim (Text-discrete e.0 k)
      as (λ b.
        All (λ e. e.1.address ≢ a)
          (if (elim b [ yes e ↦ true | no n ↦ false ]) then delete k m else e ∷ delete k m)) [
            | yes p ↦ Apart-delete_self k a m h.1
            | no n ↦ (h.0 n, Apart-delete_self k a m h.1)
          ]

others-Apart :
    (k : Text) (l : Lease) (a : Addr) (m : Leases)
    → Apart k (some a) m
    → All (λ e. e.1.address ≢ some a) (delete k (insert k l m))
unfolding insert
others-Apart k l a m h =
    Apart-delete_self k (some a) ((k, l) ∷ delete k m) ((λ q. absurd (q refl)), All-delete _ k m h)

static_or_renewed : (s : Bool) (t u : ℕ) → (s ≡ true) ⊎ ((if s then t else u) ≡ u)
static_or_renewed true t u = inl refl
static_or_renewed false t u = inr refl

module _ (r : Range) (now : ℕ) (key hw : Text) where
  -- The table holds `a` for the client: under its key, with its hardware address, where such a
  -- lease may lie, for the full time unless it is static, and under no other key.
  pub record Granted (m : Leases) (a : Addr) : Type 0 where
    pub lease : Lease
    pub found : lookup key m ≡ some lease
    pub holds : lease.address ≡ some a
    pub hardware : lease.hardware_address ≡ hw
    pub fits : (if lease.static then address_in_static_range r a else address_in_pool r a) ≡ true
    pub renewed : (lease.static ≡ true) ⊎ (lease.expires_at ≡ now + lease_duration)
    pub alone : All (λ e. e.1.address ≢ some a) (delete key m)

  -- The table stays free of clashes, and an address that is given out is granted.
  abbrev pub Contract : Leases × Outcome → Type 0
  Contract p =
      Distinct p.0
      × ((a : Option Addr) → p.1 ≡ leased a → (x : Addr) × (a ≡ some x) × Granted p.0 x)

  insert-Granted :
      (m : Leases) (l : Lease) (a : Addr)
      → l.address ≡ some a
      → l.hardware_address ≡ hw
      → Fits r l a
      → ((l.static ≡ true) ⊎ (l.expires_at ≡ now + lease_duration))
      → Apart key (some a) m
      → Granted (insert key l m) a
  unfolding insert lookup Text-discrete
  insert-Granted m l a e h f n p = record {
    lease = l;
    found = ground arith;
    holds = e;
    hardware = h;
    fits = f;
    renewed = n;
    alone = others-Apart key l a m p;
  }

  insert-Contract :
      (m : Leases) (l : Lease) (a : Addr) (saved : Bool)
      → Distinct m
      → l.address ≡ some a
      → l.hardware_address ≡ hw
      → Fits r l a
      → ((l.static ≡ true) ⊎ (l.expires_at ≡ now + lease_duration))
      → Apart key (some a) m
      → (b : Option Addr) → b ≡ some a
      → Contract (insert key l m, if saved then leased b else failed not_saved)
  insert-Contract m l a saved d e h f n p b eb =
      (Distinct-insert key l m d (rw e p), λ x q. (a, ground arith, insert-Granted m l a e h f n p))

  renew_selected-Contract :
      (requested : Option Addr) (strict saved : Bool) (m : Leases) (sk : Text) (s : Lease)
      (a : Addr)
      → Distinct m
      → In (sk, s) m
      → s.address ≡ some a
      → stale r now s ≡ false
      → Contract (renew_selected key hw requested strict now saved m (sk, s))
  unfolding renew_selected
  renew_selected-Contract requested strict saved m sk s a d i e live =
      rw (e, renew_selected)
        (if_intro Contract (strict && differs requested (some a)) (d, λ x q. cc)
          (insert-Contract (rest_of key hw sk m) _ a saved (rest_of-Distinct key hw sk m d) e refl
            (Fits-of_live r now s a live e)
            (static_or_renewed s.static s.expires_at (now + lease_duration))
            (rest_of-Apart key hw sk (some a) m
              (subst (λ t. Apart sk t m) e (Distinct-Apart sk s m d i)))
            (some a) refl))

  pub renew_hardware-Contract :
      (requested : Option Addr) (strict saved : Bool) (m : Leases)
      → Distinct m
      → All (λ e. stale r now e.1 ≡ false) m
      → exists (has_hardware hw) m ≡ true
      → Contract (renew_hardware key hw requested strict now saved m)
  unfolding renew_hardware
  renew_hardware-Contract requested strict saved m d live known =
      let e : Text × Lease = select key hw requested ([], no_lease) m in
      let (i, g) =
        select-Found key hw requested no_lease m
          (All-map _ (λ x h. address_of_live r now x.1 h) m live) known in
      elim (Option-cases e.1.address) [
        | inl p ↦ absurd (ground arith)
        | inr (a, p) ↦
            renew_selected-Contract requested strict saved m e.0 e.1 a d i p (All-In _ m live i)
      ]

  pub renew_client-Contract :
      (requested : Option Addr) (strict saved : Bool) (m : Leases) (s : Lease)
      → Distinct m
      → stale r now s ≡ false
      → In (key, s) m
      → Contract (renew_client key hw requested strict now saved m s)
  unfolding renew_client
  renew_client-Contract requested strict saved m s d live i =
      if_intro Contract (strict && differs requested s.address) (d, λ x q. cc)
        (elim (Option-cases s.address) [
          | inl p ↦ absurd (address_missing r now s live p)
          | inr (a, p) ↦
              insert-Contract m _ a saved d p refl (Fits-of_live r now s a live p) (inr refl)
                (subst (λ t. Apart key t m) p (Distinct-Apart key s m d i)) s.address p
        ])

  scan_pool-fits :
      (m : Leases) (a : Addr)
      → scan_pool r m ≡ some a
      → (address_in_pool r a ≡ true) × (in_use m a ≡ false)
  unfolding scan_pool address_in_pool
  scan_pool-fits m a e =
      let (x, p, low, high, free) =
        first_free_found m (r.pool_end + 1 - r.pool_start) r.pool_start a e in
      (rw p (ground arith), free)

  pub choose-fits :
      (requested : Option Addr) (strict : Bool) (m : Leases) (a : Addr)
      → choose r requested strict m ≡ leased (some a)
      → (address_in_pool r a ≡ true) × (in_use m a ≡ false)
  unfolding choose
  choose-fits none strict m a e = scan_pool-fits m a (ground arith)
  choose-fits (some q) strict m a e = ground (arith, scan_pool-fits m a)

  pub grant_new-Contract :
      (saved : Bool) (m : Leases) (o : Outcome)
      → Distinct m
      → ((a : Addr) → o ≡ leased (some a) → (address_in_pool r a ≡ true) × (in_use m a ≡ false))
      → Contract (grant_new key hw now saved m o)
  unfolding grant_new
  grant_new-Contract saved m (failed e) d h = (d, λ x q. cc)
  grant_new-Contract saved m (leased none) d h = (d, λ x q. cc)
  grant_new-Contract true m (leased (some a)) d h =
      let (fits, free) = h a refl in
      insert-Contract m _ a true d refl refl fits (inr refl) (Apart-unused key a m free) (some a)
        refl
  grant_new-Contract false m (leased (some a)) d h = (
    Distinct-delete key _ (Distinct-insert key _ m d (Apart-unused key a m (h a refl).1)),
    λ x q. cc,
  )
