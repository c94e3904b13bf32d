-- ===== src/Dns/Forwarders.antt =====
-- What NormalizeForwarders accepts.
use app_runner.Prelude.{
  ℕ, ◌≤◌, ◌≡◌, ◌≢◌, inl, inr, refl, false, Option, none, some, List, [], ◌∷◌, ◌++◌, Text, same,
  trim_space, All, exists, length, if_cases, Bool-cases, Option-cases, subst, ◌⊎◌, ◌&&◌, ◌==◌,
  arith,
}
use app_runner.Net.{Addr, same_addr}
use app_runner.Dns.{add_forwarder, forwarders_from, bounded, normalize_forwarders, is_blank_text}

module _ (parse : Text → Option (Addr × ℕ)) (print : Addr × ℕ → Text) (server : Addr) where
  -- A forwarder is the text of an address with a port, and not the DNS server's own.
  pub record IsForwarder (t : Text) : Type 0 where
    pub address : Addr
    pub port : ℕ
    pub text : t ≡ print (address, port)
    pub elsewhere : (same_addr address server ≡ false) ⊎ (port ≢ 53)

  All-append :
      (fs : List Text) (t : Text)
      → All IsForwarder fs
      → IsForwarder t
      → All IsForwarder (fs ++ t ∷ [])
  All-append [] t a h = (h, tt)
  All-append (f ∷ fs) t a h = (a.0, All-append fs t a.1 h)

  elsewhere_of :
      (a : Addr) (p : ℕ)
      → (same_addr a server && p == 53) ≡ false
      → (same_addr a server ≡ false) ⊎ (p ≢ 53)
  elsewhere_of a p h = elim (Bool-cases (same_addr a server)) [
    | inl e ↦ inr (λ q. ground arith)
    | inr e ↦ inl e
  ]

  add_forwarder-All :
      (o : Option (Addr × ℕ)) (found more : List Text)
      → All IsForwarder found
      → add_forwarder parse print server o found ≡ some more
      → All IsForwarder more
  unfolding add_forwarder
  add_forwarder-All none found more h e = cc
  add_forwarder-All (some (a, p)) found more h e =
      if_cases (λ (r : Option (List Text)). r ≡ some more → All IsForwarder more)
        (same_addr a server && p == 53) (λ _ q. cc)
        (λ away.
          if_cases (λ (r : Option (List Text)). r ≡ some more → All IsForwarder more)
            (exists (λ f. same f (print (a, p))) found)
            (λ _ q. subst (All IsForwarder) (ground arith) h)
            (λ _ q. subst (All IsForwarder) (ground arith) (
              All-append found (print (a, p)) h (record {
                address = a;
                port = p;
                text = refl;
                elsewhere = elsewhere_of a p away;
              }))))
        e

  forwarders_from-All :
      (values found result : List Text)
      → All IsForwarder found
      → forwarders_from parse print server found values ≡ some result
      → All IsForwarder result
  unfolding forwarders_from
  forwarders_from-All [] found result h e = subst (All IsForwarder) (ground arith) h
  forwarders_from-All (v ∷ vs) found result h e = elim (Bool-cases (is_blank_text (trim_space v))) [
    | inl b ↦ forwarders_from-All vs found result h (ground arith)
    | inr b ↦ elim (Option-cases (add_forwarder parse print server (parse (trim_space v)) found)) [
      | inl q ↦ absurd (ground arith)
      | inr (more, q) ↦
          forwarders_from-All vs more result (add_forwarder-All _ found more h q) (ground arith)
    ]
  ]

  -- NormalizeForwarders returns one to eight forwarders, each the text of an address and a port
  -- other than the managed DNS server's own, so that no query comes back to it.
  pub normalize_forwarders-All :
      (values result : List Text)
      → normalize_forwarders parse print server values ≡ some result
      → (1 ≤ length result) × (length result ≤ 8) × All IsForwarder result
  unfolding normalize_forwarders bounded
  normalize_forwarders-All values result h =
      elim (Option-cases (forwarders_from parse print server [] values)) [
        | inl q ↦ absurd (ground arith)
        | inr (fs, q) ↦
            let same_list : fs ≡ result = ground arith in
            (
              ground arith,
              ground arith,
              subst (All IsForwarder) same_list (forwarders_from-All values [] fs tt q),
            )
      ]
