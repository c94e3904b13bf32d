-- ===== src/Dhcp/Packet/Answers.antt =====
-- What a client is told, and what the table then holds.
use app_runner.Dhcp.Manage.Static.{lookup-release_lease}
use app_runner.Prelude.{
  if◌then◌else◌, same, not, ◌&&◌, ◌⊎◌, ℕ, ◌≡◌, inl, inr, refl, sym, subst, Bool, true, false,
  Option, none, some, Option-cases, if_intro, is_some, fold, ap, ◌∙◌, arith, Text, lookup,
}
use app_runner.Net.{Addr}
use app_runner.Dhcp.Range.{Range}
use app_runner.Dhcp.Config.{BridgeConfig}
use app_runner.Dhcp.Lease.{Leases, Outcome, leased, failed, acquire}
use app_runner.Dhcp.Lease.Table.{Distinct, Distinct-delete}
use app_runner.Dhcp.Lease.Grant.{Granted}
use app_runner.Dhcp.Lease.Acquire.{acquire-Contract}
use app_runner.Dhcp.Lease.Answer.{acquire_strict}
use app_runner.Dhcp.Manage.{release_lease}
use app_runner.Dhcp.Packet.{
  MessageType, discover, request, decline, ack, nak, release, inform, Request, Reply,
  requested_address, client_key, make_reply, for_other_server, answer, verdict, allocate, dispatch,
  handle_packet,
}

release_lease-Distinct : (key : Text) (m : Leases) → Distinct m → Distinct (release_lease key m)
unfolding release_lease
release_lease-Distinct key m d = elim (Option-cases (lookup key m)) [
  | inl e ↦ rw (e, release_lease) d
  | inr (l, e) ↦ rw (e, release_lease) (if_intro Distinct l.static d (Distinct-delete key m d))
]

module _ (r : Range) (config : BridgeConfig) (now : ℕ) (saved built : Bool) (q : Request) where
  table_of_answer :
      (m : Leases) (v : Option (MessageType × Option Addr)) → (answer r config q built m v).0 ≡ m
  unfolding answer
  table_of_answer m none = refl
  table_of_answer m (some v) = refl

  allocate-Distinct :
      (requested : Option Addr) (strict : Bool) (m : Leases)
      → Distinct m
      → Distinct (allocate r config now saved built q requested strict m).0
  unfolding allocate
  allocate-Distinct requested strict m d =
      subst Distinct (sym (table_of_answer _ _))
        (acquire-Contract r now (client_key q) q.hardware_address requested strict saved m d).0

  dispatch-Distinct :
      (m : Leases) (t : MessageType)
      → Distinct m
      → Distinct (dispatch r config now saved built q m t).0
  unfolding dispatch
  dispatch-Distinct m release d = release_lease-Distinct _ m d
  dispatch-Distinct m decline d = release_lease-Distinct _ m d
  dispatch-Distinct m discover d = allocate-Distinct none false m d
  dispatch-Distinct m request d =
      if_intro (λ (p : Leases × Option Reply). Distinct p.0)
        (for_other_server r q.server_identifier) d
        (allocate-Distinct (requested_address q) (is_some (requested_address q)) m d)
  dispatch-Distinct m inform d = d
  dispatch-Distinct m _ d = d

  -- No packet, of any type, makes two clients share a key or an address, where they shared none
  -- before.
  pub handle_packet-Distinct :
      (m : Leases) → Distinct m → Distinct (handle_packet r config now saved built q m).0
  unfolding handle_packet
  handle_packet-Distinct m d =
      if_intro (λ (p : Leases × Option Reply). Distinct p.0) q.is_boot_request
        (dispatch-Distinct m q.message_type d) d

  acked_of :
      (m : Leases) (o : Outcome) (p : Reply)
      → q.message_type ≡ request
      → (answer r config q built m (verdict q.message_type o)).1 ≡ some p
      → p.kind ≡ ack
      → (a : Option Addr) × (o ≡ leased a) × (p.your_ip ≡ a)
  unfolding answer verdict make_reply
  acked_of m (leased a) p t e k = (a, refl, ground arith)
  acked_of m (failed x) p t e k = absurd (ground arith)

  acked :
      (requested : Option Addr) (strict : Bool) (m : Leases) (p : Reply)
      → q.message_type ≡ request
      → (allocate r config now saved built q requested strict m).1 ≡ some p
      → p.kind ≡ ack
      → (a : Option Addr) × ((acquire r now
            (client_key q)
            q.hardware_address
            requested
            strict
            saved
            m).1
          ≡ leased a)
        × (p.your_ip ≡ a)
  unfolding allocate
  acked requested strict m p t e k =
      acked_of _ (acquire r now (client_key q) q.hardware_address requested strict saved m).1 p t e
        k

  requests_allocate :
      (m : Leases) (p : Reply)
      → q.message_type ≡ request
      → (handle_packet r config now saved built q m).1 ≡ some p
      → handle_packet r config now saved built q m
        ≡ allocate r config now saved built q
            (requested_address q)
            (is_some (requested_address q))
            m
  unfolding handle_packet dispatch
  requests_allocate m p t e = ground arith

  table_allocate :
      (requested : Option Addr) (strict : Bool) (m : Leases)
      → (allocate r config now saved built q requested strict m).0
        ≡ (acquire r now (client_key q) q.hardware_address requested strict saved m).0
  unfolding allocate
  table_allocate requested strict m = table_of_answer _ _

  strict_answer :
      (m : Leases) (a x : Addr)
      → (acquire r now (client_key q) q.hardware_address (some x) true saved m).1 ≡ leased (some a)
      → a ≡ x
  strict_answer m a x h =
      cc (acquire_strict r now (client_key q) q.hardware_address x saved m (some a) h)

  -- A DHCPACK is kept: where the keys and the addresses of the table are distinct and a DHCPREQUEST
  -- is answered by an acknowledgement, its address is granted to the client in the table, and to no
  -- other.
  pub handle_packet_ack :
      (m : Leases) (p : Reply)
      → Distinct m
      → q.message_type ≡ request
      → (handle_packet r config now saved built q m).1 ≡ some p
      → p.kind ≡ ack
      → (a : Addr) × (p.your_ip ≡ some a)
        × Granted r now
            (client_key q)
            (fold q.hardware_address)
            (handle_packet r config now saved built q m).0
            a
  handle_packet_ack m p d t e k =
      let same_result = requests_allocate m p t e in
      let asked : Option Addr = requested_address q in
      let (o, out, ip) =
        acked asked (is_some asked) m p t (subst (λ t. t.1 ≡ some p) same_result e) k in
      let (a, eq, held) =
        (acquire-Contract r now (client_key q) q.hardware_address asked (is_some asked) saved m d).1
          o out in
      (
        a,
        ip ∙ eq,
        subst (λ t. Granted r now (client_key q) (fold q.hardware_address) t a)
            (sym (ap (λ t. t.0) same_result ∙ table_allocate asked (is_some asked) m)) held,
      )

  -- Where the keys and the addresses of the table are distinct, a DHCPREQUEST that names an address
  -- is acknowledged with that address only.
  pub handle_packet_ack_requested :
      (m : Leases) (p : Reply) (x : Addr)
      → Distinct m
      → q.message_type ≡ request
      → requested_address q ≡ some x
      → (handle_packet r config now saved built q m).1 ≡ some p
      → p.kind ≡ ack
      → p.your_ip ≡ some x
  handle_packet_ack_requested m p x d t h e k =
      let asked : Option Addr = requested_address q in
      let (o, out, ip) =
        acked asked (is_some asked) m p t (subst (λ t. t.1 ≡ some p) (requests_allocate m p t e) e)
          k in
      let (a, eq, held) =
        (acquire-Contract r now (client_key q) q.hardware_address asked (is_some asked) saved m d).1
          o out in
      ip
      ∙ eq
      ∙ ap some (
          strict_answer m a x (
            subst
              (λ t.
                (acquire r now (client_key q) q.hardware_address t (is_some t) saved m).1
                ≡ leased (some a))
              h (out ∙ ap leased eq)))

  -- A DHCPNAK says nothing: it answers a DHCPREQUEST only, and carries no address and no options
  -- but the server's identity.
  pub handle_packet_nak :
      (m : Leases) (p : Reply)
      → (handle_packet r config now saved built q m).1 ≡ some p
      → p.kind ≡ nak
      → (q.message_type ≡ request)
        × (p ≡ record {
          kind = nak;
          server_id = r.server;
          your_ip = none;
          subnet_bits = none;
          broadcast = none;
          router = none;
          dns = none;
          domain = none;
          lease_time = none;
          boot_file = none;
        })
  unfolding handle_packet dispatch allocate answer verdict make_reply
  handle_packet_nak m p e k = ground arith

  releases :
      (m : Leases) (j : Text)
      → dispatch r config now saved built q m q.message_type
        ≡ (release_lease (client_key q) m, none)
      → q.is_boot_request ≡ true
      → ((handle_packet r config now saved built q m).1 ≡ none)
        × (lookup j (handle_packet r config now saved built q m).0 ≡ elim (lookup j m) [
          | none ↦ none
          | some l ↦ if same (client_key q) j && not l.static then none else some l
        ])
  unfolding handle_packet
  releases m j t b =
      let e : handle_packet r config now saved built q m ≡ (release_lease (client_key q) m, none) =
        ground (arith, t) in
      (
        ap (λ (y : Leases × Option Reply). y.1) e,
        ap (λ (y : Leases × Option Reply). lookup j y.0) e
            ∙ lookup-release_lease (client_key q) j m,
      )

  -- A DHCPRELEASE or DHCPDECLINE packet that is a BOOTP request is not answered, and takes
  -- exactly the client's own lease out of the table, and only if that is not static.
  pub handle_packet_releases :
      (m : Leases) (j : Text)
      → (q.message_type ≡ release) ⊎ (q.message_type ≡ decline)
      → q.is_boot_request ≡ true
      → ((handle_packet r config now saved built q m).1 ≡ none)
        × (lookup j (handle_packet r config now saved built q m).0 ≡ elim (lookup j m) [
          | none ↦ none
          | some l ↦ if same (client_key q) j && not l.static then none else some l
        ])
  unfolding handle_packet dispatch
  handle_packet_releases m j (inl t) b =
      releases m j (ap (dispatch r config now saved built q m) t) b
  handle_packet_releases m j (inr t) b =
      releases m j (ap (dispatch r config now saved built q m) t) b
