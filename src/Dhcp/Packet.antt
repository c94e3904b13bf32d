-- ===== src/Dhcp/Packet.antt =====
-- The answer to a DHCP packet (internal/dhcp/dhcp.go: handlePacket, requestedAddress, clientKey).
-- The fields of a request are those that the handler reads; the packet library's parser and
-- printer, the log and the socket are left out. `built` is whether dhcpv4.NewReplyFromRequest
-- succeeds, `saved` whether the table can be saved.
pub mod Answers
pub mod Keys
use app_runner.Prelude.{
  ℕ, ◌+◌, ◌/◌, ◌%◌, ◌^◌, Bool, true, false, ◌&&◌, not, Option, none, some, List, [], ◌∷◌, ◌++◌, ltb,
  ◌==◌, if◌then◌else◌, Text, same, codes, fold, is_some,
}
use app_runner.Net.{Addr, ipv4}
use app_runner.Dhcp.Range.{Range}
use app_runner.Dhcp.Lease.{Leases, Outcome, leased, failed, lease_duration, acquire}
use app_runner.Dhcp.Manage.{release_lease}
use app_runner.Dhcp.Config.{BridgeConfig}

pub data MessageType : Type 0 where
  discover offer request decline ack nak release inform other_type : MessageType

-- An address of a packet is its number; `none` is a nil `net.IP`.
pub record Request : Type 0 where
  pub is_boot_request : Bool
  pub message_type : MessageType
  pub requested_option : Option ℕ
  pub client_ip : Option ℕ
  pub client_identifier : List ℕ
  pub hardware_address : Text
  pub server_identifier : Option ℕ
  pub class_identifier : Text

-- What the handler puts into a reply; a lease time is in nanoseconds.
pub record Reply : Type 0 where
  pub kind : MessageType
  pub server_id : ℕ
  pub your_ip : Option Addr
  pub subnet_bits : Option ℕ
  pub broadcast : Option ℕ
  pub router : Option ℕ
  pub dns : Option ℕ
  pub domain : Option Text
  pub lease_time : Option ℕ
  pub boot_file : Option Text

-- A missing or zero requested-address option leaves the client's own address.
own_address : Option ℕ → Option Addr
own_address none = none
own_address (some c) = some (ipv4 c)

requested_from : Option ℕ → Option ℕ → Option Addr
unfolding own_address
requested_from none client = own_address client
requested_from (some a) client = if a == 0 then own_address client else some (ipv4 a)

unfoldable pub requested_address : Request → Option Addr
unfolding requested_from
requested_address q = requested_from q.requested_option q.client_ip

hex_digit : ℕ → ℕ
hex_digit n = if ltb n 10 then n + 48 else n + 87

-- `hex.EncodeToString`
unfoldable pub hex : List ℕ → Text
unfolding hex_digit
hex [] = []
hex (b ∷ bs) = hex_digit (b / 16) ∷ hex_digit (b % 16) ∷ hex bs

unfoldable pub client_key_from : List ℕ → Text → Text
unfolding hex
client_key_from [] hardware = codes "mac:" ++ fold hardware
client_key_from (b ∷ bs) hardware = codes "id:" ++ hex (b ∷ bs)

unfoldable pub client_key : Request → Text
unfolding client_key_from
client_key q = client_key_from q.client_identifier q.hardware_address

-- `strings.HasPrefix`
unfoldable pub has_prefix : Text → Text → Bool
has_prefix t [] = true
has_prefix [] (p ∷ ps) = false
has_prefix (c ∷ t) (p ∷ ps) = let rest = has_prefix t ps in c == p && rest

abbrev pub is_nak : MessageType → Bool
is_nak nak = true
is_nak _ = false

abbrev pub is_inform : MessageType → Bool
is_inform inform = true
is_inform _ = false

abbrev pub is_empty_text : Text → Bool
is_empty_text [] = true
is_empty_text (c ∷ t) = false

abbrev given {ℓ} : {A : Type ℓ} → Bool → A → Option A
given b a = if b then some a else none

unfoldable pub make_reply : Range → BridgeConfig → Request → MessageType → Option Addr → Reply
unfolding has_prefix
make_reply r config q kind address =
    let full = not (is_nak kind) in
    let informing = is_inform q.message_type in
    record {
      kind = kind;
      server_id = r.server;
      your_ip = if full && not informing then address else none;
      subnet_bits = given full r.prefix.bits;
      broadcast = given full r.broadcast;
      router = given (full && config.nat) r.server;
      dns = given (full && config.dns.enabled) r.server;
      domain = given (full && config.dns.enabled && config.dns.auto) config.dns.suffix;
      lease_time = given (full && not informing) lease_duration;
      boot_file =
          given
            (full
              && not (is_empty_text config.http_boot_url)
              && has_prefix q.class_identifier (codes "HTTPClient"))
            config.http_boot_url;
    }

-- The reply's type and address for a DHCPDISCOVER or a DHCPREQUEST; `none` is a failed allocation
-- that is only logged.
unfoldable pub verdict : MessageType → Outcome → Option (MessageType × Option Addr)
verdict request (leased a) = some (ack, a)
verdict request (failed e) = some (nak, none)
verdict _ (leased a) = some (offer, a)
verdict _ (failed e) = none

unfoldable pub for_other_server : Range → Option ℕ → Bool
for_other_server r none = false
for_other_server r (some s) = not (s == r.server)

unfoldable pub answer :
    Range
    → BridgeConfig
    → Request
    → Bool
    → Leases
    → Option (MessageType × Option Addr)
    → Leases × Option Reply
unfolding make_reply
answer r config q built m none = (m, none)
answer r config q built m (some (kind, address)) =
    (m, if built then some (make_reply r config q kind address) else none)

unfoldable pub allocate :
    Range
    → BridgeConfig
    → ℕ
    → Bool
    → Bool
    → Request
    → Option Addr
    → Bool
    → Leases
    → Leases × Option Reply
unfolding verdict answer
allocate r config now saved built q requested strict m =
    let (m', o) = acquire r now (client_key q) q.hardware_address requested strict saved m in
    answer r config q built m' (verdict q.message_type o)

unfoldable pub dispatch :
    Range → BridgeConfig → ℕ → Bool → Bool → Request → Leases → MessageType → Leases × Option Reply
unfolding allocate for_other_server requested_address
dispatch r config now saved built q m release = (release_lease (client_key q) m, none)
dispatch r config now saved built q m decline = (release_lease (client_key q) m, none)
dispatch r config now saved built q m discover = allocate r config now saved built q none false m
dispatch r config now saved built q m request =
    if for_other_server r q.server_identifier
    then (m, none)
    else allocate r config now saved built q (requested_address q) (is_some (requested_address q)) m
dispatch r config now saved built q m inform = answer r config q built m (some (ack, none))
dispatch r config now saved built q m _ = (m, none)

unfoldable pub handle_packet :
    Range → BridgeConfig → ℕ → Bool → Bool → Request → Leases → Leases × Option Reply
unfolding dispatch
handle_packet r config now saved built q m =
    if q.is_boot_request then dispatch r config now saved built q m q.message_type else (m, none)
