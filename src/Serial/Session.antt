-- ===== src/Serial/Session.antt =====
-- One VM's serial session (internal/serialconsole/hub.go: session, attachment, Stream). Each
-- function is what runs under `session.mu`; a connection and an attachment are numbers. The
-- channels of all attachments ever made are kept by their number. `session.close` is two steps,
-- since it closes the stop channel before it takes the lock.
pub mod Invariant
pub mod History
pub mod Delivery
use app_runner.Prelude.{
  ℕ, suc, ◌+◌, ◌-◌, ◌^◌, Bool, true, false, Option, none, some, List, [], ◌∷◌, ◌++◌, ltb, ◌==◌,
  if◌then◌else◌, length, take, drop, is_some,
}

-- A buffered channel of chunks.
pub record Channel : Type 0 where
  pub queue : List (List ℕ)
  pub closed : Bool

pub record Session : Type 0 where
  pub upstream : Option ℕ
  pub history : List ℕ
  pub history_limit : ℕ
  pub attached : Option ℕ
  pub stopped : Bool
  pub channel : ℕ → Channel
  pub next_attachment : ℕ

abbrev pub channel_capacity : ℕ
channel_capacity = 64

abbrev pub default_history_bytes : ℕ
default_history_bytes = 2 ^ 20

unfoldable pub new_session : ℕ → Session
new_session limit = record {
  upstream = none;
  history = [];
  history_limit = limit;
  attached = none;
  stopped = false;
  channel = λ i. record { queue = []; closed = true };
  next_attachment = 0;
}

abbrev pub update : (ℕ → Channel) → ℕ → Channel → ℕ → Channel
update f i c j = if j == i then c else f j

unfoldable pub set_upstream : ℕ → Session → Session × Bool
set_upstream c s = if s.stopped then (s, false) else (record s { upstream = some c }, true)

unfoldable pub close_channel : ℕ → Session → Session
close_channel i s = record s {
  channel = update s.channel i (record (s.channel i) { closed = true });
}

-- `detachLocked`
unfoldable pub detach_locked : ℕ → Session → Session
unfolding close_channel
detach_locked i s = close_channel i (record s { attached = none })

unfoldable pub detach_current : Option ℕ → Session → Session
unfolding detach_locked
detach_current none s = s
detach_current (some i) s = detach_locked i s

-- The history keeps its last `history_limit` bytes.
unfoldable pub trim : ℕ → List ℕ → List ℕ
trim limit h = drop (length h - limit) h

send : List ℕ → Option ℕ → Session → Session
unfolding detach_locked
send chunk none s = s
send chunk (some i) s =
    if ltb (length (s.channel i).queue) channel_capacity
    then record s {
      channel =
          update s.channel i (record (s.channel i) { queue = (s.channel i).queue ++ chunk ∷ [] });
    }
    else detach_locked i s

unfoldable pub publish : List ℕ → Session → Session
unfolding send trim
publish chunk s =
    send chunk s.attached (record s { history = trim s.history_limit (s.history ++ chunk) })

pub data AttachResult : Type 0 where
  stream : ℕ → AttachResult
  not_connected in_use : AttachResult

abbrev pub history_queue : List ℕ → List (List ℕ)
history_queue [] = []
history_queue (b ∷ h) = (b ∷ h) ∷ []

attach_from : Option ℕ → Option ℕ → Session → Session × AttachResult
attach_from none a s = (s, not_connected)
attach_from (some u) (some a) s = (s, in_use)
attach_from (some u) none s =
    let i = s.next_attachment in
    (
      record s {
        attached = some i;
        channel = update s.channel i (record { queue = history_queue s.history; closed = false });
        next_attachment = i + 1;
      },
      stream i,
    )

unfoldable pub attach : Session → Session × AttachResult
unfolding attach_from
attach s = attach_from s.upstream s.attached s

abbrev pub is : ℕ → Option ℕ → Bool
is i none = false
is i (some j) = i == j

unfoldable pub lost_upstream : ℕ → Session → Session
unfolding detach_current
lost_upstream c s =
    detach_current s.attached (if is c s.upstream then record s { upstream = none } else s)

unfoldable pub detach : ℕ → Session → Session
unfolding detach_locked
detach i s = if is i s.attached then detach_locked i s else s

unfoldable pub close_stop : Session → Session
close_stop s = record s { stopped = true }

unfoldable pub close_clear : Session → Session
unfolding detach_current
close_clear s = detach_current s.attached (record s { upstream = none })

-- `Stream`: the attachment, the rest of the chunk being read, and whether the client closed it.
pub record Stream : Type 0 where
  pub attachment : ℕ
  pub current : List ℕ
  pub closed : Bool

pub data ReadResult : Type 0 where
  bytes : List ℕ → ReadResult
  eof blocked : ReadResult

-- `Stream.Read` of at most n bytes: chunks are received until one is not empty. `blocked` is a
-- read that waits, since the channel is open and has no chunk.
read_from : ℕ → List ℕ → List (List ℕ) → Bool → List ℕ × List (List ℕ) × ReadResult
read_from n (b ∷ current) queue closed = (drop n (b ∷ current), queue, bytes (take n (b ∷ current)))
read_from n [] [] true = ([], [], eof)
read_from n [] [] false = ([], [], blocked)
read_from n [] (chunk ∷ queue) closed = read_from n chunk queue closed

unfoldable pub read : ℕ → Stream → Session → Stream × Session × ReadResult
unfolding read_from
read n r s =
    let c = s.channel r.attachment in
    let (current, queue, result) = read_from n r.current c.queue c.closed in
    (
      record r { current = current },
      record s { channel = update s.channel r.attachment (record c { queue = queue }) },
      result,
    )

-- `Stream.Close`
unfoldable pub close_stream : Stream → Session → Stream × Session
unfolding detach
close_stream r s = if r.closed then (r, s) else (record r { closed = true }, detach r.attachment s)

-- `session.write`: the connection that the bytes go to, if there is one.
unfoldable pub write : Session → Option ℕ
write s = s.upstream

pub data Event : Type 0 where
  connected lost detaching : ℕ → Event
  output : List ℕ → Event
  attaching stopping clearing : Event
  reading : ℕ → Stream → Event

unfoldable pub step : Session → Event → Session
unfolding set_upstream publish attach lost_upstream detach close_stop close_clear read
step s (connected c) = (set_upstream c s).0
step s (lost c) = lost_upstream c s
step s (detaching i) = detach i s
step s (output chunk) = publish chunk s
step s attaching = (attach s).0
step s stopping = close_stop s
step s clearing = close_clear s
step s (reading n r) = (read n r s).1

unfoldable pub run : Session → List Event → Session
run s [] = s
run s (e ∷ es) = run (step s e) es
