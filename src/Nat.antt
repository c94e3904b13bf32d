-- ===== src/Nat.antt =====
-- The NAT service of bridges (internal/nat/nat.go: Manager.Start, Stop, Running, FinishRecovery,
-- cleanupLocked, restoreForwardingLocked, removeStateLocked, saveLocked). The host's nftables rules
-- and its IPv4 forwarding switch, which the backend reads and writes, are part of the state; an
-- argument says which of an operation's calls of the backend and of the file system succeed. A call
-- that fails changes nothing.
pub mod Forwarding
use app_runner.Prelude.{
  ℕ, Bool, true, false, ◌&&◌, ◌||◌, not, Option, none, some, List, [], ◌∷◌, if◌then◌else◌, Text,
  Assoc, lookup, delete, insert, is_some,
}
use app_runner.Net.{Addr, same_addr, Prefix, masked}
use app_runner.Prelude.{◌==◌}

-- The state file: `persistedState`.
pub record Persisted : Type 0 where
  pub original_ip_forwarding : Bool
  pub changed_ip_forwarding : Bool
  pub networks : Assoc Prefix

pub record Manager : Type 0 where
  pub active : Assoc Prefix
  pub original : Bool
  pub changed : Bool
  pub owned : Bool
  pub recovering : Bool
  pub file : Option Persisted
  pub rules : Assoc Prefix
  pub forwarding : Bool

-- The fallible calls of one operation, in the order in which they can be made.
pub data Call : Type 0 where
  reads_forwarding saves_original saves_changed enables_forwarding replaces_rules saves_networks
        puts_rules_back clears_rules restores_forwarding saves_cleanup removes_state :
      Call

abbrev pub Outcomes : Type 0
Outcomes = Call → Bool

pub data NatError : Type 0 where
  already_using not_read not_saved not_enabled not_replaced not_restored not_removed : NatError

abbrev pub Result : Type 0
Result = Manager × Option NatError

-- `saveLocked`
pub save : Bool → Manager → Manager
save ok m =
    if ok
    then record m {
      file = some (record {
        original_ip_forwarding = m.original;
        changed_ip_forwarding = m.changed;
        networks = m.active;
      });
    }
    else m

-- `Backend.ReplaceRules(sortedNetworks(m.active))`
pub replace_rules : Bool → Manager → Manager
replace_rules ok m = if ok then record m { rules = m.active } else m

-- `restoreForwardingLocked`; the Boolean is whether it succeeds.
pub restore_forwarding : Bool → Manager → Manager × Bool
restore_forwarding ok m =
    if not m.changed
    then (m, true)
    else if ok
    then (record m { forwarding = m.original; changed = false }, true)
    else (m, false)

-- `removeStateLocked`
pub remove_state : Bool → Manager → Result
remove_state ok m =
    if ok then (record m { file = none; owned = false }, none) else (m, some not_removed)

-- `cleanupLocked`
pub cleanup : Outcomes → Manager → Result
unfolding restore_forwarding save remove_state
cleanup ok m =
    let m1 = if ok clears_rules then record m { rules = [] } else m in
    let (m2, restored) = restore_forwarding (ok restores_forwarding) m1 in
    if ok clears_rules && restored
    then remove_state (ok removes_state) m2
    else (save (ok saves_cleanup) m2, some not_restored)

abbrev pub is_nil : Assoc Prefix → Bool
is_nil [] = true
is_nil (e ∷ m) = false

-- The first network: the state of IPv4 forwarding is read and saved, unless it is owned already.
pub own : Outcomes → Manager → Result
unfolding save
own ok m =
    if not (is_nil m.active) || m.owned
    then (m, none)
    else if not (ok reads_forwarding)
    then (m, some not_read)
    else (let m1 = record m { original = m.forwarding; changed = false } in
        if ok saves_original
        then (record (save true m1) { owned = true }, none)
        else (m1, some not_saved))

-- The first network: IPv4 forwarding is switched on, if it was off.
pub enable : Outcomes → Manager → Result
unfolding save cleanup
enable ok m =
    if not (is_nil m.active) || m.original
    then (m, none)
    else (let m1 = record m { changed = true } in
        if not (ok saves_changed)
        then (m1, some not_saved)
        else if ok enables_forwarding
        then (record (save true m1) { forwarding = true }, none)
        else ((cleanup ok (save true m1)).0, some not_enabled))

-- The network is added. After a failure the map of active networks is what it was.
pub add_network : Outcomes → Text → Prefix → Manager → Result
unfolding save cleanup replace_rules
add_network ok bridge prefix m =
    let added = record m { active = insert bridge prefix m.active } in
    if not (ok replaces_rules)
    then (
      (if is_nil m.active
          then (cleanup ok m).0
          else save (ok saves_cleanup) (replace_rules (ok puts_rules_back) m)),
      some not_replaced,
    )
    else if ok saves_networks
    then (save true (replace_rules true added), none)
    else (let back = replace_rules (ok puts_rules_back) (record m { rules = added.active }) in
        (
          (if is_nil m.active then (cleanup ok back).0 else save (ok saves_cleanup) back),
          some not_saved,
        ))

pub and_then : Result → (Manager → Result) → Result
and_then (m, some e) f = (m, some e)
and_then (m, none) f = f m

abbrev same_prefix : Prefix → Prefix → Bool
same_prefix p q = same_addr p.addr q.addr && (p.bits == q.bits)

start_at : Outcomes → Text → Prefix → Option Prefix → Manager → Result
unfolding and_then own enable add_network
start_at ok bridge prefix (some current) m =
    if same_prefix current prefix then (m, none) else (m, some already_using)
start_at ok bridge prefix none m =
    and_then (and_then (own ok m) (enable ok)) (add_network ok bridge prefix)

-- `Start`
unfoldable pub start : Outcomes → Text → Prefix → Manager → Result
unfolding start_at
start ok bridge prefix m = start_at ok bridge (masked prefix) (lookup bridge m.active) m

stop_last : Outcomes → Manager → Result
unfolding restore_forwarding remove_state save
stop_last ok m =
    let (m1, restored) = restore_forwarding (ok restores_forwarding) m in
    if restored
    then remove_state (ok removes_state) m1
    else (save (ok saves_cleanup) m1, some not_restored)

pub stop_at : Outcomes → Text → Option Prefix → Manager → Result
unfolding stop_last save replace_rules
stop_at ok bridge none m = (m, none)
stop_at ok bridge (some prefix) m =
    let gone = record m { active = delete bridge m.active } in
    if not (ok replaces_rules)
    then (m, some not_replaced)
    else if is_nil gone.active
    then stop_last ok (replace_rules true gone)
    else (
      save (ok saves_networks) (replace_rules true gone),
      if ok saves_networks then none else some not_saved,
    )

-- `Stop`
unfoldable pub stop : Outcomes → Text → Manager → Result
unfolding stop_at
stop ok bridge m = stop_at ok bridge (lookup bridge m.active) m

-- `Running`
pub is_running : Text → Manager → Bool
is_running bridge m = is_some (lookup bridge m.active)

-- `FinishRecovery`
pub finish_recovery : Outcomes → Manager → Result
unfolding save cleanup
finish_recovery ok m =
    if not m.recovering
    then (m, none)
    else (let m1 = record m { recovering = false } in
        if is_nil m1.active
        then cleanup ok m1
        else (save (ok saves_networks) m1, if ok saves_networks then none else some not_saved))
