-- ===== src/Nat/Forwarding.antt =====
-- IPv4 forwarding of the host, while networks come and go.
use app_runner.Prelude.{
  ◌≡◌, refl, sym, subst, ap, ◌∙◌, lookup-insert_self, Bool, true, false, Option, none, some, [],
  ◌∷◌, arith, Text, Assoc, lookup, delete,
}
use app_runner.Net.{Prefix, masked}
use app_runner.Nat.{
  Manager, Outcomes, Result, is_nil, cleanup, own, enable, add_network, and_then, start_at, start,
  stop_at, stop,
}

-- `before` is the host's own setting. Until the service changes it, the switch is at it; a change is
-- of a switch that was off, is recorded, and can be taken back; and while a network is active the
-- host forwards.
pub record IsValid (before : Bool) (m : Manager) : Type 0 where
  pub recorded : m.owned ≡ true → m.original ≡ before
  pub untouched : m.changed ≡ false → m.forwarding ≡ before
  pub takes_back : m.changed ≡ true → (m.owned ≡ true) × (before ≡ false)
  pub serving : is_nil m.active ≡ false → (m.owned ≡ true) × (m.forwarding ≡ true)

and_then_ok :
    (r : Result) (f : Manager → Result)
    → (and_then r f).1 ≡ none
    → (r.1 ≡ none) × (and_then r f ≡ f r.0)
unfolding and_then
and_then_ok (m, some e) f h = cc
and_then_ok (m, none) f h = (refl, refl)

nil_of_is_nil : (m : Assoc Prefix) → is_nil m ≡ true → m ≡ []
nil_of_is_nil [] h = refl
nil_of_is_nil (e ∷ m) h = cc

is_nil-delete : (b : Text) (m : Assoc Prefix) → is_nil m ≡ true → is_nil (delete b m) ≡ true
unfolding delete
is_nil-delete b [] h = refl
is_nil-delete b (e ∷ m) h = cc

module _ (before : Bool) (ok : Outcomes) where
  abbrev Keeps : Result → Type 0
  Keeps r = IsValid before r.0

  own-IsValid : (m : Manager) → IsValid before m → Keeps (own ok m)
  unfolding own
  own-IsValid m v = ground arith

  cleanup-IsValid : (m : Manager) → is_nil m.active ≡ true → IsValid before m → Keeps (cleanup ok m)
  unfolding cleanup
  cleanup-IsValid m n v = ground arith

  owned-own : (m : Manager) → IsValid before m → (own ok m).1 ≡ none → (own ok m).0.owned ≡ true
  unfolding own
  owned-own m v e = ground arith

  enable-IsValid : (m : Manager) → m.owned ≡ true → IsValid before m → Keeps (enable ok m)
  unfolding enable
  enable-IsValid m o v = ground arith

  forwarding-enable :
      (m : Manager)
      → m.owned ≡ true
      → IsValid before m
      → (enable ok m).1 ≡ none
      → ((enable ok m).0.owned ≡ true) × ((enable ok m).0.forwarding ≡ true)
  unfolding enable
  forwarding-enable m o v e = ground arith

  add_network-IsValid :
      (bridge : Text) (prefix : Prefix) (m : Manager)
      → m.owned ≡ true
      → m.forwarding ≡ true
      → IsValid before m
      → Keeps (add_network ok bridge prefix m)
  unfolding add_network
  add_network-IsValid bridge prefix m o f v = ground arith

  and_then-IsValid :
      (r : Result) (f : Manager → Result)
      → Keeps r
      → (r.1 ≡ none → Keeps (f r.0))
      → Keeps (and_then r f)
  unfolding and_then
  and_then-IsValid (m, some e) f v h = v
  and_then-IsValid (m, none) f v h = h refl

  started : Manager → Result
  started m = and_then (own ok m) (enable ok)

  started-IsValid : (m : Manager) → IsValid before m → Keeps (started m)
  unfolding started
  started-IsValid m v =
      and_then-IsValid (own ok m) (enable ok) (own-IsValid m v)
        (λ e. enable-IsValid _ (owned-own m v e) (own-IsValid m v))

  started_serves :
      (m : Manager)
      → IsValid before m
      → (started m).1 ≡ none
      → ((started m).0.owned ≡ true) × ((started m).0.forwarding ≡ true)
  unfolding started
  started_serves m v e =
      let (o, q) = and_then_ok (own ok m) (enable ok) e in
      subst (λ r. (r.0.owned ≡ true) × (r.0.forwarding ≡ true)) (sym q)
        (forwarding-enable (own ok m).0 (owned-own m v o) (own-IsValid m v)
          (ap (λ r. r.1) (sym q) ∙ e))

  start_at-IsValid :
      (bridge : Text) (prefix : Prefix) (o : Option Prefix) (m : Manager)
      → IsValid before m
      → Keeps (start_at ok bridge prefix o m)
  unfolding start_at started
  start_at-IsValid bridge prefix (some p) m v = ground arith
  start_at-IsValid bridge prefix none m v =
      and_then-IsValid (started m) (add_network ok bridge prefix) (started-IsValid m v) (λ e.
        let (o, f) = started_serves m v e in
        add_network-IsValid bridge prefix _ o f (started-IsValid m v))

  -- Start, with any of its calls failing, keeps the switch accounted for: it is at the host's own
  -- setting until the service changes it, a change is of a switch that was off and is recorded, and
  -- while a network is active the host forwards.
  pub start-IsValid :
      (bridge : Text) (prefix : Prefix) (m : Manager)
      → IsValid before m
      → Keeps (start ok bridge prefix m)
  unfolding start
  start-IsValid bridge prefix m v =
      start_at-IsValid bridge (masked prefix) (lookup bridge m.active) m v

  stop_at-IsValid :
      (bridge : Text) (o : Option Prefix) (m : Manager)
      → IsValid before m
      → Keeps (stop_at ok bridge o m)
  unfolding stop_at
  stop_at-IsValid bridge none m v = v
  stop_at-IsValid bridge (some p) m v = ground (arith, is_nil-delete bridge m.active)

  -- Stop, with any of its calls failing, keeps the switch accounted for in the same sense.
  pub stop-IsValid : (bridge : Text) (m : Manager) → IsValid before m → Keeps (stop ok bridge m)
  unfolding stop
  stop-IsValid bridge m v = stop_at-IsValid bridge (lookup bridge m.active) m v

  stop_at_restores :
      (bridge : Text) (o : Option Prefix) (m : Manager)
      → IsValid before m
      → is_nil m.active ≡ false
      → (stop_at ok bridge o m).1 ≡ none
      → is_nil (stop_at ok bridge o m).0.active ≡ true
      → let after = (stop_at ok bridge o m).0 in
        (after.forwarding ≡ before)
        × (after.rules ≡ [])
        × (after.file ≡ none)
        × (after.owned ≡ false)
  unfolding stop_at
  stop_at_restores bridge none m v n e l = absurd (ground arith)
  stop_at_restores bridge (some p) m v n e l =
      ground (arith, nil_of_is_nil (delete bridge m.active))

  -- When Stop ends the last active network without an error, and the switch was accounted for, the
  -- host is as it was: its own forwarding setting, no rule of ours, and no state file.
  pub stop_restores :
      (bridge : Text) (m : Manager)
      → IsValid before m
      → is_nil m.active ≡ false
      → (stop ok bridge m).1 ≡ none
      → is_nil (stop ok bridge m).0.active ≡ true
      → let after = (stop ok bridge m).0 in
        (after.forwarding ≡ before)
        × (after.rules ≡ [])
        × (after.file ≡ none)
        × (after.owned ≡ false)
  unfolding stop
  stop_restores bridge m v n e l = stop_at_restores bridge (lookup bridge m.active) m v n e l

  abbrev Serves : Text → Prefix → Manager → Type 0
  Serves bridge prefix m =
      (m.forwarding ≡ true) × (m.rules ≡ m.active) × (lookup bridge m.active ≡ some prefix)

  add_network-Serves :
      (bridge : Text) (prefix : Prefix) (m : Manager)
      → m.forwarding ≡ true
      → (add_network ok bridge prefix m).1 ≡ none
      → Serves bridge prefix (add_network ok bridge prefix m).0
  unfolding add_network
  add_network-Serves bridge prefix m f e = ground (arith, lookup-insert_self bridge prefix m.active)

  new-Serves :
      (bridge : Text) (prefix : Prefix) (o : Option Prefix) (m : Manager)
      → IsValid before m
      → o ≡ none
      → (start_at ok bridge prefix o m).1 ≡ none
      → Serves bridge prefix (start_at ok bridge prefix o m).0
  unfolding start_at started
  new-Serves bridge prefix (some p) m v a e = cc
  new-Serves bridge prefix none m v a e =
      let (o, q) = and_then_ok (started m) (add_network ok bridge prefix) e in
      subst (λ r. Serves bridge prefix r.0) (sym q)
        (add_network-Serves bridge prefix (started m).0 (started_serves m v o).1
          (ap (λ r. r.1) (sym q) ∙ e))

  -- A bridge that Start reports as served is served: where the switch is accounted for and the
  -- bridge was not active, the host then forwards, the network is active, and the rules are those
  -- of the active networks.
  pub start_serves :
      (bridge : Text) (prefix : Prefix) (m : Manager)
      → IsValid before m
      → lookup bridge m.active ≡ none
      → (start ok bridge prefix m).1 ≡ none
      → let after = (start ok bridge prefix m).0 in
        (after.forwarding ≡ true)
        × (after.rules ≡ after.active)
        × (lookup bridge after.active ≡ some (masked prefix))
  unfolding start
  start_serves bridge prefix m v a e =
      new-Serves bridge (masked prefix) (lookup bridge m.active) m v a e
