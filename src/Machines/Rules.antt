-- ===== src/Machines/Rules.antt =====
-- How a property of a result is shown of the operations' guards: it holds of each early return, and
-- of what follows the guard, where the guard's test may be used.
use app_runner.Prelude.{◌≡◌, refl, Bool, true, false, Option, none, some, Text, lookup}
use app_runner.Vm.{VirtualMachine}
use app_runner.Machines.{
  Platform, Manager, BusyReason, FieldError, MachineError, not_found, not_saved, no_id, is_busy,
  invalid, Result, find, require_valid, when_idle, require_idle, when_found, on_machine, reconcile,
  after_reconcile, reconciled,
}
use app_runner.Machines.Checks.{Normalized, normalized, rejected, NicRequest}
use app_runner.Machines.Devices.{on_device, on_id, on_request}
use app_runner.Machines.Creation.{Made, made, unmade, on_made}

module _ {Host : Type 0} (Q : Result Host → Type 0) where
  -- Each early return leaves the state as it is.
  abbrev pub Fails : Manager Host → Type 0
  Fails m = (e : MachineError) → Q (m, some e)

  pub valid_rule :
      (o : Option FieldError) {m : Manager Host} {rest : Result Host}
      → Fails m
      → Q rest
      → Q (require_valid o m rest)
  valid_rule none f q = q
  valid_rule (some e) f q = f (invalid e)

  when_idle_rule :
      (id : Text) (o : Option BusyReason) {m : Manager Host} {rest : Result Host}
      → lookup id m.busy ≡ o
      → Fails m
      → (lookup id m.busy ≡ none → Q rest)
      → Q (when_idle o m rest)
  unfolding when_idle
  when_idle_rule id none h f q = q h
  when_idle_rule id (some r) h f q = f (is_busy r)

  pub idle_rule :
      (id : Text) {m : Manager Host} {rest : Result Host}
      → Fails m
      → (lookup id m.busy ≡ none → Q rest)
      → Q (require_idle id m rest)
  unfolding require_idle
  idle_rule id {m} f q = when_idle_rule id (lookup id m.busy) refl f q

  when_found_rule :
      (id : Text) (o : Option VirtualMachine) {m : Manager Host} {f : VirtualMachine → Result Host}
      → find id m.machines ≡ o
      → Fails m
      → ((v : VirtualMachine) → find id m.machines ≡ some v → Q (f v))
      → Q (when_found o m f)
  unfolding when_found
  when_found_rule id none h e q = e not_found
  when_found_rule id (some v) h e q = q v h

  pub machine_rule :
      (id : Text) {m : Manager Host} {f : VirtualMachine → Result Host}
      → Fails m
      → ((v : VirtualMachine) → find id m.machines ≡ some v → Q (f v))
      → Q (on_machine id m f)
  unfolding on_machine
  machine_rule id {m} e q = when_found_rule id (find id m.machines) refl e q

  pub device_rule :
      (p : Platform Host) {A : Type 0} (o : Option A) (e : FieldError) {m : Manager Host}
      {f : A → Result Host}
      → Fails m
      → ((a : A) → o ≡ some a → Q (f a))
      → Q (on_device p o e m f)
  unfolding on_device
  device_rule p none e h q = h (invalid e)
  device_rule p (some a) e h q = q a refl

  pub id_rule :
      (p : Platform Host) (o : Option Text) {m : Manager Host} {f : Text → Result Host}
      → Fails m
      → ((id : Text) → o ≡ some id → Q (f id))
      → Q (on_id p o m f)
  unfolding on_id
  id_rule p none h q = h no_id
  id_rule p (some id) h q = q id refl

  pub request_rule :
      (p : Platform Host) (n : Normalized) {m : Manager Host} {f : NicRequest → Result Host}
      → Fails m
      → ((r : NicRequest) → n ≡ normalized r → Q (f r))
      → Q (on_request p n m f)
  unfolding on_request
  request_rule p (rejected e) h q = h (invalid e)
  request_rule p (normalized r) h q = q r refl

  pub made_rule :
      (p : Platform Host) (o : Made) {m : Manager Host} {f : VirtualMachine → Result Host}
      → Fails m
      → ((v : VirtualMachine) → o ≡ made v → Q (f v))
      → Q (on_made p o m f)
  unfolding on_made
  made_rule p (unmade e) h q = h e
  made_rule p (made v) h q = q v refl

  after_rule :
      (p : Platform Host) (r : Manager Host × Bool) (f : Manager Host → Result Host)
      → Fails r.0
      → Q (f r.0)
      → Q (after_reconcile p r f)
  unfolding after_reconcile
  after_rule p (m, true) f e q = q
  after_rule p (m, false) f e q = e not_saved

  pub reconciled_rule :
      (p : Platform Host) (m : Manager Host) (f : Manager Host → Result Host)
      → Fails (reconcile p m).0
      → Q (f (reconcile p m).0)
      → Q (reconciled p m f)
  unfolding reconciled
  reconciled_rule p m f e q = after_rule p (reconcile p m) f e q
