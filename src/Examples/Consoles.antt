-- ===== src/Examples/Consoles.antt =====
-- The theorems on serial sessions, on a guest that writes, a client that attaches and a shutdown.
use app_runner.Prelude.{ℕ, length, ◌-◌, ◌≡◌, refl, true, false, List, [], ◌∷◌, ◌++◌}
use app_runner.Serial.Session.{
  Session, Event, connected, output, attaching, stopping, clearing, lost, stream, new_session,
  attach, run, step,
}
use app_runner.Serial.Session.Invariant.{IsValid, run-new_session-IsValid, IsDead, run-IsDead}
use app_runner.Serial.Session.History.{outputs, history-run-new_session}
use app_runner.Serial.Session.Delivery.{
  ClientEvent, written, dropped, reads, produced, follow, Delivered, attach-follow,
}

abbrev boot : List Event
boot = connected 1 ∷ output (1 ∷ 2 ∷ 3 ∷ []) ∷ attaching ∷ output (4 ∷ []) ∷ lost 1 ∷ []

run-new_session-IsValid_example : IsValid (run (new_session 2) boot)
run-new_session-IsValid_example = run-new_session-IsValid 2 boot

history-run-new_session_example :
    (older : List ℕ) × (outputs boot ≡ older ++ (run (new_session 2) boot).history)
    × (length older ≡ length (outputs boot) - 2)
history-run-new_session_example = history-run-new_session 2 boot

-- The retained history is the last two bytes.
retains : (run (new_session 2) boot).history ≡ 3 ∷ 4 ∷ []
unfolding run step new_session
retains = refl

abbrev stopping_session : Session
stopping_session = run (new_session 2) (connected 1 ∷ attaching ∷ stopping ∷ [])

is_stopping : stopping_session.stopped ≡ true
unfolding run step
is_stopping = refl

run-IsDead_example : IsDead (run (step stopping_session clearing) (connected 2 ∷ attaching ∷ []))
run-IsDead_example = run-IsDead stopping_session (connected 2 ∷ attaching ∷ []) is_stopping

abbrev connected_session : Session
connected_session = run (new_session 2) (connected 1 ∷ output (1 ∷ 2 ∷ 3 ∷ []) ∷ [])

attaches : (attach connected_session).1 ≡ stream 0
unfolding run attach step new_session
attaches = refl

abbrev follows : List ClientEvent
follows = reads 1 ∷ written (4 ∷ []) ∷ reads 5 ∷ dropped 1 ∷ written (5 ∷ []) ∷ reads 5 ∷ []

attach-follow_example : Delivered (connected_session.history ++ produced follows) (
    follow
      (record { attachment = 0; current = []; closed = false })
      (attach connected_session).0
      follows)
attach-follow_example = attach-follow connected_session 0 follows attaches
