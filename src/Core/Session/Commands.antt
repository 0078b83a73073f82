-- ===== src/Core/Session/Commands.antt =====
-- The methods of `Session` as commands, to speak of a history of calls.
use lado_flow.Base.{ℕ, ◌≡◌, Bool, true, false, List, [], ◌∷◌, arith, Result, ok, err}
use lado_flow.Core.Negotiation.{NegotiatedSession}
use lado_flow.Core.Session.{
  Session, SessionError, StreamContinuity, ReconnectPolicy, Outcome, start, establish,
  observe_sequence, transport_lost, schedule_reconnect, begin_reconnect, close,
}

pub data Command : Type 0 where
  starts : Command
  establishes : NegotiatedSession → StreamContinuity → Command
  observes : ℕ → Command
  loses : Command
  schedules : ReconnectPolicy → Command
  reconnects : Command
  closes : Command

abbrev pub succeeded : {A : Type 0} → Result SessionError A → Bool
succeeded (ok a) = true
succeeded (err e) = false

abbrev report : {A : Type 0} → Outcome A → Session × Bool
report (s, r) = (s, succeeded r)

-- The session after one call, and whether the call returned `Ok`.
unfoldable pub perform : Session → Command → Session × Bool
perform s starts = report (start s)
perform s (establishes agreement continuity) = report (establish s agreement continuity)
perform s (observes sequence) = report (observe_sequence s sequence)
perform s loses = report (transport_lost s)
perform s (schedules policy) = report (schedule_reconnect s policy)
perform s reconnects = report (begin_reconnect s)
perform s closes = (close s, true)

unfoldable pub run : Session → List Command → Session
run s [] = s
run s (c ∷ cs) = run (perform s c).0 cs

-- A call that returns an error leaves the session as it was.
pub perform_failed : (s : Session) (c : Command) → (perform s c).1 ≡ false → (perform s c).0 ≡ s
unfolding perform start establish observe_sequence transport_lost schedule_reconnect begin_reconnect
perform_failed s starts h = ground arith
perform_failed s (establishes agreement StreamContinuity.restart) h = ground arith
perform_failed s (establishes agreement StreamContinuity.resume) h = ground arith
perform_failed s (observes sequence) h = ground arith
perform_failed s loses h = ground arith
perform_failed s (schedules policy) h = ground arith
perform_failed s reconnects h = ground arith
perform_failed s closes h = ground arith
