-- ===== src/Core/Session/Phases.antt =====
-- Which phase may follow which.
use lado_flow.Base.{◌≡◌, ◌⊎◌, refl, arith, List, [], ◌∷◌}
use lado_flow.Core.Session.{
  Session, SessionPhase, idle, negotiating, active, waiting_to_reconnect, reconnect_scheduled,
  closed, StreamContinuity, start, establish, observe_sequence, transport_lost, schedule_reconnect,
  begin_reconnect, close,
}
use lado_flow.Core.Session.Commands.{
  Command, starts, establishes, observes, loses, schedules, reconnects, closes, perform, run,
}

-- The life cycle that the documentation of the phases describes.
pub data PhaseStep (p q : SessionPhase) : Type 0 where
  begin : p ≡ idle → q ≡ negotiating → PhaseStep p q
  agree : p ≡ negotiating → q ≡ active → PhaseStep p q
  lose_link : p ≡ active → q ≡ waiting_to_reconnect → PhaseStep p q
  lose_handshake : p ≡ negotiating → q ≡ waiting_to_reconnect → PhaseStep p q
  back_off : p ≡ waiting_to_reconnect → q ≡ reconnect_scheduled → PhaseStep p q
  retry : p ≡ reconnect_scheduled → q ≡ negotiating → PhaseStep p q
  finish : q ≡ closed → PhaseStep p q

ruleset phase_steps = (begin, agree, lose_link, lose_handshake, back_off, retry, finish)

-- A call keeps the phase or moves it by a step of the life cycle that PhaseStep lists.
pub perform-PhaseStep :
    (s : Session) (c : Command)
    → ((perform s c).0.phase ≡ s.phase) ⊎ PhaseStep s.phase (perform s c).0.phase
unfolding perform start establish observe_sequence transport_lost schedule_reconnect begin_reconnect
    close
perform-PhaseStep s starts = grind (arith, phase_steps)
perform-PhaseStep s (establishes agreement StreamContinuity.restart) = grind (arith, phase_steps)
perform-PhaseStep s (establishes agreement StreamContinuity.resume) = grind (arith, phase_steps)
perform-PhaseStep s (observes sequence) = grind (arith, phase_steps)
perform-PhaseStep s loses = grind (arith, phase_steps)
perform-PhaseStep s (schedules policy) = grind (arith, phase_steps)
perform-PhaseStep s reconnects = grind (arith, phase_steps)
perform-PhaseStep s closes = grind (arith, phase_steps)

-- A closed session takes no further call: it stays as it is.
closed-perform : (s : Session) (c : Command) → s.phase ≡ closed → (perform s c).0 ≡ s
unfolding perform start establish observe_sequence transport_lost schedule_reconnect begin_reconnect
    close
closed-perform s starts h = ground arith
closed-perform s (establishes agreement k) h = ground arith
closed-perform s (observes sequence) h = ground arith
closed-perform s loses h = ground arith
closed-perform s (schedules policy) h = ground arith
closed-perform s reconnects h = ground arith
closed-perform s closes h = ground arith

pub run_closed : (s : Session) (cs : List Command) → s.phase ≡ closed → run s cs ≡ s
unfolding run
run_closed s [] h = refl
run_closed s (c ∷ cs) h = rw (closed-perform s c h) (run_closed s cs h)
