-- ===== src/Core/Session/Invariant.antt =====
-- The invariant of reachable sessions.
use lado_flow.Base.{◌≡◌, ◌≤◌, ◌<◌, arith, List, [], ◌∷◌, none, is_some, true}
use lado_flow.Base.Time.{u32_max, u64_max}
use lado_flow.Core.Session.{
  Session, idle, active, reconnect_scheduled, StreamContinuity, new_session, start, establish,
  observe_sequence, transport_lost, schedule_reconnect, begin_reconnect, close,
}
use lado_flow.Core.Session.Commands.{
  Command, starts, establishes, observes, loses, schedules, reconnects, closes, perform, run,
}

pub record IsValid (s : Session) : Type 0 where
  -- A session has an agreement exactly when a transport was once established.
  pub unestablished : s.connection_generation ≡ 0 → s.agreement ≡ none
  pub established : 0 < s.connection_generation → is_some s.agreement ≡ true
  -- Only an established stream has a receive cursor.
  pub cursor : is_some s.highest_sequence ≡ true → 0 < s.connection_generation
  pub running : s.phase ≡ active → (0 < s.connection_generation) × (s.reconnect_attempts ≡ 0)
  pub untouched : s.phase ≡ idle → (s.connection_generation ≡ 0) × (s.reconnect_attempts ≡ 0)
  pub counted : s.phase ≡ reconnect_scheduled → 0 < s.reconnect_attempts
  -- The two counters stay within their types.
  pub generation_bound : s.connection_generation ≤ u64_max
  pub attempts_bound : s.reconnect_attempts ≤ u32_max

new_session-IsValid : IsValid new_session
unfolding new_session
new_session-IsValid = ground arith

perform-IsValid : (s : Session) (c : Command) → IsValid s → IsValid (perform s c).0
unfolding perform start establish observe_sequence transport_lost schedule_reconnect begin_reconnect
    close
perform-IsValid s starts v = ground arith
perform-IsValid s (establishes agreement StreamContinuity.restart) v = ground arith
perform-IsValid s (establishes agreement StreamContinuity.resume) v = ground arith
perform-IsValid s (observes sequence) v = ground arith
perform-IsValid s loses v = ground arith
perform-IsValid s (schedules policy) v = ground arith
perform-IsValid s reconnects v = ground arith
perform-IsValid s closes v = ground arith

run-IsValid : (s : Session) (cs : List Command) → IsValid s → IsValid (run s cs)
unfolding run
run-IsValid s [] v = v
run-IsValid s (c ∷ cs) v = run-IsValid (perform s c).0 cs (perform-IsValid s c v)

-- After any calls a new session meets IsValid: an agreement from the first handshake on, a cursor
-- only behind one, no spent attempts while active or idle, and counters within their types.
pub run-new_session-IsValid : (cs : List Command) → IsValid (run new_session cs)
run-new_session-IsValid cs = run-IsValid new_session cs new_session-IsValid
