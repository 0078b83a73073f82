-- ===== src/Core/Session.antt =====
-- crates/ladoflow-core/src/session.rs: the life of one logical session. A method that changes the
-- session returns the new one beside its result.
pub mod Commands
pub mod Phases
pub mod Invariant
pub mod Backoff
pub mod Cursor
mod Examples
use lado_flow.Base.{
  ℕ, ◌+◌, ◌-◌, ◌^◌, ◌%◌, ◌==◌, Bool, true, false, ◌||◌, not, Option, none, some, String, ltb,
  if◌then◌else◌, min, Result, ok, err,
}
use lado_flow.Base.Time.{Duration, mul_duration, u32_max, u64_max}
use lado_flow.Core.Negotiation.{NegotiatedSession, same_agreement}

pub data SessionPhase : Type 0 where
  idle negotiating active waiting_to_reconnect reconnect_scheduled closed : SessionPhase

pub data StreamContinuity : Type 0 where
  restart resume : StreamContinuity

pub data SequenceDisposition : Type 0 where
  accepted : (skipped : ℕ) → SequenceDisposition
  duplicate : SequenceDisposition
  stale : (highest_accepted : ℕ) → SequenceDisposition

pub record ReconnectPolicy : Type 0 where
  pub max_attempts : ℕ
  pub initial_delay : Duration
  pub max_delay : Duration

pub data ReconnectPolicyError : Type 0 where
  initial_delay_exceeds_maximum : ReconnectPolicyError

pub data ReconnectDecision : Type 0 where
  retry_after : (attempt : ℕ) (delay : Duration) (resume_after : Option ℕ) → ReconnectDecision
  give_up : ReconnectDecision

pub data SessionError : Type 0 where
  invalid_transition : SessionPhase → String → SessionError
  cannot_resume_initial_connection : SessionError
  agreement_changed_during_resume : SessionError
  connection_generation_exhausted : SessionError

pub record Session : Type 0 where
  pub phase : SessionPhase
  pub agreement : Option NegotiatedSession
  pub connection_generation : ℕ
  pub reconnect_attempts : ℕ
  pub highest_sequence : Option ℕ

unfoldable pub new_policy : ℕ → Duration → Duration → Result ReconnectPolicyError ReconnectPolicy
new_policy max_attempts initial_delay max_delay =
    if ltb max_delay initial_delay
    then err initial_delay_exceeds_maximum
    else ok (record {
      max_attempts = max_attempts;
      initial_delay = initial_delay;
      max_delay = max_delay;
    })

-- `1_u32.checked_shl(shift).unwrap_or(u32::MAX)`.
unfoldable pub backoff_multiplier : ℕ → ℕ
backoff_multiplier shift = if ltb shift 32 then 2 ^ shift % 2 ^ 32 else u32_max

unfoldable pub delay_for_attempt : ReconnectPolicy → ℕ → Option Duration
delay_for_attempt policy attempt =
    if attempt == 0 || ltb policy.max_attempts attempt
    then none
    else some (
        min (mul_duration policy.initial_delay (backoff_multiplier (attempt - 1))) policy.max_delay)

pub default_policy : ReconnectPolicy
default_policy = record { max_attempts = 5; initial_delay = 250_000_000; max_delay = 8_000_000_000 }

unfoldable pub new_session : Session
new_session = record {
  phase = idle;
  agreement = none;
  connection_generation = 0;
  reconnect_attempts = 0;
  highest_sequence = none;
}

-- The derived equality of phases.
same_phase : SessionPhase → SessionPhase → Bool
same_phase idle idle = true
same_phase negotiating negotiating = true
same_phase active active = true
same_phase waiting_to_reconnect waiting_to_reconnect = true
same_phase reconnect_scheduled reconnect_scheduled = true
same_phase closed closed = true
same_phase _ _ = false

abbrev pub Outcome : Type 0 → Type 0
Outcome A = Session × Result SessionError A

-- `self.require_phase(expected, operation)?`, and then the rest of the method.
abbrev pub in_phase : {A : Type 0} → Session → SessionPhase → String → Outcome A → Outcome A
unfolding same_phase
in_phase s expected operation rest =
    if same_phase s.phase expected then rest else (s, err (invalid_transition s.phase operation))

unfoldable pub start : Session → Outcome (Unit {0})
unfolding same_phase
start s = in_phase s idle "start" (record s { phase = negotiating }, ok tt)

-- `self.agreement != Some(agreement)`.
abbrev pub agreement_changed : Option NegotiatedSession → NegotiatedSession → Bool
agreement_changed none agreement = true
agreement_changed (some old) agreement = not (same_agreement old agreement)

-- The assignments behind the `match` of `establish`.
activate : Session → NegotiatedSession → Session
activate s agreement = record s {
  phase = active;
  agreement = some agreement;
  connection_generation = s.connection_generation + 1;
  reconnect_attempts = 0;
}

-- The `match` on the continuity.
establish_stream : Session → NegotiatedSession → StreamContinuity → Outcome (Unit {0})
unfolding activate
establish_stream s agreement restart =
    (activate (record s { highest_sequence = none }) agreement, ok tt)
establish_stream s agreement resume =
    if s.connection_generation == 0
    then (s, err cannot_resume_initial_connection)
    else if agreement_changed s.agreement agreement
    then (s, err agreement_changed_during_resume)
    else (activate s agreement, ok tt)

unfoldable pub establish : Session → NegotiatedSession → StreamContinuity → Outcome (Unit {0})
unfolding same_phase establish_stream
establish s agreement continuity = in_phase s negotiating "establish" (
    if ltb s.connection_generation u64_max
    then establish_stream s agreement continuity
    else (s, err connection_generation_exhausted))

classify : Session → Option ℕ → ℕ → Session × SequenceDisposition
classify s none sequence = (record s { highest_sequence = some sequence }, accepted 0)
classify s (some highest) sequence =
    if ltb highest sequence
    then (record s { highest_sequence = some sequence }, accepted (sequence - highest - 1))
    else if sequence == highest
    then (s, duplicate)
    else (s, stale highest)

unfoldable pub observe_sequence : Session → ℕ → Outcome SequenceDisposition
unfolding same_phase classify
observe_sequence s sequence =
    let (s', disposition) = classify s s.highest_sequence sequence in
    in_phase s active "observe sequence" (s', ok disposition)

unfoldable pub transport_lost : Session → Outcome (Unit {0})
unfolding same_phase
transport_lost s =
    if same_phase s.phase active || same_phase s.phase negotiating
    then (record s { phase = waiting_to_reconnect }, ok tt)
    else (s, err (invalid_transition s.phase "record transport loss"))

-- The two `let … else` of `schedule_reconnect`.
schedule_delay : Session → ℕ → Option Duration → Outcome ReconnectDecision
schedule_delay s attempt none = (record s { phase = closed }, ok give_up)
schedule_delay s attempt (some delay) = (
  record s { phase = reconnect_scheduled; reconnect_attempts = attempt },
  ok (retry_after attempt delay s.highest_sequence),
)

unfoldable pub schedule_reconnect : Session → ReconnectPolicy → Outcome ReconnectDecision
unfolding same_phase schedule_delay delay_for_attempt
schedule_reconnect s policy =
    let attempt = s.reconnect_attempts + 1 in
    in_phase s waiting_to_reconnect "schedule reconnect" (
      if ltb s.reconnect_attempts u32_max
      then schedule_delay s attempt (delay_for_attempt policy attempt)
      else (record s { phase = closed }, ok give_up))

unfoldable pub begin_reconnect : Session → Outcome (Unit {0})
unfolding same_phase
begin_reconnect s =
    in_phase s reconnect_scheduled "begin reconnect" (record s { phase = negotiating }, ok tt)

unfoldable pub close : Session → Session
close s = record s { phase = closed }
