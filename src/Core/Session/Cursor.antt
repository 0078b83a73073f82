-- ===== src/Core/Session/Cursor.antt =====
-- The receive cursor: which sequence numbers an active session accepts.
use lado_flow.Base.{
  ℕ, ◌+◌, ◌≤◌, ◌<◌, ◌≡◌, refl, ap, ◌∙◌, arith, max, List, [], ◌∷◌, map, Option, none, some, ok,
  Result, err,
}
use lado_flow.Base.Time.{u32_max, u64_max}
use lado_flow.Core.Negotiation.{NegotiatedSession, same_agreement_iff}
use lado_flow.Core.Session.{
  Session, SessionError, active, resume, ReconnectPolicy, SequenceDisposition, accepted, duplicate,
  stale, establish, observe_sequence, transport_lost, schedule_reconnect, begin_reconnect,
}
use lado_flow.Core.Session.Commands.{
  Command, establishes, observes, loses, schedules, reconnects, perform, run,
}

abbrev pub latest : Option ℕ → List ℕ → Option ℕ
latest o [] = o
latest none (x ∷ xs) = latest (some x) xs
latest (some h) (x ∷ xs) = latest (some (max h x)) xs

observe_first :
    (s : Session) (x : ℕ)
    → s.phase ≡ active
    → s.highest_sequence ≡ none
    → (observe_sequence s x).0 ≡ record s { highest_sequence = some x }
unfolding observe_sequence
observe_first s x live e = ground arith

observe_next :
    (s : Session) (h x : ℕ)
    → s.phase ≡ active
    → s.highest_sequence ≡ some h
    → (observe_sequence s x).0 ≡ record s { highest_sequence = some (max h x) }
unfolding observe_sequence
observe_next s h x live e = ground arith

-- In any order of arrival, with repeats, the cursor ends at the largest number observed.
pub run-observes :
    (s : Session) (o : Option ℕ) (xs : List ℕ)
    → s.phase ≡ active
    → s.highest_sequence ≡ o
    → run s (map observes xs) ≡ record s { highest_sequence = latest o xs }
unfolding run perform
run-observes s none [] live e = ground arith
run-observes s (some h) [] live e = ground arith
run-observes s none (x ∷ xs) live e =
    ap (λ t. run t (map observes xs)) (observe_first s x live e)
    ∙ run-observes (record s { highest_sequence = some x }) (some x) xs live refl
run-observes s (some h) (x ∷ xs) live e =
    ap (λ t. run t (map observes xs)) (observe_next s h x live e)
    ∙ run-observes (record s { highest_sequence = some (max h x) }) (some (max h x)) xs live refl

-- How far one report says that the cursor moved.
abbrev pub advance : Result SessionError SequenceDisposition → ℕ
advance (ok (accepted skipped)) = skipped + 1
advance (ok duplicate) = 0
advance (ok (stale highest)) = 0
advance (err e) = 0

abbrev pub progress : Session → List ℕ → ℕ
progress s [] = 0
progress s (x ∷ xs) = advance (observe_sequence s x).1 + progress (observe_sequence s x).0 xs

observe_advance :
    (s : Session) (h x : ℕ)
    → s.phase ≡ active
    → s.highest_sequence ≡ some h
    → h + advance (observe_sequence s x).1 ≡ max h x
unfolding observe_sequence
observe_advance s h x live e = ground arith

-- In an active session with a cursor, for any sequence numbers observed in any order, the cursor
-- moves by exactly the numbers accepted and the numbers reported as skipped.
pub progress_lem :
    (s : Session) (h : ℕ) (xs : List ℕ)
    → s.phase ≡ active
    → s.highest_sequence ≡ some h
    → (run s (map observes xs)).highest_sequence ≡ some (h + progress s xs)
unfolding run perform
progress_lem s h [] live e = ground arith
progress_lem s h (x ∷ xs) live e =
    let moved = observe_next s h x live e in
    let distance = observe_advance s h x live e in
    ap (λ t. (run t (map observes xs)).highest_sequence) moved
    ∙ progress_lem (record s { highest_sequence = some (max h x) }) (max h x) xs live refl
    ∙ ap some (omega (arith, distance, ap (λ t. progress t xs) moved))

-- The calls of a reconnect that resumes the stream.
abbrev pub resumption : ReconnectPolicy → NegotiatedSession → List Command
resumption policy agreement =
    loses ∷ schedules policy ∷ reconnects ∷ establishes agreement resume ∷ []

-- An active session, after a handshake and with room in its counters and attempts, that loses its
-- transport, reconnects within the policy and resumes with the same agreement keeps its cursor,
-- starts the next generation and has all its attempts again.
pub run-resumption :
    (s : Session) (policy : ReconnectPolicy) (agreement : NegotiatedSession)
    → s.phase ≡ active
    → s.agreement ≡ some agreement
    → 0 < s.connection_generation
    → s.connection_generation < u64_max
    → s.reconnect_attempts < policy.max_attempts
    → policy.max_attempts ≤ u32_max
    → run s (resumption policy agreement)
      ≡ record s { connection_generation = s.connection_generation + 1; reconnect_attempts = 0 }
unfolding run perform transport_lost schedule_reconnect begin_reconnect establish
run-resumption s policy agreement live agreed first bound budget wide =
    ground (arith, (same_agreement_iff agreement agreement).1 refl)
