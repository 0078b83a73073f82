-- ===== src/Core/Session/Backoff.antt =====
-- The delays of reconnect attempts, and the retry budget.
use lado_flow.Base.{
  ℕ, zero, suc, ◌+◌, ◌-◌, ◌*◌, ◌^◌, ◌≤◌, ◌<◌, ◌≡◌, refl, ◌∙◌, arith, min, List, [], ◌∷◌, ◌++◌, some,
}
use lado_flow.Base.Bits.{pow_mono}
use lado_flow.Base.Time.{Duration, IsDuration, u32_max}
use lado_flow.Core.Session.{
  Session, negotiating, closed, ReconnectPolicy, backoff_multiplier, delay_for_attempt,
  transport_lost, schedule_reconnect, begin_reconnect,
}
use lado_flow.Core.Session.Commands.{Command, loses, schedules, reconnects, perform, run}

backoff_multiplier_mono : (a b : ℕ) → a ≤ b → backoff_multiplier a ≤ backoff_multiplier b
unfolding backoff_multiplier
backoff_multiplier_mono a b h = ground (arith, pow_mono a b, pow_mono a 31, pow_mono b 31)

-- Of two attempts that have delays the later one's is not shorter, and neither exceeds the cap.
pub delay_mono :
    (policy : ReconnectPolicy) (a b : ℕ) (d e : Duration)
    → a ≤ b
    → delay_for_attempt policy a ≡ some d
    → delay_for_attempt policy b ≡ some e
    → (d ≤ e) × (e ≤ policy.max_delay)
unfolding delay_for_attempt
delay_mono policy a b d e h p q = grind (arith, backoff_multiplier_mono (a - 1) (b - 1))

-- For an attempt from 1 to 32 within the policy, and a cap that is a duration, the delay is the
-- initial one doubled for each attempt behind the first, or the cap where that is less.
pub delay_for_attempt-doubling :
    (policy : ReconnectPolicy) (a : ℕ)
    → 0 < a
    → a ≤ policy.max_attempts
    → a ≤ 32
    → IsDuration policy.max_delay
    → delay_for_attempt policy a ≡ some (min (policy.initial_delay * 2 ^ (a - 1)) policy.max_delay)
unfolding delay_for_attempt backoff_multiplier
delay_for_attempt-doubling policy a pos budget small cap = ground (arith, pow_mono (a - 1) 31)

-- A lost link, its scheduled retry and the handshake that follows, `n` times.
abbrev pub failed_rounds : ReconnectPolicy → ℕ → List Command
failed_rounds policy zero = []
failed_rounds policy (suc n) = loses ∷ schedules policy ∷ reconnects ∷ failed_rounds policy n

-- One round within the budget counts one attempt and changes nothing else.
failed_round :
    (policy : ReconnectPolicy) (s : Session) (cs : List Command)
    → policy.max_attempts ≤ u32_max
    → s.phase ≡ negotiating
    → s.reconnect_attempts < policy.max_attempts
    → run s (loses ∷ schedules policy ∷ reconnects ∷ cs)
      ≡ run (record s { phase = negotiating; reconnect_attempts = s.reconnect_attempts + 1 }) cs
unfolding run perform transport_lost schedule_reconnect begin_reconnect
failed_round policy s cs bound negotiates left = ground arith

-- From a negotiating session, losing the transport and reconnecting as often as the policy still
-- allows, and losing it once more, closes the session and changes nothing else but the count of
-- attempts.
pub run-failed_rounds :
    (policy : ReconnectPolicy) (n : ℕ) (s : Session)
    → policy.max_attempts ≤ u32_max
    → s.phase ≡ negotiating
    → s.reconnect_attempts + n ≡ policy.max_attempts
    → run s (failed_rounds policy n ++ (loses ∷ schedules policy ∷ []))
      ≡ record s { phase = closed; reconnect_attempts = policy.max_attempts }
unfolding run perform transport_lost schedule_reconnect
run-failed_rounds policy zero s bound negotiates budget = ground arith
run-failed_rounds policy (suc n) s bound negotiates budget =
    failed_round policy s (failed_rounds policy n ++ (loses ∷ schedules policy ∷ [])) bound
      negotiates (omega arith)
    ∙ run-failed_rounds policy n
        (record s { phase = negotiating; reconnect_attempts = s.reconnect_attempts + 1 }) bound refl
        (omega arith)
