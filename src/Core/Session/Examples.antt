-- ===== src/Core/Session/Examples.antt =====
-- Runs of the session at concrete inputs, and the theorems at such inputs.
use lado_flow.Base.{◌≡◌, ◌⊎◌, ◌+◌, refl, arith, List, [], ◌∷◌, ◌++◌, map, some, ok, err}
use lado_flow.Core.Negotiation.{NegotiatedSession}
use lado_flow.Core.Session.{
  Session, negotiating, active, closed, restart, resume, stale, ReconnectPolicy,
  cannot_resume_initial_connection, new_session, start, establish, observe_sequence,
  delay_for_attempt, backoff_multiplier,
}
use lado_flow.Core.Session.Commands.{
  Command, starts, establishes, observes, loses, schedules, perform, run, perform_failed,
}
use lado_flow.Core.Session.Phases.{PhaseStep, perform-PhaseStep, run_closed}
use lado_flow.Core.Session.Invariant.{IsValid, run-new_session-IsValid}
use lado_flow.Core.Session.Backoff.{failed_rounds, run-failed_rounds}
use lado_flow.Core.Session.Cursor.{progress, run-observes, progress_lem, resumption, run-resumption}

abbrev sample_agreement : NegotiatedSession
sample_agreement = record {
  protocol_version = 1;
  capabilities = record {
    max_width = 1920;
    max_height = 1080;
    max_refresh_millihz = 60_000;
    max_bitrate_kbps = 20_000;
    codec_bits = 1;
    input_bits = 0;
    feature_bits = 0;
  };
}

abbrev sample_policy : ReconnectPolicy
sample_policy = record { max_attempts = 4; initial_delay = 100_000_000; max_delay = 250_000_000 }

abbrev live : Session
live = record {
  phase = active;
  agreement = some sample_agreement;
  connection_generation = 1;
  reconnect_attempts = 0;
  highest_sequence = some 13;
}

abbrev handshaking : Session
handshaking = record live { phase = negotiating }

abbrev ended : Session
ended = record live { phase = closed }

abbrev one_connection : List Command
one_connection = starts ∷ establishes sample_agreement restart ∷ observes 10 ∷ observes 13 ∷ []

run_to_live : run new_session one_connection ≡ live
unfolding run perform new_session start establish observe_sequence
run_to_live = refl

late_number : (observe_sequence live 12).1 ≡ ok (stale 13)
unfolding observe_sequence
late_number = refl

first_resume :
    (establish (record new_session { phase = negotiating }) sample_agreement resume).1
    ≡ err cannot_resume_initial_connection
unfolding establish new_session
first_resume = refl

third_delay : delay_for_attempt sample_policy 3 ≡ some 250_000_000
unfolding delay_for_attempt backoff_multiplier
third_delay = refl

perform_failed_example : (perform live starts).0 ≡ live
unfolding perform start
perform_failed_example = perform_failed live starts refl

perform-PhaseStep_example :
    ((perform live loses).0.phase ≡ active) ⊎ PhaseStep active (perform live loses).0.phase
perform-PhaseStep_example = perform-PhaseStep live loses

run_closed_example : run ended one_connection ≡ ended
run_closed_example = run_closed ended one_connection refl

run-new_session-IsValid_example : IsValid (run new_session one_connection)
run-new_session-IsValid_example = run-new_session-IsValid one_connection

run-failed_rounds_example :
    run handshaking (failed_rounds sample_policy 4 ++ (loses ∷ schedules sample_policy ∷ []))
    ≡ record handshaking { phase = closed; reconnect_attempts = 4 }
run-failed_rounds_example =
    run-failed_rounds sample_policy 4 handshaking (omega arith) refl (omega arith)

run-observes_example :
    run live (map observes (12 ∷ 20 ∷ 15 ∷ [])) ≡ record live { highest_sequence = some 20 }
run-observes_example = run-observes live (some 13) (12 ∷ 20 ∷ 15 ∷ []) refl refl

progress_lem_example :
    (run live (map observes (12 ∷ 20 ∷ 15 ∷ []))).highest_sequence
    ≡ some (13 + progress live (12 ∷ 20 ∷ 15 ∷ []))
progress_lem_example = progress_lem live 13 (12 ∷ 20 ∷ 15 ∷ []) refl refl

run-resumption_example :
    run live (resumption sample_policy sample_agreement)
    ≡ record live { connection_generation = 1 + 1; reconnect_attempts = 0 }
run-resumption_example =
    run-resumption live sample_policy sample_agreement refl refl (omega arith) (omega arith)
      (omega arith) (omega arith)
