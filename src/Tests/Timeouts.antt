-- ===== src/Tests/Timeouts.antt =====
-- A handler that writes too late.
use txova_go_middleware.Base.{ℕ, ◌≡◌, refl, some}
use txova_go_middleware.Http.Program.{ret, send_status, Handler}
use txova_go_middleware.Http.Server.{new_response}
use txova_go_middleware.Timeout.Writer.{
  TimeoutWriter, new_writer, set_timed_out, thread, step_header, handler_step,
}
use txova_go_middleware.Timeout.Race.{
  Process, expired, marked, start, expires, marks, Steps, here, more,
}
use txova_go_middleware.Timeout.Laws.{late_call_dropped}
use txova_go_middleware.Timeout.Laws.Exclusive.{Excludes, one_answer}
use txova_go_middleware.Timeout.Laws.Answering.{expired_answers}
use txova_go_middleware.Timeout.Laws.Ending.{Terminates, ReturnsAlone, race-Terminates}
use txova_go_middleware.Tests.Samples.{core, conn, plain}

abbrev slow : Handler ℕ
slow r = send_status 200

abbrev late_writer : TimeoutWriter
late_writer = set_timed_out new_writer

dropped :
    handler_step conn (slow plain) late_writer 0 new_response
    ≡ some (late_writer, thread conn (ret tt) 0 new_response)
unfolding handler_step step_header
dropped = refl

late_call_dropped_example :
    (late_writer ≡ late_writer)
    × ((thread conn {σ = ℕ} (ret tt) 0 new_response).response
        ≡ record new_response { header = new_response.header })
late_call_dropped_example =
    late_call_dropped conn (slow plain) late_writer late_writer 0 new_response
      (thread conn (ret tt) 0 new_response) refl dropped

abbrev started : Process ℕ
started = start core slow plain 0 new_response

abbrev past : Process ℕ
past = record started { phase = expired }

abbrev cut : Process ℕ
cut = record past { writer = late_writer; phase = marked }

reaches_cut : Steps core conn started cut
reaches_cut = more (more here (expires refl)) (marks refl)

one_answer_example : Excludes cut
one_answer_example = one_answer core conn slow plain 0 new_response cut refl reaches_cut

expired_answers_example :
    (q : Process ℕ) × Steps core conn past q
    × (q.response.status ≡ some 503)
    × (q.handler ≡ past.handler)
expired_answers_example = expired_answers core conn past refl refl refl

race-Terminates_example : Terminates core conn started × ReturnsAlone core conn started
race-Terminates_example = race-Terminates core conn started tt
