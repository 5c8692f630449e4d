-- ===== src/Tests/Streaming.antt =====
-- The streaming execution.
use vibe_ai_router.Common.{
  ℕ, ◌≡◌, refl, true, false, none, some, [], ◌∷◌, List, All, length, if◌then◌else◌, str_eq,
}
use vibe_ai_router.Db.{cloud_allowed}
use vibe_ai_router.Gateway.Errors.{Result, ok}
use vibe_ai_router.Gateway.Envelope.{AiRequest, StreamChunk, text_delta, finish, stop}
use vibe_ai_router.Gateway.Route.{RouteDecision}
use vibe_ai_router.Resilience.Executor.{Outside, Exec}
use vibe_ai_router.Resilience.Executor.Clean.{IsProper}
use vibe_ai_router.Resilience.Executor.Boundary.{IsCandidate}
use vibe_ai_router.Resilience.Executor.Stream as Stream
use vibe_ai_router.Resilience.Executor.Stream.{
  Streamed, is_content, relay, execute_resilient_stream,
}
use vibe_ai_router.Resilience.Executor.Stream.Relay.{relay_lem}
use vibe_ai_router.Resilience.Executor.Stream.Whole.{IsOutcome, execute_resilient_stream-IsOutcome}
use vibe_ai_router.Resilience.Executor.Stream.Clean.{execute_resilient_stream-IsProper}
use vibe_ai_router.Tests.Sample.{context, request, deps, begin}
use vibe_ai_router.Tests.Execution as Execution

-- Names the code that a whole streaming execution runs.
unfoldable code : Unit {0}
unfolding Execution.code relay Stream.blame_stream Stream.fail_stream Stream.end_stream
    Stream.stream_of Stream.sending Stream.serve_stream Stream.enter_stream Stream.admit_stream
    Stream.route_stream Stream.hop_stream Stream.exhaust_stream Stream.chain_stream
    Stream.stream_candidates execute_resilient_stream
code = tt

-- The local model ends without content, and the cloud answers.
abbrev answer : List StreamChunk
answer = text_delta "a" ∷ text_delta "b" ∷ finish stop ∷ []

abbrev provide : ℕ → RouteDecision → AiRequest → Result Streamed
provide t route env =
    if str_eq route.provider.id "near"
    then ok (record { chunks = finish stop ∷ []; failure = none; idle_fired = false })
    else ok (record { chunks = answer; failure = none; idle_fired = false })

abbrev out : Outside Streamed
out = record {
  now = λ t. t;
  aborted = λ t. false;
  timed_out = λ t. false;
  execute = provide;
  verify = λ a env. record { finding = none; soft = 0 };
  slot_given = λ t. true;
  interfere = λ t s. s;
}

abbrev start : Exec
start = begin (context cloud_allowed (some (request "ssn [SSN]")) false)

falls_back :
    ((execute_resilient_stream deps true out start).1 ≡ (answer, none))
    × (length (execute_resilient_stream deps true out start).0.sent ≡ 2)
unfolding code
falls_back = (refl, refl)

relay_lem_example : relay false [] answer ≡ (true, answer)
relay_lem_example = relay_lem answer

execute_resilient_stream-IsOutcome_example :
    IsOutcome deps true out (execute_resilient_stream deps true out start)
execute_resilient_stream-IsOutcome_example = execute_resilient_stream-IsOutcome deps true out start

execute_resilient_stream-IsProper_example :
    All
      (IsProper deps true out start.ctx (IsCandidate deps true out start.ctx))
      (execute_resilient_stream deps true out start).0.sent
execute_resilient_stream-IsProper_example =
    execute_resilient_stream-IsProper deps true out start refl
