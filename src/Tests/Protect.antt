-- ===== src/Tests/Protect.antt =====
-- The scrubber on texts, and a request from the scrub to the cloud.
use Prim.Native.Char.{Char}
use vibe_ai_router.Common.{zero, suc, ◌≡◌, refl, ◌⊎◌, false, true, none, List, All}
use vibe_ai_router.Common.Dict
use vibe_ai_router.Common.Texts.{chars, codes_of, slice}
use vibe_ai_router.Db.{is_local_kind, cloud_allowed}
use vibe_ai_router.Catalog.{is_capped, effective_capabilities}
use vibe_ai_router.Gateway.Route.{PipelineCtx}
use vibe_ai_router.Gateway.Stages as Stages
use vibe_ai_router.Gateway.Stages.{stage_scrub}
use vibe_ai_router.Gateway.Egress.{execute_resilient-redact_envelope}
use vibe_ai_router.Policy.Violation as Violation
use vibe_ai_router.Policy.Limits.{clamp_to_model}
use vibe_ai_router.Policy.Select as Select
use vibe_ai_router.Policy.Select.{select_model}
use vibe_ai_router.Policy.Select.Soundness.{IsResolved}
use vibe_ai_router.Protect.Pattern as Pattern
use vibe_ai_router.Protect.Scan as Scan
use vibe_ai_router.Protect.Scan.{ssn, card, routing, scan_text}
use vibe_ai_router.Protect.Scan.Order.{IsTidy, scan_text-IsTidy}
use vibe_ai_router.Protect.Redact.{redact_from, redact_text, scrub_string}
use vibe_ai_router.Protect.Redact.Secrecy.{AgreeOutside, redact_text-hides}
use vibe_ai_router.Protect.Envelope.{scan_envelope, redact_envelope, scrubber}
use vibe_ai_router.Resilience.Executor.{Exec, execute_resilient}
use vibe_ai_router.Tests.Sample.{context, effective, request, deps, out, begin}

-- Names the code of the scan.
unfoldable code : Unit {0}
unfolding Pattern.valid_ssn_parts Pattern.valid_ein_prefix Pattern.aba_checksum_valid
    Pattern.aba_prefix_valid Pattern.luhn_valid Pattern.iin_valid Pattern.match_digits
    Pattern.match_ssn Pattern.match_ein Pattern.match_card Pattern.has_ssn_keyword
    Pattern.has_account_keyword Scan.match_all Scan.overlaps Scan.pass Scan.valid_card
    Scan.valid_routing Scan.valid_dashed_ssn Scan.valid_bare_ssn Scan.valid_ein Scan.valid_account
    Scan.cards Scan.with_routing Scan.with_ssn Scan.with_account Scan.insert Scan.sort
    Scan.scan_text slice redact_from redact_text scrub_string scan_envelope redact_envelope
code = tt

hides_ssn : scrub_string "my ssn is 123-45-6789." ≡ "my ssn is [SSN]."
unfolding code
hides_ssn = refl

hides_card : scrub_string "4111 1111 1111 1111 x" ≡ "[CARD] x"
unfolding code
hides_card = refl

hides_account : scrub_string "routing 021000021 acct 12345678" ≡ "routing [ROUTING] acct [ACCOUNT]"
unfolding code
hides_account = refl

keeps_plain : scrub_string "000-12-3456 and 12-3456789x" ≡ "000-12-3456 and [EIN]x"
unfolding code
keeps_plain = refl

scan_text-IsTidy_example : IsTidy 0 (scan_text (codes_of (chars "ein 12-3456789, ssn 123-45-6789")))
scan_text-IsTidy_example = scan_text-IsTidy (codes_of (chars "ein 12-3456789, ssn 123-45-6789"))

abbrev one_ssn : List Char
one_ssn = chars "123-45-6789"

abbrev other_ssn : List Char
other_ssn = chars "987-65-4321"

agree : AgreeOutside (scan_text (codes_of one_ssn)) 0 one_ssn other_ssn
unfolding code
agree zero le h = absurd (cc)
agree (suc zero) le h = absurd (cc)
agree (suc (suc zero)) le h = absurd (cc)
agree (suc (suc (suc zero))) le h = absurd (cc)
agree (suc (suc (suc (suc zero)))) le h = absurd (cc)
agree (suc (suc (suc (suc (suc zero))))) le h = absurd (cc)
agree (suc (suc (suc (suc (suc (suc zero)))))) le h = absurd (cc)
agree (suc (suc (suc (suc (suc (suc (suc zero))))))) le h = absurd (cc)
agree (suc (suc (suc (suc (suc (suc (suc (suc zero)))))))) le h = absurd (cc)
agree (suc (suc (suc (suc (suc (suc (suc (suc (suc zero))))))))) le h = absurd (cc)
agree (suc (suc (suc (suc (suc (suc (suc (suc (suc (suc zero)))))))))) le h = absurd (cc)
agree (suc (suc (suc (suc (suc (suc (suc (suc (suc (suc (suc i))))))))))) le h = refl

redact_text-hides_example :
    redact_text one_ssn (scan_text (codes_of one_ssn))
    ≡ redact_text other_ssn (scan_text (codes_of one_ssn))
redact_text-hides_example = redact_text-hides one_ssn other_ssn agree

-- The local model fails, and the request goes on to the cloud.
abbrev ctx : PipelineCtx
ctx = record (context cloud_allowed none false) { envelope = request "my ssn is 123-45-6789" }

abbrev start : Exec
start = begin (stage_scrub deps scrubber ctx).0

resolved : IsResolved (effective cloud_allowed false)
unfolding Dict.get
resolved = record {
  keyed = (refl, (refl, (refl, tt)));
  default_id = refl;
  map = (refl, (refl, (refl, tt)));
  default_row = refl;
}

execute_resilient-redact_envelope_example :
    All
      (λ s.
        (is_local_kind s.model.provider_kind ≡ true)
        ⊎ (s.envelope ≡ clamp_to_model (redact_envelope ctx.envelope).0 s.model))
      (execute_resilient deps true out start).0.sent
unfolding code Dict.get is_capped effective_capabilities Violation.request_requires
    Violation.required_capabilities Violation.missing_capabilities Violation.model_banned
    Violation.model_violation Select.values Select.requested_match Select.serve_default
    Select.serve_requested Select.select_model Stages.cloud_in_chain Stages.scrub_redact
    Stages.scrub_mode Stages.scrub_selected Stages.stage_scrub
execute_resilient-redact_envelope_example =
    execute_resilient-redact_envelope deps true out ctx start resolved refl refl refl
      (record { effective = refl; envelope = refl; cloud_envelope = refl; cloud_blocked = refl })
      refl
