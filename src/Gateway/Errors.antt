-- ===== src/Gateway/Errors.antt =====
-- src/gateway/errors.ts. Of an error's message nothing is modelled, and of its detail the reason.
use vibe_ai_router.Common.{
  ℕ, String, ◌≡◌, refl, ◌⊎◌, inl, inr, Bool, true, false, Option, none, some,
}

pub data ErrorCode : Type 0 where
  invalid_request auth_error rate_limited provider_unavailable context_exceeded : ErrorCode
  content_filtered policy_blocked scrubber_blocked capability_missing : ErrorCode
  no_vision_provider invalid_response budget_exceeded unknown : ErrorCode

-- `ERROR_HTTP_STATUS`
unfoldable pub http_status : ErrorCode → ℕ
http_status invalid_request = 400
http_status auth_error = 401
http_status rate_limited = 429
http_status provider_unavailable = 502
http_status context_exceeded = 400
http_status content_filtered = 422
http_status policy_blocked = 403
http_status scrubber_blocked = 422
http_status capability_missing = 400
http_status no_vision_provider = 409
http_status invalid_response = 502
http_status budget_exceeded = 402
http_status unknown = 500

-- `RETRYABLE_CODES.has`
abbrev pub is_retryable : ErrorCode → Bool
is_retryable rate_limited = true
is_retryable provider_unavailable = true
is_retryable invalid_response = true
is_retryable _ = false

pub record RouterError : Type 0 where
  pub code : ErrorCode
  pub reason : Option String
  pub retry_after_seconds : Option ℕ

abbrev pub router_error : ErrorCode → RouterError
router_error code = record { code = code; reason = none; retry_after_seconds = none }

-- `errorBody`, the body that a client gets: the type and the code.
unfoldable pub error_body : RouterError → String × ErrorCode
error_body e =
    (elim e.code [ invalid_request ↦ "invalid_request_error" | _ ↦ "router_error" ], e.code)

-- `toRouterError`: an exception that is no RouterError is `none`.
unfoldable pub to_router_error : Option RouterError → RouterError
to_router_error none = router_error unknown
to_router_error (some e) = e

-- A call that returns or throws.
pub data Result {ℓ} (A : Type ℓ) : Type ℓ where
  ok : A → Result A
  err : RouterError → Result A

pub Result-cases {ℓ} :
    {A : Type ℓ} (r : Result A) → ((a : A) × (r ≡ ok a)) ⊎ ((e : RouterError) × (r ≡ err e))
Result-cases (ok a) = inl (a, refl)
Result-cases (err e) = inr (e, refl)
