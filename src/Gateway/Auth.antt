-- ===== src/Gateway/Auth.antt =====
-- src/gateway/pipeline.ts, the first stage: the token of the application and its rate limits. The
-- digest of a token is a parameter; the note of when a token was used last is left out.
pub mod Granted
use Prim.Native.String.{◌++◌ as append}
use vibe_ai_router.Common.{
  ℕ, String, Bool, true, false, not, ◌&&◌, Option, none, some, List, [], ◌∷◌, any, str_eq, ltb, max,
  ◌or_else◌, if◌then◌else◌,
}
use vibe_ai_router.Gateway.Errors.{
  RouterError, router_error, Result, ok, err, auth_error, rate_limited,
}
use vibe_ai_router.Gateway.Envelope.{AiRequest}
use vibe_ai_router.Resilience.Limiter.{RateLimiter, take}

-- A row of `app_tokens`.
pub record AppToken : Type 0 where
  pub id : String
  pub firm_id : String
  pub app : String
  pub token_hash : String
  pub scopes : List String
  pub revoked : Bool

pub record AuthContext : Type 0 where
  pub firm_id : String
  pub app : String
  pub scopes : List String
  pub token_id : String

pub record RateLimits : Type 0 where
  pub per_token : RateLimiter
  pub per_user : RateLimiter

unfoldable pub find_token : String → List AppToken → Option AppToken
find_token presented [] = none
find_token presented (row ∷ rows) =
    let rest = find_token presented rows in
    if str_eq row.token_hash presented && not row.revoked then some row else rest

abbrev pub given_token : Option String → Option String
given_token none = none
given_token (some t) = if str_eq t "" then none else some t

unfoldable pub check_token : String → Option AppToken → Result AuthContext
check_token presented none = err (router_error auth_error)
check_token presented (some row) =
    if str_eq presented row.token_hash
    then if any (λ s. str_eq s "chat") row.scopes
      then ok
          (record { firm_id = row.firm_id; app = row.app; scopes = row.scopes; token_id = row.id })
      else err (router_error auth_error)
    else err (router_error auth_error)

module _ (hash_token : String → String) where
  abbrev check_bearer : Option String → List AppToken → Result AuthContext
  check_bearer none rows = err (router_error auth_error)
  check_bearer (some token) rows =
      check_token (hash_token token) (find_token (hash_token token) rows)

  -- `authenticateAppToken`
  unfoldable pub authenticate_app_token : Option String → List AppToken → Result AuthContext
  authenticate_app_token bearer rows = check_bearer (given_token bearer) rows

-- An empty user is none.
unfoldable pub take_user : Option String → String → ℕ → RateLimiter → RateLimiter × Option ℕ
take_user none firm_id now l = (l, none)
take_user (some user) firm_id now l =
    if str_eq user ""
    then (l, none)
    else take (append "u:" (append firm_id (append ":" user))) now l

-- How long the request must wait, under both limits.
unfoldable pub rate_wait : AuthContext → Option String → ℕ → RateLimits → RateLimits × ℕ
rate_wait auth user now limits =
    let by_token = take (append "t:" auth.token_id) now limits.per_token in
    let by_user = take_user user auth.firm_id now limits.per_user in
    (
      record { per_token = by_token.0; per_user = by_user.0 },
      max (by_token.1 or_else 0) (by_user.1 or_else 0),
    )

abbrev too_fast : ℕ → RouterError
too_fast wait = record { code = rate_limited; reason = none; retry_after_seconds = some wait }

abbrev pub named : AuthContext → AiRequest → AiRequest
named auth env = record env { metadata = record env.metadata { app = auth.app } }

-- `stageAuth`: the limits as they are left, and who the request comes from with its envelope.
unfoldable pub admit :
    Result AuthContext → AiRequest → ℕ → RateLimits → RateLimits × Result (AuthContext × AiRequest)
unfolding rate_wait
admit (err e) env now limits = (limits, err e)
admit (ok auth) env now limits =
    let r = rate_wait auth env.metadata.user_id now limits in
    (r.0, if ltb 0 r.1 then err (too_fast r.1) else ok (auth, named auth env))

unfoldable pub stage_auth :
    (String → String)
    → Option String
    → List AppToken
    → AiRequest
    → ℕ
    → RateLimits
    → RateLimits × Result (AuthContext × AiRequest)
unfolding admit
stage_auth hash_token bearer rows env now limits =
    admit (authenticate_app_token hash_token bearer rows) env now limits
