-- ===== src/Tests/Auth.antt =====
-- The first stage.
use vibe_ai_router.Common.{◌≡◌, refl, String, Bool, true, false, some, List, [], ◌∷◌}
use vibe_ai_router.Common.Int.{◌-ℤ◌, ◌+ℤ◌}
use vibe_ai_router.Common.Dict
use vibe_ai_router.Gateway.Errors.{ok, err, router_error, auth_error}
use vibe_ai_router.Gateway.Auth.{
  AppToken, AuthContext, RateLimits, find_token, check_token, authenticate_app_token, take_user,
  rate_wait, named, admit, stage_auth,
}
use vibe_ai_router.Gateway.Auth.Granted.{IsGranted, stage_auth-ok}
use vibe_ai_router.Resilience.Limiter as Limiter
use vibe_ai_router.Resilience.Limiter.{new_limiter}
use vibe_ai_router.Tests.Sample.{request}

abbrev hash : String → String
hash token = token

abbrev row : Bool → AppToken
row revoked = record {
  id = "k1";
  firm_id = "f1";
  app = "files";
  token_hash = "t";
  scopes = "chat" ∷ [];
  revoked = revoked;
}

abbrev limits : RateLimits
limits = record { per_token = new_limiter 60; per_user = new_limiter 60 }

abbrev auth : AuthContext
auth = record { firm_id = "f1"; app = "files"; scopes = "chat" ∷ []; token_id = "k1" }

abbrev rows : List AppToken
rows = row true ∷ row false ∷ []

-- Names the code that the stage runs.
unfoldable code : Unit {0}
unfolding find_token check_token authenticate_app_token take_user rate_wait admit stage_auth
    Limiter.take Limiter.refilled Limiter.top_up Limiter.wait_seconds Dict.get Dict.put ◌-ℤ◌ ◌+ℤ◌
code = tt

revoked_token :
    (stage_auth hash (some "t") (row true ∷ []) (request "hi") 0 limits).1
    ≡ err (router_error auth_error)
unfolding code
revoked_token = refl

passes :
    (stage_auth hash (some "t") rows (request "hi") 0 limits).1
    ≡ ok (auth, named auth (request "hi"))
unfolding code
passes = refl

stage_auth-ok_example :
    IsGranted hash (some "t") rows auth
    × ((named auth (request "hi")).metadata.app ≡ auth.app)
    × ((rate_wait auth (request "hi").metadata.user_id 0 limits).1 ≡ 0)
stage_auth-ok_example =
    stage_auth-ok hash (some "t") rows (request "hi") 0 limits auth (named auth (request "hi"))
      passes
