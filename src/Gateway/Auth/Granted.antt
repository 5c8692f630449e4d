-- ===== src/Gateway/Auth/Granted.antt =====
-- Who passes the first stage.
use vibe_ai_router.Common.{
  ℕ, zero, suc, ◌≡◌, refl, ◌∙◌, sym, ap, subst, String, true, false, not, ◌&&◌, Option, none, some,
  List, [], ◌∷◌, any, str_eq, eq_iff, ltb, inl, inr, arith, Bool-cases, Option-cases,
}
use vibe_ai_router.Common.Texts.{get_elem?}
use vibe_ai_router.Gateway.Errors.{ok, Result-cases}
use vibe_ai_router.Gateway.Envelope.{AiRequest}
use vibe_ai_router.Gateway.Auth.{
  AppToken, AuthContext, RateLimits, find_token, given_token, check_token, authenticate_app_token,
  rate_wait, admit, stage_auth,
}

-- The row that a token stands for.
pub record IsGranted (hash_token : String → String) (bearer : Option String) (rows : List AppToken)
    (auth : AuthContext) : Type 0 where
  pub token : String
  pub place : ℕ
  pub row : AppToken
  pub presented : bearer ≡ some token
  pub stored : get_elem? rows place ≡ some row
  pub hashed : row.token_hash ≡ hash_token token
  pub live : row.revoked ≡ false
  pub scoped : any (λ s. str_eq s "chat") row.scopes ≡ true
  pub firm : auth.firm_id ≡ row.firm_id
  pub app : auth.app ≡ row.app

find_token_sound :
    (presented : String) (rows : List AppToken) (row : AppToken)
    → find_token presented rows ≡ some row
    → (i : ℕ) × (get_elem? rows i ≡ some row) × (row.token_hash ≡ presented) × (row.revoked ≡ false)
unfolding find_token
find_token_sound presented [] row e = absurd (cc)
find_token_sound presented (r ∷ rows) row e =
    elim (Bool-cases (str_eq r.token_hash presented && not r.revoked)) [
      | inl here ↦
          let same : r ≡ row = ground arith in
          (
            zero,
            ap (λ z. some z) same,
            sym (ap (λ z. z.token_hash) same) ∙ (eq_iff r.token_hash presented).0 (ground arith),
            sym (ap (λ z. z.revoked) same) ∙ ground arith,
          )
      | inr away ↦
          let (i, at, hash, live) = find_token_sound presented rows row (ground arith) in
          (suc i, at, hash, live)
    ]

check_token-ok :
    (presented : String) (found : Option AppToken) (auth : AuthContext)
    → check_token presented found ≡ ok auth
    → (row : AppToken) × (found ≡ some row)
      × (any (λ s. str_eq s "chat") row.scopes ≡ true)
      × (auth.firm_id ≡ row.firm_id)
      × (auth.app ≡ row.app)
unfolding check_token
check_token-ok presented none auth e = absurd (cc)
check_token-ok presented (some row) auth e =
    elim (Bool-cases (any (λ s. str_eq s "chat") row.scopes)) [
      | inl scoped ↦ (row, refl, scoped, ground arith, ground arith)
      | inr unscoped ↦ absurd (ground arith)
    ]

given_token-eq : (o : Option String) (t : String) → given_token o ≡ some t → o ≡ some t
given_token-eq none t e = absurd (cc)
given_token-eq (some s) t e = ground arith

authenticate_app_token-ok :
    (hash_token : String → String) (bearer : Option String) (rows : List AppToken)
    (auth : AuthContext)
    → authenticate_app_token hash_token bearer rows ≡ ok auth
    → IsGranted hash_token bearer rows auth
unfolding authenticate_app_token
authenticate_app_token-ok hash_token bearer rows auth e = elim (Option-cases (given_token bearer)) [
  | inl missing ↦ absurd (let f = rw missing at e in cc)
  | inr (token, is_there) ↦
      let (row, found, scoped, firm, app) =
        check_token-ok (hash_token token) (find_token (hash_token token) rows) auth
          (rw is_there at e) in
      let (i, stored, hashed, live) = find_token_sound (hash_token token) rows row found in
      record {
        token = token;
        place = i;
        row = row;
        presented = given_token-eq bearer token is_there;
        stored = stored;
        hashed = hashed;
        live = live;
        scoped = scoped;
        firm = firm;
        app = app;
      }
]

module _ (hash_token : String → String) (bearer : Option String) (rows : List AppToken)
    (env : AiRequest) (now : ℕ) (limits : RateLimits) where
  -- A request passes the first stage only with a token whose digest stands in a row that is not
  -- revoked and has the scope of chat; it counts for the firm and the application of that row, whatever
  -- application it named, and neither its token nor its user has to wait.
  pub stage_auth-ok :
      (auth : AuthContext) (env' : AiRequest)
      → (stage_auth hash_token bearer rows env now limits).1 ≡ ok (auth, env')
      → IsGranted hash_token bearer rows auth
        × (env'.metadata.app ≡ auth.app)
        × ((rate_wait auth env.metadata.user_id now limits).1 ≡ 0)
  unfolding stage_auth admit
  stage_auth-ok auth env' e = elim (Result-cases (authenticate_app_token hash_token bearer rows)) [
    | inl (auth', granted) ↦
        let passed = rw granted at e in
        let wait = (rate_wait auth' env.metadata.user_id now limits).1 in
        elim (Bool-cases (ltb 0 wait)) [
          | inl slow ↦ absurd (ground arith)
          | inr fast ↦
              let same : auth' ≡ auth = ground arith in
              (
                subst (λ z. IsGranted hash_token bearer rows z) same
                    (authenticate_app_token-ok hash_token bearer rows auth' granted),
                ground arith,
                subst (λ z. (rate_wait z env.metadata.user_id now limits).1 ≡ 0) same
                    (ground arith),
              )
        ]
    | inr (w, refused) ↦ absurd (let f = rw refused at e in cc)
  ]
