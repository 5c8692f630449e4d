-- ===== src/Ledger/Writer.antt =====
-- src/ledger/writer.ts: the one row of a request, and the charge that goes with it. The prices of a
-- model at a time are the answer of a query, the parameter `pricing_at`, and `to_fixed` is
-- `toFixed(6)`, from the unit of costs to millionths of a cent. The database stamps the row with its own
-- clock, at `inserted_at`; the charge reads the clock again behind the insert, at `charged_at`. A write
-- is taken to run to its end.
pub mod Balance
use vibe_ai_router.Common.{
  ℕ, ◌+◌, String, Bool, true, false, not, ◌&&◌, ◌||◌, Option, none, some, List, [], ◌∷◌, ◌++◌, any,
  str_eq, leb, ltb, is_some, ◌or_else◌, if◌then◌else◌,
}
use vibe_ai_router.Common.Dict
use vibe_ai_router.Common.Dict.{Dict}
use vibe_ai_router.Gateway.Errors.{
  ErrorCode, policy_blocked, scrubber_blocked, budget_exceeded, rate_limited, capability_missing,
  no_vision_provider, provider_unavailable, context_exceeded, content_filtered, invalid_request,
  auth_error, unknown, invalid_response,
}
use vibe_ai_router.Ledger.Cost.{AiUsage, PricingRow, CostResult, compute_cost}
use vibe_ai_router.Ledger.Budget.{BudgetsState, Payer, Calendar, current_period, record_spend}

pub data RequestStatus : Type 0 where
  status_ok status_policy_blocked status_scrubber_blocked status_budget_exceeded : RequestStatus
  status_rate_limited status_capability_missing status_no_vision_provider : RequestStatus
  status_provider_error status_client_abort status_error : RequestStatus

-- `statusFor`; an error that is unknown tells whether the client aborted.
abbrev pub status_of_code : ErrorCode → Bool → RequestStatus
status_of_code policy_blocked aborted = status_policy_blocked
status_of_code scrubber_blocked aborted = status_scrubber_blocked
status_of_code budget_exceeded aborted = status_budget_exceeded
status_of_code rate_limited aborted = status_rate_limited
status_of_code capability_missing aborted = status_capability_missing
status_of_code no_vision_provider aborted = status_no_vision_provider
status_of_code provider_unavailable aborted = status_provider_error
status_of_code context_exceeded aborted = status_provider_error
status_of_code content_filtered aborted = status_provider_error
status_of_code unknown true = status_client_abort
status_of_code _ aborted = status_error

abbrev pub status_for : Option ErrorCode → Bool → RequestStatus
status_for none aborted = status_ok
status_for (some code) aborted = status_of_code code aborted

-- What the writer reads of a finished request. `response` is the usage of its response.
pub record Finished : Type 0 where
  pub request_id : String
  pub auth : Option Payer
  pub response : Option AiUsage
  pub model_id : Option String
  pub cache_hit : Bool
  pub failure : Option ErrorCode
  pub aborted : Bool

-- What is modelled of a row of `usage_ledger`; `ts` is the database's default, its time at the insert.
pub record UsageRow : Type 0 where
  pub request_id : String
  pub firm_id : String
  pub app : String
  pub ts : ℕ
  pub usage : AiUsage
  pub cost : Option ℕ
  pub cost_unknown : Bool
  pub status : RequestStatus

pub record PricingEntry : Type 0 where
  pub row : Option PricingRow
  pub expires : ℕ

-- The two tables, and the class's cache.
pub record DbLedger : Type 0 where
  pub usage_ledger : List UsageRow
  pub budgets_state : List BudgetsState
  pub pricing_cache : Dict PricingEntry

abbrev pub empty_usage : AiUsage
empty_usage = record {
  prompt_tokens = 0;
  completion_tokens = 0;
  cached_read_tokens = 0;
  cache_write_tokens = 0;
}

-- A cache hit used no tokens.
abbrev pub usage_of : Finished → AiUsage
usage_of r = if r.cache_hit then empty_usage else r.response or_else empty_usage

abbrev pub is_served : Finished → Bool
is_served r = is_some r.response && not r.cache_hit

abbrev fresh_entry : ℕ → Option PricingEntry → Option PricingEntry
fresh_entry now none = none
fresh_entry now (some e) = if ltb now e.expires then some e else none

unfoldable pub has_request : String → List UsageRow → Bool
has_request id rows = any (λ row. str_eq row.request_id id) rows

abbrev pub amount_of : Option ℕ → ℕ
amount_of none = 0
amount_of (some n) = n

module _ (pricing_at : String → ℕ → Option PricingRow) (to_fixed : ℕ → ℕ)
    (calendar : Calendar) where
  -- `pricingFor`, with its cache of a minute
  unfoldable pub pricing_for :
      String → ℕ → ℕ → Dict PricingEntry → Dict PricingEntry × Option PricingRow
  pricing_for model_id started_at now cache = elim (fresh_entry now (Dict.get model_id cache)) [
    | some e ↦ (cache, e.row)
    | none ↦ (
      Dict.put model_id (record { row = pricing_at model_id started_at; expires = now + 60000 })
          cache,
      pricing_at model_id started_at,
    )
  ]

  abbrev price_served :
      Bool → Option String → ℕ → ℕ → Dict PricingEntry → Dict PricingEntry × Option PricingRow
  price_served true (some model_id) started_at now cache = pricing_for model_id started_at now cache
  price_served _ _ started_at now cache = (cache, none)

  -- What the request cost, in millionths of a cent, and whether that is unknown.
  unfoldable pub cost_of : Finished → Option PricingRow → Option ℕ × Bool
  cost_of r pricing =
      if is_served r
      then (
        elim (compute_cost (usage_of r) pricing).cost [ none ↦ none | some c ↦ some (to_fixed c) ],
        (compute_cost (usage_of r) pricing).cost_unknown,
      )
      else (some 0, false)

  unfoldable pub row_of : Payer → ℕ → Finished → Option ℕ × Bool → UsageRow
  row_of payer inserted_at r cost = record {
    request_id = r.request_id;
    firm_id = payer.firm_id;
    app = payer.app;
    ts = inserted_at;
    usage = usage_of r;
    cost = cost.0;
    cost_unknown = cost.1;
    status = status_for r.failure r.aborted;
  }

  -- The insert, which does nothing for a request that has a row, and the charge for a new row, in
  -- the month of its own time.
  unfoldable pub insert_row : Payer → UsageRow → ℕ → DbLedger → DbLedger
  insert_row payer row charged_at db =
      if has_request row.request_id db.usage_ledger then db else record db {
        usage_ledger = db.usage_ledger ++ row ∷ [];
        budgets_state =
            if ltb 0 (amount_of row.cost)
            then record_spend payer (amount_of row.cost) (current_period calendar charged_at)
                db.budgets_state
            else db.budgets_state;
      }

  unfoldable pub write_for : Option Payer → ℕ → ℕ → ℕ → ℕ → Finished → DbLedger → DbLedger
  write_for none inserted_at charged_at started_at now r db = db
  write_for (some payer) inserted_at charged_at started_at now r db =
      let (cache, pricing) =
        price_served (is_served r) r.model_id started_at now db.pricing_cache in
      insert_row payer (row_of payer inserted_at r (cost_of r pricing)) charged_at
        (record db { pricing_cache = cache })

  -- `write`
  unfoldable pub write : ℕ → ℕ → ℕ → ℕ → Finished → DbLedger → DbLedger
  unfolding write_for
  write inserted_at charged_at started_at now r db =
      write_for r.auth inserted_at charged_at started_at now r db
