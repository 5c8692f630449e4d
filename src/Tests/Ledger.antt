-- ===== src/Tests/Ledger.antt =====
-- Costs and budgets.
use vibe_ai_router.Common.{
  ℕ, String, Option, ◌+◌, ◌≡◌, refl, ◌⊎◌, none, some, List, [], ◌∷◌, ◌*◌, ◌≤◌, ◌↔◌, true, false,
  ltb, if◌then◌else◌,
}
use vibe_ai_router.Common.Dict
use vibe_ai_router.Gateway.Errors.{ok, err, router_error, budget_exceeded}
use vibe_ai_router.Ledger.Cost.{AiUsage, PricingRow, cents_for, savings, priced_cost, compute_cost}
use vibe_ai_router.Ledger.Cost.Bounds.{IsAllPriced, full_price, compute_cost_lem}
use vibe_ai_router.Ledger.Budget.{
  firm, BudgetSettings, BudgetScopeCheck, BudgetsState, Payer, Calendar, current_period, one_cent,
  scope_checks, evaluate, check_budgets, spent_for, record_spend, charge, scope_key,
}
use vibe_ai_router.Ledger.Writer.{
  Finished, DbLedger, pricing_for, has_request, cost_of, row_of, insert_row, write,
}
use vibe_ai_router.Ledger.Writer.Balance.{cost_of_rows, IsBalanced, write-IsBalanced, write-write}
use vibe_ai_router.Ledger.Budget.Checks.{IsUnder, HasReached, check_budgets_lem}
use vibe_ai_router.Ledger.Budget.Limits.{In, IsOrdered, IsLimit}
use vibe_ai_router.Ledger.Budget.Spending.{is_charged, spent_for-record_spend}

abbrev usage : AiUsage
usage = record {
  prompt_tokens = 100;
  completion_tokens = 20;
  cached_read_tokens = 50;
  cache_write_tokens = 0;
}

-- No rate for what is written to the cache, which is charged as input.
abbrev prices : PricingRow
prices = record {
  input_per_mtok = some 3;
  output_per_mtok = some 15;
  cache_read_per_mtok = some 1;
  cache_write_per_mtok = none;
}

compute_cost_lem_example :
    (IsAllPriced usage prices
      × ((compute_cost usage (some prices)).cost ≡ some (full_price usage prices))
      × ((compute_cost usage (some prices)).cost_unknown ≡ false))
    ⊎ ((¬ IsAllPriced usage prices)
        × ((compute_cost usage (some prices)).cost ≡ none)
        × ((compute_cost usage (some prices)).cost_unknown ≡ true))
compute_cost_lem_example = compute_cost_lem usage prices

costs : (compute_cost usage (some prices)).cost ≡ some 650
unfolding compute_cost priced_cost cents_for savings
costs = refl

abbrev settings : BudgetSettings
settings = record {
  firm_monthly_cents = some 100;
  apps = ("files", 10) ∷ [];
  users = [];
  soft_pct = none;
}

abbrev payer : Payer
payer = record { firm_id = "f1"; app = "files"; user_id = some "u1" }

abbrev rows : List BudgetsState
rows = record { scope = firm; scope_ref = "f1"; period = "202611"; spent = 85000000 } ∷ []

check_budgets_lem_example :
    let result = check_budgets 0 payer "t1" settings none "202611" rows in
    (((c : BudgetScopeCheck) → IsLimit 0 payer "t1" settings none "202611" rows c → IsUnder c)
      × (warnings : List BudgetScopeCheck) × (result ≡ ok warnings)
      × ((c : BudgetScopeCheck)
          → In c warnings ↔ IsLimit 0 payer "t1" settings none "202611" rows c × HasReached 80 c)
      × IsOrdered warnings)
    ⊎ (((c : BudgetScopeCheck) × IsLimit 0 payer "t1" settings none "202611" rows c
          × (c.limit_cents * one_cent ≤ c.spent))
        × (result ≡ err (router_error budget_exceeded)))
check_budgets_lem_example = check_budgets_lem 0 payer "t1" settings none "202611" rows

warns :
    check_budgets 0 payer "t1" settings none "202611" rows
    ≡ ok (record { scope = firm; scope_ref = "f1"; limit_cents = 100; spent = 85000000 } ∷ [])
unfolding check_budgets scope_checks evaluate spent_for scope_key Dict.get
warns = refl

spent_for-record_spend_example :
    spent_for firm "f1" "202611" (record_spend payer 650 "202611" rows)
    ≡ spent_for firm "f1" "202611" rows
      + (if is_charged payer "202611" firm "f1" "202611" then 650 else 0)
spent_for-record_spend_example = spent_for-record_spend payer 650 "202611" firm "f1" "202611" rows

abbrev finished : Finished
finished = record {
  request_id = "r1";
  auth = some payer;
  response = some usage;
  model_id = some "m1";
  cache_hit = false;
  failure = none;
  aborted = false;
}

abbrev no_rows : DbLedger
no_rows = record { usage_ledger = []; budgets_state = []; pricing_cache = [] }

abbrev priced_at : String → ℕ → Option PricingRow
priced_at id at = some prices

-- A calendar with months of a hundred ticks, from November on.
abbrev calendar : Calendar
calendar = record {
  utc_full_year = λ t. 2026;
  utc_month = λ t. if ltb t 100 then 10 else 11;
  print = λ n. if ltb n 12 then "11" else if ltb n 100 then "12" else "2026";
}

periods : (current_period calendar 40 ≡ "202611") × (current_period calendar 120 ≡ "202612")
unfolding current_period
periods = (refl, refl)

nothing_owed : IsBalanced calendar no_rows
unfolding spent_for
nothing_owed = record { balance = λ f p. refl }

abbrev written : DbLedger
written = write priced_at (λ c. c) calendar 40 41 5 9 finished no_rows

charged_once :
    (spent_for firm "f1" "202611" written.budgets_state ≡ 650)
    × (spent_for firm "f1" "202611"
          (write priced_at (λ c. c) calendar 43 44 5 12 finished written).budgets_state
        ≡ 650)
unfolding write pricing_for cost_of row_of insert_row has_request Dict.get Dict.put compute_cost
    priced_cost cents_for savings current_period record_spend charge scope_key spent_for
charged_once = (refl, refl)

write-IsBalanced_example :
    IsBalanced calendar (write priced_at (λ c. c) calendar 40 41 5 9 finished no_rows)
unfolding current_period
write-IsBalanced_example =
    write-IsBalanced priced_at (λ c. c) calendar 40 41 5 9 finished no_rows refl nothing_owed

-- At the turn of the month the row counts in one month, and its charge in the next.
turned :
    (cost_of_rows calendar "f1" "202611"
        (write priced_at (λ c. c) calendar 99 100 5 9 finished no_rows).usage_ledger
      ≡ 650)
    × (spent_for firm "f1" "202611"
          (write priced_at (λ c. c) calendar 99 100 5 9 finished no_rows).budgets_state
        ≡ 0)
unfolding write pricing_for cost_of row_of insert_row has_request Dict.get Dict.put compute_cost
    priced_cost cents_for savings current_period record_spend charge scope_key spent_for
turned = (refl, refl)

write-write_example :
    ((write priced_at
        (λ c. c)
        calendar
        120
        121
        7
        8
        (record finished { cache_hit = true })
        written).usage_ledger
      ≡ written.usage_ledger)
    × ((write priced_at
          (λ c. c)
          calendar
          120
          121
          7
          8
          (record finished { cache_hit = true })
          written).budgets_state
        ≡ written.budgets_state)
write-write_example =
    write-write priced_at (λ c. c) calendar payer 40 41 5 9 120 121 7 8 finished
      (record finished { cache_hit = true }) no_rows refl refl
