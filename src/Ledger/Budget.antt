-- ===== src/Ledger/Budget.antt =====
-- src/ledger/budget.ts. Limits are cents and amounts spent are millionths of a cent, the precision of
-- the table; the checks take the period, which the source makes by `current_period`. What a task class
-- spent is the answer of a query on the ledger, the parameter `class_spent`.
pub mod Limits
pub mod Checks
pub mod Spending
use Prim.Native.String.{◌++◌ as append}
use vibe_ai_router.Common.{
  ℕ, ◌+◌, ◌*◌, String, Bool, true, false, ◌&&◌, Option, none, some, List, [], ◌∷◌, ◌++◌, leb,
  length, str_eq, ◌or_else◌, if◌then◌else◌,
}
use vibe_ai_router.Common.Texts.{chars}
use vibe_ai_router.Common.Dict
use vibe_ai_router.Common.Dict.{Dict}
use vibe_ai_router.Gateway.Errors.{Result, ok, err, router_error, budget_exceeded}

pub data Scope : Type 0 where
  firm app user task_class : Scope

abbrev pub scope_eq : Scope → Scope → Bool
scope_eq firm firm = true
scope_eq app app = true
scope_eq user user = true
scope_eq task_class task_class = true
scope_eq _ _ = false

pub record BudgetSettings : Type 0 where
  pub firm_monthly_cents : Option ℕ
  pub apps : Dict ℕ
  pub users : Dict ℕ
  pub soft_pct : Option ℕ

pub record BudgetScopeCheck : Type 0 where
  pub scope : Scope
  pub scope_ref : String
  pub limit_cents : ℕ
  pub spent : ℕ

-- A row of `budgets_state`.
pub record BudgetsState : Type 0 where
  pub scope : Scope
  pub scope_ref : String
  pub period : String
  pub spent : ℕ

-- Who a request is charged to. An empty user is none.
pub record Payer : Type 0 where
  pub firm_id : String
  pub app : String
  pub user_id : Option String

-- The platform's calendar: the year and the month of a time, which are counted from 0, and how a number
-- is printed.
pub record Calendar : Type 0 where
  pub utc_full_year : ℕ → ℕ
  pub utc_month : ℕ → ℕ
  pub print : ℕ → String

-- `padStart(2, '0')`
abbrev pub pad_start : String → String
pad_start s = if leb 2 (length (chars s)) then s else append (if str_eq s "" then "00" else "0") s

unfoldable pub current_period : Calendar → ℕ → String
current_period calendar now =
    append (calendar.print (calendar.utc_full_year now))
      (pad_start (calendar.print (calendar.utc_month now + 1)))

-- One cent, in the unit of what is spent.
abbrev pub one_cent : ℕ
one_cent = 1000000

unfoldable pub scope_key : Scope → String → String → String
scope_key firm firm_id ref = firm_id
scope_key _ firm_id ref = append firm_id (append ":" ref)

abbrev pub is_row : Scope → String → String → BudgetsState → Bool
is_row scope scope_ref period row =
    scope_eq row.scope scope && str_eq row.scope_ref scope_ref && str_eq row.period period

unfoldable pub spent_for : Scope → String → String → List BudgetsState → ℕ
spent_for scope scope_ref period [] = 0
spent_for scope scope_ref period (row ∷ rows) =
    let rest = spent_for scope scope_ref period rows in
    if is_row scope scope_ref period row then row.spent else rest

-- A check, where there is a limit.
abbrev pub check_of : Scope → String → ℕ → Option ℕ → List BudgetScopeCheck
check_of scope scope_ref spent none = []
check_of scope scope_ref spent (some limit) =
    record { scope = scope; scope_ref = scope_ref; limit_cents = limit; spent = spent } ∷ []

abbrev pub present : Option String → Option String
present none = none
present (some id) = if str_eq id "" then none else some id

abbrev pub user_checks :
    Option String → Payer → BudgetSettings → String → List BudgetsState → List BudgetScopeCheck
user_checks none payer settings period rows = []
user_checks (some id) payer settings period rows =
    check_of user id (spent_for user (scope_key user payer.firm_id id) period rows)
      (Dict.get id settings.users)

-- The scopes with a limit, in the order in which they are evaluated.
unfoldable pub scope_checks :
    ℕ
    → Payer
    → String
    → BudgetSettings
    → Option ℕ
    → String
    → List BudgetsState
    → List BudgetScopeCheck
scope_checks class_spent payer class_id settings policy_cents period rows =
    check_of firm payer.firm_id (spent_for firm payer.firm_id period rows)
      settings.firm_monthly_cents
    ++ (check_of app payer.app (spent_for app (scope_key app payer.firm_id payer.app) period rows)
          (Dict.get payer.app settings.apps)
        ++ (user_checks (present payer.user_id) payer settings period rows
            ++ check_of task_class class_id class_spent policy_cents))

abbrev pub is_exhausted : BudgetScopeCheck → Bool
is_exhausted c = leb (c.limit_cents * one_cent) c.spent

-- `spentCents >= limitCents * softPct`
abbrev pub is_soft : ℕ → BudgetScopeCheck → Bool
is_soft soft_pct c = leb (c.limit_cents * soft_pct * one_cent) (c.spent * 100)

-- `evaluate` on one check after another; the first exhausted one throws.
unfoldable pub evaluate :
    ℕ → List BudgetScopeCheck → List BudgetScopeCheck → Result (List BudgetScopeCheck)
evaluate soft_pct [] soft_warnings = ok soft_warnings
evaluate soft_pct (c ∷ cs) soft_warnings =
    let rest =
      evaluate soft_pct cs
        (if is_soft soft_pct c then soft_warnings ++ c ∷ [] else soft_warnings) in
    if is_exhausted c then err (router_error budget_exceeded) else rest

unfoldable pub check_budgets :
    ℕ
    → Payer
    → String
    → BudgetSettings
    → Option ℕ
    → String
    → List BudgetsState
    → Result (List BudgetScopeCheck)
check_budgets class_spent payer class_id settings policy_cents period rows =
    evaluate (settings.soft_pct or_else 80)
      (scope_checks class_spent payer class_id settings policy_cents period rows) []

-- The insert with its update on a conflict.
unfoldable pub charge : Scope → String → String → ℕ → List BudgetsState → List BudgetsState
charge scope scope_ref period amount [] =
    record { scope = scope; scope_ref = scope_ref; period = period; spent = amount } ∷ []
charge scope scope_ref period amount (row ∷ rows) =
    let rest = charge scope scope_ref period amount rows in
    if is_row scope scope_ref period row
    then record row { spent = row.spent + amount } ∷ rows
    else row ∷ rest

abbrev charge_user : Option String → String → String → ℕ → List BudgetsState → List BudgetsState
charge_user none firm_id period amount rows = rows
charge_user (some id) firm_id period amount rows =
    charge user (scope_key user firm_id id) period amount rows

unfoldable pub record_spend : Payer → ℕ → String → List BudgetsState → List BudgetsState
record_spend payer cost period rows =
    if leb cost 0
    then rows
    else charge_user (present payer.user_id) payer.firm_id period cost (
        charge app (scope_key app payer.firm_id payer.app) period cost
          (charge firm (scope_key firm payer.firm_id payer.firm_id) period cost rows))
