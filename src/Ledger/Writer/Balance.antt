-- ===== src/Ledger/Writer/Balance.antt =====
-- The rows of the ledger against the sums of the budgets.
use vibe_ai_router.Common.{
  ℕ, ◌+◌, ◌≡◌, refl, sym, ap, ◌∙◌, String, true, false, ◌&&◌, Option, none, some, List, [], ◌∷◌,
  ◌++◌, str_eq, ltb, inl, inr, arith, if◌then◌else◌, Bool-cases,
}
use text.Mathlib.TextPositions.{eq_refl}
use vibe_ai_router.Ledger.Cost.{PricingRow}
use vibe_ai_router.Ledger.Budget.{
  firm, BudgetsState, Payer, Calendar, current_period, spent_for, present, record_spend, scope_key,
}
use vibe_ai_router.Ledger.Budget.Spending.{is_charged, is_user, spent_for-record_spend}
use vibe_ai_router.Ledger.Writer.{
  Finished, UsageRow, DbLedger, has_request, amount_of, insert_row, row_of, write_for, write,
}

-- What a firm's rows of a month cost.
abbrev pub cost_of_rows : Calendar → String → String → List UsageRow → ℕ
cost_of_rows calendar firm_id period [] = 0
cost_of_rows calendar firm_id period (row ∷ rows) =
    (if str_eq row.firm_id firm_id && str_eq (current_period calendar row.ts) period
      then amount_of row.cost
      else 0)
    + cost_of_rows calendar firm_id period rows

cost_of_rows-append :
    (calendar : Calendar) (firm_id period : String) (rows : List UsageRow) (row : UsageRow)
    → cost_of_rows calendar firm_id period (rows ++ row ∷ [])
      ≡ cost_of_rows calendar firm_id period rows
        + (if str_eq row.firm_id firm_id && str_eq (current_period calendar row.ts) period
            then amount_of row.cost
            else 0)
cost_of_rows-append calendar firm_id period [] row = omega arith
cost_of_rows-append calendar firm_id period (r ∷ rows) row =
    omega (arith, cost_of_rows-append calendar firm_id period rows row)

has_request-append :
    (id : String) (rows : List UsageRow) (row : UsageRow)
    → str_eq row.request_id id ≡ true
    → has_request id (rows ++ row ∷ []) ≡ true
unfolding has_request
has_request-append id [] row h = ground arith
has_request-append id (r ∷ rows) row h = ground (arith, has_request-append id rows row h)

-- What the budgets say is what the rows say.
pub record IsBalanced (calendar : Calendar) (db : DbLedger) : Type 0 where
  pub balance :
      (firm_id period : String)
      → spent_for firm firm_id period db.budgets_state
        ≡ cost_of_rows calendar firm_id period db.usage_ledger

no_user :
    (o : Option String) (payer : Payer) (period k p : String)
    → is_user o payer period firm k p ≡ false
no_user none payer period k p = refl
no_user (some id) payer period k p = refl

-- The firm's own sum is charged once.
is_charged-firm :
    (payer : Payer) (period firm_id p : String)
    → is_charged payer period firm firm_id p ≡ (str_eq payer.firm_id firm_id && str_eq period p)
unfolding scope_key
is_charged-firm payer period firm_id p =
    let none_left = no_user (present payer.user_id) payer period firm_id p in
    ground (arith, none_left)

charged :
    (payer : Payer) (firm_id' : String) (cost : Option ℕ) (period firm_id p : String)
    (rows : List BudgetsState)
    → firm_id' ≡ payer.firm_id
    → spent_for firm firm_id p
        (if ltb 0 (amount_of cost) then record_spend payer (amount_of cost) period rows else rows)
      ≡ spent_for firm firm_id p rows
        + (if str_eq firm_id' firm_id && str_eq period p then amount_of cost else 0)
charged payer firm_id' cost period firm_id p rows same =
    let added = spent_for-record_spend payer (amount_of cost) period firm firm_id p rows in
    let own = is_charged-firm payer period firm_id p in
    elim (Bool-cases (ltb 0 (amount_of cost))) [
      | inl some_cost ↦ rw (some_cost, added, own, same) refl
      | inr nothing ↦ rw nothing (ground arith)
    ]

module _ (pricing_at : String → ℕ → Option PricingRow) (to_fixed : ℕ → ℕ)
    (calendar : Calendar) where
  insert_row-IsBalanced :
      (payer : Payer) (row : UsageRow) (charged_at : ℕ) (db : DbLedger)
      → row.firm_id ≡ payer.firm_id
      → current_period calendar row.ts ≡ current_period calendar charged_at
      → IsBalanced calendar db
      → IsBalanced calendar (insert_row pricing_at to_fixed calendar payer row charged_at db)
  unfolding insert_row
  insert_row-IsBalanced payer row charged_at db same month h =
      elim (Bool-cases (has_request row.request_id db.usage_ledger)) [
        | inl known ↦ rw known h
        | inr fresh ↦
            rw (fresh, sym month)
              record {
                balance = λ firm_id period.
                    charged payer row.firm_id row.cost (current_period calendar row.ts) firm_id
                      period db.budgets_state same
                    ∙ (ap
                          (λ n.
                            n
                            + (if str_eq row.firm_id firm_id
                                  && str_eq (current_period calendar row.ts) period
                                then amount_of row.cost
                                else 0))
                          (h.balance firm_id period)
                        ∙ sym (cost_of_rows-append calendar firm_id period db.usage_ledger row));
              }
      ]

  write_for-IsBalanced :
      (o : Option Payer) (inserted_at charged_at started_at now : ℕ) (r : Finished) (db : DbLedger)
      → current_period calendar inserted_at ≡ current_period calendar charged_at
      → IsBalanced calendar db
      → IsBalanced calendar
          (write_for pricing_at to_fixed calendar o inserted_at charged_at started_at now r db)
  unfolding write_for row_of
  write_for-IsBalanced none inserted_at charged_at started_at now r db month h = h
  write_for-IsBalanced (some payer) inserted_at charged_at started_at now r db month h =
      insert_row-IsBalanced payer _ charged_at _ refl month record { balance = h.balance }

  -- Every write whose row is stamped in the month in which the charge is made keeps what the budgets
  -- say of every firm and month equal to what the firm's rows of that month cost.
  pub write-IsBalanced :
      (inserted_at charged_at started_at now : ℕ) (r : Finished) (db : DbLedger)
      → current_period calendar inserted_at ≡ current_period calendar charged_at
      → IsBalanced calendar db
      → IsBalanced calendar
          (write pricing_at to_fixed calendar inserted_at charged_at started_at now r db)
  unfolding write
  write-IsBalanced inserted_at charged_at started_at now r db month h =
      write_for-IsBalanced r.auth inserted_at charged_at started_at now r db month h

  insert_row-has_request :
      (payer : Payer) (row : UsageRow) (charged_at : ℕ) (db : DbLedger)
      → has_request row.request_id
          (insert_row pricing_at to_fixed calendar payer row charged_at db).usage_ledger
        ≡ true
  unfolding insert_row
  insert_row-has_request payer row charged_at db =
      elim (Bool-cases (has_request row.request_id db.usage_ledger)) [
        | inl known ↦ rw known known
        | inr fresh ↦
            rw fresh
              (has_request-append row.request_id db.usage_ledger row (eq_refl row.request_id))
      ]

  write_for-known :
      (o : Option Payer) (inserted_at charged_at started_at now : ℕ) (r : Finished) (db : DbLedger)
      → has_request r.request_id db.usage_ledger ≡ true
      → ((write_for pricing_at to_fixed calendar o inserted_at charged_at started_at now r
            db).usage_ledger
          ≡ db.usage_ledger)
        × ((write_for pricing_at to_fixed calendar o inserted_at charged_at started_at now r
              db).budgets_state
            ≡ db.budgets_state)
  unfolding write_for row_of insert_row
  write_for-known none inserted_at charged_at started_at now r db known = (refl, refl)
  write_for-known (some payer) inserted_at charged_at started_at now r db known =
      rw known (refl, refl)

  -- Once a request of a firm has been written, no later write for the same request identifier, at
  -- any time, with any outcome, changes a row or a budget.
  pub write-write :
      (payer : Payer)
      (inserted_at charged_at started_at now inserted_at' charged_at' started_at' now' : ℕ)
      (r r' : Finished) (db : DbLedger)
      → r.auth ≡ some payer
      → r'.request_id ≡ r.request_id
      → let db1 = write pricing_at to_fixed calendar inserted_at charged_at started_at now r db in
        let db2 =
          write pricing_at to_fixed calendar inserted_at' charged_at' started_at' now' r' db1 in
        (db2.usage_ledger ≡ db1.usage_ledger) × (db2.budgets_state ≡ db1.budgets_state)
  unfolding write
  write-write payer inserted_at charged_at started_at now inserted_at' charged_at' started_at' now'
        r r' db paid same =
      write_for-known r'.auth inserted_at' charged_at' started_at' now' r' _
        (rw (same, paid) (unfold write_for row_of in insert_row-has_request payer _ charged_at _))
