-- ===== src/Ledger/Budget/Spending.antt =====
-- What a charge adds to the scopes' sums.
use vibe_ai_router.Common.{
  ℕ, ◌+◌, String, ◌≡◌, refl, Bool, true, false, ◌&&◌, ◌||◌, Option, none, some, List, [], ◌∷◌,
  arith, str_eq, eq_iff, leb, Bool-cases, inl, inr, if◌then◌else◌,
}
use vibe_ai_router.Ledger.Budget.{
  Scope, firm, app, user, task_class, scope_eq, BudgetsState, Payer, scope_key, spent_for, present,
  charge, charge_user, record_spend,
}

scope_eq-eq : (a b : Scope) → scope_eq a b ≡ true → a ≡ b
scope_eq-eq firm firm h = refl
scope_eq-eq app app h = refl
scope_eq-eq user user h = refl
scope_eq-eq task_class task_class h = refl
scope_eq-eq firm app h = cc
scope_eq-eq firm user h = cc
scope_eq-eq firm task_class h = cc
scope_eq-eq app firm h = cc
scope_eq-eq app user h = cc
scope_eq-eq app task_class h = cc
scope_eq-eq user firm h = cc
scope_eq-eq user app h = cc
scope_eq-eq user task_class h = cc
scope_eq-eq task_class firm h = cc
scope_eq-eq task_class app h = cc
scope_eq-eq task_class user h = cc

abbrev same_key : Scope → String → String → Scope → String → String → Bool
same_key s k p s' k' p' = scope_eq s s' && str_eq k k' && str_eq p p'

-- A charge adds its amount to the sum of its own key, and to no other.
spent_for-charge :
    (s s' : Scope) (k k' p p' : String) (amount : ℕ) (rows : List BudgetsState)
    → spent_for s' k' p' (charge s k p amount rows)
      ≡ spent_for s' k' p' rows + (if same_key s k p s' k' p' then amount else 0)
unfolding spent_for charge
spent_for-charge s s' k k' p p' amount [] = ground arith
spent_for-charge s s' k k' p p' amount (row ∷ rows) = ground (
  arith,
  spent_for-charge s s' k k' p p' amount rows,
  scope_eq-eq row.scope s,
  scope_eq-eq row.scope s',
  scope_eq-eq s s',
  eq_iff row.scope_ref k,
  eq_iff row.scope_ref k',
  eq_iff k k',
  eq_iff row.period p,
  eq_iff row.period p',
  eq_iff p p',
)

abbrev pub is_user : Option String → Payer → String → Scope → String → String → Bool
is_user none payer period s k p = false
is_user (some id) payer period s k p = same_key user (scope_key user payer.firm_id id) period s k p

-- The sums that a request of the payer is charged to.
abbrev pub is_charged : Payer → String → Scope → String → String → Bool
is_charged payer period s k p =
    same_key firm (scope_key firm payer.firm_id payer.firm_id) period s k p
    || same_key app (scope_key app payer.firm_id payer.app) period s k p
    || is_user (present payer.user_id) payer period s k p

charge_user-adds :
    (o : Option String) (payer : Payer) (cost : ℕ) (period : String) (s : Scope) (k p : String)
    (rows : List BudgetsState)
    → spent_for s k p (charge_user o payer.firm_id period cost rows)
      ≡ spent_for s k p rows + (if is_user o payer period s k p then cost else 0)
charge_user-adds none payer cost period s k p rows = omega arith
charge_user-adds (some id) payer cost period s k p rows =
    spent_for-charge user s (scope_key user payer.firm_id id) k period p cost rows

add_once :
    (s : Scope) (o : Option String) (payer : Payer) (period k p : String) (cost : ℕ)
    → (if same_key firm (scope_key firm payer.firm_id payer.firm_id) period s k p then cost else 0)
        + (if same_key app (scope_key app payer.firm_id payer.app) period s k p then cost else 0)
        + (if is_user o payer period s k p then cost else 0)
      ≡ (if same_key firm (scope_key firm payer.firm_id payer.firm_id) period s k p
            || same_key app (scope_key app payer.firm_id payer.app) period s k p
            || is_user o payer period s k p
          then cost
          else 0)
add_once firm none payer period k p cost = ground arith
add_once firm (some id) payer period k p cost = ground arith
add_once app none payer period k p cost = ground arith
add_once app (some id) payer period k p cost = ground arith
add_once user none payer period k p cost = ground arith
add_once user (some id) payer period k p cost = ground arith
add_once task_class none payer period k p cost = ground arith
add_once task_class (some id) payer period k p cost = ground arith

-- Recording what a request cost adds it once to the sums of its firm, of its application at that
-- firm and, if it has one, of its user at that firm, for that period, and changes no other sum.
pub spent_for-record_spend :
    (payer : Payer) (cost : ℕ) (period : String) (s : Scope) (k p : String)
    (rows : List BudgetsState)
    → spent_for s k p (record_spend payer cost period rows)
      ≡ spent_for s k p rows + (if is_charged payer period s k p then cost else 0)
unfolding record_spend
spent_for-record_spend payer cost period s k p rows =
    let firm_key = scope_key firm payer.firm_id payer.firm_id in
    let app_key = scope_key app payer.firm_id payer.app in
    let rows1 = charge firm firm_key period cost rows in
    let rows2 = charge app app_key period cost rows1 in
    elim (Bool-cases (leb cost 0)) [
      | inl nothing ↦ rw nothing (ground arith)
      | inr some_cost ↦
          rw
            (
              some_cost,
              charge_user-adds (present payer.user_id) payer cost period s k p rows2,
              spent_for-charge app s app_key k period p cost rows1,
              spent_for-charge firm s firm_key k period p cost rows,
            )
            (omega (arith, add_once s (present payer.user_id) payer period k p cost))
    ]
