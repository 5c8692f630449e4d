-- ===== src/Ledger/Budget/Checks.antt =====
-- What the check of the budgets decides.
use mathlib.Core.List.{append-nil, append_assoc}
use vibe_ai_router.Common.{
  ℕ, ◌*◌, ◌≤◌, ◌<◌, String, ◌≡◌, refl, ◌⊎◌, ◌↔◌, inl, inr, Option, List, [], ◌∷◌, ◌++◌, arith,
  filter, All-filter, Bool-cases, ◌or_else◌,
}
use vibe_ai_router.Gateway.Errors.{ok, err, router_error, budget_exceeded}
use vibe_ai_router.Ledger.Budget.{
  BudgetSettings, BudgetScopeCheck, BudgetsState, Payer, one_cent, scope_checks, is_exhausted,
  is_soft, evaluate, check_budgets,
}
use vibe_ai_router.Ledger.Budget.Limits.{
  In, rank, IsOrdered, IsLimit, scope_checks-In, scope_checks-IsOrdered,
}

-- What was spent is below the limit.
abbrev pub IsUnder : BudgetScopeCheck → Type 0
IsUnder c = c.spent < c.limit_cents * one_cent

-- What was spent has reached so many percent of the limit.
abbrev pub HasReached : ℕ → BudgetScopeCheck → Type 0
HasReached percent c = c.limit_cents * percent * one_cent ≤ c.spent * 100

IsSoft-filter :
    (percent : ℕ) (c : BudgetScopeCheck) (cs : List BudgetScopeCheck)
    → In c (filter (is_soft percent) cs) ↔ In c cs × HasReached percent c
IsSoft-filter percent c [] = (λ h. absurd h, λ h. h.0)
IsSoft-filter percent c (d ∷ ds) =
    let ih = IsSoft-filter percent c ds in
    elim (Bool-cases (is_soft percent d)) [
      | inl soft ↦ rw soft (
        λ h. elim h [ inl e ↦ (inl e, ground arith) | inr l ↦ (inr (ih.0 l).0, (ih.0 l).1) ],
        λ h. elim h.0 [ inl e ↦ inl e | inr l ↦ inr (ih.1 (l, h.1)) ],
      )
      | inr calm ↦ rw calm (
        λ h. (inr (ih.0 h).0, (ih.0 h).1),
        λ h. elim h.0 [ inl e ↦ absurd (ground arith) | inr l ↦ ih.1 (l, h.1) ],
      )
    ]

IsOrdered-filter :
    (percent : ℕ) (cs : List BudgetScopeCheck)
    → IsOrdered cs
    → IsOrdered (filter (is_soft percent) cs)
IsOrdered-filter percent [] h = tt
IsOrdered-filter percent (c ∷ cs) h =
    let kept = All-filter (λ d. rank c.scope < rank d.scope) (is_soft percent) cs h.0 in
    let rest = IsOrdered-filter percent cs h.1 in
    elim (Bool-cases (is_soft percent c)) [
      | inl soft ↦ rw soft (kept, rest)
      | inr calm ↦ rw calm rest
    ]

-- A check in a list that is exhausted.
abbrev Exhausted : List BudgetScopeCheck → Type 0
Exhausted cs = (c : BudgetScopeCheck) × In c cs × (c.limit_cents * one_cent ≤ c.spent)

evaluate_cases :
    (soft_pct : ℕ) (cs ws : List BudgetScopeCheck)
    → (((c : BudgetScopeCheck) → In c cs → IsUnder c)
        × (evaluate soft_pct cs ws ≡ ok (ws ++ filter (is_soft soft_pct) cs)))
      ⊎ (Exhausted cs × (evaluate soft_pct cs ws ≡ err (router_error budget_exceeded)))
unfolding evaluate
evaluate_cases soft_pct [] ws = inl (λ d h. absurd h, rw (append-nil ws) refl)
evaluate_cases soft_pct (c ∷ cs) ws = elim (Bool-cases (is_exhausted c)) [
  | inl out ↦ rw out (inr ((c, inl refl, ground arith), refl))
  | inr left ↦
      let under_all =
        λ (u : (d : BudgetScopeCheck) → In d cs → IsUnder d) (d : BudgetScopeCheck)
            (h : In d (c ∷ cs)).
          elim h as (λ z. IsUnder d) [ inl e ↦ ground arith | inr l ↦ u d l ] in
      elim (Bool-cases (is_soft soft_pct c)) [
        | inl soft ↦ elim (evaluate_cases soft_pct cs (ws ++ c ∷ [])) [
          | inl (under, e) ↦
              rw (left, soft, e)
                (inl (
                  under_all under,
                  rw (append_assoc ws (c ∷ []) (filter (is_soft soft_pct) cs)) refl,
                ))
          | inr ((d, there, over), e) ↦ rw (left, soft, e) (inr ((d, inr there, over), refl))
        ]
        | inr calm ↦ elim (evaluate_cases soft_pct cs ws) [
          | inl (under, e) ↦ rw (left, calm, e) (inl (under_all under, refl))
          | inr ((d, there, over), e) ↦ rw (left, calm, e) (inr ((d, inr there, over), refl))
        ]
      ]
]

module _ (class_spent : ℕ) (payer : Payer) (class_id : String) (settings : BudgetSettings)
    (policy_cents : Option ℕ) (period : String) (rows : List BudgetsState) where
  -- The budget check passes if less was spent than each limit that applies to the request, the
  -- firm's, its application's, its user's and the task class's, and then its warnings are those of
  -- these limits of which the soft share has been spent (80 percent if the firm sets none), one for
  -- each such scope, in this order. If some limit that applies is used up, the check fails with
  -- `budget_exceeded`.
  pub check_budgets_lem :
      let result = check_budgets class_spent payer class_id settings policy_cents period rows in
      (((c : BudgetScopeCheck)
          → IsLimit class_spent payer class_id settings policy_cents period rows c
          → IsUnder c)
        × (warnings : List BudgetScopeCheck) × (result ≡ ok warnings)
        × ((c : BudgetScopeCheck)
            → In c warnings
              ↔ IsLimit class_spent payer class_id settings policy_cents period rows c
                × HasReached (settings.soft_pct or_else 80) c)
        × IsOrdered warnings)
      ⊎ (((c : BudgetScopeCheck) × IsLimit class_spent payer class_id settings policy_cents period
              rows c
            × (c.limit_cents * one_cent ≤ c.spent))
          × (result ≡ err (router_error budget_exceeded)))
  unfolding check_budgets
  check_budgets_lem =
      let percent = settings.soft_pct or_else 80 in
      let from_limits =
        scope_checks-In class_spent payer class_id settings policy_cents period rows in
      let checks = scope_checks class_spent payer class_id settings policy_cents period rows in
      elim (evaluate_cases percent checks []) [
        | inl (under, e) ↦ inl (
          λ c h. under c ((from_limits c).1 h),
          filter (is_soft percent) checks,
          e,
          λ c. (
            λ h.
                let (made, soft) = (IsSoft-filter percent c checks).0 h in
                ((from_limits c).0 made, soft),
            λ h. (IsSoft-filter percent c checks).1 ((from_limits c).1 h.0, h.1),
          ),
          IsOrdered-filter percent checks
              (scope_checks-IsOrdered class_spent payer class_id settings policy_cents period rows),
        )
        | inr ((c, there, over), e) ↦ inr ((c, (from_limits c).0 there, over), e)
      ]
