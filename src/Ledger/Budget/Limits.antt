-- ===== src/Ledger/Budget/Limits.antt =====
-- The limits that apply to a request, and the checks that are made of them: no limit is left out, and
-- the scopes come in order.
use Prim.Native.String.{◌++◌ as append}
use vibe_ai_router.Common.{
  ℕ, ◌<◌, String, ◌≡◌, ◌≢◌, subst, ◌⊎◌, ◌↔◌, inl, inr, Option, none, some, List, [], ◌∷◌, ◌++◌,
  arith, All, Option-cases, eq_iff,
}
use vibe_ai_router.Common.Dict
use vibe_ai_router.Ledger.Budget.{
  Scope, firm, app, user, task_class, BudgetSettings, BudgetScopeCheck, BudgetsState, Payer,
  scope_key, spent_for, check_of, present, user_checks, scope_checks,
}

abbrev pub In : BudgetScopeCheck → List BudgetScopeCheck → Type 0
In c [] = ⊥
In c (d ∷ ds) = (c ≡ d) ⊎ In c ds

-- The order in which the scopes are looked at.
abbrev pub rank : Scope → ℕ
rank firm = 0
rank app = 1
rank user = 2
rank task_class = 3

abbrev pub IsOrdered : List BudgetScopeCheck → Type 0
IsOrdered [] = Unit {0}
IsOrdered (c ∷ cs) = All (λ d. rank c.scope < rank d.scope) cs × IsOrdered cs

In-append-left : (c : BudgetScopeCheck) (xs ys : List BudgetScopeCheck) → In c xs → In c (xs ++ ys)
In-append-left c [] ys h = absurd h
In-append-left c (x ∷ xs) ys (inl e) = inl e
In-append-left c (x ∷ xs) ys (inr h) = inr (In-append-left c xs ys h)

In-append-right : (c : BudgetScopeCheck) (xs ys : List BudgetScopeCheck) → In c ys → In c (xs ++ ys)
In-append-right c [] ys h = h
In-append-right c (x ∷ xs) ys h = inr (In-append-right c xs ys h)

In-append-cases :
    (c : BudgetScopeCheck) (xs ys : List BudgetScopeCheck) → In c (xs ++ ys) → In c xs ⊎ In c ys
In-append-cases c [] ys h = inr h
In-append-cases c (x ∷ xs) ys (inl e) = inl (inl e)
In-append-cases c (x ∷ xs) ys (inr h) = elim (In-append-cases c xs ys h) [
  | inl l ↦ inl (inr l)
  | inr r ↦ inr r
]

-- The checks of one scope, where there is a limit.
abbrev IsCheckOf : Scope → String → ℕ → Option ℕ → BudgetScopeCheck → Type 0
IsCheckOf scope scope_ref spent limit c =
    (c.scope ≡ scope) × (c.scope_ref ≡ scope_ref) × (c.spent ≡ spent) × (limit ≡ some c.limit_cents)

In-check_of :
    (scope : Scope) (scope_ref : String) (spent : ℕ) (limit : Option ℕ) (c : BudgetScopeCheck)
    → In c (check_of scope scope_ref spent limit) ↔ IsCheckOf scope scope_ref spent limit c
In-check_of scope scope_ref spent none c = (λ h. absurd h, λ h. absurd (cc))
In-check_of scope scope_ref spent (some limit) c = (
  λ h. elim h [
    | inl e ↦ (ground arith, ground arith, ground arith, ground arith)
    | inr f ↦ absurd f
  ],
  λ h. inl (ground arith),
)

-- Every check is of a later scope.
abbrev IsAbove : ℕ → List BudgetScopeCheck → Type 0
IsAbove k cs = All (λ d. k < rank d.scope) cs

check_of-IsAbove :
    (k : ℕ) (scope : Scope) (scope_ref : String) (spent : ℕ) (limit : Option ℕ)
    (cs : List BudgetScopeCheck)
    → k < rank scope
    → IsAbove k cs
    → IsAbove k (check_of scope scope_ref spent limit ++ cs)
check_of-IsAbove k scope scope_ref spent none cs less h = h
check_of-IsAbove k scope scope_ref spent (some limit) cs less h = (less, h)

check_of-IsOrdered :
    (scope : Scope) (scope_ref : String) (spent : ℕ) (limit : Option ℕ) (cs : List BudgetScopeCheck)
    → IsAbove (rank scope) cs
    → IsOrdered cs
    → IsOrdered (check_of scope scope_ref spent limit ++ cs)
check_of-IsOrdered scope scope_ref spent none cs above h = h
check_of-IsOrdered scope scope_ref spent (some limit) cs above h = (above, h)

class-IsAbove :
    (k : ℕ) (scope_ref : String) (spent : ℕ) (limit : Option ℕ)
    → k < 3
    → IsAbove k (check_of task_class scope_ref spent limit)
class-IsAbove k scope_ref spent none less = tt
class-IsAbove k scope_ref spent (some limit) less = (less, tt)

class-IsOrdered :
    (scope_ref : String) (spent : ℕ) (limit : Option ℕ)
    → IsOrdered (check_of task_class scope_ref spent limit)
class-IsOrdered scope_ref spent none = tt
class-IsOrdered scope_ref spent (some limit) = (tt, tt)

parts-IsOrdered :
    (r1 r2 r3 r4 : String) (s1 s2 s3 s4 : ℕ) (o1 o2 o3 o4 : Option ℕ)
    → IsOrdered (
        check_of firm r1 s1 o1
        ++ (check_of app r2 s2 o2 ++ (check_of user r3 s3 o3 ++ check_of task_class r4 s4 o4)))
parts-IsOrdered r1 r2 r3 r4 s1 s2 s3 s4 o1 o2 o3 o4 =
    let of_class = check_of task_class r4 s4 o4 in
    let of_user = check_of user r3 s3 o3 ++ of_class in
    let above_user = λ (k : ℕ) (h : k < 2).
      check_of-IsAbove k user r3 s3 o3 of_class h (class-IsAbove k r4 s4 o4 (omega arith)) in
    check_of-IsOrdered firm r1 s1 o1 (check_of app r2 s2 o2 ++ of_user)
      (check_of-IsAbove 0 app r2 s2 o2 of_user (omega arith) (above_user 0 (omega arith)))
      (check_of-IsOrdered app r2 s2 o2 of_user (above_user 1 (omega arith)) (
        check_of-IsOrdered user r3 s3 o3 of_class (class-IsAbove 2 r4 s4 o4 (omega arith))
          (class-IsOrdered r4 s4 o4)))

module _ (class_spent : ℕ) (payer : Payer) (class_id : String) (settings : BudgetSettings)
    (policy_cents : Option ℕ) (period : String) (rows : List BudgetsState) where
  -- A limit that applies to the request, with what was spent against it in the period: the firm's,
  -- the application's at the firm, the user's at the firm if the request has one, and the task
  -- class's.
  abbrev pub IsLimit : BudgetScopeCheck → Type 0
  IsLimit c =
      IsCheckOf firm payer.firm_id (spent_for firm payer.firm_id period rows)
        settings.firm_monthly_cents c
      ⊎ (IsCheckOf app payer.app
            (spent_for app (append payer.firm_id (append ":" payer.app)) period rows)
            (Dict.get payer.app settings.apps) c
          ⊎ ((((id : String) × (payer.user_id ≡ some id)
                × (id ≢ "")
                × IsCheckOf user id
                    (spent_for user (append payer.firm_id (append ":" id)) period rows)
                    (Dict.get id settings.users) c))
              ⊎ IsCheckOf task_class class_id class_spent policy_cents c))

  present-eq-some :
      (o : Option String) (id : String) → (present o ≡ some id) ↔ (o ≡ some id) × (id ≢ "")
  present-eq-some none id = (λ h. absurd (cc), λ h. absurd (cc))
  present-eq-some (some j) id = (
    λ h. (ground (arith, eq_iff j ""), λ e. ground (arith, eq_iff j "")),
    λ h. ground (arith, eq_iff j "", h.1),
  )

  user_checks-In :
      (c : BudgetScopeCheck)
      → In c (user_checks (present payer.user_id) payer settings period rows) ↔ (
          (id : String) × (payer.user_id ≡ some id)
          × (id ≢ "")
          × IsCheckOf user id
              (spent_for user (append payer.firm_id (append ":" id)) period rows)
              (Dict.get id settings.users)
              c)
  unfolding scope_key
  user_checks-In c = elim (Option-cases (present payer.user_id)) [
    | inl missing ↦ rw missing (
      λ h. absurd h,
      λ h.
          let (id, own, named, _) = h in
          let there = (present-eq-some payer.user_id id).1 (own, named) in
          absurd (cc (missing, there)),
    )
    | inr (id, there) ↦ rw there (
      λ h.
          let (own, named) = (present-eq-some payer.user_id id).0 there in
          (id, own, named, (In-check_of user id _ _ c).0 h),
      λ h.
          let (j, own, named, check) = h in
          let same : j ≡ id =
            ground (arith, (present-eq-some payer.user_id j).1 (own, named), there) in
          (In-check_of user id _ _ c).1 (
            subst
              (λ k.
                IsCheckOf user k (spent_for user (append payer.firm_id (append ":" k)) period rows)
                  (Dict.get k settings.users) c)
              same check),
    )
  ]

  -- The checks that are made are the limits that apply.
  pub scope_checks-In :
      (c : BudgetScopeCheck)
      → In c (scope_checks class_spent payer class_id settings policy_cents period rows) ↔ IsLimit c
  unfolding scope_checks scope_key
  scope_checks-In c =
      let class_part = check_of task_class class_id class_spent policy_cents in
      let user_part = user_checks (present payer.user_id) payer settings period rows in
      let app_part =
        check_of app payer.app
          (spent_for app (append payer.firm_id (append ":" payer.app)) period rows)
          (Dict.get payer.app settings.apps) in
      let firm_part =
        check_of firm payer.firm_id (spent_for firm payer.firm_id period rows)
          settings.firm_monthly_cents in
      (
        λ h. elim (In-append-cases c firm_part (app_part ++ (user_part ++ class_part)) h) [
          | inl f ↦ inl ((In-check_of firm _ _ _ c).0 f)
          | inr g ↦ elim (In-append-cases c app_part (user_part ++ class_part) g) [
            | inl a ↦ inr (inl ((In-check_of app _ _ _ c).0 a))
            | inr k ↦ elim (In-append-cases c user_part class_part k) [
              | inl u ↦ inr (inr (inl ((user_checks-In c).0 u)))
              | inr t ↦ inr (inr (inr ((In-check_of task_class _ _ _ c).0 t)))
            ]
          ]
        ],
        λ h. elim h [
          | inl f ↦ In-append-left c firm_part _ ((In-check_of firm _ _ _ c).1 f)
          | inr g ↦ In-append-right c firm_part _ (elim g [
            | inl a ↦ In-append-left c app_part _ ((In-check_of app _ _ _ c).1 a)
            | inr k ↦ In-append-right c app_part _ (elim k [
              | inl u ↦ In-append-left c user_part _ ((user_checks-In c).1 u)
              | inr t ↦ In-append-right c user_part _ ((In-check_of task_class _ _ _ c).1 t)
            ])
          ])
        ],
      )

  pub scope_checks-IsOrdered :
      IsOrdered (scope_checks class_spent payer class_id settings policy_cents period rows)
  unfolding scope_checks
  scope_checks-IsOrdered =
      let firm_spent = spent_for firm payer.firm_id period rows in
      let app_spent = spent_for app (scope_key app payer.firm_id payer.app) period rows in
      let app_limit = Dict.get payer.app settings.apps in
      elim (Option-cases (present payer.user_id)) [
        | inl missing ↦ rw missing (
            parts-IsOrdered payer.firm_id payer.app "" class_id firm_spent app_spent 0 class_spent
              settings.firm_monthly_cents app_limit none policy_cents)
        | inr (id, there) ↦ rw there (
            parts-IsOrdered payer.firm_id payer.app id class_id firm_spent app_spent
              (spent_for user (scope_key user payer.firm_id id) period rows) class_spent
              settings.firm_monthly_cents app_limit (Dict.get id settings.users) policy_cents)
      ]
