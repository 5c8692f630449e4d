-- ===== src/Policy/Select/Rows.antt =====
-- A model that is selected is the row of its identifier.
use vibe_ai_router.Common.{
  String, ◌≡◌, sym, subst, Bool, Option, none, some, List, [], ◌∷◌, arith, find, All, All-append,
  All-filter, str_eq, eq_iff, Option-cases, Bool-cases, inl, inr,
}
use vibe_ai_router.Common.Dict
use vibe_ai_router.Common.Dict.{Dict}
use vibe_ai_router.Db.{ModelRow}
use vibe_ai_router.Gateway.Errors.{ok}
use vibe_ai_router.Gateway.Envelope.{AiRequest}
use vibe_ai_router.Policy.Violation.{EffectivePolicy, required_capabilities}
use vibe_ai_router.Policy.Select.{
  values, is_requested, requested_match, rows_of, configured, ordered, Selection, select_model,
}
use vibe_ai_router.Policy.Select.Soundness.{
  IsKeyed, IsMap, IsResolved, get-IsKeyed, serve_requested_sound,
}

-- The map has this row under its own identifier.
abbrev pub IsRowOf : Dict ModelRow → ModelRow → Type 0
IsRowOf models m = Dict.get m.id models ≡ some m

find-IsRowOf :
    (p : ModelRow → Bool) (models : Dict ModelRow) (row : ModelRow)
    → IsKeyed models
    → IsMap models
    → find p (values models) ≡ some row
    → IsRowOf models row
unfolding values Dict.get
find-IsRowOf p [] row k u e = absurd (cc)
find-IsRowOf p ((key, r) ∷ m) row (here, k) (fresh, u) e = elim (Bool-cases (p r)) [
  | inl hit ↦ let same : r ≡ row = ground arith in ground (arith, eq_iff key row.id)
  | inr miss ↦
      let later : find p (values m) ≡ some row = ground arith in
      let rest = find-IsRowOf p m row k u later in
      elim (Bool-cases (str_eq key row.id)) [
        | inl twice ↦
            let same : key ≡ row.id = (eq_iff key row.id).0 twice in
            let gone : Dict.get row.id m ≡ none = subst (λ z. Dict.get z m ≡ none) same fresh in
            absurd (cc)
        | inr other ↦ rw other rest
      ]
]

rows_of-IsRowOf :
    (models : Dict ModelRow) (ids : List String)
    → IsKeyed models
    → All (IsRowOf models) (rows_of models ids)
unfolding rows_of
rows_of-IsRowOf models [] k = tt
rows_of-IsRowOf models (id ∷ ids) k = elim (Option-cases (Dict.get id models)) [
  | inl gone ↦ rw (gone, rows_of) (rows_of-IsRowOf models ids k)
  | inr (row, found) ↦
      let own : IsRowOf models row =
        subst (λ z. Dict.get z models ≡ some row) (sym (get-IsKeyed models id row k found)) found in
      rw (found, rows_of) (own, rows_of-IsRowOf models ids k)
]

requested_match-IsRowOf :
    (effective : EffectivePolicy) (o : Option String) (m : ModelRow)
    → IsResolved effective
    → requested_match effective o ≡ some m
    → IsRowOf effective.models_by_id m
unfolding requested_match
requested_match-IsRowOf effective none m r e = absurd (cc)
requested_match-IsRowOf effective (some name) m r e =
    find-IsRowOf (is_requested name effective.policy) effective.models_by_id m r.keyed r.map
      (ground arith)

-- Whatever model is selected, the policy's map has it under its identifier; provided that the policy
-- was resolved.
pub select_model-IsRowOf :
    (pattern_test : String → String → Bool) (effective : EffectivePolicy) (env : AiRequest)
    (s : Selection)
    → IsResolved effective
    → select_model pattern_test effective env ≡ ok s
    → IsRowOf effective.models_by_id s.model
unfolding select_model ordered configured
select_model-IsRowOf pattern_test effective env s r e =
    let rows = rows_of-IsRowOf effective.models_by_id _ r.keyed in
    let P = IsRowOf effective.models_by_id in
    (serve_requested_sound pattern_test effective P (required_capabilities effective env)
      (requested_match effective env.model_requested) s e
      (λ m f. requested_match-IsRowOf effective env.model_requested m r f)
      (subst (λ z. Dict.get z effective.models_by_id ≡ some effective.default_model)
        (sym r.default_id) r.default_row)
      (All-append P _ _ (All-filter P _ _ rows) (All-filter P _ _ rows))).1
