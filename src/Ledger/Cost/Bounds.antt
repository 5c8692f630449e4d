-- ===== src/Ledger/Cost/Bounds.antt =====
-- When a cost is known, and what it is.
use vibe_ai_router.Common.{
  ℕ, ◌+◌, ◌*◌, ◌<◌, ◌≡◌, ◌≢◌, refl, ◌⊎◌, inl, inr, true, false, Option, none, some, arith,
  ◌or_else◌,
}
use vibe_ai_router.Ledger.Cost.{
  AiUsage, PricingRow, cents_for, read_rate, write_rate, priced_cost, compute_cost, is_unpriced,
}

-- Tokens that were used at a rate that is known, or none.
abbrev pub IsPriced : ℕ → Option ℕ → Type 0
IsPriced tokens rate = (tokens ≡ 0) ⊎ (rate ≢ none)

clash : (tokens : ℕ) (rate : Option ℕ) → IsPriced tokens rate → 0 < tokens → rate ≡ none → ⊥
clash tokens rate (inl z) h n = omega arith
clash tokens rate (inr k) h n = k n

pub record IsAllPriced (usage : AiUsage) (p : PricingRow) : Type 0 where
  pub input : IsPriced usage.prompt_tokens p.input_per_mtok
  pub output : IsPriced usage.completion_tokens p.output_per_mtok
  pub read : IsPriced usage.cached_read_tokens (read_rate p)
  pub write : IsPriced usage.cache_write_tokens (write_rate p)

abbrev rate_of : Option ℕ → ℕ
rate_of o = o or_else 0

-- The sum over the four kinds of tokens, at their rates.
abbrev pub full_price : AiUsage → PricingRow → ℕ
full_price usage p =
    usage.prompt_tokens * rate_of p.input_per_mtok
    + usage.completion_tokens * rate_of p.output_per_mtok
    + usage.cached_read_tokens * rate_of (read_rate p)
    + usage.cache_write_tokens * rate_of (write_rate p)

unpriced_iff :
    (tokens : ℕ) (rate : Option ℕ)
    → ((is_unpriced tokens (cents_for tokens rate) ≡ false) × IsPriced tokens rate)
      ⊎ ((is_unpriced tokens (cents_for tokens rate) ≡ true) × (0 < tokens) × (rate ≡ none))
unfolding cents_for
unpriced_iff tokens none = ground arith
unpriced_iff tokens (some r) = inl (ground arith, inr (λ e. cc))

cents_for_rate :
    (tokens : ℕ) (rate : Option ℕ) → (cents_for tokens rate or_else 0) ≡ tokens * rate_of rate
unfolding cents_for
cents_for_rate tokens none = omega arith
cents_for_rate tokens (some r) = refl

-- With a price row, the cost is either known, and then every kind of tokens that was used has a rate
-- and the cost is the sum of the tokens at their rates; or it is unknown, and then it is not given
-- and some tokens that were used have no rate. It is never zero for want of a rate.
pub compute_cost_lem :
    (usage : AiUsage) (p : PricingRow)
    → (IsAllPriced usage p
        × ((compute_cost usage (some p)).cost ≡ some (full_price usage p))
        × ((compute_cost usage (some p)).cost_unknown ≡ false))
      ⊎ ((¬ IsAllPriced usage p)
          × ((compute_cost usage (some p)).cost ≡ none)
          × ((compute_cost usage (some p)).cost_unknown ≡ true))
unfolding compute_cost priced_cost
compute_cost_lem usage p =
    let r1 = cents_for_rate usage.prompt_tokens p.input_per_mtok in
    let r2 = cents_for_rate usage.completion_tokens p.output_per_mtok in
    let r3 = cents_for_rate usage.cached_read_tokens (read_rate p) in
    let r4 = cents_for_rate usage.cache_write_tokens (write_rate p) in
    elim (unpriced_iff usage.prompt_tokens p.input_per_mtok) [
      | inr (u, t, n) ↦ rw u (inr (λ a. clash _ _ a.input t n, refl, refl))
      | inl (k1, a1) ↦ elim (unpriced_iff usage.completion_tokens p.output_per_mtok) [
        | inr (u, t, n) ↦ rw (k1, u) (inr (λ a. clash _ _ a.output t n, refl, refl))
        | inl (k2, a2) ↦ elim (unpriced_iff usage.cached_read_tokens (read_rate p)) [
          | inr (u, t, n) ↦ rw (k1, k2, u) (inr (λ a. clash _ _ a.read t n, refl, refl))
          | inl (k3, a3) ↦ elim (unpriced_iff usage.cache_write_tokens (write_rate p)) [
            | inr (u, t, n) ↦ rw (k1, k2, k3, u) (inr (λ a. clash _ _ a.write t n, refl, refl))
            | inl (k4, a4) ↦
                rw (k1, k2, k3, k4, r1, r2, r3, r4)
                  (inl (record { input = a1; output = a2; read = a3; write = a4 }, refl, refl))
          ]
        ]
      ]
    ]
