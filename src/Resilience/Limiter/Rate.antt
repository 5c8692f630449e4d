-- ===== src/Resilience/Limiter/Rate.antt =====
-- How many requests the bucket lets through, and what the wait that it answers means.
use text.Mathlib.TextPositions.{eq_refl}
use vibe_ai_router.Common.{
  ℕ, ◌+◌, ◌-◌, ◌*◌, ◌/◌, ◌≤◌, ◌<◌, String, ◌≡◌, ◌≢◌, ◌↔◌, refl, ap, true, false, Option, none, some,
  List, [], ◌∷◌, arith, str_eq, eq_iff, Bool-cases, Option-cases, inl, inr,
}
use vibe_ai_router.Common.Int.{ℤ, pos, pos_part, neg_part, sub_ℕ, ◌+ℤ◌, ◌-ℤ◌, ltb_ℤ}
use vibe_ai_router.Common.Dict
use vibe_ai_router.Common.Dict.{get-put}
use vibe_ai_router.Resilience.Limiter.{
  Bucket, RateLimiter, one_token, refill, top_up, refilled, wait_seconds, take, admitted,
}

-- What a key could spend at a time, in 60000ths of a token.
abbrev level : RateLimiter → String → ℕ → ℤ
level l key now = (refilled l key now).tokens

mul_mono : (a b c : ℕ) → a ≤ b → a * c ≤ b * c
mul_mono a b c h = grind arith

top_up_grows :
    (capacity : ℕ) (x : ℤ) (a a' u : ℕ)
    → a ≤ a'
    → pos_part (top_up capacity x (sub_ℕ a' u)) + a ≤ pos_part (top_up capacity x (sub_ℕ a u)) + a'
unfolding top_up ◌+ℤ◌
top_up_grows capacity x a a' u h = ground arith

top_up_full : (capacity a : ℕ) → top_up capacity (pos capacity) (sub_ℕ a a) ≡ pos capacity
unfolding top_up ◌+ℤ◌
top_up_full capacity a = ground arith

-- Time adds at most its refill.
level_grows :
    (l : RateLimiter) (key : String) (t t' : ℕ)
    → t ≤ t'
    → pos_part (level l key t') + t * l.rpm ≤ pos_part (level l key t) + t' * l.rpm
unfolding refilled
level_grows l key t t' h = elim (Option-cases (Dict.get key l.buckets)) [
  | inl new ↦ simp (new, top_up_full) (omega (arith, mul_mono t t' l.rpm h))
  | inr (b, old) ↦
      rw old (top_up_grows _ b.tokens _ _ (b.updated_at * l.rpm) (mul_mono t t' l.rpm h))
]

top_up-le : (capacity : ℕ) (x a : ℤ) → pos_part (top_up capacity x a) ≤ capacity
unfolding top_up
top_up-le capacity x a = ground arith

-- No time has passed, and the balance is within the capacity.
top_up_idle : (capacity a : ℕ) (x : ℤ) → pos_part x ≤ capacity → top_up capacity x (sub_ℕ a a) ≡ x
unfolding top_up ◌+ℤ◌
top_up_idle capacity a x h = ground arith

-- The limiter after `take` has written a bucket.
abbrev written : String → Bucket → RateLimiter → RateLimiter
written key b l = record l { buckets = Dict.put key b l.buckets }

level-written_ne :
    (key j : String) (b : Bucket) (l : RateLimiter) (t : ℕ)
    → str_eq key j ≡ false
    → level (written key b l) j t ≡ level l j t
unfolding refilled
level-written_ne key j b l t h = rw (get-put key j b l.buckets, h)

level-written_self :
    (key : String) (b : Bucket) (l : RateLimiter) (t : ℕ)
    → b.updated_at ≡ t
    → pos_part b.tokens ≤ l.burst * one_token
    → level (written key b l) key t ≡ b.tokens
unfolding refilled
level-written_self key b l t e h =
    rw (get-put key key b l.buckets, eq_refl key, e) (top_up_idle _ (t * l.rpm) b.tokens h)

updated_at-refilled : (l : RateLimiter) (key : String) (t : ℕ) → (refilled l key t).updated_at ≡ t
unfolding refilled
updated_at-refilled l key t = refl

level-le : (l : RateLimiter) (key : String) (t : ℕ) → pos_part (level l key t) ≤ l.burst * one_token
unfolding refilled
level-le l key t = top_up-le _ _ _

abbrev cost : Option ℕ → ℕ
cost none = one_token
cost (some _) = 0

-- A call pays one token if it is admitted, and nothing if it is not.
cost-take :
    (key : String) (t : ℕ) (l : RateLimiter)
    → 0 < l.rpm
    → cost (take key t l).1 + pos_part (level (take key t l).0 key t) ≤ pos_part (level l key t)
unfolding take ◌-ℤ◌
cost-take key t l h =
    let b = refilled l key t in
    let paid = record b { tokens = b.tokens -ℤ pos one_token } in
    ground (
      arith,
      level-le l key t,
      level-written_self key b l t (updated_at-refilled l key t),
      level-written_self key paid l t (updated_at-refilled l key t),
    )

level-take_ne :
    (key j : String) (t t' : ℕ) (l : RateLimiter)
    → str_eq key j ≡ false
    → level (take key t l).0 j t' ≡ level l j t'
unfolding take
level-take_ne key j t t' l h =
    let b = refilled l key t in
    let paid = record b { tokens = b.tokens -ℤ pos one_token } in
    ground (arith, level-written_ne key j b l t', level-written_ne key j paid l t')

rpm-take : (key : String) (t : ℕ) (l : RateLimiter) → (take key t l).0.rpm ≡ l.rpm
unfolding take
rpm-take key t l = ground arith

burst-take : (key : String) (t : ℕ) (l : RateLimiter) → (take key t l).0.burst ≡ l.burst
unfolding take
burst-take key t l = ground arith

-- The times of a run of calls are in order, from one time to another.
abbrev pub IsChrono : ℕ → ℕ → List (String × ℕ) → Type 0
IsChrono from until [] = from ≤ until
IsChrono from until ((_, t) ∷ calls) = (from ≤ t) × IsChrono t until calls

admitted_bound :
    (key : String) (t until : ℕ) (calls : List (String × ℕ)) (l : RateLimiter)
    → 0 < l.rpm
    → IsChrono t until calls
    → admitted key calls l * one_token + t * l.rpm ≤ pos_part (level l key t) + until * l.rpm
unfolding admitted
admitted_bound key t until [] l h c = omega (arith, mul_mono t until l.rpm c)
admitted_bound key t until ((k, now) ∷ calls) l h (le, c) =
    let l' = (take k now l).0 in
    let pays = cost-take k now l h in
    let grows = level_grows l key t now le in
    let rest = admitted_bound key now until calls l' (rw (rpm-take k now l) h) c in
    let rate = ap (λ (r : ℕ). now * r) (rpm-take k now l) in
    let rate' = ap (λ (r : ℕ). until * r) (rpm-take k now l) in
    elim (Bool-cases (str_eq k key)) [
      | inl same ↦
          let here = ap (λ j. pos_part (level l' j now)) ((eq_iff k key).0 same) in
          let before = ap (λ j. pos_part (level l j now)) ((eq_iff k key).0 same) in
          elim (Option-cases (take k now l).1) [
            | inl e ↦ rw (same, e) (omega (arith, rest, rate, rate', here, before, pays, ap cost e))
            | inr (w, e) ↦
                rw (same, e) (omega (arith, rest, rate, rate', here, before, pays, ap cost e))
          ]
      | inr other ↦
          rw other
            (omega (arith, rest, rate, rate', ap pos_part (level-take_ne k key now now l other)))
    ]

le_of_IsChrono : (t until : ℕ) (calls : List (String × ℕ)) → IsChrono t until calls → t ≤ until
le_of_IsChrono t until [] c = c
le_of_IsChrono t until ((k, now) ∷ calls) (le, c) = omega (arith, le_of_IsChrono now until calls c)

-- Of the calls for one key between two times, at most the burst and what that time refills are
-- admitted, whatever the calls for other keys; provided that the calls are in order of time and
-- the limiter is not disabled.
pub admitted-le :
    (key : String) (t until : ℕ) (calls : List (String × ℕ)) (l : RateLimiter)
    → 0 < l.rpm
    → IsChrono t until calls
    → admitted key calls l * one_token ≤ l.burst * one_token + (until - t) * l.rpm
admitted-le key t until calls l h c =
    let span : (until - t) + t ≡ until = omega (arith, le_of_IsChrono t until calls c) in
    omega (
      arith,
      admitted_bound key t until calls l h c,
      level-le l key t,
      ap (λ (n : ℕ). n * l.rpm) span,
    )

ceil_div : (m d : ℕ) → 0 < d → (m ≤ (m + (d - 1)) / d * d) × ((m + (d - 1)) / d * d < m + d)
ceil_div m d h = (grind arith, grind arith)

wait_seconds_exact :
    (rpm : ℕ) (x : ℤ)
    → 0 < rpm
    → ltb_ℤ x (pos one_token) ≡ true
    → (one_token + neg_part x ≤ pos_part x + wait_seconds rpm x * 1000 * rpm)
      × (pos_part x + wait_seconds rpm x * 1000 * rpm < one_token + neg_part x + 1000 * rpm)
unfolding wait_seconds
wait_seconds_exact rpm x h short =
    let missing = one_token + neg_part x - pos_part x in
    let (enough, tight) = ceil_div missing (rpm * 1000) (omega (arith, h)) in
    let below : pos_part x < one_token + neg_part x = ground arith in
    (omega (arith, enough, below), omega (arith, tight, below))

-- When a refused key is admitted next, if it does not call in between.
top_up_due :
    (capacity a b : ℕ) (x : ℤ)
    → one_token ≤ capacity
    → (ltb_ℤ (top_up capacity x (sub_ℕ a b)) (pos one_token) ≡ false)
      ↔ (one_token + neg_part x + b ≤ pos_part x + a)
unfolding top_up ◌+ℤ◌
top_up_due capacity a b x h = ground arith

admits_iff :
    (key : String) (t : ℕ) (l : RateLimiter)
    → 0 < l.rpm
    → ((take key t l).1 ≡ none) ↔ (ltb_ℤ (level l key t) (pos one_token) ≡ false)
unfolding take
admits_iff key t l h = ground arith

refused :
    (key : String) (now s : ℕ) (l : RateLimiter)
    → (take key now l).1 ≡ some s
    → (0 < l.rpm)
      × (ltb_ℤ (level l key now) (pos one_token) ≡ true)
      × (s ≡ wait_seconds l.rpm (level l key now))
      × ((take key now l).0 ≡ written key (refilled l key now) l)
unfolding take
refused key now s l e = ground arith

level-written_at :
    (key : String) (b : Bucket) (l : RateLimiter) (t : ℕ)
    → level (written key b l) key t
      ≡ top_up (l.burst * one_token) b.tokens (refill l.rpm t b.updated_at)
unfolding refilled
level-written_at key b l t = rw (get-put key key b l.buckets, eq_refl key)

due_iff :
    (key : String) (now t : ℕ) (l : RateLimiter)
    → 0 < l.rpm
    → 0 < l.burst
    → ((take key t (written key (refilled l key now) l)).1 ≡ none) ↔ (
        one_token + neg_part (level l key now) + now * l.rpm
        ≤ pos_part (level l key now) + t * l.rpm)
due_iff key now t l h full =
    let b = refilled l key now in
    let at_t : level (written key b l) key t
        ≡ top_up (l.burst * one_token) b.tokens (sub_ℕ (t * l.rpm) (now * l.rpm)) =
      rw (level-written_at key b l t, updated_at-refilled l key now) in
    let due =
      rw (← at_t) at
        (top_up_due (l.burst * one_token) (t * l.rpm) (now * l.rpm) b.tokens (omega arith)) in
    let admits = admits_iff key t (written key b l) h in
    (λ e. due.0 (admits.0 e), λ e. admits.1 (due.1 e))

-- A refused key that waits as long as it was told is admitted; provided that it makes no call in
-- between and the burst holds a token.
pub take_after_wait :
    (key : String) (now t s : ℕ) (l : RateLimiter)
    → 0 < l.burst
    → (take key now l).1 ≡ some s
    → now + s * 1000 ≤ t
    → (take key t (take key now l).0).1 ≡ none
take_after_wait key now t s l full e late =
    let (h, short, waits, same) = refused key now s l e in
    let (enough, tight) = wait_seconds_exact l.rpm (level l key now) h short in
    let told = ap (λ (n : ℕ). n * 1000 * l.rpm) waits in
    rw same (
      (due_iff key now t l h full).1
        (omega (arith, enough, told, mul_mono (now + s * 1000) t l.rpm late)))

-- A refused key that comes back a second or more before the time that it was told is refused
-- again; provided that it makes no call in between and the burst holds a token.
pub take_before_wait :
    (key : String) (now t s : ℕ) (l : RateLimiter)
    → 0 < l.burst
    → (take key now l).1 ≡ some s
    → now ≤ t
    → t + 1000 ≤ now + s * 1000
    → (take key t (take key now l).0).1 ≢ none
take_before_wait key now t s l full e le early =
    let (h, short, waits, same) = refused key now s l e in
    let (enough, tight) = wait_seconds_exact l.rpm (level l key now) h short in
    let told = ap (λ (n : ℕ). n * 1000 * l.rpm) waits in
    rw same (λ admitted_early. omega (
      arith,
      tight,
      told,
      (due_iff key now t l h full).0 admitted_early,
      mul_mono (t + 1000) (now + s * 1000) l.rpm early,
    ))
