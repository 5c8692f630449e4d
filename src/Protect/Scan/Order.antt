-- ===== src/Protect/Scan/Order.antt =====
-- The matches of a text come in order and do not overlap.
use vibe_ai_router.Common.{
  ℕ, zero, suc, ◌+◌, ◌-◌, ◌≤◌, ◌<◌, ◌≡◌, ◌⊎◌, inl, inr, Bool, false, List, [], ◌∷◌, ◌++◌, arith,
  leb, ◌==◌, All, All-weaken, Bool-cases, if◌then◌else◌,
}
use vibe_ai_router.Protect.Scan.{
  MatchType, ScrubMatch, Span, match_all, overlaps, of_span, pass, valid_card, cards, with_routing,
  with_ssn, with_account, insert, sort, scan_text,
}
use vibe_ai_router.Protect.Pattern.{is_joined}

-- From a position on, in order, each with a character at least, and none before the last one's end.
abbrev pub IsTidy : ℕ → List ScrubMatch → Type 0
IsTidy lo [] = Unit
IsTidy lo (m ∷ ms) = (lo ≤ m.start) × (m.start < m.end) × IsTidy m.end ms

abbrev TidySpans : ℕ → List Span → Type 0
TidySpans lo [] = Unit
TidySpans lo (s ∷ ss) = (lo ≤ s.start) × (s.start < s.end) × TidySpans s.end ss

TidySpans-weaken : (lo lo' : ℕ) (ss : List Span) → lo' ≤ lo → TidySpans lo ss → TidySpans lo' ss
TidySpans-weaken lo lo' [] h k = tt
TidySpans-weaken lo lo' (s ∷ ss) h (a, b, c) = (omega arith, b, c)

match_all-TidySpans :
    (expr : List ℕ → ℕ) (pos : ℕ) (joined : Bool) (busy : ℕ) (text : List ℕ)
    → TidySpans (pos + busy) (match_all expr pos joined busy text)
unfolding match_all
match_all-TidySpans expr pos joined busy [] = tt
match_all-TidySpans expr pos joined (suc busy) (c ∷ s) =
    TidySpans-weaken (suc pos + busy) (pos + suc busy) _ (omega arith)
      (match_all-TidySpans expr (suc pos) (is_joined c) busy s)
match_all-TidySpans expr pos joined zero (c ∷ s) =
    let n = if joined then 0 else expr (c ∷ s) in
    let rest = match_all expr (suc pos) (is_joined c) (n - 1) s in
    let ih = match_all-TidySpans expr (suc pos) (is_joined c) (n - 1) s in
    elim (Bool-cases (n == 0)) [
      | inl none_here ↦
          rw none_here (TidySpans-weaken (suc pos + (n - 1)) (pos + 0) rest (ground arith) ih)
      | inr here ↦ rw here (
        omega arith,
        ground arith,
        TidySpans-weaken (suc pos + (n - 1)) (pos + n) rest (ground arith) ih,
      )
    ]

-- Two matches have no character in common.
abbrev AreApart : ScrubMatch → ScrubMatch → Type 0
AreApart a b = (a.end ≤ b.start) ⊎ (b.end ≤ a.start)

abbrev IsNonempty : ScrubMatch → Type 0
IsNonempty m = m.start < m.end

abbrev AllApart : List ScrubMatch → Type 0
AllApart [] = Unit
AllApart (m ∷ ms) = IsNonempty m × All (λ k. AreApart m k) ms × AllApart ms

AllApart-push :
    (ms : List ScrubMatch) (m : ScrubMatch)
    → AllApart ms
    → IsNonempty m
    → All (λ k. AreApart k m) ms
    → AllApart (ms ++ m ∷ [])
AllApart-push [] m h n a = (n, tt, tt)
AllApart-push (k ∷ ks) m (nk, ak, h) n (akm, a) = (nk, push ks ak, AllApart-push ks m h n a)
  where
    push : (l : List ScrubMatch) → All (λ x. AreApart k x) l → All (λ x. AreApart k x) (l ++ m ∷ [])
    push [] q = (akm, tt)
    push (x ∷ l) (qx, q) = (qx, push l q)

overlaps-apart :
    (type : MatchType) (s : Span) (ms : List ScrubMatch)
    → overlaps ms s ≡ false
    → All (λ k. AreApart k (of_span type s)) ms
unfolding overlaps
overlaps-apart type s [] h = tt
overlaps-apart type s (m ∷ ms) h = (ground arith, overlaps-apart type s ms (ground arith))

pass-AllApart :
    (type : MatchType) (valid : Span → Bool) (lo : ℕ) (ss : List Span) (ms : List ScrubMatch)
    → TidySpans lo ss
    → AllApart ms
    → AllApart (pass type valid ss ms)
unfolding pass
pass-AllApart type valid lo [] ms t h = h
pass-AllApart type valid lo (s ∷ ss) ms (a, b, t) h = elim (Bool-cases (overlaps ms s)) [
  | inl hit ↦ rw (hit, pass) (pass-AllApart type valid s.end ss ms t h)
  | inr free ↦ elim (Bool-cases (valid s)) [
    | inl good ↦
        rw (free, good, pass)
          (pass-AllApart type valid s.end ss (ms ++ of_span type s ∷ []) t
            (AllApart-push ms (of_span type s) h b (overlaps-apart type s ms free)))
    | inr bad ↦ rw (free, bad, pass) (pass-AllApart type valid s.end ss ms t h)
  ]
]

IsTidy-weaken : (lo lo' : ℕ) (ms : List ScrubMatch) → lo' ≤ lo → IsTidy lo ms → IsTidy lo' ms
IsTidy-weaken lo lo' [] h k = tt
IsTidy-weaken lo lo' (m ∷ ms) h (a, b, c) = (omega arith, b, c)

cards-IsTidy :
    (text : List ℕ) (lo : ℕ) (ss : List Span) → TidySpans lo ss → IsTidy lo (cards text ss)
unfolding cards
cards-IsTidy text lo [] t = tt
cards-IsTidy text lo (s ∷ ss) (a, b, t) =
    let rest = cards-IsTidy text s.end ss t in
    elim (Bool-cases (valid_card text s)) [
      | inl good ↦ rw good (a, b, rest)
      | inr bad ↦ rw bad (IsTidy-weaken s.end lo (cards text ss) (omega arith) rest)
    ]

IsTidy-later : (lo : ℕ) (ms : List ScrubMatch) → IsTidy lo ms → All (λ k. lo ≤ k.start) ms
IsTidy-later lo [] h = tt
IsTidy-later lo (m ∷ ms) (a, b, c) =
    (a, All-weaken _ ms (λ k q. omega arith) (IsTidy-later m.end ms c))

IsTidy-AllApart : (lo : ℕ) (ms : List ScrubMatch) → IsTidy lo ms → AllApart ms
IsTidy-AllApart lo [] h = tt
IsTidy-AllApart lo (m ∷ ms) (a, b, c) =
    (b, All-weaken _ ms (λ k q. inl q) (IsTidy-later m.end ms c), IsTidy-AllApart m.end ms c)

with_account-AllApart : (text : List ℕ) → AllApart (with_account text)
unfolding with_account with_ssn with_routing
with_account-AllApart text =
    let spans = λ (expr : List ℕ → ℕ). match_all-TidySpans expr 0 false 0 text in
    pass-AllApart _ _ 0 _ _ (spans _) (
      pass-AllApart _ _ 0 _ _ (spans _) (
        pass-AllApart _ _ 0 _ _ (spans _) (
          pass-AllApart _ _ 0 _ _ (spans _) (
            pass-AllApart _ _ 0 _ _ (spans _)
              (IsTidy-AllApart 0 _ (cards-IsTidy text 0 _ (spans _)))))))

insert-All {ℓ} :
    (P : ScrubMatch → Type ℓ) (m : ScrubMatch) (ks : List ScrubMatch)
    → P m
    → All P ks
    → All P (insert m ks)
unfolding insert
insert-All P m [] p h = (p, tt)
insert-All P m (k ∷ ks) p (pk, h) = ground (arith, insert-All P m ks p h)

sort-All {ℓ} : (P : ScrubMatch → Type ℓ) (ms : List ScrubMatch) → All P ms → All P (sort ms)
unfolding sort
sort-All P [] h = tt
sort-All P (m ∷ ms) (p, h) = insert-All P m (sort ms) p (sort-All P ms h)

insert-IsTidy :
    (lo : ℕ) (m : ScrubMatch) (ks : List ScrubMatch)
    → IsTidy lo ks
    → lo ≤ m.start
    → IsNonempty m
    → All (λ k. AreApart m k) ks
    → IsTidy lo (insert m ks)
unfolding insert
insert-IsTidy lo m [] t le n h = (le, n, tt)
insert-IsTidy lo m (k ∷ ks) (a, b, c) le n (hk, h) = elim (Bool-cases (leb m.start k.start)) [
  | inl first ↦ rw first (le, n, (ground arith, b, c))
  | inr later ↦ rw later (a, b, insert-IsTidy k.end m ks c (ground arith) n h)
]

sort-IsTidy : (ms : List ScrubMatch) → AllApart ms → IsTidy 0 (sort ms)
unfolding sort
sort-IsTidy [] h = tt
sort-IsTidy (m ∷ ms) (n, a, h) =
    insert-IsTidy 0 m (sort ms) (sort-IsTidy ms h) (omega arith) n
      (sort-All (λ k. AreApart m k) ms a)

-- Whatever the text, its matches come in order, each has a character at least, and no two overlap.
pub scan_text-IsTidy : (text : List ℕ) → IsTidy 0 (scan_text text)
unfolding scan_text
scan_text-IsTidy text = sort-IsTidy (with_account text) (with_account-AllApart text)
