-- ===== src/Protect/Scan.antt =====
-- src/protect/scrub.ts, `scanText`. A position counts characters.
pub mod Order
use vibe_ai_router.Common.{
  ℕ, zero, suc, ◌+◌, ◌-◌, String, Bool, true, false, not, ◌&&◌, ◌||◌, List, [], ◌∷◌, ◌++◌, any,
  filter, leb, ltb, ◌==◌, if◌then◌else◌,
}
use vibe_ai_router.Common.Texts.{slice, take, drop}
use vibe_ai_router.Protect.Pattern.{
  is_joined, match_card, match_digits, match_ssn, match_ein, luhn_valid, iin_valid, is_digit,
  aba_checksum_valid, aba_prefix_valid, valid_ssn_parts, valid_ein_prefix, has_ssn_keyword,
  has_account_keyword,
}

pub data MatchType : Type 0 where
  ssn ein routing account card : MatchType

pub record ScrubMatch : Type 0 where
  pub type : MatchType
  pub start : ℕ
  pub end : ℕ

-- One match of an expression.
pub record Span : Type 0 where
  pub start : ℕ
  pub end : ℕ

-- `text.matchAll` of `(?<![\d-])` and an expression: `busy` characters belong to the last match, and
-- `joined` says whether the character before is a digit or a dash.
unfoldable pub match_all : (List ℕ → ℕ) → ℕ → Bool → ℕ → List ℕ → List Span
match_all expr pos joined busy [] = []
match_all expr pos joined (suc busy) (c ∷ s) = match_all expr (suc pos) (is_joined c) busy s
match_all expr pos joined zero (c ∷ s) =
    let n = if joined then 0 else expr (c ∷ s) in
    let rest = match_all expr (suc pos) (is_joined c) (n - 1) s in
    if n == 0 then rest else record { start = pos; end = pos + n } ∷ rest

abbrev pub matches_of : (List ℕ → ℕ) → List ℕ → List Span
matches_of expr text = match_all expr 0 false 0 text

unfoldable pub overlaps : List ScrubMatch → Span → Bool
overlaps matches s = any (λ (m : ScrubMatch). ltb s.start m.end && ltb m.start s.end) matches

abbrev pub of_span : MatchType → Span → ScrubMatch
of_span type s = record { type = type; start = s.start; end = s.end }

-- One loop of `scanText`: a span that overlaps no match is added, if it is valid.
unfoldable pub pass : MatchType → (Span → Bool) → List Span → List ScrubMatch → List ScrubMatch
pass type valid [] matches = matches
pass type valid (s ∷ ss) matches = pass type valid ss (
    if overlaps matches s
    then matches
    else if valid s
    then matches ++ of_span type s ∷ []
    else matches)

module _ (text : List ℕ) where
  abbrev pub part : Span → List ℕ
  part s = slice s.start s.end text

  abbrev pub before : ℕ → Span → List ℕ
  before n s = slice (s.start - n) s.start text

  unfoldable pub valid_card : Span → Bool
  valid_card s = let digits = filter is_digit (part s) in luhn_valid digits && iin_valid digits

  unfoldable pub valid_routing : Span → Bool
  valid_routing s = aba_checksum_valid (part s) && aba_prefix_valid (part s)

  unfoldable pub valid_dashed_ssn : Span → Bool
  valid_dashed_ssn s =
      valid_ssn_parts (slice 0 3 (part s)) (slice 4 6 (part s)) (slice 7 11 (part s))

  unfoldable pub valid_bare_ssn : Span → Bool
  valid_bare_ssn s =
      has_ssn_keyword (before 40 s)
      && valid_ssn_parts (slice 0 3 (part s)) (slice 3 5 (part s)) (slice 5 9 (part s))

  unfoldable pub valid_ein : Span → Bool
  valid_ein s = valid_ein_prefix (take 2 (part s))

  -- `Math.abs(a - b) <= 120`
  abbrev is_near : ℕ → ℕ → Bool
  is_near a b = leb a (b + 120) && leb b (a + 120)

  abbrev is_routing : ScrubMatch → Bool
  is_routing m = elim m.type [ routing ↦ true | _ ↦ false ]

  -- The matches of the routing loop are the only ones of their type.
  unfoldable pub valid_account : List ScrubMatch → Span → Bool
  valid_account matches s =
      any (λ (m : ScrubMatch). is_near s.start m.end || is_near m.start s.end)
        (filter is_routing matches)
      || has_account_keyword (before 30 s)

  -- The first loop checks no overlap.
  unfoldable pub cards : List Span → List ScrubMatch
  cards [] = []
  cards (s ∷ ss) = let rest = cards ss in if valid_card s then of_span card s ∷ rest else rest

  unfoldable pub with_routing : List ScrubMatch
  with_routing =
      pass routing valid_routing (matches_of (match_digits 9 9) text)
        (cards (matches_of match_card text))

  unfoldable pub with_ssn : List ScrubMatch
  with_ssn =
      pass ssn valid_bare_ssn (matches_of (match_digits 9 9) text)
        (pass ssn valid_dashed_ssn (matches_of match_ssn text) with_routing)

  unfoldable pub with_account : List ScrubMatch
  with_account =
      pass account (valid_account with_routing) (matches_of (match_digits 6 17) text)
        (pass ein valid_ein (matches_of match_ein text) with_ssn)

-- `matches.sort((a, b) => a.start - b.start)`
unfoldable pub insert : ScrubMatch → List ScrubMatch → List ScrubMatch
insert m [] = m ∷ []
insert m (k ∷ ks) = let rest = insert m ks in if leb m.start k.start then m ∷ k ∷ ks else k ∷ rest

unfoldable pub sort : List ScrubMatch → List ScrubMatch
sort [] = []
sort (m ∷ ms) = insert m (sort ms)

unfoldable pub scan_text : List ℕ → List ScrubMatch
scan_text text = sort (with_account text)
