-- ===== src/Protect/Pattern.antt =====
-- src/protect/scrub.ts: the validity tests of the identifiers, and its regular expressions as
-- functions on character codes, each of which gives the length of its match at the head, 0 for none.
use vibe_ai_router.Common.{
  ℕ, zero, suc, ◌+◌, ◌-◌, ◌*◌, ◌%◌, String, Bool, true, false, not, ◌&&◌, ◌||◌, List, [], ◌∷◌, any,
  length, leb, ltb, ◌==◌, map, if◌then◌else◌,
}
use vibe_ai_router.Common.Texts.{take, drop}
use mathlib.Core.List.{reverse}
use vibe_ai_router.Ssrf.{codes, starts_with}

abbrev pub is_digit : ℕ → Bool
is_digit c = leb b'0' c && leb c b'9'

-- `Number` of a text of digits.
abbrev number_from : ℕ → List ℕ → ℕ
number_from n [] = n
number_from n (c ∷ s) = number_from (n * 10 + (c - b'0')) s

abbrev pub number : List ℕ → ℕ
number s = number_from 0 s

-- `validSsnParts`
unfoldable pub valid_ssn_parts : List ℕ → List ℕ → List ℕ → Bool
valid_ssn_parts area group serial =
    not (number area == 0 || number area == 666 || leb 900 (number area))
    && not (number group == 0)
    && not (number serial == 0)

-- `EIN_PREFIXES`, whose members are the two-digit texts of these numbers
abbrev ein_prefixes : List ℕ
ein_prefixes =
    1 ∷ 2 ∷ 3 ∷ 4 ∷ 5 ∷ 6 ∷ 10 ∷ 11 ∷ 12 ∷ 13 ∷ 14 ∷ 15 ∷ 16 ∷ 20 ∷ 21 ∷ 22 ∷ 23 ∷ 24 ∷ 25 ∷ 26 ∷ 27
    ∷ 30 ∷ 31 ∷ 32 ∷ 33 ∷ 34 ∷ 35 ∷ 36 ∷ 37 ∷ 38 ∷ 39 ∷ 40 ∷ 41 ∷ 42 ∷ 43 ∷ 44 ∷ 45 ∷ 46 ∷ 47 ∷ 48
    ∷ 50 ∷ 51 ∷ 52 ∷ 53 ∷ 54 ∷ 55 ∷ 56 ∷ 57 ∷ 58 ∷ 59 ∷ 60 ∷ 61 ∷ 62 ∷ 63 ∷ 64 ∷ 65 ∷ 66 ∷ 67 ∷ 68
    ∷ 71 ∷ 72 ∷ 73 ∷ 74 ∷ 75 ∷ 76 ∷ 77 ∷ 80 ∷ 81 ∷ 82 ∷ 83 ∷ 84 ∷ 85 ∷ 86 ∷ 87 ∷ 88 ∷ 90 ∷ 91 ∷ 92
    ∷ 93 ∷ 94 ∷ 95 ∷ 98 ∷ 99 ∷ []

unfoldable pub valid_ein_prefix : List ℕ → Bool
valid_ein_prefix s = any (λ p. p == number s) ein_prefixes

-- The weighted sum of `abaChecksumValid`; the weights 3, 7, 1 repeat.
abbrev aba_sum : List ℕ → ℕ
aba_sum (a ∷ b ∷ c ∷ s) = 3 * (a - b'0') + 7 * (b - b'0') + (c - b'0') + aba_sum s
aba_sum _ = 0

unfoldable pub aba_checksum_valid : List ℕ → Bool
aba_checksum_valid digits = length digits == 9 && aba_sum digits % 10 == 0 && ltb 0 (aba_sum digits)

unfoldable pub aba_prefix_valid : List ℕ → Bool
aba_prefix_valid digits =
    let p = number (take 2 digits) in
    leb p 12 || (leb 21 p && leb p 32) || (leb 61 p && leb p 72) || p == 80

-- From the last digit to the first, every second one doubled.
abbrev luhn_sum : Bool → List ℕ → ℕ
luhn_sum alt [] = 0
luhn_sum false (c ∷ s) = (c - b'0') + luhn_sum true s
luhn_sum true (c ∷ s) = let n = (c - b'0') * 2 in (if ltb 9 n then n - 9 else n) + luhn_sum false s

unfoldable pub luhn_valid : List ℕ → Bool
luhn_valid digits = luhn_sum false (reverse digits) % 10 == 0

-- On texts of digits only, where `\d` is any of them.
unfoldable pub iin_valid : List ℕ → Bool
iin_valid digits =
    let n = length digits in
    let two = number (take 2 digits) in
    let three = number (take 3 digits) in
    let four = number (take 4 digits) in
    (starts_with digits (codes "4") && (n == 13 || n == 16 || n == 19))
    || (leb 51 two && leb two 55 && n == 16)
    || (n == 16 && leb 2221 four && leb four 2720)
    || ((two == 34 || two == 37) && n == 15)
    || ((four == 6011 || two == 65 || (leb 644 three && leb three 649)) && n == 16)

-- `[\d-]`
abbrev pub is_joined : ℕ → Bool
is_joined c = is_digit c || c == b'-'

-- `(?![\d-])`
abbrev ends : List ℕ → Bool
ends [] = true
ends (c ∷ s) = not (is_joined c)

-- The digits at the head.
abbrev digit_run : List ℕ → ℕ
digit_run [] = 0
digit_run (c ∷ s) = let rest = digit_run s in if is_digit c then suc rest else 0

-- `\d{lo,hi}(?![\d-])`: it must take all digits, since none may follow.
unfoldable pub match_digits : ℕ → ℕ → List ℕ → ℕ
match_digits lo hi s =
    let n = digit_run s in if leb lo n && leb n hi && ends (drop n s) then n else 0

abbrev is_separator : ℕ → Bool
is_separator c = c == b' ' || c == b'-'

-- `(\d{3})([- ])(\d{2})\2(\d{4})(?![\d-])`
abbrev is_dashed_ssn : List ℕ → Bool
is_dashed_ssn (a1 ∷ a2 ∷ a3 ∷ p ∷ g1 ∷ g2 ∷ q ∷ s1 ∷ s2 ∷ s3 ∷ s4 ∷ rest) =
    is_digit a1
    && is_digit a2
    && is_digit a3
    && is_separator p
    && is_digit g1
    && is_digit g2
    && q == p
    && is_digit s1
    && is_digit s2
    && is_digit s3
    && is_digit s4
    && ends rest
is_dashed_ssn _ = false

unfoldable pub match_ssn : List ℕ → ℕ
match_ssn s = if is_dashed_ssn s then 11 else 0

-- `(\d{2})-(\d{7})(?![\d-])`
abbrev is_dashed : List ℕ → Bool
is_dashed (a ∷ b ∷ p ∷ rest) = is_digit a && is_digit b && p == b'-'
is_dashed _ = false

unfoldable pub match_ein : List ℕ → ℕ
match_ein s = if is_dashed s && digit_run (drop 3 s) == 7 && ends (drop 10 s) then 10 else 0

-- `(?:\d[ -]?){groups}\d`, where a separator that stands there is taken.
abbrev add_to : ℕ → ℕ → ℕ
add_to k zero = zero
add_to k (suc n) = k + suc n

abbrev match_groups : ℕ → List ℕ → ℕ
match_groups groups [] = 0
match_groups zero (c ∷ s) = if is_digit c then 1 else 0
match_groups (suc k) (c ∷ []) = 0
match_groups (suc k) (c ∷ d ∷ s) =
    let n = match_groups k (if is_separator d then s else d ∷ s) in
    if is_digit c then add_to (if is_separator d then 2 else 1) n else 0

-- The whole of the card's expression with so many groups.
abbrev card_with : ℕ → List ℕ → ℕ
card_with groups s = let n = match_groups groups s in if ltb 0 n && ends (drop n s) then n else 0

abbrev first_match : List ℕ → List ℕ → ℕ
first_match [] s = 0
first_match (groups ∷ fewer) s =
    let rest = first_match fewer s in
    if ltb 0 (card_with groups s) then card_with groups s else rest

-- `(?:\d[ -]?){12,18}\d(?![\d-])`: as many groups as the rest allows.
unfoldable pub match_card : List ℕ → ℕ
match_card s = first_match (18 ∷ 17 ∷ 16 ∷ 15 ∷ 14 ∷ 13 ∷ 12 ∷ []) s

-- `\s`
abbrev spaces : List ℕ
spaces =
    9 ∷ 10 ∷ 11 ∷ 12 ∷ 13 ∷ 32 ∷ 160 ∷ 5760 ∷ 8192 ∷ 8193 ∷ 8194 ∷ 8195 ∷ 8196 ∷ 8197 ∷ 8198 ∷ 8199
    ∷ 8200 ∷ 8201 ∷ 8202 ∷ 8232 ∷ 8233 ∷ 8239 ∷ 8287 ∷ 12288 ∷ 65279 ∷ []

abbrev pub is_space : ℕ → Bool
is_space c = any (λ b. c == b) spaces

abbrev pub skip_spaces : List ℕ → List ℕ
skip_spaces [] = []
skip_spaces (c ∷ s) = let rest = skip_spaces s in if is_space c then rest else c ∷ s

abbrev lower : ℕ → ℕ
lower c = if leb b'A' c && leb c b'Z' then c + 32 else c

-- A test of an expression somewhere in a text.
abbrev somewhere : (List ℕ → Bool) → List ℕ → Bool
somewhere p [] = p []
somewhere p (c ∷ s) = let rest = somewhere p s in if p (c ∷ s) then true else rest

-- `a\s*b`
abbrev spaced : String → String → List ℕ → Bool
spaced a b s =
    starts_with s (codes a) && starts_with (skip_spaces (drop (length (codes a)) s)) (codes b)

-- `SSN_KEYWORD.test`
unfoldable pub has_ssn_keyword : List ℕ → Bool
has_ssn_keyword s =
    somewhere
      (λ t.
        starts_with t (codes "ssn")
        || spaced "social" "security" t
        || spaced "taxpayer" "id" t
        || starts_with t (codes "itin"))
      (map lower s)

-- `ACCOUNT_KEYWORD.test`; what may follow `account` decides nothing.
unfoldable pub has_account_keyword : List ℕ → Bool
has_account_keyword s =
    somewhere
      (λ t.
        any (λ k. starts_with t (codes k))
          ("acct" ∷ "account" ∷ "iban" ∷ "checking" ∷ "savings" ∷ []))
      (map lower s)
