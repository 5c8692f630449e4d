-- ===== src/Common/Texts.antt =====
-- Texts as lists of characters, and parts of lists by native positions.
use Prim.Native.Nat.{ℕ, zero, suc, ◌+◌, ◌-◌, ◌≤◌, ◌<◌}
use Prim.Native.Char.{Char, code}
use Prim.Native.String.{String, ◌++◌ as append}
use Prim.Native.String.append as append_law
use mathlib.Core.Path.{◌≡◌, refl, ap, sym, ◌∙◌}
use mathlib.Core.Option.{Option, none, some}
use mathlib.Core.List.{List, [], ◌∷◌, map}
use native.Mathlib.Omega.{arith}

abbrev pub chars : String → List Char
chars String.[] = []
chars (String.◌∷◌ c s) = c ∷ chars s

abbrev pub text_of : List Char → String
text_of [] = String.[]
text_of (c ∷ s) = String.◌∷◌ c (text_of s)

pub text_of-chars : (s : String) → text_of (chars s) ≡ s
text_of-chars String.[] = refl
text_of-chars (String.◌∷◌ c s) = ap (String.◌∷◌ c) (text_of-chars s)

-- Texts after one another.
pub empty-append : (s : String) → append String.[] s ≡ s
empty-append s = λ i. append_law.nil s i

append-char : (c : Char) (s t : String) → append (String.◌∷◌ c s) t ≡ String.◌∷◌ c (append s t)
append-char c s t = λ i. append_law.cons c s t i

pub append_empty : (s : String) → append s String.[] ≡ s
append_empty String.[] = empty-append String.[]
append_empty (String.◌∷◌ c s) = append-char c s String.[] ∙ ap (String.◌∷◌ c) (append_empty s)

pub append_assoc : (s t u : String) → append (append s t) u ≡ append s (append t u)
append_assoc String.[] t u = rw (empty-append t) (sym (empty-append (append t u)))
append_assoc (String.◌∷◌ c s) t u =
    ap (λ z. append z u) (append-char c s t)
    ∙ (append-char c (append s t) u
        ∙ (ap (String.◌∷◌ c) (append_assoc s t u) ∙ sym (append-char c s (append t u))))

-- The character codes.
abbrev pub codes_of : List Char → List ℕ
codes_of s = map code s

module _ {ℓ} {A : Type ℓ} where
  abbrev pub get_elem? : List A → ℕ → Option A
  get_elem? [] i = none
  get_elem? (x ∷ xs) zero = some x
  get_elem? (x ∷ xs) (suc i) = get_elem? xs i

  abbrev pub take : ℕ → List A → List A
  take zero xs = []
  take (suc n) [] = []
  take (suc n) (x ∷ xs) = x ∷ take n xs

  abbrev pub drop : ℕ → List A → List A
  drop zero xs = xs
  drop (suc n) [] = []
  drop (suc n) (x ∷ xs) = drop n xs

  -- `s.slice(a, b)`, for `a` at most `b`
  unfoldable pub slice : ℕ → ℕ → List A → List A
  slice a b xs = take (b - a) (drop a xs)

  get-drop : (n i : ℕ) (xs : List A) → get_elem? (drop n xs) i ≡ get_elem? xs (n + i)
  get-drop zero i xs = ap (get_elem? xs) (omega arith)
  get-drop (suc n) i [] = refl
  get-drop (suc n) i (x ∷ xs) = ground (arith, get-drop n i xs)

  get_ext : (xs ys : List A) → ((i : ℕ) → get_elem? xs i ≡ get_elem? ys i) → xs ≡ ys
  get_ext [] [] h = refl
  get_ext [] (y ∷ ys) h = let e = h 0 in absurd (cc)
  get_ext (x ∷ xs) [] h = let e = h 0 in absurd (cc)
  get_ext (x ∷ xs) (y ∷ ys) h = let rest = get_ext xs ys (λ i. h (suc i)) in let e = h 0 in cc

  take_ext :
      (n : ℕ) (xs ys : List A)
      → ((i : ℕ) → i < n → get_elem? xs i ≡ get_elem? ys i)
      → take n xs ≡ take n ys
  take_ext zero xs ys h = refl
  take_ext (suc n) [] [] h = refl
  take_ext (suc n) [] (y ∷ ys) h = let e = h 0 (omega arith) in absurd (cc)
  take_ext (suc n) (x ∷ xs) [] h = let e = h 0 (omega arith) in absurd (cc)
  take_ext (suc n) (x ∷ xs) (y ∷ ys) h =
      let rest = take_ext n xs ys (λ i lt. h (suc i) (omega arith)) in
      let e = h 0 (omega arith) in cc

  -- Two lists that agree from a position on have equal ends, and equal slices from there.
  pub drop_ext :
      (a : ℕ) (xs ys : List A)
      → ((i : ℕ) → a ≤ i → get_elem? xs i ≡ get_elem? ys i)
      → drop a xs ≡ drop a ys
  drop_ext a xs ys h =
      get_ext (drop a xs) (drop a ys)
        (λ i. rw (get-drop a i xs, get-drop a i ys) (h (a + i) (omega arith)))

  pub slice_ext :
      (a b : ℕ) (xs ys : List A)
      → ((i : ℕ) → a ≤ i → i < b → get_elem? xs i ≡ get_elem? ys i)
      → slice a b xs ≡ slice a b ys
  unfolding slice
  slice_ext a b xs ys h =
      take_ext (b - a) (drop a xs) (drop a ys)
        (λ i lt. rw (get-drop a i xs, get-drop a i ys) (h (a + i) (omega arith) (omega arith)))
