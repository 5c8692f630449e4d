-- ===== src/Common/Dict.antt =====
-- JavaScript's `Map` with string keys. It iterates in the order of first insertion: `put` of a key
-- that is there keeps its place, and a new key goes last.
use Prim.Native.Nat.{◌+◌, ◌≤◌, ◌<◌}
use Prim.Native.String.{String}
use mathlib.Core.Path.{◌≡◌, refl}
use mathlib.Core.Bool.{true, false}
use mathlib.Core.Option.{Option, none, some}
use mathlib.Core.List.{List, [], ◌∷◌}
use native.Mathlib.Omega.{arith}
use text.Mathlib.Text.{◌==◌}
use text.Mathlib.TextEquality.{eq_iff}
use vibe_ai_router.Common.Tests.{if◌then◌else◌, is_some}
use vibe_ai_router.Common.Lists.{length, All}

abbrev pub Dict {ℓ} : Type ℓ → Type ℓ
Dict V = List (String × V)

module _ {ℓ} {V : Type ℓ} where
  -- `m.get(k)`
  unfoldable pub get : String → Dict V → Option V
  get k [] = none
  get k ((j, v) ∷ m) = let rest = get k m in if j == k then some v else rest

  -- `m.set(k, v)`
  unfoldable pub put : String → V → Dict V → Dict V
  put k v [] = (k, v) ∷ []
  put k v ((j, w) ∷ m) = let rest = put k v m in if j == k then (j, v) ∷ m else (j, w) ∷ rest

  -- `m.delete(k)`
  unfoldable pub remove : String → Dict V → Dict V
  remove k [] = []
  remove k ((j, v) ∷ m) = let rest = remove k m in if j == k then rest else (j, v) ∷ rest

  -- `m.keys().next().value`
  abbrev pub first_key : Dict V → Option String
  first_key [] = none
  first_key ((k, _) ∷ _) = some k

  pub get-put :
      (k j : String) (v : V) (m : Dict V) → get j (put k v m) ≡ (if k == j then some v else get j m)
  unfolding get put
  get-put k j v [] = refl
  get-put k j v ((i, w) ∷ m) = ground (arith, eq_iff k j, eq_iff i k, eq_iff i j, get-put k j v m)

  pub get-remove :
      (k j : String) (m : Dict V) → get j (remove k m) ≡ (if k == j then none else get j m)
  unfolding get remove
  get-remove k j [] = ground arith
  get-remove k j ((i, w) ∷ m) = ground (arith, eq_iff k j, eq_iff i k, eq_iff i j, get-remove k j m)

  pub get-put_self : (k : String) (v : V) (m : Dict V) → get k (put k v m) ≡ some v
  get-put_self k v m = ground (arith, get-put k k v m, eq_iff k k)

  pub get-put_ne :
      (k j : String) (v : V) (m : Dict V) → (k == j) ≡ false → get j (put k v m) ≡ get j m
  get-put_ne k j v m h = ground (arith, get-put k j v m)

  pub length-put-le : (k : String) (v : V) (m : Dict V) → length (put k v m) ≤ length m + 1
  unfolding put
  length-put-le k v [] = omega arith
  length-put-le k v ((j, w) ∷ m) = ground (arith, length-put-le k v m)

  -- Writing to a key that is there keeps the size.
  pub length-put_old :
      (k : String) (v : V) (m : Dict V) → is_some (get k m) ≡ true → length (put k v m) ≡ length m
  unfolding get put
  length-put_old k v [] h = ground arith
  length-put_old k v ((j, w) ∷ m) h = ground (arith, length-put_old k v m)

  pub length-remove-le : (k : String) (m : Dict V) → length (remove k m) ≤ length m
  unfolding remove
  length-remove-le k [] = omega arith
  length-remove-le k ((j, w) ∷ m) = ground (arith, length-remove-le k m)

  -- Removing a key that is there makes room.
  pub length-remove-lt :
      (k : String) (m : Dict V) → is_some (get k m) ≡ true → length (remove k m) < length m
  unfolding get remove
  length-remove-lt k [] h = ground arith
  length-remove-lt k ((j, w) ∷ m) h = ground (arith, length-remove-lt k m, length-remove-le k m)

pub ruleset dict_laws = (get-put, get-remove)

-- A property of every value in the map.
module _ {ℓ κ} {V : Type ℓ} (P : V → Type κ) where
  pub All-put :
      (k : String) (v : V) (m : Dict V) → P v → All (λ e. P e.1) m → All (λ e. P e.1) (put k v m)
  unfolding put
  All-put k v [] p h = (p, tt)
  All-put k v ((j, w) ∷ m) p (pw, h) = ground (arith, All-put k v m p h)

  pub All-remove : (k : String) (m : Dict V) → All (λ e. P e.1) m → All (λ e. P e.1) (remove k m)
  unfolding remove
  All-remove k [] h = h
  All-remove k ((j, w) ∷ m) (pw, h) = ground (arith, All-remove k m h)

  pub All-get : (k : String) (m : Dict V) (v : V) → All (λ e. P e.1) m → get k m ≡ some v → P v
  unfolding get
  All-get k [] v h e = ground arith
  All-get k ((j, w) ∷ m) v (pw, h) e = ground (arith, All-get k m v h)
