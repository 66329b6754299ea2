-- ===== src/Prelude/Lists.antt =====
-- Lists measured by native numbers, and predicates over lists by recursion.
use Prim.Native.Nat.{ℕ, suc, ◌+◌}
use mathlib.Core.Path.{◌≡◌, refl}
use mathlib.Core.Option
use mathlib.Core.Bool.{Bool, true, false, ◌&&◌, ◌||◌}
use mathlib.Core.List.{List, [], ◌∷◌, ◌++◌}
use mathlib.Core.Option.{Option, none, some}
use native.Mathlib.Omega.{arith}
use pubsublib.Prelude.Tests.{if◌then◌else◌}

module _ {ℓ} {A : Type ℓ} where
  abbrev pub length : List A → ℕ
  length [] = 0
  length (x ∷ xs) = suc (length xs)

  pub length-append : (xs ys : List A) → length (xs ++ ys) ≡ length xs + length ys
  length-append [] ys = omega arith
  length-append (x ∷ xs) ys = omega (arith, length-append xs ys)

  -- std::any_of.
  abbrev pub any : (A → Bool) → List A → Bool
  any p [] = false
  any p (x ∷ xs) = p x || any p xs

  abbrev pub all : (A → Bool) → List A → Bool
  all p [] = true
  all p (x ∷ xs) = p x && all p xs

  -- std::find_if, with `none` for the end iterator.
  abbrev pub find_if : (A → Bool) → List A → Option A
  find_if p [] = none
  find_if p (x ∷ xs) = if p x then some x else find_if p xs

  -- `erase(find_if(...))`, where the end iterator erases nothing.
  abbrev pub erase_if : (A → Bool) → List A → List A
  erase_if p [] = []
  erase_if p (x ∷ xs) = if p x then xs else x ∷ erase_if p xs

  -- A write through the pointer that `find_if` returns.
  abbrev pub update_if : (A → Bool) → (A → A) → List A → List A
  update_if p f [] = []
  update_if p f (x ∷ xs) = if p x then f x ∷ xs else x ∷ update_if p f xs

  -- What is found after a write through the pointer, if the write keeps the test.
  pub find_if-update_if :
      (p : A → Bool) (f : A → A) (xs : List A)
      → ((x : A) → p (f x) ≡ p x)
      → find_if p (update_if p f xs) ≡ Option.map f (find_if p xs)
  find_if-update_if p f [] keep = refl
  find_if-update_if p f (x ∷ xs) keep = ground (arith, keep x, find_if-update_if p f xs keep)

  pub find_if-append_none :
      (p : A → Bool) (xs : List A) (y : A)
      → find_if p xs ≡ none
      → find_if p (xs ++ y ∷ []) ≡ (if p y then some y else none)
  find_if-append_none p [] y h = refl
  find_if-append_none p (x ∷ xs) y h = ground (arith, find_if-append_none p xs y)

module _ {ℓ κ} {A : Type ℓ} (P : A → Type κ) where
  abbrev pub All : List A → Type κ
  All [] = Unit
  All (x ∷ xs) = P x × All xs

  pub All-append : (xs ys : List A) → All xs → All ys → All (xs ++ ys)
  All-append [] ys h k = k
  All-append (x ∷ xs) ys h k = (h.0, All-append xs ys h.1 k)
