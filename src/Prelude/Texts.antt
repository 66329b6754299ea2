-- ===== src/Prelude/Texts.antt =====
-- `std::string` as the list of its bytes. String literals are written by `codes`.
use Prim.Native.Char.{code}
use Prim.Native.String.{String}
use Prim.Native.Nat.{ℕ, ◌+◌}
use mathlib.Core.Path.{◌≡◌, refl}
use mathlib.Core.Bool.{Bool, true, false, ◌&&◌}
use mathlib.Core.List.{List, [], ◌∷◌, map}
use native.Mathlib.Omega.{arith}
use pubsublib.Prelude.Tests.{◌==◌, leb, if◌then◌else◌}

abbrev pub Text : Type 0
Text = List ℕ

abbrev pub codes : String → Text
codes String.[] = []
codes (String.◌∷◌ c s) = code c ∷ codes s

-- `==` of std::string.
unfoldable pub text_eq : Text → Text → Bool
text_eq [] [] = true
text_eq [] (b ∷ bs) = false
text_eq (a ∷ as') [] = false
text_eq (a ∷ as') (b ∷ bs) = (a == b) && text_eq as' bs

pub text_eq_sound : (s t : Text) → text_eq s t ≡ true → s ≡ t
unfolding text_eq
text_eq_sound [] [] h = refl
text_eq_sound [] (b ∷ bs) h = ground arith
text_eq_sound (a ∷ as') [] h = ground arith
text_eq_sound (a ∷ as') (b ∷ bs) h = ground (arith, text_eq_sound as' bs)

pub text_eq_refl : (s : Text) → text_eq s s ≡ true
unfolding text_eq
text_eq_refl [] = refl
text_eq_refl (a ∷ as') = ground (arith, text_eq_refl as')

pub text_eq-sym : (s t : Text) → text_eq s t ≡ text_eq t s
unfolding text_eq
text_eq-sym [] [] = refl
text_eq-sym [] (b ∷ bs) = refl
text_eq-sym (a ∷ as') [] = refl
text_eq-sym (a ∷ as') (b ∷ bs) = ground (arith, text_eq-sym as' bs)

-- std::string::empty.
abbrev pub is_empty : Text → Bool
is_empty [] = true
is_empty (_ ∷ _) = false

-- The ASCII letter in lower case, as case-insensitive comparison sees it.
unfoldable pub lower : ℕ → ℕ
lower c = if leb b'A' c && leb c b'Z' then c + 32 else c

abbrev pub fold_case : Text → Text
fold_case = map lower
