-- ===== src/StringUtil/Ascii.antt =====
-- The interface filled by comparison of the lower-case texts, byte by byte: what the tests run on.
use pubsublib.Prelude.{
  ◌≡◌, refl, Bool, true, false, not, ◌&&◌, ◌||◌, [], ◌∷◌, arith, ltb, leb, ◌==◌, if◌then◌else◌,
}
use pubsublib.Prelude.Texts.{Text, codes, fold_case, text_eq, text_eq_sound, text_eq_refl}
use pubsublib.StringUtil.Interface.{StringUtil}

abbrev text_lt : Text → Text → Bool
text_lt [] [] = false
text_lt [] (b ∷ bs) = true
text_lt (a ∷ as') [] = false
text_lt (a ∷ as') (b ∷ bs) = ltb a b || ((a == b) && text_lt as' bs)

pub text_lt_ties : (s t : Text) → (not (text_lt s t) && not (text_lt t s)) ≡ text_eq s t
unfolding text_eq
text_lt_ties [] [] = refl
text_lt_ties [] (b ∷ bs) = refl
text_lt_ties (a ∷ as') [] = refl
text_lt_ties (a ∷ as') (b ∷ bs) = ground (arith, text_lt_ties as' bs)

pub text_eq-of_eq : (s t : Text) → s ≡ t → text_eq s t ≡ true
text_eq-of_eq s t e = rw e (text_eq_refl t)

-- A text that starts like a number is kept, and any other one reads as 0.
abbrev number_text : Text → Text
number_text [] = codes "0"
number_text (c ∷ cs) = if (leb b'0' c && leb c b'9') || c == b'-' then c ∷ cs else codes "0"

abbrev pub ascii : StringUtil
ascii = record {
  iequals = λ s t. text_eq (fold_case s) (fold_case t);
  iequals_iff =
      λ s t. (text_eq_sound (fold_case s) (fold_case t), text_eq-of_eq (fold_case s) (fold_case t));
  ignore_case = λ s t. text_lt (fold_case s) (fold_case t);
  ignore_case_ties = λ s t. text_lt_ties (fold_case s) (fold_case t);
  float_text = number_text;
  double_text = number_text;
}
