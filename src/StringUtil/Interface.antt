-- ===== src/StringUtil/Interface.antt =====
-- `IEquals`, `IgnoreCase`, `FloatToString` and `DoubleToString` of util/stringutil.h, which is not part of the repository.
use pubsublib.Prelude.{◌≡◌, refl, sym, ◌∙◌, ◌↔◌, Bool, true, not, ◌&&◌}
use pubsublib.Prelude.Texts.{Text, fold_case}

pub record StringUtil : Type 0 where
  -- IEquals: equal up to the case of ASCII letters.
  pub iequals : Text → Text → Bool
  pub iequals_iff : (s t : Text) → (iequals s t ≡ true) ↔ (fold_case s ≡ fold_case t)
  -- IgnoreCase: the strict order of a map, whose ties are the texts that IEquals identifies.
  pub ignore_case : Text → Text → Bool
  pub ignore_case_ties :
      (s t : Text) → (not (ignore_case s t) && not (ignore_case t s)) ≡ iequals s t
  -- FloatToString and DoubleToString, on the number that a stream reads from a text.
  pub float_text : Text → Text
  pub double_text : Text → Text

module _ (u : StringUtil) where
  pub iequals_refl : (s : Text) → u.iequals s s ≡ true
  iequals_refl s = (u.iequals_iff s s).1 refl

  pub iequals-sym : (s t : Text) → u.iequals s t ≡ true → u.iequals t s ≡ true
  iequals-sym s t h = (u.iequals_iff t s).1 (sym ((u.iequals_iff s t).0 h))

  pub iequals_trans :
      (r s t : Text) → u.iequals r s ≡ true → u.iequals s t ≡ true → u.iequals r t ≡ true
  iequals_trans r s t h k =
      (u.iequals_iff r t).1 ((u.iequals_iff r s).0 h ∙ (u.iequals_iff s t).0 k)
