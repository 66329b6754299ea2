-- ===== src/Metric/Values.antt =====
-- What the setters and the MQTT text of a metric promise.
use pubsublib.Prelude.{
  ◌≡◌, refl, Bool, true, false, not, ◌||◌, none, some, [], ◌∷◌, ◌++◌, arith, ◌==◌, All, Bool-cases,
  inl, inr,
}
use pubsublib.Prelude.Texts.{Text, text_eq, is_empty}
use pubsublib.StringUtil.{StringUtil, iequals_refl}
use pubsublib.StringUtil.Map.{find, find-insert, find-update}
use pubsublib.Metric.Defs.{
  Metric, make_property, unit_key, store_value, split_space, is_decimal, add_property, set_unit,
  unit, value_string, get_mqtt_string, value_bool, get_bool,
}

-- A text without a space.
abbrev pub IsWord : Text → Type 0
IsWord = All (λ c. (c == b' ') ≡ false)

split_space-append :
    (word rest : Text) → IsWord word → split_space (word ++ b' ' ∷ rest) ≡ some (word, rest)
unfolding split_space
split_space-append [] rest h = refl
split_space-append (c ∷ cs) rest h = ground (arith, split_space-append cs rest h.1)

split_space-word : (word : Text) → IsWord word → split_space word ≡ none
unfolding split_space
split_space-word [] h = refl
split_space-word (c ∷ cs) h = ground (arith, split_space-word cs h.1)

module _ (u : StringUtil) where
  -- The unit that is set is the unit that is read, whatever was there before.
  pub unit-set_unit : (name : Text) (m : Metric) → unit u (set_unit u name m) ≡ name
  unfolding unit set_unit add_property
  unit-set_unit name m = ground (
    arith,
    iequals_refl u unit_key,
    find-insert u unit_key unit_key (make_property unit_key name) m.property_list,
    find-update u unit_key unit_key (λ _. make_property unit_key name) m.property_list,
  )

  unit-find : (m n : Metric) → n.property_list ≡ m.property_list → unit u n ≡ unit u m
  unfolding unit
  unit-find m n e = rw e

  unit-none : (m : Metric) → find u unit_key m.property_list ≡ none → unit u m ≡ []
  unfolding unit
  unit-none m e = rw (e, unit)

  -- What the setter makes of the two forms of the text.
  value_string-unit :
      (word name : Text) (n : Metric)
      → IsWord word
      → is_decimal n.datatype ≡ true
      → find u unit_key n.property_list ≡ none
      → value_string u (word ++ b' ' ∷ name) n ≡ store_value word (set_unit u name n)
  unfolding value_string
  value_string-unit word name n h decimal bare = ground (arith, split_space-append word name h)

  value_string-word :
      (word : Text) (n : Metric) → IsWord word → value_string u word n ≡ store_value word n
  unfolding value_string
  value_string-word word n h = ground (arith, split_space-word word h)

  -- The MQTT text of a metric that is not null and whose value has no space, given to a metric of a
  -- decimal type that has no unit yet, carries over the value and the unit.
  pub value_string-get_mqtt_string :
      (m n : Metric)
      → m.is_null ≡ false
      → IsWord m.value
      → is_decimal n.datatype ≡ true
      → find u unit_key n.property_list ≡ none
      → let r = value_string u (get_mqtt_string u m) n in
        (r.value ≡ m.value) × (unit u r ≡ unit u m) × (r.valid ≡ true)
  unfolding get_mqtt_string store_value
  value_string-get_mqtt_string m n live word decimal bare =
      elim (Bool-cases (is_empty (unit u m))) [
        | inl none_given ↦ ground (
          arith,
          value_string-word m.value n word,
          unit-none n bare,
          unit-find n (store_value m.value n) refl,
        )
        | inr given ↦ ground (
          arith,
          value_string-unit m.value (unit u m) n word decimal bare,
          unit-set_unit (unit u m) n,
          unit-find (set_unit u (unit u m) n) (store_value m.value (set_unit u (unit u m) n)) refl,
        )
      ]

-- Storing a value marks the metric as updated exactly when the text changes, and never unmarks it.
pub store_value-updated :
    (value : Text) (m : Metric)
    → ((store_value value m).updated ≡ (m.updated || not (text_eq m.value value)))
unfolding store_value
store_value-updated value m = ground arith

-- Every setter of a Boolean is read back, and leaves the metric valid.
pub get_bool-value_bool :
    (b : Bool) (m : Metric)
    → (get_bool (value_bool b m).value ≡ b) × ((value_bool b m).valid ≡ true)
unfolding get_bool value_bool store_value
get_bool-value_bool true m = (refl, refl)
get_bool-value_bool false m = (refl, refl)
