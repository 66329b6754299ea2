-- ===== src/Metric/Defs.antt =====
-- The classes `MetricProperty` and `Metric`: include/pubsub/metricproperty.h, include/pubsub/metric.h
-- and src/metric.cpp. A property's nested `prop_array_` and the user's callbacks
-- are left out.
use pubsublib.Prelude.{
  ℕ, Bool, true, false, ◌&&◌, ◌||◌, Option, none, some, [], ◌∷◌, ◌++◌, ◌==◌, ltb, leb,
  if◌then◌else◌, is_none,
}
use pubsublib.Prelude.Texts.{Text, codes, text_eq, is_empty}
use pubsublib.StringUtil.{StringUtil}
use pubsublib.StringUtil.Map.{TextMap, find, insert, update, erase}
use pubsublib.Prelude.Int.{ℤ}
use pubsublib.Metric.Numbers.{to_string, to_string_signed}
use pubsublib.Metric.TypeCode.{MetricType, type_code, unknown, string}

pub record MetricProperty : Type 0 where
  pub key : Text
  pub type : MetricType
  pub is_null : Bool
  pub value : Text

-- The default constructor, and the one with a key and a value.
abbrev pub default_property : MetricProperty
default_property = record { key = []; type = string; is_null = false; value = [] }

abbrev pub make_property : Text → Text → MetricProperty
make_property key value = record { key = key; type = string; is_null = false; value = value }

-- MetricMetadata (include/pubsub/metricmetadata.h).
pub record MetricMetadata : Type 0 where
  pub is_multi_part : Bool
  pub content_type : Text
  pub size : ℕ
  pub seq : ℕ
  pub file_name : Text
  pub file_type : Text
  pub md5 : Text
  pub description : Text

abbrev pub empty_metadata : MetricMetadata
empty_metadata = record {
  is_multi_part = false;
  content_type = [];
  size = 0;
  seq = 0;
  file_name = [];
  file_type = [];
  md5 = [];
  description = [];
}

pub record Metric : Type 0 where
  pub name : Text
  pub alias : ℕ
  pub timestamp : ℕ
  pub datatype : MetricType
  pub is_historical : Bool
  pub is_transient : Bool
  pub is_null : Bool
  pub valid : Bool
  pub read_only : Bool
  pub property_list : TextMap MetricProperty
  pub value : Text
  pub updated : Bool
  pub meta_data : Option MetricMetadata

-- The constructor with a name.
abbrev pub make_metric : Text → Metric
make_metric name = record {
  name = name;
  alias = 0;
  timestamp = 0;
  datatype = unknown;
  is_historical = false;
  is_transient = false;
  is_null = false;
  valid = false;
  read_only = false;
  property_list = [];
  value = [];
  updated = false;
  meta_data = none;
}

-- CreateMetaData: an object there is kept.
unfoldable pub create_meta_data : Metric → Metric
create_meta_data m = elim m.meta_data [
  | none ↦ record m { meta_data = some empty_metadata }
  | some _ ↦ m
]

-- The common part of the setters: a changed value marks the metric as updated, and every value
-- makes it valid.
unfoldable pub store_value : Text → Metric → Metric
store_value value m = record m {
  value = value;
  valid = true;
  updated = if text_eq m.value value then m.updated else true;
}

-- `value.find_first_of(' ')` with the two `substr` calls: what stands before and behind the first
-- space.
unfoldable pub split_space : Text → Option (Text × Text)
split_space [] = none
split_space (c ∷ cs) =
    if c == b' '
    then some ([], cs)
    else elim (split_space cs) [ none ↦ none | some (before, after) ↦ some (c ∷ before, after) ]

-- The types Int8 to Double, whose values may carry a unit.
unfoldable pub is_decimal : MetricType → Bool
unfolding type_code
is_decimal t = ltb 0 (type_code t) && leb (type_code t) 10

abbrev pub unit_key : Text
unit_key = codes "unit"

module _ (u : StringUtil) where
  unfoldable pub add_property : MetricProperty → Metric → Metric
  add_property property m = record m {
    property_list = elim (find u property.key m.property_list) [
      | none ↦ insert u property.key property m.property_list
      | some _ ↦ update u property.key (λ _. property) m.property_list
    ];
  }

  -- CreateProperty: the property of that key is there afterwards, an existing one untouched.
  unfoldable pub create_property : Text → Metric → Metric
  create_property key m = record m {
    property_list =
        if is_none (find u key m.property_list)
        then insert u key (record default_property { key = key }) m.property_list
        else m.property_list;
  }

  unfoldable pub get_property : Text → Metric → Option MetricProperty
  get_property key m = find u key m.property_list

  unfoldable pub delete_property : Text → Metric → Metric
  delete_property key m = record m { property_list = erase u key m.property_list }

  -- The setter and the getter Unit.
  unfoldable pub set_unit : Text → Metric → Metric
  set_unit name m = add_property (make_property unit_key name) m

  unfoldable pub unit : Metric → Text
  unit m = elim (find u unit_key m.property_list) [ none ↦ [] | some prop ↦ prop.value ]

  -- Value(std::string): a decimal value may be followed by a space and a unit.
  unfoldable pub value_string : Text → Metric → Metric
  value_string value m =
      if is_decimal m.datatype
      then (elim (split_space value) [
        | none ↦ store_value value m
        | some (before, after) ↦
            store_value before
              (if is_none (find u unit_key m.property_list) then set_unit after m else m)
      ])
      else store_value value m

  -- GetMqttString.
  unfoldable pub get_mqtt_string : Metric → Text
  get_mqtt_string m =
      if m.is_null then [] else if is_empty (unit m) then m.value else m.value ++ b' ' ∷ unit m

-- Value(const char*); `none` is the null pointer.
unfoldable pub value_chars : Option Text → Metric → Metric
value_chars none m =
    if is_empty m.value
    then record m { valid = true }
    else record m { value = []; valid = true; updated = true }
value_chars (some value) m =
    if text_eq m.value value
    then record m { valid = true }
    else record m { value = value; valid = true; updated = true }

-- Value(bool).
unfoldable pub value_bool : Bool → Metric → Metric
value_bool value m = store_value (if value then codes "1" else codes "0") m

-- The getter Value<bool>().
unfoldable pub get_bool : Text → Bool
get_bool [] = false
get_bool (c ∷ _) = c == b'Y' || c == b'y' || c == b'T' || c == b't' || c == b'1'

-- Value(T) for the integer types.
unfoldable pub value_unsigned : ℕ → Metric → Metric
value_unsigned value m = store_value (to_string value) m

unfoldable pub value_signed : ℤ → Metric → Metric
value_signed value m = store_value (to_string_signed value) m

-- Value(float) and Value(double), given the text that FloatToString or DoubleToString of the
-- external library makes: the first comma becomes a full stop.
unfoldable pub replace_comma : Text → Text
replace_comma [] = []
replace_comma (c ∷ cs) = if c == b',' then b'.' ∷ cs else c ∷ replace_comma cs

unfoldable pub value_float : Text → Metric → Metric
value_float printed m = store_value (replace_comma printed) m
