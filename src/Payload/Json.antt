-- ===== src/Payload/Json.antt =====
-- The JSON text of a STATE message: MakeJsonString and ParseSparkplugJson of src/payload.cpp. The
-- text format itself is boost's: `serialize` and `parse` are parameters between texts and objects.
use pubsublib.Prelude.{
  ℕ, Bool, true, false, Option, none, some, List, [], ◌∷◌, if◌then◌else◌, is_none,
}
use pubsublib.Prelude.Texts.{Text, is_empty}
use pubsublib.Prelude.Int.{ℤ}
use pubsublib.StringUtil.{StringUtil}
use pubsublib.StringUtil.Map.{TextMap}
use pubsublib.Metric.Numbers.{read_unsigned, read_signed}
use pubsublib.Metric.TypeCode.{
  MetricType, int8, int16, int32, int64, uint8, uint16, uint32, uint64, float, double, boolean,
  text, string,
}
use pubsublib.Metric.Defs.{
  Metric, value_bool, value_signed, value_unsigned, value_float, value_string, get_bool,
}
use pubsublib.Payload.Defs.{
  Payload, get_metric, create_metric, update_metric, string_to_body, body_to_string,
}

-- A value of a JSON object. A floating point number is the text that the program prints for it.
pub data JsonValue : Type 0 where
  null : JsonValue
  bool : Bool → JsonValue
  signed : ℤ → JsonValue
  unsigned : ℕ → JsonValue
  real : Text → JsonValue
  str : Text → JsonValue
  nested : JsonValue

module _ (u : StringUtil) where
  -- What `MakeJsonString` puts into the object for a metric; `none` where it puts nothing. A
  -- floating point value is read as a double.
  unfoldable pub json_by_type : MetricType → Metric → Option JsonValue
  json_by_type int8 m = some (signed (read_signed m.value))
  json_by_type int16 m = some (signed (read_signed m.value))
  json_by_type int32 m = some (signed (read_signed m.value))
  json_by_type int64 m = some (signed (read_signed m.value))
  json_by_type uint8 m = some (unsigned (read_unsigned m.value))
  json_by_type uint16 m = some (unsigned (read_unsigned m.value))
  json_by_type uint32 m = some (unsigned (read_unsigned m.value))
  json_by_type uint64 m = some (unsigned (read_unsigned m.value))
  json_by_type float m = some (real (u.double_text m.value))
  json_by_type double m = some (real (u.double_text m.value))
  json_by_type boolean m = some (bool (get_bool m.value))
  json_by_type text m = some (str m.value)
  json_by_type string m = some (str m.value)
  json_by_type _ m = none

  unfoldable pub json_value : Metric → Option JsonValue
  json_value m = if m.is_null then some null else json_by_type m.datatype m

  -- The object that `MakeJsonString` fills, in the order of the metric list.
  unfoldable pub json_object : TextMap Metric → List (Text × JsonValue)
  json_object [] = []
  json_object ((name, m) ∷ ms) =
      if is_empty name
      then json_object ms
      else elim (json_value m) [ none ↦ json_object ms | some v ↦ (name, v) ∷ json_object ms ]

-- The type that a new metric gets from a JSON value.
unfoldable pub json_type : JsonValue → MetricType
json_type (bool _) = boolean
json_type (signed _) = int64
json_type (unsigned _) = uint64
json_type (real _) = double
json_type _ = string

module _ (u : StringUtil) where
  -- The update of a metric from a JSON value.
  unfoldable pub apply_json : JsonValue → Metric → Metric
  apply_json (bool b) m = record (value_bool b m) { is_null = false }
  apply_json (signed n) m = record (value_signed n m) { is_null = false }
  apply_json (unsigned n) m = record (value_unsigned n m) { is_null = false }
  apply_json (real printed) m = record (value_float printed m) { is_null = false }
  apply_json (str s) m = record (value_string u s m) { is_null = false }
  apply_json null m = record m { is_null = true }
  apply_json nested m = record m { datatype = string }

  -- One round of the loop of ParseSparkplugJson.
  unfoldable pub parse_json_entry : Bool → Payload → Text × JsonValue → Payload
  parse_json_entry create_metrics p (key, value) =
      if is_empty key
      then p
      else if is_none (get_metric u key p)
      then (if create_metrics
          then update_metric u key (λ m. apply_json value (record m { datatype = json_type value }))
              (create_metric u key p)
          else p)
      else update_metric u key (apply_json value) p

  unfoldable pub parse_json_entries : Bool → List (Text × JsonValue) → Payload → Payload
  parse_json_entries create_metrics [] p = p
  parse_json_entries create_metrics (e ∷ es) p =
      parse_json_entries create_metrics es (parse_json_entry create_metrics p e)

  -- ParseSparkplugJson, over boost's parser: a text that is no JSON object changes nothing.
  unfoldable pub parse_sparkplug_json :
      (Text → Option (List (Text × JsonValue))) → Bool → Payload → Payload
  parse_sparkplug_json parse create_metrics p = elim (parse (body_to_string p.body)) [
    | none ↦ p
    | some entries ↦ parse_json_entries create_metrics entries p
  ]

-- GenerateJson, over boost's printer.
unfoldable pub generate_json : StringUtil → (List (Text × JsonValue) → Text) → Payload → Payload
generate_json u serialize p = string_to_body (serialize (json_object u p.metric_list)) p
