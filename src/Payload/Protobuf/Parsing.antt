-- ===== src/Payload/Protobuf/Parsing.antt =====
-- ParseProtobuf, ParseMetric, ParseMetaData and ParsePropertyValue. `create` is the flag
-- CreateMetrics() and `now` is the clock.
use mathlib.Core.Option.{get_or}
use pubsublib.Prelude.{
  ℕ, Bool, true, false, not, ◌&&◌, Option, none, some, List, [], ◌∷◌, ◌==◌, if◌then◌else◌, is_none,
}
use pubsublib.Prelude.Texts.{Text, is_empty}
use pubsublib.Prelude.Words.{two_31, two_63, to_signed}
use pubsublib.StringUtil.{StringUtil}
use pubsublib.StringUtil.Map.{update}
use pubsublib.Metric.Numbers.{to_string, to_string_signed}
use pubsublib.Metric.TypeCode.{
  MetricType, protobuf_data_type_to_metric_type, unknown, int8, int16, int32, int64, float, double,
}
use pubsublib.Metric.Defs.{
  Metric, MetricMetadata, MetricProperty, empty_metadata, create_meta_data, create_property,
  get_property, value_signed, value_unsigned, value_float, value_bool, value_string,
}
use pubsublib.Payload.Defs.{
  Payload, update_alias, get_metric, update_metric, create_metric, set_timestamp, get_timestamp,
}
use pubsublib.Payload.Protobuf.Messages.{
  PbValue, no_value, int_value, long_value, float_value, double_value, boolean_value, string_value,
  bytes_value, PbPropertyValue, PbMetaData, PbMetric, PbPayload, Protobuf,
}

-- The types whose integers ParseMetric reads as signed.
unfoldable pub is_signed : MetricType → Bool
is_signed int8 = true
is_signed int16 = true
is_signed int32 = true
is_signed int64 = true
is_signed _ = false

-- Those of ParsePropertyValue.
unfoldable pub is_signed_property : MetricType → Bool
is_signed_property float = true
is_signed_property double = true
is_signed_property t = is_signed t

-- ParseMetaData.
unfoldable pub parse_meta_data : PbMetaData → MetricMetadata → MetricMetadata
parse_meta_data pb meta = record {
  is_multi_part = get_or pb.is_multi_part meta.is_multi_part;
  content_type = get_or pb.content_type meta.content_type;
  size = get_or pb.size meta.size;
  seq = get_or pb.seq meta.seq;
  file_name = get_or pb.file_name meta.file_name;
  file_type = get_or pb.file_type meta.file_type;
  md5 = get_or pb.md5 meta.md5;
  description = get_or pb.description meta.description;
}

-- ParsePropertyValue.
unfoldable pub parse_property_text : PbValue → MetricProperty → Text
parse_property_text no_value p = p.value
parse_property_text (int_value n) p =
    if is_signed_property p.type then to_string_signed (to_signed two_31 n) else to_string n
parse_property_text (long_value n) p =
    if is_signed_property p.type then to_string_signed (to_signed two_63 n) else to_string n
parse_property_text (float_value printed) p = printed
parse_property_text (double_value printed) p = printed
parse_property_text (boolean_value b) p = if b then b'1' ∷ [] else b'0' ∷ []
parse_property_text (string_value s) p = s
parse_property_text (bytes_value s) p = p.value

unfoldable pub parse_property_value : PbPropertyValue → MetricProperty → MetricProperty
parse_property_value pb p = record p {
  is_null = get_or pb.is_null false;
  value = parse_property_text pb.value p;
}

module _ (u : StringUtil) where
  -- The chain over the `oneof value` in ParseMetric.
  unfoldable pub parse_value : PbValue → Metric → Metric
  parse_value no_value m = m
  parse_value (int_value n) m =
      if is_signed m.datatype then value_signed (to_signed two_31 n) m else value_unsigned n m
  parse_value (long_value n) m =
      if is_signed m.datatype then value_signed (to_signed two_63 n) m else value_unsigned n m
  parse_value (float_value printed) m = value_float printed m
  parse_value (double_value printed) m = value_float printed m
  parse_value (boolean_value b) m = value_bool b m
  parse_value (string_value s) m = value_string u s m
  parse_value (bytes_value s) m = value_string u s m

  -- One round of the loop over the keys: a new property is made, with its type, if that is allowed.
  unfoldable pub parse_property : Bool → Text → PbPropertyValue → Metric → Metric
  parse_property create key pb m =
      if is_empty key
      then m
      else if is_none (get_property u key m)
      then (if create
          then record (create_property u key m) {
            property_list =
                update u key
                  (λ p. parse_property_value pb (elim pb.type [
                    | none ↦ p
                    | some type ↦ record p { type = protobuf_data_type_to_metric_type type }
                  ]))
                  (create_property u key m).property_list;
          }
          else m)
      else record m { property_list = update u key (parse_property_value pb) m.property_list }

  -- The loop itself; keys without a value are skipped.
  unfoldable pub parse_properties : Bool → List Text → List PbPropertyValue → Metric → Metric
  parse_properties create [] values m = m
  parse_properties create (key ∷ keys) [] m = m
  parse_properties create (key ∷ keys) (value ∷ values) m =
      parse_properties create keys values (parse_property create key value m)

  -- The first part of ParseMetric: the fields in front of the value. `time` is the payload's
  -- Timestamp().
  unfoldable pub parse_head : Bool → ℕ → PbMetric → Metric → Metric
  parse_head create time pb m = record m {
    name = if is_empty m.name && create then get_or pb.name m.name else m.name;
    alias = if (m.alias == 0) && create then get_or pb.alias m.alias else m.alias;
    datatype = elim m.datatype [
      | unknown ↦
          if create
          then (elim pb.datatype [
            | none ↦ unknown
            | some type ↦ protobuf_data_type_to_metric_type type
          ])
          else unknown
      | _ ↦ m.datatype
    ];
    timestamp = get_or pb.timestamp time;
    is_historical = get_or pb.is_historical false;
    is_transient = if is_none pb.is_historical then false else get_or pb.is_transient false;
    is_null = get_or pb.is_null false;
  }

  unfoldable pub parse_metadata : Option PbMetaData → Metric → Metric
  parse_metadata none m = m
  parse_metadata (some pb) m = record m {
    meta_data = some (parse_meta_data pb (get_or (create_meta_data m).meta_data empty_metadata));
  }

  -- ParseMetric.
  unfoldable pub parse_metric : Bool → ℕ → PbMetric → Metric → Metric
  parse_metric create time pb m =
      let r = parse_metadata pb.metadata (parse_value pb.value (parse_head create time pb m)) in
      elim pb.properties [ none ↦ r | some set ↦ parse_properties create set.keys set.values r ]

  -- One round of the loop over the metrics of a message. A metric with a name is looked up by it, and
  -- made if it is missing, named and that is allowed; one without a name is looked up by its alias.
  unfoldable pub parse_pb_metric : Bool → Payload → PbMetric → Payload
  parse_pb_metric create p pb = elim pb.name [
    | some name ↦
        if not (is_none (get_metric u name p))
        then update_metric u name (parse_metric create (get_timestamp u p) pb) p
        else if not (is_empty name) && create
        then update_metric u name
            (λ m. parse_metric create (get_timestamp u p) pb (record m {
              alias = get_or pb.alias m.alias;
              datatype = elim pb.datatype [
                | none ↦ m.datatype
                | some type ↦ protobuf_data_type_to_metric_type type
              ];
            }))
            (create_metric u name p)
        else p
    | none ↦ elim pb.alias [
      | none ↦ p
      | some alias ↦ record p {
        metric_list = update_alias alias (parse_metric create (get_timestamp u p) pb) p.metric_list;
      }
    ]
  ]

  unfoldable pub parse_pb_metrics : Bool → List PbMetric → Payload → Payload
  parse_pb_metrics create [] p = p
  parse_pb_metrics create (pb ∷ pbs) p = parse_pb_metrics create pbs (parse_pb_metric create p pb)

  -- The part of ParseProtobuf behind the parser.
  unfoldable pub read_protobuf : Bool → ℕ → PbPayload → Payload → Payload
  read_protobuf create now pb p =
      let q = set_timestamp u (get_or pb.timestamp now) false p in
      parse_pb_metrics create pb.metrics (record q {
        sequence_number = get_or pb.seq q.sequence_number;
        uuid = get_or pb.uuid q.uuid;
      })

  -- A message whose field `body` is set is cleared, and the parser starts again on that field.
  unfoldable pub unwrap_body : Protobuf → PbPayload → Option PbPayload
  unwrap_body library pb = elim pb.body [
    | none ↦ some pb
    | some bytes ↦ library.parse (library.after_clear bytes)
  ]

  -- Payload::ParseSparkplugProtobuf: ParseProtobuf with the flag set; what cannot be parsed changes
  -- nothing.
  unfoldable pub parse_sparkplug_protobuf : Protobuf → Bool → ℕ → Payload → Payload
  parse_sparkplug_protobuf library create now p = elim p.body [
    | [] ↦ p
    | _ ∷ _ ↦ elim (library.parse p.body) [
      | none ↦ p
      | some pb ↦ elim (unwrap_body library pb) [
        | none ↦ p
        | some message ↦ read_protobuf create now message p
      ]
    ]
  ]
