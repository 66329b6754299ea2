-- ===== src/Payload/Protobuf/Writing.antt =====
-- WriteProtobuf, WriteMetric and WritePropertySet. `write_all` is the flag WriteAllMetrics().
use pubsublib.Prelude.{Bool, true, false, ◌||◌, none, some, List, [], ◌∷◌, ◌==◌, if◌then◌else◌}
use pubsublib.Prelude.Texts.{Text, is_empty}
use pubsublib.Prelude.Words.{two_32, two_64, to_unsigned}
use pubsublib.StringUtil.{StringUtil}
use pubsublib.StringUtil.Map.{TextMap}
use pubsublib.Metric.Numbers.{read_int32, read_uint32, read_signed, read_unsigned}
use pubsublib.Metric.TypeCode.{
  MetricType, type_code, int8, int16, int32, int64, uint8, uint16, uint32, uint64, float, double,
  boolean, date_time,
}
use pubsublib.Metric.Defs.{Metric, MetricProperty, get_bool}
use pubsublib.Payload.Defs.{Payload, get_timestamp}
use pubsublib.Payload.Protobuf.Messages.{
  PbValue, int_value, long_value, float_value, double_value, boolean_value, string_value,
  PbPropertyValue, PbPropertySet, PbMetric, PbPayload, Protobuf,
}

module _ (u : StringUtil) where
  -- The switch of WriteMetric. A floating point value is read as a number, which stands in the message as
  -- the text that is printed for it.
  unfoldable pub write_value : MetricType → Text → PbValue
  write_value int8 v = int_value (to_unsigned two_32 (read_int32 v))
  write_value int16 v = int_value (to_unsigned two_32 (read_int32 v))
  write_value int32 v = int_value (to_unsigned two_32 (read_int32 v))
  write_value int64 v = long_value (to_unsigned two_64 (read_signed v))
  write_value uint8 v = int_value (read_uint32 v)
  write_value uint16 v = int_value (read_uint32 v)
  write_value uint32 v = int_value (read_uint32 v)
  write_value uint64 v = long_value (read_unsigned v)
  write_value float v = float_value (u.float_text v)
  write_value double v = double_value (u.double_text v)
  write_value boolean v = boolean_value (get_bool v)
  write_value _ v = string_value v

  -- The switch of WritePropertySet has one more case.
  unfoldable pub write_property_value : MetricType → Text → PbValue
  write_property_value date_time v = long_value (read_unsigned v)
  write_property_value t v = write_value t v

  unfoldable pub write_property : Bool → MetricProperty → PbPropertyValue
  write_property write_all prop = record {
    type = if write_all then some (type_code prop.type) else none;
    is_null = some prop.is_null;
    value = write_property_value prop.type prop.value;
  }

  -- WritePropertySet: the set, and whether it has a property.
  unfoldable pub write_property_set : Bool → TextMap MetricProperty → PbPropertySet × Bool
  write_property_set write_all [] = (record { keys = []; values = [] }, false)
  write_property_set write_all ((name, prop) ∷ ps) =
      let (rest, changed) = write_property_set write_all ps in
      if is_empty name then (rest, changed) else (
        record { keys = name ∷ rest.keys; values = write_property write_all prop ∷ rest.values },
        true,
      )

  -- WriteMetric.
  unfoldable pub write_metric : Bool → Metric → PbMetric
  write_metric write_all m =
      let (set, changed) = write_property_set write_all m.property_list in
      record {
        name = if write_all || m.alias == 0 then some m.name else none;
        alias = some m.alias;
        timestamp = some m.timestamp;
        datatype = if write_all then some (type_code m.datatype) else none;
        is_historical = some m.is_historical;
        is_transient = some m.is_transient;
        is_null = some m.is_null;
        metadata = none;
        properties = if changed then some set else none;
        value = write_value m.datatype m.value;
      }

  -- The loop over the metric list: the metrics that are sent, and the list with those marked as no
  -- longer updated.
  unfoldable pub write_metrics : Bool → TextMap Metric → List PbMetric × TextMap Metric
  write_metrics write_all [] = ([], [])
  write_metrics write_all ((name, m) ∷ ms) =
      let (sent, rest) = write_metrics write_all ms in
      if is_empty name
      then (sent, (name, m) ∷ rest)
      else if write_all || m.updated
      then (write_metric write_all m ∷ sent, (name, record m { updated = false }) ∷ rest)
      else (sent, (name, m) ∷ rest)

  -- The message that WriteProtobuf builds.
  unfoldable pub make_protobuf : Bool → Payload → PbPayload
  make_protobuf write_all p = record {
    timestamp = some (get_timestamp u p);
    metrics = (write_metrics write_all p.metric_list).0;
    seq = some p.sequence_number;
    uuid = if is_empty p.uuid then none else some p.uuid;
    body = none;
  }

  -- WriteProtobuf: the message becomes the body; a failed serialization leaves an empty body.
  unfoldable pub write_protobuf : Protobuf → Bool → Payload → Payload
  write_protobuf pb write_all p =
      let q = record p { metric_list = (write_metrics write_all p.metric_list).1 } in
      elim (pb.serialize (make_protobuf write_all p)) [
        | none ↦ record q { body = [] }
        | some bytes ↦ record q { body = bytes }
      ]

  -- Payload::GenerateProtobuf: a new helper, whose flag WriteAllMetrics() is false.
  unfoldable pub generate_protobuf : Protobuf → Payload → Payload
  generate_protobuf pb p = write_protobuf pb false p
