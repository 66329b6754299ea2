-- ===== src/Metric/TypeCode.antt =====
-- The enum `MetricType` (include/pubsub/metrictype.h) with its codes, and the conversion
-- `ProtobufDataTypeToMetricType` of src/payloadhelper.cpp from the codes of proto/sparkplug_b.proto.
use pubsublib.Prelude.{ℕ, ◌≡◌, refl, ◌==◌, if◌then◌else◌}

pub data MetricType : Type 0 where
  unknown int8 int16 int32 int64 uint8 : MetricType
  uint16 uint32 uint64 float double boolean : MetricType
  string date_time text uuid dataset bytes : MetricType
  file template property_set property_set_list int8_array int16_array : MetricType
  int32_array int64_array uint8_array uint16_array uint32_array uint64_array : MetricType
  float_array double_array boolean_array string_array date_time_array : MetricType

-- `static_cast<uint32_t>(type)`.
unfoldable pub type_code : MetricType → ℕ
type_code unknown = 0
type_code int8 = 1
type_code int16 = 2
type_code int32 = 3
type_code int64 = 4
type_code uint8 = 5
type_code uint16 = 6
type_code uint32 = 7
type_code uint64 = 8
type_code float = 9
type_code double = 10
type_code boolean = 11
type_code string = 12
type_code date_time = 13
type_code text = 14
type_code uuid = 15
type_code dataset = 16
type_code bytes = 17
type_code file = 18
type_code template = 19
type_code property_set = 20
type_code property_set_list = 21
type_code int8_array = 22
type_code int16_array = 23
type_code int32_array = 24
type_code int64_array = 25
type_code uint8_array = 26
type_code uint16_array = 27
type_code uint32_array = 28
type_code uint64_array = 29
type_code float_array = 30
type_code double_array = 31
type_code boolean_array = 32
type_code string_array = 33
type_code date_time_array = 34

-- `static_cast<MetricType>(code)` and the switch of `ProtobufDataTypeToMetricType`: the codes of the
-- protobuf enum `DataType` are 1 to 34; any other code is unknown.
unfoldable pub protobuf_data_type_to_metric_type : ℕ → MetricType
protobuf_data_type_to_metric_type pb_type =
    if pb_type == 1
    then int8
    else if pb_type == 2
    then int16
    else if pb_type == 3
    then int32
    else if pb_type == 4
    then int64
    else if pb_type == 5
    then uint8
    else if pb_type == 6
    then uint16
    else if pb_type == 7
    then uint32
    else if pb_type == 8
    then uint64
    else if pb_type == 9
    then float
    else if pb_type == 10
    then double
    else if pb_type == 11
    then boolean
    else if pb_type == 12
    then string
    else if pb_type == 13
    then date_time
    else if pb_type == 14
    then text
    else if pb_type == 15
    then uuid
    else if pb_type == 16
    then dataset
    else if pb_type == 17
    then bytes
    else if pb_type == 18
    then file
    else if pb_type == 19
    then template
    else if pb_type == 20
    then property_set
    else if pb_type == 21
    then property_set_list
    else if pb_type == 22
    then int8_array
    else if pb_type == 23
    then int16_array
    else if pb_type == 24
    then int32_array
    else if pb_type == 25
    then int64_array
    else if pb_type == 26
    then uint8_array
    else if pb_type == 27
    then uint16_array
    else if pb_type == 28
    then uint32_array
    else if pb_type == 29
    then uint64_array
    else if pb_type == 30
    then float_array
    else if pb_type == 31
    then double_array
    else if pb_type == 32
    then boolean_array
    else if pb_type == 33
    then string_array
    else if pb_type == 34
    then date_time_array
    else unknown

-- The code of a type is read back as that type.
pub type_code-round_trip : (t : MetricType) → protobuf_data_type_to_metric_type (type_code t) ≡ t
unfolding protobuf_data_type_to_metric_type type_code
type_code-round_trip unknown = refl
type_code-round_trip int8 = refl
type_code-round_trip int16 = refl
type_code-round_trip int32 = refl
type_code-round_trip int64 = refl
type_code-round_trip uint8 = refl
type_code-round_trip uint16 = refl
type_code-round_trip uint32 = refl
type_code-round_trip uint64 = refl
type_code-round_trip float = refl
type_code-round_trip double = refl
type_code-round_trip boolean = refl
type_code-round_trip string = refl
type_code-round_trip date_time = refl
type_code-round_trip text = refl
type_code-round_trip uuid = refl
type_code-round_trip dataset = refl
type_code-round_trip bytes = refl
type_code-round_trip file = refl
type_code-round_trip template = refl
type_code-round_trip property_set = refl
type_code-round_trip property_set_list = refl
type_code-round_trip int8_array = refl
type_code-round_trip int16_array = refl
type_code-round_trip int32_array = refl
type_code-round_trip int64_array = refl
type_code-round_trip uint8_array = refl
type_code-round_trip uint16_array = refl
type_code-round_trip uint32_array = refl
type_code-round_trip uint64_array = refl
type_code-round_trip float_array = refl
type_code-round_trip double_array = refl
type_code-round_trip boolean_array = refl
type_code-round_trip string_array = refl
type_code-round_trip date_time_array = refl
