-- ===== src/Payload/Protobuf/Messages.antt =====
-- The messages `Payload`, `Metric`, `MetaData`, `PropertySet` and `PropertyValue` of
-- proto/sparkplug_b.proto, and the protobuf library's functions that the program calls.
use pubsublib.Prelude.{ℕ, Bool, Option, List}
use pubsublib.Prelude.Texts.{Text}

-- The `oneof value`, of a metric and of a property. A floating point number is the text that the program
-- prints for it.
pub data PbValue : Type 0 where
  no_value : PbValue
  int_value : ℕ → PbValue
  long_value : ℕ → PbValue
  float_value : Text → PbValue
  double_value : Text → PbValue
  boolean_value : Bool → PbValue
  string_value : Text → PbValue
  bytes_value : Text → PbValue

pub record PbPropertyValue : Type 0 where
  pub type : Option ℕ
  pub is_null : Option Bool
  pub value : PbValue

pub record PbPropertySet : Type 0 where
  pub keys : List Text
  pub values : List PbPropertyValue

pub record PbMetaData : Type 0 where
  pub is_multi_part : Option Bool
  pub content_type : Option Text
  pub size : Option ℕ
  pub seq : Option ℕ
  pub file_name : Option Text
  pub file_type : Option Text
  pub md5 : Option Text
  pub description : Option Text

pub record PbMetric : Type 0 where
  pub name : Option Text
  pub alias : Option ℕ
  pub timestamp : Option ℕ
  pub datatype : Option ℕ
  pub is_historical : Option Bool
  pub is_transient : Option Bool
  pub is_null : Option Bool
  pub metadata : Option PbMetaData
  pub properties : Option PbPropertySet
  pub value : PbValue

pub record PbPayload : Type 0 where
  pub timestamp : Option ℕ
  pub metrics : List PbMetric
  pub seq : Option ℕ
  pub uuid : Option Text
  pub body : Option (List ℕ)

-- The library: SerializeToArray and ParseFromArray, which may fail, and what a reference to the
-- `body` of a message reads once the message has been cleared.
pub record Protobuf : Type 0 where
  pub serialize : PbPayload → Option (List ℕ)
  pub parse : List ℕ → Option PbPayload
  pub after_clear : List ℕ → List ℕ
