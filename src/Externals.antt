-- ===== src/Externals.antt =====
-- What the program takes from other libraries: text comparison (util), the JSON format (boost), the
-- protobuf wire format, the names of the machine, and the asynchronous MQTT client (Eclipse Paho). The MQTT client is seen
-- through the calls that the program makes and the answers that it gets.
use pubsublib.Prelude.{ℕ, Bool, Option, List}
use pubsublib.Prelude.Texts.{Text}
use pubsublib.StringUtil.{StringUtil}
use pubsublib.Payload.Json.{JsonValue}
use pubsublib.Payload.Protobuf.{Protobuf}

-- The names that IHwInfo (util/ihwinfo.h) gives to the machine.
pub record HwInfo : Type 0 where
  pub cpu_vendor : Text
  pub cpu_model : Text
  pub os_name : Text
  pub os_kernel : Text

pub record Externals : Type 0 where
  pub util : StringUtil
  pub hw_info : HwInfo
  pub serialize_json : List (Text × JsonValue) → Text
  pub parse_json : Text → Option (List (Text × JsonValue))
  pub protobuf : Protobuf

-- QualityOfService (include/pubsub/itopic.h).
pub data Qos : Type 0 where
  qos0 qos1 qos2 : Qos

-- The arguments of MQTTAsync_sendMessage, and of the will that MQTTAsync_connect leaves behind.
pub record Message : Type 0 where
  pub topic : Text
  pub body : List ℕ
  pub qos : Qos
  pub retained : Bool

-- The calls of the MQTT client that have an effect. The credentials and the TLS options of a
-- connect call are left out. A create call carries whether it succeeded.
pub data Call : Type 0 where
  create : Text → Bool → Call
  set_callbacks : Call
  connect : Option Message → Call
  disconnect : Call
  destroy : Call
  subscribe : Text → Qos → Call
  send : Message → Call

-- What a round of a worker thread meets: the clock, whether the handle is connected, and whether
-- each call of the MQTT client returns MQTTASYNC_SUCCESS.
pub record Env : Type 0 where
  pub now : ℕ
  pub is_connected : Bool
  pub create_ok : Bool
  pub callbacks_ok : Bool
  pub connect_ok : Bool
  pub disconnect_ok : Bool
  pub send_ok : Message → Bool
