-- ===== src/Examples/Data.antt =====
-- What the examples share: a library of other programs' functions, a metric, a topic and a client.
use pubsublib.Prelude.{ℕ, Bool, true, false, none, some, [], ◌∷◌}
use pubsublib.Prelude.Int.{pos}
use pubsublib.Prelude.Texts.{codes}
use pubsublib.StringUtil.Ascii.{ascii}
use pubsublib.Metric.TypeCode.{int64, boolean}
use pubsublib.Metric.Defs.{Metric, make_metric, make_property}
use pubsublib.Payload.Defs.{Payload, empty_payload}
use pubsublib.Topic.Name.{empty_name}
use pubsublib.Topic.Object.{Topic, make_mqtt_topic}
use pubsublib.Externals.{Externals, Env, Message, qos1}
use pubsublib.Client.Defs.{Client, Settings, mqtt_tcp, mqtt311}
use pubsublib.Mqtt.Machine.{MqttClient, ClientState}

abbrev pub externals : Externals
externals = record {
  util = ascii;
  hw_info = record {
    cpu_vendor = codes "vendor";
    cpu_model = codes "model";
    os_name = codes "os";
    os_kernel = codes "kernel";
  };
  serialize_json = λ entries. codes "{}";
  parse_json = λ text. none;
  protobuf = record {
    serialize = λ payload. some (1 ∷ 2 ∷ []);
    parse = λ bytes. none;
    after_clear = λ bytes. [];
  };
}

-- A metric with a unit, updated.
abbrev pub speed : Metric
speed = record (make_metric (codes "Speed")) {
  datatype = int64;
  value = codes "12";
  valid = true;
  updated = true;
  alias = 7;
  property_list = (codes "engUnit", make_property (codes "engUnit") (codes "km/h")) ∷ [];
}

abbrev pub online_metric : Metric
online_metric = record (make_metric (codes "online")) { datatype = boolean; value = codes "0" }

abbrev pub two_metrics : Payload
two_metrics = record empty_payload {
  metric_list = (codes "online", online_metric) ∷ (codes "Speed", speed) ∷ [];
}

abbrev pub car : Topic
car = record make_mqtt_topic {
  names = record empty_name { topic = codes "car/speed" };
  payload = two_metrics;
  publish = true;
}

abbrev pub settings : Settings
settings = record {
  name = codes "client";
  group_id = codes "plant";
  transport = mqtt_tcp;
  broker = codes "localhost";
  port = 1883;
  version = mqtt311;
  hardware_make = [];
  hardware_model = [];
  operating_system = [];
  os_version = [];
  scan_rate = pos 0;
  wait_on_host_online = false;
  username = [];
  password = [];
}

abbrev pub client : Client
client = record {
  settings = settings;
  sparkplug_version = codes "3.0.0";
  topic_list = car ∷ [];
  subscription_list = codes "a/#" ∷ codes "b" ∷ [];
  default_qos = qos1;
  in_service = true;
  connection_lost = false;
}

-- A client in a state, with or without a handle, and its timer.
abbrev pub mqtt_client : ClientState → Bool → ℕ → MqttClient
mqtt_client state handle timer = record {
  client = client;
  handle = handle;
  client_state = state;
  stop_client_task = false;
  looping = true;
  client_timer = timer;
  delivered = true;
}

abbrev pub out_of_service : MqttClient → MqttClient
out_of_service m = record m { client = record client { in_service = false } }

-- A round at a time, with a broker that is there or not.
abbrev pub env_at : Bool → ℕ → Env
env_at there now = record {
  now = now;
  is_connected = there;
  create_ok = true;
  callbacks_ok = true;
  connect_ok = there;
  disconnect_ok = there;
  send_ok = λ message. there;
}

abbrev pub hello : Message
hello = record { topic = codes "new/topic"; body = codes "42"; qos = qos1; retained = false }
