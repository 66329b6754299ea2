-- ===== src/Mqtt/Events.antt =====
-- Everything that changes an `MqttClient` while its task runs: the rounds of the task, the callbacks
-- of the MQTT library (src/mqttclient.cpp), and the user's switches.
use pubsublib.Prelude.{ℕ, Bool, true, false, List, [], ◌∷◌, ◌++◌, ◌==◌, if◌then◌else◌, is_none}
use pubsublib.Prelude.Texts.{Text, is_empty}
use pubsublib.Externals.{Externals, Env, Call, Message}
use pubsublib.Topic.Name.{set_topic}
use pubsublib.Topic.Object.{Topic, make_mqtt_topic}
use pubsublib.Metric.Defs.{value_string}
use pubsublib.Payload.Defs.{Payload, update_metric, set_timestamp, body_to_string}
use pubsublib.Client.Defs.{
  ProtocolVersion, mqtt31, mqtt311, mqtt5, get_topic_of, update_topic, create_topic,
}
use pubsublib.Mqtt.Machine.{MqttClient, set_connection_lost, loop_test, client_switch, client_round}

-- ConnectionLost and DeliveryComplete.
unfoldable pub connection_lost : MqttClient → MqttClient
connection_lost m = set_connection_lost true m

unfoldable pub delivery_complete : MqttClient → MqttClient
delivery_complete m = set_connection_lost false m

-- The switch on `connect.MQTTVersion`: MQTTVERSION_3_1 is 3 and MQTTVERSION_5 is 5.
unfoldable pub version_of : ℕ → ProtocolVersion
version_of n = if n == 3 then mqtt31 else if n == 5 then mqtt5 else mqtt311

-- Connect and Connect5: `server_uri` is empty for a null pointer.
unfoldable pub connected : Text → ℕ → MqttClient → MqttClient
connected server_uri version m = record (set_connection_lost false m) {
  client = record (m.client) {
    settings = record (m.settings) {
      name = if is_empty m.name then server_uri else m.name;
      version = version_of version;
    };
    connection_lost = false;
  };
  delivered = true;
}

-- ConnectFailure, ConnectFailure5, DisconnectFailure and DisconnectFailure5.
unfoldable pub request_failed : MqttClient → MqttClient
request_failed m = record (set_connection_lost true m) { delivered = true }

-- Disconnect and Disconnect5.
unfoldable pub disconnected : MqttClient → MqttClient
disconnected m = record (set_connection_lost false m) { delivered = true }

module _ (x : Externals) where
  -- What Message does to the topic: the bytes become the body, and the metric named like the topic
  -- gets them as its value. A metric that is missing is made, but not put into the payload.
  unfoldable pub receive_payload : ℕ → Text → List ℕ → Payload → Payload
  receive_payload now topic_name bytes p =
      let q = set_timestamp x.util now true (record p { body = bytes }) in
      update_metric x.util topic_name (value_string x.util (body_to_string bytes)) q

  unfoldable pub receive_topic : ℕ → Text → Message → Topic → Topic
  receive_topic now topic_name message t = record t {
    payload = receive_payload now topic_name message.body t.payload;
    qos = message.qos;
    retained = message.retained;
  }

  -- Message, with OnMessageArrived's check of the name: a topic that is not there is made first.
  unfoldable pub message_arrived : ℕ → Text → Message → MqttClient → MqttClient
  message_arrived now topic_name message m =
      let known =
        if is_none (get_topic_of topic_name m.client)
        then create_topic
            (record make_mqtt_topic { names = set_topic topic_name (make_mqtt_topic.names) })
            m.client
        else m.client in
      if is_empty topic_name
      then m
      else set_connection_lost false (record m {
        client = update_topic topic_name (receive_topic now topic_name message) known;
      })

-- The user's InService, and the flag that Stop sets in front of waiting for the task.
unfoldable pub set_in_service : Bool → MqttClient → MqttClient
set_in_service b m = record m { client = record (m.client) { in_service = b } }

unfoldable pub request_stop : MqttClient → MqttClient
request_stop m = record m { stop_client_task = true }

pub data Event : Type 0 where
  round : Env → Event
  interrupted : Env → Event  -- a round in which Stop comes between the switch and the test
  lost : Event
  complete : Event
  accepted : Text → ℕ → Event
  refused : Event
  closed : Event
  arrived : ℕ → Text → Message → Event
  service : Bool → Event
  stop : Event

module _ (x : Externals) where
  -- The client and the calls after one event.
  unfoldable pub step : Event → MqttClient → MqttClient × List Call
  step (round env) m = client_round x env m
  step (interrupted env) m =
      let (m', calls) = client_switch x env m in (loop_test (request_stop m'), calls)
  step lost m = (connection_lost m, [])
  step complete m = (delivery_complete m, [])
  step (accepted uri version) m = (connected uri version m, [])
  step refused m = (request_failed m, [])
  step closed m = (disconnected m, [])
  step (arrived now topic_name message) m = (message_arrived x now topic_name message m, [])
  step (service b) m = (set_in_service b m, [])
  step stop m = (request_stop m, [])

  -- A run of the task: the events in turn, and all calls in their order.
  unfoldable pub run : List Event → MqttClient → MqttClient × List Call
  run [] m = (m, [])
  run (e ∷ es) m = let (m', calls) = step e m in let (m'', more) = run es m' in (m'', calls ++ more)
