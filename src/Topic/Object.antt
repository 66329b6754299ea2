-- ===== src/Topic/Object.antt =====
-- The class `ITopic` (include/pubsub/itopic.h) and the publishing of its two subclasses,
-- src/mqtttopic.cpp and src/sparkplugtopic.cpp.
use pubsublib.Prelude.{
  ℕ, Bool, true, false, not, ◌&&◌, ◌||◌, List, [], ◌∷◌, ◌==◌, any, if◌then◌else◌,
}
use pubsublib.Prelude.Texts.{Text, codes, text_eq}
use pubsublib.Topic.Name.{TopicName, empty_name, sparkplug_namespace, state_word, get_topic}
use pubsublib.Payload.Defs.{Payload, empty_payload, generate_text, set_all_metrics_invalid}
use pubsublib.Payload.Json.{generate_json}
use pubsublib.Payload.Protobuf.{generate_protobuf}
use pubsublib.Externals.{Externals, Qos, qos0, Message}

pub record Topic : Type 0 where
  pub content_type : Text
  pub names : TopicName
  pub payload : Payload
  pub publish : Bool
  pub qos : Qos
  pub retained : Bool

-- The constructors of MqttTopic and of SparkplugTopic.
abbrev pub make_mqtt_topic : Topic
make_mqtt_topic = record {
  content_type = [];
  names = empty_name;
  payload = empty_payload;
  publish = false;
  qos = qos0;
  retained = false;
}

abbrev pub make_sparkplug_topic : Topic
make_sparkplug_topic = record {
  content_type = [];
  names = record empty_name { name_space = sparkplug_namespace };
  payload = empty_payload;
  publish = false;
  qos = qos0;
  retained = false;
}

abbrev pub starts_with : Text → Text → Bool
starts_with [] t = true
starts_with (c ∷ cs) [] = false
starts_with (c ∷ cs) (d ∷ ds) = (c == d) && starts_with cs ds

-- `text.find(word) != npos`.
abbrev pub contains_word : Text → Text → Bool
contains_word word [] = starts_with word []
contains_word word (c ∷ cs) = starts_with word (c ∷ cs) || contains_word word cs

unfoldable pub is_json : Topic → Bool
is_json t = contains_word (codes "json") t.content_type

unfoldable pub is_protobuf : Topic → Bool
is_protobuf t = contains_word (codes "protobuf") t.content_type

-- The message that both DoPublish send, and the topic with its name stored.
unfoldable pub topic_message : Topic → Message
topic_message t = record {
  topic = (get_topic t.names).0;
  body = t.payload.body;
  qos = t.qos;
  retained = t.retained;
}

unfoldable pub store_topic_name : Topic → Topic
store_topic_name t = record t { names = (get_topic t.names).1 }

module _ (x : Externals) where
  -- MqttTopic::DoPublish. The payload is made in the format of the content type. A message that is
  -- refused marks all metrics as invalid.
  unfoldable pub mqtt_payload : Topic → Payload
  mqtt_payload t =
      if is_json t
      then generate_json x.util x.serialize_json t.payload
      else if is_protobuf t
      then generate_protobuf x.util x.protobuf t.payload
      else generate_text t.payload

  unfoldable pub mqtt_publish : (Message → Bool) → Topic → Topic × List Message
  mqtt_publish send_ok t =
      let filled = store_topic_name (record t { payload = mqtt_payload t }) in
      let message = topic_message filled in
      if t.publish
      then (
        if send_ok message
            then filled
            else record filled { payload = set_all_metrics_invalid filled.payload },
        message ∷ [],
      )
      else (t, [])

  -- SparkplugTopic::DoPublish, given what NextSequenceNumber of the parent returns; a STATE message
  -- takes no sequence number.
  unfoldable pub takes_sequence_number : Topic → Bool
  takes_sequence_number t = not (text_eq t.names.message_type state_word)

  unfoldable pub sparkplug_payload : ℕ → Topic → Payload
  sparkplug_payload seq t =
      if takes_sequence_number t
      then generate_protobuf x.util x.protobuf (record t.payload { sequence_number = seq })
      else generate_json x.util x.serialize_json t.payload

  unfoldable pub sparkplug_publish : ℕ → Topic → Topic × Message
  sparkplug_publish seq t =
      let filled = store_topic_name (record t { payload = sparkplug_payload seq t }) in
      (filled, topic_message filled)

-- IsValidMessageType and IsBirthMessageType.
unfoldable pub is_valid_message_type : Topic → Bool
is_valid_message_type t =
    any (λ type. text_eq t.names.message_type type)
      (codes "NBIRTH"
        ∷ codes "NDEATH"
        ∷ codes "DBIRTH"
        ∷ codes "DDEATH"
        ∷ codes "NDATA"
        ∷ codes "NCMD"
        ∷ codes "DCMD"
        ∷ codes "STATE"
        ∷ [])

unfoldable pub is_birth_message_type : Topic → Bool
is_birth_message_type t =
    any (λ type. text_eq t.names.message_type type)
      (codes "NBIRTH" ∷ codes "DBIRTH" ∷ codes "STATE" ∷ [])
