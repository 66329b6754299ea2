-- ===== src/Client/Defs.antt =====
-- The class `IPubSubClient`: its settings, its topics and its subscriptions.
use pubsublib.Prelude.{
  ℕ, Bool, ◌&&◌, Option, List, [], ◌∷◌, ◌++◌, if◌then◌else◌, any, find_if, erase_if, update_if,
}
use pubsublib.Prelude.Int.{ℤ}
use pubsublib.Prelude.Texts.{Text, codes, text_eq}
use pubsublib.StringUtil.{StringUtil}
use pubsublib.Metric.Numbers.{to_string}
use pubsublib.Topic.Name.{get_topic}
use pubsublib.Topic.Object.{Topic}
use pubsublib.Payload.Defs.{is_updated, reset_updated}
use pubsublib.Externals.{Qos, Message}

pub data TransportLayer : Type 0 where
  mqtt_tcp mqtt_web_socket mqtt_tcp_tls mqtt_web_socket_tls : TransportLayer

pub data ProtocolVersion : Type 0 where
  mqtt31 mqtt311 mqtt5 : ProtocolVersion

-- The settings that a configuration file keeps.
pub record Settings : Type 0 where
  pub name : Text
  pub group_id : Text
  pub transport : TransportLayer
  pub broker : Text
  pub port : ℕ
  pub version : ProtocolVersion
  pub hardware_make : Text
  pub hardware_model : Text
  pub operating_system : Text
  pub os_version : Text
  pub scan_rate : ℤ
  pub wait_on_host_online : Bool
  pub username : Text
  pub password : Text

pub record Client : Type 0 where
  pub settings : Settings
  pub open settings use *
  pub sparkplug_version : Text
  pub topic_list : List Topic
  pub subscription_list : List Text
  pub default_qos : Qos
  pub in_service : Bool
  pub connection_lost : Bool

-- VersionAsString.
unfoldable pub version_as_string : ProtocolVersion → Text
version_as_string mqtt31 = codes "MQTT 3.1"
version_as_string mqtt5 = codes "MQTT 5.0"
version_as_string mqtt311 = codes "MQTT 3.1.1"

-- The scheme of the connection string, from the switch on the transport that every client has.
unfoldable pub scheme : TransportLayer → Text
scheme mqtt_web_socket = codes "ws://"
scheme mqtt_tcp_tls = codes "ssl://"
scheme mqtt_web_socket_tls = codes "wss://"
scheme mqtt_tcp = codes "tcp://"

-- `connect_string`: scheme, broker and port.
unfoldable pub connect_string : Settings → Text
connect_string s = scheme s.transport ++ s.broker ++ b':' ∷ to_string s.port

-- Whether a subscription is in the list.
abbrev pub has_subscription : Text → List Text → Bool
has_subscription topic_name = any (λ topic. text_eq topic_name topic)

unfoldable pub add_subscription : Text → Client → Client
add_subscription topic_name c =
    if has_subscription topic_name c.subscription_list
    then c
    else record c { subscription_list = c.subscription_list ++ topic_name ∷ [] }

unfoldable pub add_subscription_front : Text → Client → Client
add_subscription_front topic_name c =
    if has_subscription topic_name c.subscription_list
    then c
    else record c { subscription_list = topic_name ∷ c.subscription_list }

unfoldable pub delete_subscription : Text → Client → Client
delete_subscription topic_name c = record c {
  subscription_list = erase_if (λ topic. text_eq topic_name topic) c.subscription_list;
}

-- The tests of the searches in the topic list.
abbrev pub has_topic : Text → Topic → Bool
has_topic topic_name t = text_eq topic_name (get_topic t.names).0

-- GetTopic.
unfoldable pub get_topic_of : Text → Client → Option Topic
get_topic_of topic_name c = find_if (has_topic topic_name) c.topic_list

-- A change of the topic that GetTopic finds, through its pointer.
unfoldable pub update_topic : Text → (Topic → Topic) → Client → Client
update_topic topic_name f c = record c {
  topic_list = update_if (has_topic topic_name) f c.topic_list;
}

module _ (u : StringUtil) where
  abbrev pub has_itopic : Text → Topic → Bool
  has_itopic topic_name t = u.iequals topic_name (get_topic t.names).0

  abbrev pub has_message_type : Text → Topic → Bool
  has_message_type message_type t = u.iequals message_type t.names.message_type

  unfoldable pub get_itopic : Text → Client → Option Topic
  get_itopic topic_name c = find_if (has_itopic topic_name) c.topic_list

  unfoldable pub get_topic_by_message_type : Text → Client → Option Topic
  get_topic_by_message_type message_type c = find_if (has_message_type message_type) c.topic_list

  unfoldable pub update_topic_by_message_type : Text → (Topic → Topic) → Client → Client
  update_topic_by_message_type message_type f c = record c {
    topic_list = update_if (has_message_type message_type) f c.topic_list;
  }

  unfoldable pub delete_topic : Text → Client → Client
  delete_topic topic_name c = record c {
    topic_list = erase_if (has_itopic topic_name) c.topic_list;
  }

-- CreateTopic of the subclasses, given the new topic.
unfoldable pub create_topic : Topic → Client → Client
create_topic t c = record c { topic_list = c.topic_list ++ t ∷ [] }

-- The loop of PublishTopics, given DoPublish of the topics' class: a topic that publishes and has an
-- updated metric is reset and sent.
unfoldable pub publish_list :
    (Topic → Topic × List Message) → List Topic → List Topic × List Message
publish_list do_publish [] = ([], [])
publish_list do_publish (t ∷ ts) =
    let (rest, later) = publish_list do_publish ts in
    let (sent, messages) = do_publish (record t { payload = reset_updated t.payload }) in
    if t.publish && is_updated t.payload
    then (sent ∷ rest, messages ++ later)
    else (t ∷ rest, later)

unfoldable pub publish_topics : (Topic → Topic × List Message) → Client → Client × List Message
publish_topics do_publish c =
    let (topics, messages) = publish_list do_publish c.topic_list in
    (record c { topic_list = topics }, messages)
