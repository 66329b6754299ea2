-- ===== src/Examples/Topics.antt =====
-- Topic names.
use pubsublib.Prelude.{◌≡◌, refl, [], ◌∷◌, ◌++◌}
use pubsublib.Prelude.Texts.{codes, text_eq}
use pubsublib.Topic.Name.{
  TopicName, empty_name, sparkplug_namespace, state_word, set_topic, get_topic,
}
use pubsublib.Topic.Scanning.{slashed}
use pubsublib.Topic.Parsing.{IsNamed, set_topic_state_again}
use pubsublib.Topic.Building.{set_topic-get_topic}

abbrev device_birth : TopicName
device_birth = record {
  topic = [];
  name_space = codes "spBv1.0";
  group_id = codes "plant";
  message_type = codes "DBIRTH";
  node_id = codes "node";
  device_id = codes "pump";
}

abbrev device_birth-IsNamed : IsNamed device_birth
device_birth-IsNamed = record {
  has_name_space = refl;
  has_group_id = refl;
  has_message_type = refl;
  has_node_id = refl;
  has_device_id = refl;
  not_state = unfold text_eq in refl;
}

set_topic_state_again_example :
    (set_topic (slashed (sparkplug_namespace ∷ state_word ∷ []) ++ codes "host") (record {
      topic = [];
      name_space = sparkplug_namespace;
      group_id = [];
      message_type = state_word;
      node_id = codes "host";
      device_id = [];
    })).node_id
    ≡ state_word
set_topic_state_again_example =
    set_topic_state_again (codes "host") [] (codes "host") [] (assumption (refl, tt))

set_topic-get_topic_example :
    set_topic (get_topic device_birth).0 empty_name ≡ (get_topic device_birth).1
set_topic-get_topic_example =
    set_topic-get_topic device_birth device_birth-IsNamed (assumption (refl, tt))
      (assumption (refl, tt)) refl
