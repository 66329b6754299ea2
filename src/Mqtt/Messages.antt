-- ===== src/Mqtt/Messages.antt =====
-- What a message leaves in the plain client (`Message` in src/mqttclient.cpp).
use pubsublib.Prelude.{
  ℕ, ◌≡◌, refl, ap, ◌∙◌, true, false, none, some, arith, if◌then◌else◌, find_if-update_if,
  find_if-append_none, Option-cases, inl, inr, Bool-cases,
}
use mathlib.Core.Option
use pubsublib.Prelude.Texts.{Text, is_empty, text_eq_refl}
use pubsublib.StringUtil.Map.{find, update}
use pubsublib.Metric.Defs.{value_string}
use pubsublib.Payload.Defs.{get_metric, update_metric, set_timestamp, body_to_string}
use pubsublib.Topic.Name.{set_topic, get_topic}
use pubsublib.Topic.Scanning.{topic-set_topic}
use pubsublib.Topic.Object.{Topic, make_mqtt_topic}
use pubsublib.Client.Defs.{Client, has_topic, get_topic_of, update_topic, create_topic}
use pubsublib.Externals.{Externals, Message}
use pubsublib.Mqtt.Machine.{MqttClient}
use pubsublib.Mqtt.Events.{receive_payload, receive_topic, message_arrived}

-- The topic that Message makes.
abbrev pub new_topic : Text → Topic
new_topic topic_name = record make_mqtt_topic {
  names = set_topic topic_name (make_mqtt_topic.names);
}

has_topic-new_topic :
    (topic_name : Text)
    → is_empty topic_name ≡ false
    → has_topic topic_name (new_topic topic_name) ≡ true
unfolding get_topic
has_topic-new_topic topic_name h =
    ground (arith, text_eq_refl topic_name, topic-set_topic topic_name (make_mqtt_topic.names))

module _ (x : Externals) where
  has_topic-receive_topic :
      (now : ℕ) (topic_name : Text) (message : Message) (t : Topic)
      → has_topic topic_name (receive_topic x now topic_name message t) ≡ has_topic topic_name t
  unfolding receive_topic
  has_topic-receive_topic now topic_name message t = refl

  get_topic_of-update_topic :
      (now : ℕ) (topic_name : Text) (message : Message) (c : Client)
      → get_topic_of topic_name (update_topic topic_name (receive_topic x now topic_name message) c)
        ≡ Option.map (receive_topic x now topic_name message) (get_topic_of topic_name c)
  unfolding get_topic_of update_topic
  get_topic_of-update_topic now topic_name message c =
      find_if-update_if (has_topic topic_name) (receive_topic x now topic_name message) c.topic_list
        (has_topic-receive_topic now topic_name message)

  get_topic_of-create_topic :
      (topic_name : Text) (c : Client)
      → is_empty topic_name ≡ false
      → get_topic_of topic_name c ≡ none
      → get_topic_of topic_name (create_topic (new_topic topic_name) c)
        ≡ some (new_topic topic_name)
  unfolding get_topic_of create_topic
  get_topic_of-create_topic topic_name c e h =
      find_if-append_none (has_topic topic_name) c.topic_list (new_topic topic_name) h
      ∙ ap (λ b. if b then some (new_topic topic_name) else none) (has_topic-new_topic topic_name e)

  get_topic_of-message_arrived :
      (now : ℕ) (topic_name : Text) (message : Message) (m : MqttClient)
      → get_topic_of topic_name (message_arrived x now topic_name message m).client ≡ (
          if is_empty topic_name
          then get_topic_of topic_name m.client
          else some (
              receive_topic x now topic_name message
                (Option.get_or (get_topic_of topic_name m.client) (new_topic topic_name))))
  unfolding message_arrived update_topic create_topic get_topic_of
  get_topic_of-message_arrived now topic_name message m =
      let received = receive_topic x now topic_name message in
      let known = get_topic_of topic_name m.client in
      elim (Bool-cases (is_empty topic_name)) [
        | inl e ↦ rw e refl
        | inr e ↦ elim (Option-cases known) [
          | inl h ↦
              rw (e, h)
                (get_topic_of-update_topic now topic_name message
                    (create_topic (new_topic topic_name) m.client)
                  ∙ ap (Option.map received) (get_topic_of-create_topic topic_name m.client e h))
          | inr (t, h) ↦
              rw (e, h)
                (get_topic_of-update_topic now topic_name message m.client
                  ∙ ap (Option.map received) h)
        ]
      ]

  -- A topic with a message in it: its payload has the bytes and the time, also the time of each metric; the
  -- metric that is named like the topic, if there is one, has the text in front of the first NUL; and the
  -- topic has the quality and the retained flag of the message.
  abbrev pub with_message : ℕ → Text → Message → Topic → Topic
  with_message now topic_name message t = record t {
    payload =
        update_metric x.util topic_name (value_string x.util (body_to_string message.body))
          (set_timestamp x.util now true (record t.payload { body = message.body }));
    qos = message.qos;
    retained = message.retained;
  }

  -- After a message with a topic name, the topic of that name is the one that was there before, or a new
  -- topic, with the bytes, the time, the text, the quality and the retained flag of the message; an empty
  -- name changes nothing.
  pub message_arrived_lem :
      (now : ℕ) (topic_name : Text) (message : Message) (m : MqttClient)
      → get_topic_of topic_name (message_arrived x now topic_name message m).client ≡ (
          if is_empty topic_name
          then get_topic_of topic_name m.client
          else some (
              with_message now topic_name message
                (Option.get_or (get_topic_of topic_name m.client) (new_topic topic_name))))
  unfolding receive_topic receive_payload
  message_arrived_lem now topic_name message m =
      get_topic_of-message_arrived now topic_name message m

  -- A message on a topic that the client does not have yet leaves no value: whatever metric one asks for
  -- in the payload of the topic that Message makes is missing.
  pub message_arrived_new :
      (now : ℕ) (topic_name name : Text) (message : Message) (m : MqttClient)
      → is_empty topic_name ≡ false
      → get_topic_of topic_name m.client ≡ none
      → Option.map
          (λ t. get_metric x.util name t.payload)
          (get_topic_of topic_name (message_arrived x now topic_name message m).client)
        ≡ some none
  message_arrived_new now topic_name name message m e h =
      rw (get_topic_of-message_arrived now topic_name message m, e, h)
        (unfold receive_topic receive_payload set_timestamp update_metric get_metric find update in
          refl)
