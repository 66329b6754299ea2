-- ===== src/Client/Publishing.antt =====
-- PublishTopics of a client whose topics are `MqttTopic`s.
use pubsublib.Prelude.{
  ◌≡◌, refl, ap, ◌∙◌, Bool, true, false, ◌&&◌, ◌||◌, List, [], ◌∷◌, ◌++◌, arith, Bool-cases, inl,
  inr, if◌then◌else◌,
}
use pubsublib.StringUtil.Map.{TextMap}
use pubsublib.Metric.Defs.{Metric}
use pubsublib.Payload.Defs.{
  map_metrics, is_updated, is_updated_list, reset_updated, set_all_metrics_invalid, generate_text,
  string_to_body,
}
use pubsublib.Payload.Metrics.{is_updated-reset_updated}
use pubsublib.Payload.Json.{generate_json}
use pubsublib.Payload.Protobuf.{write_metrics, write_protobuf, generate_protobuf}
use pubsublib.Topic.Object.{Topic, mqtt_payload, mqtt_publish, store_topic_name, topic_message}
use pubsublib.Topic.Name.{get_topic}
use pubsublib.Topic.Building.{get_topic-stored}
use pubsublib.Client.Defs.{Client, publish_list, publish_topics}
use pubsublib.Externals.{Externals, Message}

-- The topics that PublishTopics sends.
abbrev pub is_due : Topic → Bool
is_due t = t.publish && is_updated t.payload

is_updated_list-invalid :
    (ms : TextMap Metric)
    → is_updated_list (map_metrics (λ m. record m { valid = false }) ms) ≡ is_updated_list ms
is_updated_list-invalid [] = refl
is_updated_list-invalid (m ∷ ms) = ap (λ b. m.1.updated || b) (is_updated_list-invalid ms)

module _ (do_publish : Topic → Topic × List Message) where
  publish_list-due :
      (t : Topic) (ts : List Topic)
      → is_due t ≡ true
      → publish_list do_publish (t ∷ ts) ≡ (
        (do_publish (record t { payload = reset_updated t.payload })).0
            ∷ (publish_list do_publish ts).0,
        (do_publish (record t { payload = reset_updated t.payload })).1
            ++ (publish_list do_publish ts).1,
      )
  unfolding publish_list
  publish_list-due t ts h = rw h

  publish_list-idle :
      (t : Topic) (ts : List Topic)
      → is_due t ≡ false
      → publish_list do_publish (t ∷ ts)
        ≡ (t ∷ (publish_list do_publish ts).0, (publish_list do_publish ts).1)
  unfolding publish_list
  publish_list-idle t ts h = rw h

  none_due :
      (t : Topic) (ts : List Topic)
      → is_due t ≡ false
      → (publish_list do_publish (t ∷ ts)).1 ≡ (publish_list do_publish ts).1
  none_due t ts h = ap (λ (r : List Topic × List Message). r.1) (publish_list-idle t ts h)

module _ (x : Externals) where
  is_updated_list-write_metrics :
      (ms : TextMap Metric)
      → is_updated_list ms ≡ false
      → is_updated_list (write_metrics x.util false ms).1 ≡ false
  unfolding write_metrics
  is_updated_list-write_metrics [] h = refl
  is_updated_list-write_metrics ((name, m) ∷ ms) h =
      ground (arith, is_updated_list-write_metrics ms)

  is_updated-mqtt_payload :
      (t : Topic) → is_updated t.payload ≡ false → is_updated (mqtt_payload x t) ≡ false
  unfolding mqtt_payload is_updated generate_json generate_text string_to_body generate_protobuf
      write_protobuf
  is_updated-mqtt_payload t h = ground (arith, is_updated_list-write_metrics t.payload.metric_list)

  is_updated-mqtt_publish :
      (send_ok : Message → Bool) (t : Topic)
      → is_updated t.payload ≡ false
      → is_updated (mqtt_publish x send_ok t).0.payload ≡ false
  unfolding mqtt_publish store_topic_name is_updated set_all_metrics_invalid
  is_updated-mqtt_publish send_ok t h =
      ground
        (arith, is_updated-mqtt_payload t h, is_updated_list-invalid (mqtt_payload x t).metric_list)

  publish-mqtt_publish :
      (send_ok : Message → Bool) (t : Topic) → (mqtt_publish x send_ok t).0.publish ≡ t.publish
  unfolding mqtt_publish store_topic_name
  publish-mqtt_publish send_ok t = ground arith

  -- A sent topic is no longer due.
  is_due-mqtt_publish :
      (send_ok : Message → Bool) (t : Topic)
      → is_due (mqtt_publish x send_ok (record t { payload = reset_updated t.payload })).0 ≡ false
  is_due-mqtt_publish send_ok t = ground (
    arith,
    is_updated-mqtt_publish send_ok (record t { payload = reset_updated t.payload })
        (is_updated-reset_updated t.payload),
  )

  -- The message of a topic: its name, its payload in the format of its content type, its quality and its
  -- retained flag.
  abbrev pub message_of : Topic → Message
  message_of t = record {
    topic = (get_topic t.names).0;
    body = (mqtt_payload x (record t { payload = reset_updated t.payload })).body;
    qos = t.qos;
    retained = t.retained;
  }

  -- One message for each topic that is to be published and has a metric that was updated.
  abbrev pub due_messages : List Topic → List Message
  due_messages [] = []
  due_messages (t ∷ ts) =
      let later = due_messages ts in
      if t.publish && is_updated t.payload then message_of t ∷ later else later

  messages-mqtt_publish :
      (send_ok : Message → Bool) (t : Topic)
      → t.publish ≡ true
      → (mqtt_publish x send_ok (record t { payload = reset_updated t.payload })).1
        ≡ message_of t ∷ []
  unfolding mqtt_publish store_topic_name topic_message
  messages-mqtt_publish send_ok t h = rw (h, get_topic-stored t.names) refl

  messages-publish_list :
      (send_ok : Message → Bool) (ts : List Topic)
      → (publish_list (mqtt_publish x send_ok) ts).1 ≡ due_messages ts
  messages-publish_list send_ok [] = unfold publish_list in refl
  messages-publish_list send_ok (t ∷ ts) = elim (Bool-cases (is_due t)) [
    | inl due ↦
        let sent = messages-mqtt_publish send_ok t (ground (arith, due)) in
        rw (publish_list-due (mqtt_publish x send_ok) t ts due, due, sent)
          (ap (λ ms. message_of t ∷ ms) (messages-publish_list send_ok ts))
    | inr idle ↦
        rw (publish_list-idle (mqtt_publish x send_ok) t ts idle, idle)
          (messages-publish_list send_ok ts)
  ]

  publish_list_again :
      (send_ok later_ok : Message → Bool) (ts : List Topic)
      → (publish_list (mqtt_publish x later_ok) (publish_list (mqtt_publish x send_ok) ts).0).1 ≡ []
  publish_list_again send_ok later_ok [] = unfold publish_list in refl
  publish_list_again send_ok later_ok (t ∷ ts) = elim (Bool-cases (is_due t)) [
    | inl due ↦ rw (publish_list-due (mqtt_publish x send_ok) t ts due) (
        none_due (mqtt_publish x later_ok) _ _ (is_due-mqtt_publish send_ok t)
        ∙ publish_list_again send_ok later_ok ts)
    | inr idle ↦
        rw (publish_list-idle (mqtt_publish x send_ok) t ts idle)
          (none_due (mqtt_publish x later_ok) t _ idle ∙ publish_list_again send_ok later_ok ts)
  ]

  -- PublishTopics sends a change exactly once: one message for each topic that is to be published and has
  -- a metric that was updated, in the order of the list; called again before any metric is updated, it
  -- sends nothing, whether or not the first sending succeeded.
  pub publish_topics_again :
      (send_ok later_ok : Message → Bool) (c : Client)
      → let (published, messages) = publish_topics (mqtt_publish x send_ok) c in
        (messages ≡ due_messages c.topic_list)
        × ((publish_topics (mqtt_publish x later_ok) published).1 ≡ [])
  unfolding publish_topics
  publish_topics_again send_ok later_ok c =
      (messages-publish_list send_ok c.topic_list, publish_list_again send_ok later_ok c.topic_list)
