-- ===== src/Host/State.antt =====
-- What the functions of a host do to what its STATE topic says (src/sparkplughost.cpp).
use mathlib.Core.Option
use pubsublib.Prelude.{
  ℕ, ◌≡◌, refl, ap, ◌∙◌, Bool, true, false, some, arith, is_none, Option-cases, inl, inr,
}
use pubsublib.Prelude.Texts.{Text, codes, text_eq}
use pubsublib.Metric.Defs.{value_string}
use pubsublib.Payload.Defs.{get_metric, set_value_string}
use pubsublib.Topic.Name.{get_topic, state_word}
use pubsublib.Topic.Object.{Topic, store_topic_name}
use pubsublib.Externals.{Externals, Env}
use pubsublib.Client.Defs.{
  Client, version_as_string, add_subscription, get_topic_by_message_type,
  update_topic_by_message_type,
}
use pubsublib.Sparkplug.Publish.{do_publish}
use pubsublib.Sparkplug.Node.{says_online}
use pubsublib.Host.Telling.{
  can_tell, get_topic-update, says_online-some, says_online-update, message_type-store,
  there-update_metric, Sets-will_topic, Sets-publish, message_type-do_publish,
  message_type-will_topic,
}
use pubsublib.Host.Machine.{
  Host, will_topic, told, send_connect, publish_state, set_version, listen,
}

module _ (x : Externals) where
  -- A client that can tell has the topic.
  can_tell-some :
      (c : Client)
      → can_tell x c ≡ true
      → (t : Topic) × (get_topic_by_message_type x.util (codes "STATE") c ≡ some t)
  unfolding can_tell
  can_tell-some c h = elim (Option-cases (get_topic_by_message_type x.util (codes "STATE") c)) [
    | inl e ↦ ground (arith, e)
    | inr found ↦ found
  ]

  can_tell-update :
      (f : Topic → Topic) (c : Client)
      → ((t : Topic) → (f t).names.message_type ≡ t.names.message_type)
      → ((t : Topic)
          → is_none (get_metric x.util (codes "online") (f t).payload)
            ≡ is_none (get_metric x.util (codes "online") t.payload))
      → can_tell x c ≡ true
      → can_tell x (update_topic_by_message_type x.util (codes "STATE") f c) ≡ true
  can_tell-update f c keep there h =
      let (t, e) = can_tell-some c h in
      let d = update_topic_by_message_type x.util (codes "STATE") f c in
      let (_, tells) =
        says_online-some x d (f t) (get_topic-update x f c keep ∙ ap (Option.map f) e) in
      let (_, told_before) = says_online-some x c t e in
      tells ∙ ground (arith, there t, ap (λ m. text_eq m state_word) (keep t), told_before, h)

  -- What is told is read from the topics alone.
  pub same_topics :
      (c d : Client)
      → c.topic_list ≡ d.topic_list
      → (says_online x c ≡ says_online x d) × (can_tell x c ≡ can_tell x d)
  unfolding says_online can_tell get_topic_by_message_type
  same_topics c d e = (
    ap (λ ts. says_online x (record d { topic_list = ts })) e,
    ap (λ ts. can_tell x (record d { topic_list = ts })) e,
  )

  message_type-told :
      (b : Bool) (n : ℕ) (t : Topic)
      → (do_publish x n (told x b t)).0.names.message_type ≡ t.names.message_type
  unfolding told
  message_type-told b n t = message_type-do_publish x n (told x b t)

  -- After PublishState, the topic tells what was to be told.
  pub says_online-publish_state :
      (b : Bool) (h : Host)
      → can_tell x h.client ≡ true
      → (says_online x (publish_state x b h).0.client ≡ b)
        × (can_tell x (publish_state x b h).0.client ≡ true)
  unfolding publish_state
  says_online-publish_state b h c =
      let n = h.sequence_number in
      let after =
        says_online-update x (λ t. (do_publish x n (told x b t)).0) b h.client
          (message_type-told b n) (Sets-publish x n b) c in
      let (t, e) = can_tell-some h.client c in rw (e, publish_state) after

  -- SendConnect leaves a topic that tells that the host is offline.
  pub says_online-send_connect :
      (env : Env) (h : Host)
      → can_tell x h.client ≡ true
      → (says_online x (send_connect x env h).0.client ≡ false)
        × (can_tell x (send_connect x env h).0.client ≡ true)
  unfolding send_connect
  says_online-send_connect env h c =
      let after =
        says_online-update x (will_topic x h.start_time) false h.client
          (message_type-will_topic x h.start_time) (Sets-will_topic x h.start_time) c in
      let (t, e) = can_tell-some h.client c in
      rw (e, send_connect)
        (
          (same_topics _
                (update_topic_by_message_type x.util (codes "STATE") (will_topic x h.start_time)
                  h.client)
                refl).0
              ∙ after.0,
          (same_topics _
                (update_topic_by_message_type x.util (codes "STATE") (will_topic x h.start_time)
                  h.client)
                refl).1
              ∙ after.1,
        )

  topics-add_subscription :
      (s : Text) (c : Client) → (add_subscription s c).topic_list ≡ c.topic_list
  unfolding add_subscription
  topics-add_subscription s c = ground arith

  -- Listening keeps the topic.
  pub can_tell-listen :
      (t : Topic) (h : Host) → can_tell x h.client ≡ true → can_tell x (listen x t h).client ≡ true
  unfolding listen set_version store_topic_name set_value_string
  can_tell-listen t h c =
      let write = λ (t : Topic). store_topic_name (record t {
        payload =
            set_value_string x.util (codes "Properties/MQTT Version")
              (version_as_string h.client.version) t.payload;
      }) in
      (same_topics _ (update_topic_by_message_type x.util (codes "STATE") write h.client)
        (topics-add_subscription (get_topic t.names).0 (set_version x h.client))).1
      ∙ can_tell-update write h.client (λ t. message_type-store x t)
          (λ (t : Topic).
            there-update_metric x (codes "Properties/MQTT Version")
              (value_string x.util (version_as_string h.client.version)) t.payload)
          c

  pub work_state-send_connect :
      (env : Env) (h : Host) → (send_connect x env h).0.work_state ≡ h.work_state
  unfolding send_connect
  work_state-send_connect env h =
      elim (Option-cases (get_topic_by_message_type x.util (codes "STATE") h.client)) [
        | inl e ↦ rw (e, send_connect) refl
        | inr (t, e) ↦ rw (e, send_connect) refl
      ]
