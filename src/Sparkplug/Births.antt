-- ===== src/Sparkplug/Births.antt =====
-- The births and deaths of a device (`Poll` in src/sparkplugdevice.cpp).
use pubsublib.Prelude.{
  ℕ, ◌≡◌, refl, ap, ◌∙◌, Bool, true, false, some, List, [], ◌∷◌, ◌++◌, map, arith, is_none,
  Option-cases, inl, inr,
}
use pubsublib.Prelude.Texts.{Text, codes}
use pubsublib.Payload.Defs.{set_timestamp}
use pubsublib.Topic.Name.{TopicName, set_topic, get_topic}
use pubsublib.Topic.Scanning.{topic-set_topic}
use pubsublib.Topic.Object.{Topic, topic_message, store_topic_name, sparkplug_publish}
use pubsublib.Client.Defs.{Client, get_topic_by_message_type, update_topic_by_message_type}
use pubsublib.Externals.{Externals}
use pubsublib.Sparkplug.Publish.{do_publish, next_sequence_number, publish_prepared}
use pubsublib.Sparkplug.Device.{
  DeviceState, idle, offline, online, Device, Parent, Polled, device_topic_name, publish_device,
  publish_device_birth, publish_device_death, poll_online, poll_offline, poll_idle, poll_state,
  poll,
}

abbrev pub topics_of : Polled → List Text
topics_of p = map (λ m. m.topic) p.messages

-- The levels of the topic name of a device's message, with slashes between them.
abbrev pub device_levels : Text → Parent → Client → Text
device_levels message_type parent c =
    codes "spvBv1.0"
    ++ b'/' ∷ c.group_id
    ++ b'/' ∷ message_type
    ++ b'/' ∷ parent.name
    ++ b'/' ∷ c.name

-- What a change of the state tells the broker.
abbrev pub announced : DeviceState → DeviceState → Parent → Client → List Text
announced offline online parent c = device_levels (codes "DBIRTH") parent c ∷ []
announced online offline parent c = device_levels (codes "DDEATH") parent c ∷ []
announced _ _ parent c = []

-- A topic whose name was set is published under that name.
get_topic-named :
    (c : ℕ) (cs : Text) (t : TopicName) → (get_topic (set_topic (c ∷ cs) t)).0 ≡ c ∷ cs
unfolding get_topic
get_topic-named c cs t = rw (topic-set_topic (c ∷ cs) t) refl

module _ (x : Externals) where
  topic-do_publish :
      (n c : ℕ) (cs : Text) (t : Topic)
      → t.names.topic ≡ c ∷ cs
      → (do_publish x n t).1.topic ≡ c ∷ cs
  unfolding do_publish next_sequence_number sparkplug_publish store_topic_name topic_message
      get_topic
  topic-do_publish n c cs t h = rw (h, get_topic) refl

  pub publish_prepared-some :
      (message_type : Text) (prepare : Topic → Topic) (now n : ℕ) (c : Client) (t : Topic)
      → get_topic_by_message_type x.util message_type c ≡ some t
      → (publish_prepared x message_type prepare true now n c).messages
        ≡ (do_publish x n
            (record (prepare t) { payload = set_timestamp x.util now false (prepare t).payload })).1
          ∷ []
  unfolding publish_prepared do_publish
  publish_prepared-some message_type prepare now n c t e = rw (e, publish_prepared) refl

  topics_of-publish_device :
      (message_type : Text) (parent : Parent) (now n : ℕ) (d : Device)
      → parent.is_connected ≡ true
      → is_none (get_topic_by_message_type x.util message_type d.client) ≡ false
      → topics_of (publish_device x message_type parent now n d)
        ≡ device_topic_name message_type parent d.client ∷ []
  unfolding publish_device device_topic_name
  topics_of-publish_device message_type parent now n d there h =
      elim (Option-cases (get_topic_by_message_type x.util message_type d.client)) [
        | inl e ↦ ground (arith, e, h)
        | inr (t, e) ↦
            rw
              (
                there,
                publish_prepared-some message_type
                    (λ (t : Topic). record t {
                      names = set_topic (device_topic_name message_type parent d.client) t.names;
                    })
                    now n d.client t e,
              )
              (ap (λ name. name ∷ []) (topic-do_publish n _ _ _ (topic-set_topic _ t.names)))
      ]

  topics_of-publish_device_levels :
      (message_type : Text) (parent : Parent) (now n : ℕ) (d : Device)
      → parent.is_connected ≡ true
      → is_none (get_topic_by_message_type x.util message_type d.client) ≡ false
      → topics_of (publish_device x message_type parent now n d)
        ≡ device_levels message_type parent d.client ∷ []
  unfolding device_topic_name
  topics_of-publish_device_levels = topics_of-publish_device

  topics_of-poll_state :
      (s : DeviceState) (parent : Parent) (now n : ℕ) (d : Device)
      → d.device_state ≡ s
      → parent.is_connected ≡ true
      → is_none (get_topic_by_message_type x.util (codes "DBIRTH") d.client) ≡ false
      → is_none (get_topic_by_message_type x.util (codes "DDEATH") d.client) ≡ false
      → topics_of (poll_state x s parent now n d)
        ≡ announced s (poll_state x s parent now n d).device.device_state parent d.client
  unfolding poll_state poll_idle poll_offline poll_online publish_device_birth publish_device_death
  topics_of-poll_state idle parent now n d e there birth death = refl
  topics_of-poll_state offline parent now n d e there birth death =
      ground (arith, topics_of-publish_device_levels (codes "DBIRTH") parent now n d there birth)
  topics_of-poll_state online parent now n d e there birth death =
      ground (arith, topics_of-publish_device_levels (codes "DDEATH") parent now n d there death)

  -- Over a connection, and with its two topics in place, a poll of a device sends its birth message exactly
  -- when it takes the device online, its death message exactly when it takes it offline, and nothing else:
  -- under the name whose levels are the namespace as the devices spell it, spvBv1.0, the group, DBIRTH or
  -- DDEATH, the node and the device.
  pub topics_of-poll :
      (parent : Parent) (now n : ℕ) (d : Device)
      → parent.is_connected ≡ true
      → is_none (get_topic_by_message_type x.util (codes "DBIRTH") d.client) ≡ false
      → is_none (get_topic_by_message_type x.util (codes "DDEATH") d.client) ≡ false
      → topics_of (poll x parent now n d)
        ≡ announced d.device_state (poll x parent now n d).device.device_state parent d.client
  unfolding poll
  topics_of-poll parent now n d there birth death =
      topics_of-poll_state d.device_state parent now n d refl there birth death

  poll_state-flaps :
      (s : DeviceState) (parent : Parent) (now n : ℕ) (d : Device)
      → s ≡ offline
      → parent.is_online ≡ true
      → (poll_state x s parent now n d).device.device_state ≡ online
  unfolding poll_state poll_offline
  poll_state-flaps offline parent now n d e o = ground arith
  poll_state-flaps idle parent now n d e o = ground arith
  poll_state-flaps online parent now n d e o = ground arith

  poll_state-drops :
      (s : DeviceState) (parent : Parent) (now n : ℕ) (d : Device)
      → s ≡ online
      → d.client.in_service ≡ false
      → (poll_state x s parent now n d).device.device_state ≡ offline
  unfolding poll_state poll_online
  poll_state-drops online parent now n d e o = ground arith
  poll_state-drops idle parent now n d e o = ground arith
  poll_state-drops offline parent now n d e o = ground arith

  pub in_service-publish_prepared :
      (message_type : Text) (prepare : Topic → Topic) (there : Bool) (now n : ℕ) (c : Client)
      → (publish_prepared x message_type prepare there now n c).client.in_service ≡ c.in_service
  unfolding publish_prepared do_publish update_topic_by_message_type
  in_service-publish_prepared message_type prepare there now n c =
      elim (Option-cases (get_topic_by_message_type x.util message_type c)) [
        | inl e ↦ rw (e, publish_prepared) refl
        | inr (t, e) ↦ rw (e, publish_prepared) (ground arith)
      ]

  poll_state-in_service :
      (s : DeviceState) (parent : Parent) (now n : ℕ) (d : Device)
      → s ≡ offline
      → (poll_state x s parent now n d).device.client.in_service ≡ d.client.in_service
  unfolding poll_state poll_offline publish_device_birth publish_device
  poll_state-in_service offline parent now n d e = ground (
    arith,
    in_service-publish_prepared (codes "DBIRTH")
        (λ (t : Topic). record t {
          names = set_topic (device_topic_name (codes "DBIRTH") parent d.client) t.names;
        })
        parent.is_connected now n d.client,
  )
  poll_state-in_service idle parent now n d e = ground arith
  poll_state-in_service online parent now n d e = ground arith

  -- An offline device that is out of service is taken online by a poll of an online node, and offline
  -- again by the next poll, at whatever times the two take place.
  pub poll-poll_flaps :
      (parent : Parent) (now later n k : ℕ) (d : Device)
      → d.device_state ≡ offline
      → d.client.in_service ≡ false
      → parent.is_online ≡ true
      → let first = (poll x parent now n d).device in
        (first.device_state ≡ online)
        × ((poll x parent later k first).device.device_state ≡ offline)
  unfolding poll
  poll-poll_flaps parent now later n k d s i o =
      let first = (poll x parent now n d).device in
      let up = poll_state-flaps d.device_state parent now n d s o in
      let kept = poll_state-in_service d.device_state parent now n d s in
      (up, poll_state-drops first.device_state parent later k first up (kept ∙ i))
