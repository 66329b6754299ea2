-- ===== src/Host/Telling.antt =====
-- What the STATE topic of a host says (`PublishState` and `SendConnect` in src/sparkplughost.cpp).
use mathlib.Core.Option
use pubsublib.Prelude.{
  ℕ, ◌≡◌, refl, sym, ap, ◌∙◌, Bool, true, false, not, ◌&&◌, none, some, arith, if◌then◌else◌,
  is_none, find_if-update_if, Option-cases, inl, inr,
}
use pubsublib.Prelude.Texts.{Text, codes, text_eq}
use pubsublib.StringUtil.{iequals_refl}
use pubsublib.StringUtil.Map.{find}
use pubsublib.Metric.Defs.{Metric, value_unsigned, value_bool}
use pubsublib.Payload.Defs.{
  Payload, get_metric, update_metric, string_to_body, set_timestamp, set_value_bool, get_value_bool,
}
use pubsublib.Payload.Metrics.{get_metric-update_metric, get_value_bool-set_value_bool}
use pubsublib.Payload.Json.{generate_json}
use pubsublib.Topic.Name.{get_topic, state_word}
use pubsublib.Topic.Object.{
  Topic, store_topic_name, sparkplug_publish, sparkplug_payload, takes_sequence_number,
}
use pubsublib.Externals.{Externals}
use pubsublib.Client.Defs.{
  Client, get_topic_by_message_type, has_message_type, update_topic_by_message_type,
}
use pubsublib.Sparkplug.Publish.{do_publish, next_sequence_number}
use pubsublib.Sparkplug.Node.{says_online}
use pubsublib.Host.Machine.{will_topic, told}

module _ (x : Externals) where
  -- A topic whose type is exactly STATE, with the metric that tells.
  abbrev pub is_telling : Topic → Bool
  is_telling t =
      text_eq t.names.message_type state_word
      && not (is_none (get_metric x.util (codes "online") t.payload))

  unfoldable pub can_tell : Client → Bool
  can_tell c = elim (get_topic_by_message_type x.util (codes "STATE") c) [
    | none ↦ false
    | some t ↦ is_telling t
  ]

  -- A change of such a topic that sets what is told.
  abbrev Sets : (Topic → Topic) → Bool → Type 0
  Sets f b =
      (t : Topic)
      → is_telling t ≡ true
      → (get_value_bool x.util (codes "online") (f t).payload ≡ b)
        × (is_none (get_metric x.util (codes "online") (f t).payload) ≡ false)

  abbrev KeepsType : (Topic → Topic) → Type 0
  KeepsType f = (t : Topic) → (f t).names.message_type ≡ t.names.message_type

  pub get_topic-update :
      (f : Topic → Topic) (c : Client)
      → KeepsType f
      → get_topic_by_message_type x.util
          (codes "STATE")
          (update_topic_by_message_type x.util (codes "STATE") f c)
        ≡ Option.map f (get_topic_by_message_type x.util (codes "STATE") c)
  unfolding get_topic_by_message_type update_topic_by_message_type
  get_topic-update f c keep =
      find_if-update_if (has_message_type x.util (codes "STATE")) f c.topic_list
        (λ t. ap (x.util.iequals (codes "STATE")) (keep t))

  pub says_online-some :
      (c : Client) (t : Topic)
      → get_topic_by_message_type x.util (codes "STATE") c ≡ some t
      → (says_online x c ≡ get_value_bool x.util (codes "online") t.payload)
        × (can_tell c ≡ is_telling t)
  unfolding can_tell says_online
  says_online-some c t e = (rw (e, says_online) refl, rw (e, can_tell) refl)

  -- After a change that sets what is told, the topic tells it.
  pub says_online-update :
      (f : Topic → Topic) (b : Bool) (c : Client)
      → KeepsType f
      → Sets f b
      → can_tell c ≡ true
      → let d = update_topic_by_message_type x.util (codes "STATE") f c in
        (says_online x d ≡ b) × (can_tell d ≡ true)
  unfolding can_tell
  says_online-update f b c keep sets h =
      elim (Option-cases (get_topic_by_message_type x.util (codes "STATE") c)) [
        | inl e ↦ ground (arith, e)
        | inr (t, e) ↦
            let d = update_topic_by_message_type x.util (codes "STATE") f c in
            let (says, tells) =
              says_online-some d (f t) (get_topic-update f c keep ∙ ap (Option.map f) e) in
            let (_, told_before) = says_online-some c t e in
            let (value, there) = sets t (sym told_before ∙ h) in
            (
              says ∙ value,
              tells
                  ∙ ground (arith, there, ap (λ m. text_eq m state_word) (keep t), told_before, h),
            )
      ]

  pub message_type-store :
      (t : Topic) → (store_topic_name t).names.message_type ≡ t.names.message_type
  unfolding store_topic_name get_topic
  message_type-store t = ground arith

  -- The metric is there after a change of any metric.
  pub there-update_metric :
      (name : Text) (f : Metric → Metric) (p : Payload)
      → is_none (get_metric x.util (codes "online") (update_metric x.util name f p))
        ≡ is_none (get_metric x.util (codes "online") p)
  there-update_metric name f p =
      ground (arith, get_metric-update_metric x.util (codes "online") name f p)

  -- SetValue of a Boolean, on a metric that is there, and the printing into the body.
  Sets-value :
      (b : Bool) (p : Payload)
      → is_none (get_metric x.util (codes "online") p) ≡ false
      → let q = set_value_bool x.util (codes "online") b p in
        (get_value_bool x.util (codes "online") q ≡ b)
        × (is_none (get_metric x.util (codes "online") q) ≡ false)
  unfolding set_value_bool
  Sets-value b p h = (
    get_value_bool-set_value_bool x.util (codes "online") (codes "online") b p
          (iequals_refl x.util (codes "online"))
        ∙ ap (λ missing. if missing then false else b) h,
    there-update_metric (codes "online") (value_bool b) p ∙ h,
  )

  get_value_bool-metrics :
      (q p : Payload)
      → q.metric_list ≡ p.metric_list
      → (get_value_bool x.util (codes "online") q ≡ get_value_bool x.util (codes "online") p)
        × (is_none (get_metric x.util (codes "online") q)
            ≡ is_none (get_metric x.util (codes "online") p))
  unfolding get_value_bool get_metric
  get_value_bool-metrics q p e = (
    ap (λ ms. get_value_bool x.util (codes "online") (record p { metric_list = ms })) e,
    ap (λ ms. is_none (find x.util (codes "online") ms)) e,
  )

  there-set_timestamp :
      (now : ℕ) (p : Payload)
      → is_none (get_metric x.util (codes "online") (set_timestamp x.util now false p))
        ≡ is_none (get_metric x.util (codes "online") p)
  unfolding set_timestamp
  there-set_timestamp now p =
      there-update_metric (codes "timestamp") (value_unsigned now) (record p { timestamp = now })
      ∙ (unfold get_metric in refl)

  -- The will tells that the host is offline.
  pub Sets-will_topic : (start_time : ℕ) → Sets (will_topic x start_time) false
  unfolding will_topic store_topic_name generate_json string_to_body
  Sets-will_topic start_time t h =
      let timed = set_timestamp x.util start_time false t.payload in
      let (value, there) =
        Sets-value false timed (there-set_timestamp start_time t.payload ∙ ground (arith, h)) in
      let (v, n) =
        get_value_bool-metrics (will_topic x start_time t).payload
          (set_value_bool x.util (codes "online") false timed) refl in
      (v ∙ value, n ∙ there)

  metric_list-do_publish :
      (n : ℕ) (t : Topic)
      → text_eq t.names.message_type state_word ≡ true
      → (do_publish x n t).0.payload.metric_list ≡ t.payload.metric_list
  unfolding do_publish next_sequence_number sparkplug_publish sparkplug_payload store_topic_name
      generate_json string_to_body takes_sequence_number
  metric_list-do_publish n t h = ground (arith, h)

  -- What PublishState sends tells what it is asked to tell.
  pub Sets-publish : (n : ℕ) (b : Bool) → Sets (λ t. (do_publish x n (told x b t)).0) b
  unfolding told
  Sets-publish n b t h =
      let (value, there) = Sets-value b t.payload (ground (arith, h)) in
      let (v, m) =
        get_value_bool-metrics (do_publish x n (told x b t)).0.payload
          (set_value_bool x.util (codes "online") b t.payload)
          (metric_list-do_publish n (told x b t) (ground (arith, h))) in
      (v ∙ value, m ∙ there)

  pub message_type-do_publish :
      (n : ℕ) (t : Topic) → (do_publish x n t).0.names.message_type ≡ t.names.message_type
  unfolding do_publish next_sequence_number sparkplug_publish
  message_type-do_publish n t = message_type-store _

  pub message_type-will_topic :
      (start_time : ℕ) (t : Topic)
      → (will_topic x start_time t).names.message_type ≡ t.names.message_type
  unfolding will_topic
  message_type-will_topic start_time t = message_type-store _
