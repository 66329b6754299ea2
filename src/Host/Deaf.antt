-- ===== src/Host/Deaf.antt =====
-- A running host does not listen to itself: no message changes its own topics (`Message` in
-- src/sparkplugnode.cpp, at a host).
use mathlib.Core.Option
use pubsublib.Prelude.{
  ℕ, ◌≡◌, refl, ap, ◌∙◌, Bool, true, false, not, ◌&&◌, ◌||◌, Option, some, List, [], ◌∷◌, arith,
  if◌then◌else◌, find_if, update_if, Bool-cases, Option-cases, inl, inr,
}
use pubsublib.Prelude.Texts.{Text, codes, text_eq, is_empty}
use pubsublib.Topic.Name.{TopicName, get_topic, set_topic}
use pubsublib.Topic.Object.{Topic, make_sparkplug_topic, store_topic_name, sparkplug_publish}
use pubsublib.Payload.Defs.{Payload, set_value_string}
use pubsublib.Externals.{Externals, Env}
use pubsublib.Client.Defs.{
  Client, version_as_string, has_subscription, add_subscription, has_message_type,
  get_topic_by_message_type, update_topic_by_message_type,
}
use pubsublib.Sparkplug.Publish.{do_publish, next_sequence_number}
use pubsublib.Sparkplug.Node.{Peer}
use pubsublib.Sparkplug.Routing.Known.{Known, host, node, matches}
use pubsublib.Sparkplug.Routing.Handlers.{
  receive_into, fill, receive_protobuf, receive, receive_json, obey, message_arrived,
}
use pubsublib.Sparkplug.Routing.Keys.{is_tidy, is_host-matches}
use pubsublib.Sparkplug.Routing.Refinement.{
  Request, meet, change, command, nothing, request_of, perform, route-perform,
}
use pubsublib.Sparkplug.Routing.Deliveries.{own-update_peer, own-visit}
use pubsublib.Host.Machine.{
  Host, will_topic, told, send_connect, publish_state, set_version, listen,
}
use pubsublib.Host.Telling.{message_type-store, message_type-do_publish, message_type-will_topic}

module _ (x : Externals) where
  -- Whether the topic of a type is there, and is published.
  unfoldable pub flag : Text → Client → Option Bool
  flag message_type c =
      Option.map (λ t. t.publish) (get_topic_by_message_type x.util message_type c)

  -- The STATE topic is published, and an NBIRTH topic, if there is one, is not.
  abbrev pub IsDeaf : Client → Type 0
  IsDeaf c =
      (flag (codes "STATE") c ≡ some true)
      × (Option.get_or (flag (codes "NBIRTH") c) false ≡ false)
      × (is_empty c.group_id ≡ true)

  receive_list-deaf :
      (test : Topic → Bool) (f : Payload → Payload) (ts : List Topic)
      → Option.map (λ t. t.publish) (find_if test ts) ≡ some true
      → update_if test (receive_into f) ts ≡ ts
  receive_list-deaf test f [] e = refl
  receive_list-deaf test f (t ∷ ts) e = ground (arith, receive_list-deaf test f ts)

  obey_list-deaf :
      (test : Topic → Bool) (f : Payload → Payload) (ts : List Topic)
      → Option.get_or (Option.map (λ t. t.publish) (find_if test ts)) false ≡ false
      → update_if test (λ t. if t.publish then fill f t else t) ts ≡ ts
  obey_list-deaf test f [] e = refl
  obey_list-deaf test f (t ∷ ts) e = ground (arith, obey_list-deaf test f ts)

  -- A STATE message does nothing to a published topic, and an NCMD message nothing to one that is not.
  receive-deaf : (f : Payload → Payload) (c : Client) → IsDeaf c → receive x (codes "STATE") f c ≡ c
  unfolding receive flag get_topic_by_message_type update_topic_by_message_type
  receive-deaf f c (s, n, g) =
      ap (λ ts. record c { topic_list = ts })
        (receive_list-deaf (has_message_type x.util (codes "STATE")) f c.topic_list s)

  obey-deaf : (f : Payload → Payload) (c : Client) → IsDeaf c → obey x f c ≡ c
  unfolding obey flag get_topic_by_message_type update_topic_by_message_type
  obey-deaf f c (s, n, g) =
      ap (λ ts. record c { topic_list = ts })
        (obey_list-deaf (has_message_type x.util (codes "NBIRTH")) f c.topic_list n)

  -- What a request would do to the receiver of an entry that is found by a host's name, or of a command.
  abbrev Spares : Peer → Request → Type 0
  Spares own (meet (host id) f) = f own ≡ own
  Spares own (meet (node g n) f) = Unit {0}
  Spares own (change (host id) f) = f own ≡ own
  Spares own (change (node g n) f) = Unit {0}
  Spares own (command key f) = f own ≡ own
  Spares own nothing = Unit {0}

  if-Spares :
      (own : Peer) (b : Bool) (r s : Request)
      → Spares own r
      → Spares own s
      → Spares own (if b then r else s)
  if-Spares own true r s h k = h
  if-Spares own false r s h k = k

  request_of-Spares :
      (now : ℕ) (t : TopicName) (bytes : List ℕ) (own : Peer)
      → IsDeaf own.client
      → Spares own (request_of x now t bytes)
  unfolding request_of
  request_of-Spares now t bytes own d =
      let is_type = text_eq t.message_type in
      let named = not (is_empty t.group_id) && not (is_empty t.node_id) in
      let device_named = named && not (is_empty t.device_id) in
      let heard =
        ap (λ c. record own { client = c }) (receive-deaf (receive_json x bytes) own.client d) in
      let obeyed =
        ap (λ c. record own { client = c })
          (obey-deaf (receive_protobuf x false now bytes) own.client d) in
      if-Spares own (is_type (codes "STATE")) _ _ (if-Spares own (is_empty t.node_id) _ _ tt heard)
        (if-Spares own (is_type (codes "NBIRTH")) _ _ (if-Spares own named _ _ tt tt) (
          if-Spares own (is_type (codes "NDEATH")) _ _ (if-Spares own named _ _ tt tt) (
            if-Spares own (is_type (codes "NCMD")) _ _ (if-Spares own named _ _ obeyed tt) (
              if-Spares own (is_type (codes "NDATA")) _ _ tt (
                if-Spares own (is_type (codes "DBIRTH")) _ _ (if-Spares own device_named _ _ tt tt)
                  (if-Spares own (is_type (codes "DDEATH")) _ _
                    (if-Spares own device_named _ _ tt tt)
                    (if-Spares own (is_type (codes "DCMD") || is_type (codes "DDATA")) _ _
                      (if-Spares own device_named _ _ tt tt) tt)))))))

  perform-Spares :
      (now : ℕ) (r : Request) (k : Known)
      → k.own.is_host ≡ true
      → is_tidy k.own ≡ true
      → Spares k.own r
      → (perform x now r k).own ≡ k.own
  unfolding perform
  perform-Spares now (meet (host id) f) k h t e = ground (arith, own-visit x now (host id) f k, e)
  perform-Spares now (meet (node g n) f) k h t e =
      ground (arith, own-visit x now (node g n) f k, is_host-matches x.util g n k.own t)
  perform-Spares now (change (host id) f) k h t e =
      ground (arith, own-update_peer x (matches x.util (host id)) f k, e)
  perform-Spares now (change (node g n) f) k h t e =
      ground (
        arith,
        own-update_peer x (matches x.util (node g n)) f k,
        is_host-matches x.util g n k.own t,
      )
  perform-Spares now (command key f) k h t e = ground (arith, e)
  perform-Spares now nothing k h t e = refl

  -- A host without a group, whose STATE topic is published and that publishes no NBIRTH topic, is itself
  -- left as it is by every message, its own STATE messages among them.
  pub own-message_arrived_deaf :
      (now : ℕ) (topic_name : Text) (bytes : List ℕ) (k : Known)
      → k.own.is_host ≡ true
      → IsDeaf k.own.client
      → (message_arrived x now topic_name bytes k).own ≡ k.own
  unfolding message_arrived
  own-message_arrived_deaf now topic_name bytes k h (s, n, g) =
      let names = set_topic topic_name (make_sparkplug_topic.names) in
      let r = request_of x now names bytes in
      rw (route-perform x now names bytes k) (elim (Bool-cases (is_empty topic_name)) [
        | inl e ↦ rw e refl
        | inr e ↦ rw e (
            perform-Spares now r k h (ground (arith, g))
              (request_of-Spares now names bytes k.own (s, n, g)))
      ])

  -- The functions of a host change no flag.
  find_if-publish :
      (p q : Topic → Bool) (f : Topic → Topic) (ts : List Topic)
      → ((t : Topic) → p (f t) ≡ p t)
      → ((t : Topic) → (f t).publish ≡ t.publish)
      → Option.map (λ t. t.publish) (find_if p (update_if q f ts))
        ≡ Option.map (λ t. t.publish) (find_if p ts)
  find_if-publish p q f [] type keep = refl
  find_if-publish p q f (t ∷ ts) type keep =
      ground (arith, type t, keep t, find_if-publish p q f ts type keep)

  flag-update :
      (message_type state : Text) (f : Topic → Topic) (c : Client)
      → ((t : Topic) → (f t).names.message_type ≡ t.names.message_type)
      → ((t : Topic) → (f t).publish ≡ t.publish)
      → flag message_type (update_topic_by_message_type x.util state f c) ≡ flag message_type c
  unfolding flag get_topic_by_message_type update_topic_by_message_type
  flag-update message_type state f c type keep =
      find_if-publish (has_message_type x.util message_type) (has_message_type x.util state) f
        c.topic_list (λ t. ap (x.util.iequals message_type) (type t)) keep

  update-IsDeaf :
      (f : Topic → Topic) (c : Client)
      → ((t : Topic) → (f t).names.message_type ≡ t.names.message_type)
      → ((t : Topic) → (f t).publish ≡ t.publish)
      → IsDeaf c
      → IsDeaf (update_topic_by_message_type x.util (codes "STATE") f c)
  update-IsDeaf f c type keep (s, n, g) = (
    flag-update (codes "STATE") (codes "STATE") f c type keep ∙ s,
    ap (λ o. Option.get_or o false) (flag-update (codes "NBIRTH") (codes "STATE") f c type keep)
        ∙ n,
    (unfold update_topic_by_message_type in g),
  )

  pub publish_state-IsDeaf :
      (b : Bool) (h : Host) → IsDeaf h.client → IsDeaf (publish_state x b h).0.client
  unfolding publish_state do_publish next_sequence_number sparkplug_publish store_topic_name told
  publish_state-IsDeaf b h d =
      let n = h.sequence_number in
      let kept =
        update-IsDeaf (λ t. (do_publish x n (told x b t)).0) h.client
          (λ (t : Topic). message_type-do_publish x n (told x b t)) (λ t. refl) d in
      elim (Option-cases (get_topic_by_message_type x.util (codes "STATE") h.client)) [
        | inl e ↦ rw (e, publish_state) d
        | inr (t, e) ↦ rw (e, publish_state) kept
      ]

  pub send_connect-IsDeaf :
      (env : Env) (h : Host) → IsDeaf h.client → IsDeaf (send_connect x env h).0.client
  unfolding send_connect will_topic store_topic_name flag get_topic_by_message_type
  send_connect-IsDeaf env h d =
      let kept =
        update-IsDeaf (will_topic x h.start_time) h.client (message_type-will_topic x h.start_time)
          (λ t. refl) d in
      elim (Option-cases (get_topic_by_message_type x.util (codes "STATE") h.client)) [
        | inl e ↦ rw (e, send_connect) d
        | inr (t, e) ↦ rw (e, send_connect) kept
      ]

  add_subscription-IsDeaf : (s : Text) (c : Client) → IsDeaf c → IsDeaf (add_subscription s c)
  unfolding add_subscription flag get_topic_by_message_type
  add_subscription-IsDeaf s c d = elim (Bool-cases (has_subscription s c.subscription_list)) [
    | inl e ↦ rw (e, add_subscription) d
    | inr e ↦ rw (e, add_subscription) d
  ]

  pub listen-IsDeaf : (t : Topic) (h : Host) → IsDeaf h.client → IsDeaf (listen x t h).client
  unfolding listen set_version store_topic_name
  listen-IsDeaf t h d =
      let write = λ (t : Topic). store_topic_name (record t {
        payload =
            set_value_string x.util (codes "Properties/MQTT Version")
              (version_as_string h.client.version) t.payload;
      }) in
      add_subscription-IsDeaf (get_topic t.names).0 (set_version x h.client)
        (update-IsDeaf write h.client (λ t. message_type-store x t) (λ t. refl) d)
