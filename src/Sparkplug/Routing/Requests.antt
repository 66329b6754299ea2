-- ===== src/Sparkplug/Routing/Requests.antt =====
-- The requests of messages keep the names of whom they change (src/sparkplugnode.cpp).
use pubsublib.Prelude.{
  ℕ, ◌≡◌, refl, ap, ◌∙◌, Bool, true, false, not, ◌&&◌, ◌||◌, List, arith, if◌then◌else◌,
  Option-cases, inl, inr,
}
use pubsublib.Prelude.Texts.{Text, codes, text_eq, is_empty}
use pubsublib.StringUtil.{iequals_refl}
use pubsublib.Payload.Defs.{Payload}
use pubsublib.Topic.Name.{TopicName}
use pubsublib.Topic.Object.{Topic}
use pubsublib.Externals.{Externals}
use pubsublib.Client.Defs.{
  Client, create_topic, delete_topic, get_topic_by_message_type, update_topic_by_message_type,
}
use pubsublib.Sparkplug.Node.{Peer}
use pubsublib.Sparkplug.Creation.{
  make_client, replace_topic, create_node_birth_topic, create_node_death_topic, create_state_topic,
  make_node_peer, make_host_peer, create_device,
}
use pubsublib.Sparkplug.Routing.Known.{Key, host, node, matches}
use pubsublib.Sparkplug.Routing.Handlers.{
  receive, bury, obey, on_client, update_device, bear_device, new_peer,
}
use pubsublib.Sparkplug.Routing.Keys.{is_tidy, is_valid_key, SameHead}
use pubsublib.Sparkplug.Routing.Refinement.{Request, meet, change, command, nothing, request_of}

-- What a request makes can be found, and what it does has a property.
unfoldable pub Allows : ((Peer → Peer) → Type 0) → Request → Type 0
Allows Q (meet key f) = (is_valid_key key ≡ true) × Q f
Allows Q (change key f) = Q f
Allows Q (command key f) = Q f
Allows Q nothing = Unit {0}

-- It keeps the names.
abbrev pub IsGentle : Request → Type 0
IsGentle = Allows (λ f. (p : Peer) → SameHead (f p) p)

module _ (Q : (Peer → Peer) → Type 0) where
  if-Allows : (b : Bool) (r s : Request) → Allows Q r → Allows Q s → Allows Q (if b then r else s)
  if-Allows true r s h k = h
  if-Allows false r s h k = k

  -- A request behind a test that its key is valid.
  guard-Allows :
      (b : Bool) (r : Request) → (b ≡ true → Allows Q r) → Allows Q (if b then r else nothing)
  unfolding Allows
  guard-Allows true r h = h refl
  guard-Allows false r h = tt

  skip-Allows :
      (b : Bool) (r : Request) → (b ≡ false → Allows Q r) → Allows Q (if b then nothing else r)
  unfolding Allows
  skip-Allows true r h = tt
  skip-Allows false r h = h refl

  -- What every request does has a property that the functions of all handlers have.
  pub request_of-Allows :
      (x : Externals) (now : ℕ) (t : TopicName) (bytes : List ℕ)
      → ((message_type : Text) (f : Payload → Payload) → Q (on_client (receive x message_type f)))
      → ((birth death : Text) (f : Payload → Payload) → Q (on_client (bury x birth death f)))
      → ((f : Payload → Payload) → Q (on_client (obey x f)))
      → ((device_name : Text) (f : Payload → Payload) → Q (bear_device x now device_name f))
      → ((device_name message_type : Text) (f : Payload → Payload)
          → Q (update_device x device_name (receive x message_type f)))
      → ((device_name birth death : Text) (f : Payload → Payload)
          → Q (update_device x device_name (bury x birth death f)))
      → Allows Q (request_of x now t bytes)
  unfolding request_of Allows
  request_of-Allows x now t bytes received buried obeyed born device_received device_buried =
      let is_type = text_eq t.message_type in
      let named = not (is_empty t.group_id) && not (is_empty t.node_id) in
      let device_named = named && not (is_empty t.device_id) in
      if-Allows (is_type (codes "STATE")) _ _
        (skip-Allows (is_empty t.node_id) _ (λ e. (refl, received _ _)))
        (if-Allows (is_type (codes "NBIRTH")) _ _ (guard-Allows named _ (λ e. (e, received _ _))) (
          if-Allows (is_type (codes "NDEATH")) _ _ (guard-Allows named _ (λ e. buried _ _ _)) (
            if-Allows (is_type (codes "NCMD")) _ _ (guard-Allows named _ (λ e. obeyed _)) (
              if-Allows (is_type (codes "NDATA")) _ _ (received _ _) (
                if-Allows (is_type (codes "DBIRTH")) _ _
                  (guard-Allows device_named _ (λ e. (ground (arith, e), born _ _)))
                  (if-Allows (is_type (codes "DDEATH")) _ _
                    (guard-Allows device_named _ (λ e. device_buried _ _ _ _))
                    (if-Allows (is_type (codes "DCMD") || is_type (codes "DDATA")) _ _
                      (guard-Allows device_named _
                        (λ e. (ground (arith, e), device_received _ _ _)))
                      tt)))))))

module _ (x : Externals) where
  settings-replace_topic :
      (message_type : Text) (t : Topic) (c : Client)
      → (replace_topic x.util message_type t c).settings ≡ c.settings
  unfolding replace_topic create_topic delete_topic
  settings-replace_topic message_type t c =
      elim (Option-cases (get_topic_by_message_type x.util message_type c)) [
        | inl e ↦ rw (e, replace_topic) refl
        | inr (old, e) ↦ rw (e, replace_topic) refl
      ]

  -- A node or host that is made for a name has that name, and a host that is made has no group.
  pub new_peer_named :
      (now : ℕ) (key : Key)
      → is_valid_key key ≡ true
      → (matches x.util key (new_peer x now key) ≡ true) × (is_tidy (new_peer x now key) ≡ true)
  unfolding make_client new_peer matches make_host_peer make_node_peer create_state_topic
      create_topic get_topic_by_message_type create_node_birth_topic create_node_death_topic
  new_peer_named now (host id) h = (
    iequals_refl x.util id,
    ap (λ s. is_empty s.group_id)
        (settings-replace_topic (codes "NDEATH") _ _ ∙ settings-replace_topic (codes "NBIRTH") _ _),
  )
  new_peer_named now (node g n) h =
      (ground (arith, iequals_refl x.util g, iequals_refl x.util n), refl)

  receive-SameHead :
      (message_type : Text) (f : Payload → Payload) (p : Peer)
      → SameHead (on_client (receive x message_type f) p) p
  unfolding receive update_topic_by_message_type
  receive-SameHead message_type f p = (refl, refl, refl)

  obey-SameHead : (f : Payload → Payload) (p : Peer) → SameHead (on_client (obey x f) p) p
  unfolding obey update_topic_by_message_type
  obey-SameHead f p = (refl, refl, refl)

  bury-SameHead :
      (birth death : Text) (f : Payload → Payload) (p : Peer)
      → SameHead (on_client (bury x birth death f) p) p
  unfolding bury update_topic_by_message_type
  bury-SameHead birth death f p =
      elim (Option-cases (get_topic_by_message_type x.util death p.client)) [
        | inl e ↦ rw (e, bury) (refl, refl, refl)
        | inr (t, e) ↦ rw (e, bury) (ground arith)
      ]

  update_device-SameHead :
      (device_name : Text) (f : Client → Client) (p : Peer)
      → SameHead (update_device x device_name f p) p
  unfolding update_device
  update_device-SameHead device_name f p = ground arith

  create_device-SameHead :
      (now : ℕ) (device_name : Text) (p : Peer) → SameHead (create_device x now device_name p) p
  unfolding create_device
  create_device-SameHead now device_name p = ground arith

  bear_device-SameHead :
      (now : ℕ) (device_name : Text) (f : Payload → Payload) (p : Peer)
      → SameHead (bear_device x now device_name f p) p
  unfolding bear_device
  bear_device-SameHead now device_name f p =
      let made = create_device x now device_name p in
      let (h, s, i) = create_device-SameHead now device_name p in
      let (h', s', i') = update_device-SameHead device_name (receive x (codes "DBIRTH") f) made in
      elim (Option-cases (get_topic_by_message_type x.util (codes "NBIRTH") p.client)) [
        | inl e ↦ rw (e, bear_device) (refl, refl, refl)
        | inr (t, e) ↦ rw (e, bear_device) (ground (arith, h' ∙ h, s' ∙ s, i' ∙ i))
      ]

  pub request_of-IsGentle :
      (now : ℕ) (t : TopicName) (bytes : List ℕ) → IsGentle (request_of x now t bytes)
  request_of-IsGentle now t bytes =
      request_of-Allows (λ f. (p : Peer) → SameHead (f p) p) x now t bytes receive-SameHead
        bury-SameHead obey-SameHead (bear_device-SameHead now)
        (λ name message_type f. update_device-SameHead name (receive x message_type f))
        (λ name birth death f. update_device-SameHead name (bury x birth death f))
