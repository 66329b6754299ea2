-- ===== src/Sparkplug/Node.antt =====
-- The class `SparkplugNode` (src/sparkplugnode.h, src/sparkplugnode.cpp): its state and what its rounds
-- are made of.
use pubsublib.Prelude.{
  ℕ, Bool, true, false, not, ◌&&◌, none, some, List, [], ◌∷◌, ◌++◌, map, any, if◌then◌else◌,
}
use pubsublib.Prelude.Texts.{Text, codes, text_eq}
use pubsublib.StringUtil.Map.{TextMap}
use pubsublib.Topic.Name.{set_topic}
use pubsublib.Topic.Object.{Topic, make_sparkplug_topic, topic_message, store_topic_name}
use pubsublib.Payload.Defs.{Payload, set_value_unsigned, set_timestamp, get_value_bool}
use pubsublib.Payload.Protobuf.{generate_protobuf}
use pubsublib.Client.Defs.{
  Client, connect_string, get_topic_by_message_type, update_topic_by_message_type,
}
use pubsublib.Externals.{
  Externals, Env, Message, Qos, qos1, Call, create, set_callbacks, connect, disconnect, destroy,
  subscribe, send,
}
use pubsublib.Sparkplug.Publish.{publish_prepared}
use pubsublib.Sparkplug.Device.{Device, Parent, poll}

-- NodeState.
pub data NodeState : Type 0 where
  idle wait_on_connect online wait_on_disconnect : NodeState

-- An external host or node that the node has heard of.
pub record Peer : Type 0 where
  pub is_host : Bool
  pub client : Client
  pub open client use *
  pub device_list : TextMap Device

pub record Node : Type 0 where
  pub client : Client
  pub open client use *
  pub handle : Bool  -- handle_ != nullptr
  pub delivered : Bool
  pub server_uri : Text
  pub server_version : ℕ
  pub server_session : ℕ
  pub bd_sequence_number : ℕ
  pub sequence_number : ℕ
  pub node_state : NodeState
  pub stop_node_task : Bool
  pub looping : Bool  -- the thread has passed the test of its loop
  pub node_timer : ℕ
  pub device_list : TextMap Device
  pub node_list : List Peer

abbrev pub is_connected : Env → Node → Bool
is_connected env n = n.handle && env.is_connected

abbrev pub is_online_state : NodeState → Bool
is_online_state online = true
is_online_state _ = false

-- What the devices see of their node.
abbrev pub as_parent : Env → Node → Parent
as_parent env n = record {
  name = n.name;
  is_online = is_online_state n.node_state;
  in_service = n.in_service;
  is_connected = is_connected env n;
}

unfoldable pub destroy_handle : Node → Node × List Call
destroy_handle n = if n.handle then (record n { handle = false }, destroy ∷ []) else (n, [])

-- CreateNode.
unfoldable pub create_node : Env → Node → Node × List Call × Bool
create_node env n =
    let (clean, destroying) = destroy_handle n in
    if env.create_ok
    then (
      record clean { handle = true },
      destroying ++ create (connect_string n.settings) true ∷ set_callbacks ∷ [],
      env.callbacks_ok,
    )
    else (clean, destroying ++ create (connect_string n.settings) false ∷ [], false)

-- SendDisconnect: a request that fails counts as delivered.
unfoldable pub send_disconnect : Env → Node → Node × List Call
send_disconnect env n = (record n { delivered = not env.disconnect_ok }, disconnect ∷ [])

-- StartSubscription: commands to the node are asked for with quality 1.
unfoldable pub subscription_qos : Qos → Text → Qos
subscription_qos default_qos topic =
    if text_eq (set_topic topic (make_sparkplug_topic.names)).message_type (codes "NCMD")
    then qos1
    else default_qos

unfoldable pub start_subscription : Node → List Call
start_subscription n =
    map (λ topic. subscribe topic (subscription_qos n.default_qos topic)) n.subscription_list

module _ (x : Externals) where
  -- The payload of the will, and the message that the broker keeps for the node.
  unfoldable pub will_payload : ℕ → ℕ → Payload → Payload
  will_payload bd_sequence_number now p =
      let q =
        set_timestamp x.util now false
          (set_value_unsigned x.util (codes "bdSeq") bd_sequence_number p) in
      generate_protobuf x.util x.protobuf (record q { sequence_number = 0 })

  unfoldable pub will_message : Topic → Message
  will_message t = record (topic_message t) { qos = qos1; retained = false }

  -- SendConnect of a node.
  unfoldable pub send_connect : Env → Node → Node × List Call × Bool
  send_connect env n = elim (get_topic_by_message_type x.util (codes "NDEATH") n.client) [
    | none ↦ (n, [], false)
    | some t ↦
        let ready =
          store_topic_name
            (record t { payload = will_payload n.bd_sequence_number env.now t.payload }) in
        let stored = update_topic_by_message_type x.util (codes "NDEATH") (λ _. ready) n.client in
        (record n { client = stored }, connect (some (will_message ready)) ∷ [], env.connect_ok)
  ]

  -- IsHostOnline.
  unfoldable pub says_online : Client → Bool
  says_online c = elim (get_topic_by_message_type x.util (codes "STATE") c) [
    | none ↦ false
    | some t ↦ get_value_bool x.util (codes "online") t.payload
  ]

  unfoldable pub is_host_online : Node → Bool
  is_host_online n = any (λ peer. peer.is_host && says_online peer.client) n.node_list

  -- PublishNodeBirth and PublishNodeDeath, by the message type.
  unfoldable pub publish_node : Text → Env → Node → Node × List Call
  publish_node message_type env n =
      let sent = publish_prepared x message_type (λ t. t) true env.now n.sequence_number n.client in
      if is_connected env n
      then (
        record n { client = sent.client; sequence_number = sent.sequence_number },
        map send sent.messages,
      )
      else (n, [])

  unfoldable pub publish_node_birth : Env → Node → Node × List Call
  publish_node_birth = publish_node (codes "NBIRTH")

  unfoldable pub publish_node_death : Env → Node → Node × List Call
  publish_node_death = publish_node (codes "NDEATH")

  -- The loop of PollDevices: the devices share the node's counter.
  unfoldable pub poll_list : Parent → ℕ → ℕ → TextMap Device → TextMap Device × ℕ × List Message
  poll_list parent now n [] = ([], n, [])
  poll_list parent now n ((name, d) ∷ ds) =
      let polled = poll x parent now n d in
      let (rest, last, later) = poll_list parent now polled.sequence_number ds in
      ((name, polled.device) ∷ rest, last, polled.messages ++ later)

  unfoldable pub poll_devices : Env → Node → Node × List Call
  poll_devices env n =
      let (devices, last, messages) =
        poll_list (as_parent env n) env.now n.sequence_number n.device_list in
      (record n { device_list = devices; sequence_number = last }, map send messages)
