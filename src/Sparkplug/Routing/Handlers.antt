-- ===== src/Sparkplug/Routing/Handlers.antt =====
-- What a node does with the messages that arrive (`Message` in src/sparkplugnode.cpp and the nine
-- functions that it chooses from). The time is the one that an unset timestamp of a payload gets.
use pubsublib.Prelude.{ℕ, Bool, true, false, ◌||◌, none, some, List, if◌then◌else◌, is_none}
use pubsublib.Prelude.Texts.{Text, codes, text_eq, is_empty}
use pubsublib.StringUtil.Map.{update}
use pubsublib.Payload.Defs.{Payload, set_all_metrics_invalid}
use pubsublib.Payload.Json.{parse_sparkplug_json}
use pubsublib.Payload.Protobuf.{parse_sparkplug_protobuf}
use pubsublib.Topic.Name.{TopicName, set_topic}
use pubsublib.Topic.Object.{Topic, make_sparkplug_topic}
use pubsublib.Externals.{Externals}
use pubsublib.Client.Defs.{Client, get_topic_by_message_type, update_topic_by_message_type}
use pubsublib.Sparkplug.Node.{Node, Peer}
use pubsublib.Sparkplug.Creation.{
  set_name, set_group_id, make_node_peer, make_host_peer, create_device,
}
use pubsublib.Sparkplug.Routing.Known.{
  Known, Key, host, node, matches, get_peer, update_peer, ensure_peer,
}

-- A write to the payload of a topic that is not published by this program.
abbrev pub receive_into : (Payload → Payload) → Topic → Topic
receive_into f t = if t.publish then t else record t { payload = f t.payload }

abbrev pub fill : (Payload → Payload) → Topic → Topic
fill f t = record t { payload = f t.payload }

abbrev pub on_client : (Client → Client) → Peer → Peer
on_client f p = record p { client = f p.client }

-- A node as a receiver.
unfoldable pub as_known : Node → Known
as_known n = record {
  own = record { is_host = false; client = n.client; device_list = n.device_list };
  peers = n.node_list;
}

module _ (x : Externals) where
  -- The body of every handler: the bytes become the body, and are parsed if there are any.
  unfoldable pub receive_json : List ℕ → Payload → Payload
  receive_json bytes p =
      let q = record p { body = bytes } in
      if is_empty bytes then q else parse_sparkplug_json x.util x.parse_json true q

  unfoldable pub receive_protobuf : Bool → ℕ → List ℕ → Payload → Payload
  receive_protobuf create now bytes p =
      let q = record p { body = bytes } in
      if is_empty bytes then q else parse_sparkplug_protobuf x.util x.protobuf create now q

  -- The topic of a message type is written, unless it is missing or published.
  unfoldable pub receive : Text → (Payload → Payload) → Client → Client
  receive message_type f = update_topic_by_message_type x.util message_type (receive_into f)

  -- The two death messages: the death topic is written, and all metrics of the birth topic become
  -- invalid; nothing, if one of the two is missing or the death topic is published.
  unfoldable pub bury : Text → Text → (Payload → Payload) → Client → Client
  bury birth death f c = elim (get_topic_by_message_type x.util death c) [
    | none ↦ c
    | some t ↦
        if t.publish || is_none (get_topic_by_message_type x.util birth c)
        then c
        else update_topic_by_message_type x.util birth (fill set_all_metrics_invalid)
            (update_topic_by_message_type x.util death (fill f) c)
  ]

  -- An NCMD message writes the NBIRTH topic that the receiver itself publishes.
  unfoldable pub obey : (Payload → Payload) → Client → Client
  obey f =
      update_topic_by_message_type x.util (codes "NBIRTH") (λ t. if t.publish then fill f t else t)

  -- A change of the device that GetDevice finds; the one of a host finds none.
  unfoldable pub update_device : Text → (Client → Client) → Peer → Peer
  update_device device_name f p = if p.is_host then p else record p {
    device_list = update x.util device_name (λ d. record d { client = f d.client }) p.device_list;
  }

  -- A DBIRTH message, at the node that it names.
  unfoldable pub bear_device : ℕ → Text → (Payload → Payload) → Peer → Peer
  bear_device now device_name f p =
      elim (get_topic_by_message_type x.util (codes "NBIRTH") p.client) [
        | none ↦ p
        | some t ↦
            if t.publish
            then p
            else update_device device_name (receive (codes "DBIRTH") f)
                (create_device x now device_name p)
      ]

  -- The entry that a key gets when nobody is found.
  unfoldable pub new_peer : ℕ → Key → Peer
  new_peer now (host id) = on_client (set_name id) (make_host_peer x now)
  new_peer now (node group_id node_id) =
      on_client (λ c. set_name node_id (set_group_id group_id c)) (make_node_peer x now)

  -- The way of most handlers: find or create, and write.
  unfoldable pub visit : ℕ → Key → (Peer → Peer) → Known → Known
  visit now key f k =
      update_peer (matches x.util key) f (ensure_peer (matches x.util key) (new_peer now key) k)

  unfoldable pub handle_state_message : ℕ → Text → List ℕ → Known → Known
  handle_state_message now host_name bytes k =
      if is_empty host_name
      then k
      else visit now (host host_name) (on_client (receive (codes "STATE") (receive_json bytes))) k

  unfoldable pub handle_node_birth_message : ℕ → Text → Text → List ℕ → Known → Known
  handle_node_birth_message now group_name node_name bytes k =
      if is_empty group_name || is_empty node_name
      then k
      else visit now (node group_name node_name)
          (on_client (receive (codes "NBIRTH") (receive_protobuf true now bytes))) k

  unfoldable pub handle_node_death_message : ℕ → Text → Text → List ℕ → Known → Known
  handle_node_death_message now group_name node_name bytes k =
      if is_empty group_name || is_empty node_name
      then k
      else update_peer (matches x.util (node group_name node_name))
          (on_client (bury (codes "NBIRTH") (codes "NDEATH") (receive_protobuf true now bytes))) k

  unfoldable pub handle_node_command_message : ℕ → Text → Text → List ℕ → Known → Known
  handle_node_command_message now group_name node_name bytes k =
      if is_empty group_name
        || is_empty node_name
        || is_none (get_peer x.util (node group_name node_name) k)
      then k
      else record k { own = on_client (obey (receive_protobuf false now bytes)) k.own }

  unfoldable pub handle_node_data_message : ℕ → Text → Text → List ℕ → Known → Known
  handle_node_data_message now group_name node_name bytes k =
      update_peer (matches x.util (node group_name node_name))
        (on_client (receive (codes "NBIRTH") (receive_protobuf false now bytes))) k

  unfoldable pub handle_device_birth_message : ℕ → Text → Text → Text → List ℕ → Known → Known
  handle_device_birth_message now group_name node_name device_name bytes k =
      if is_empty group_name || is_empty node_name || is_empty device_name
      then k
      else visit now (node group_name node_name)
          (bear_device now device_name (receive_protobuf true now bytes)) k

  unfoldable pub handle_device_death_message : ℕ → Text → Text → Text → List ℕ → Known → Known
  handle_device_death_message now group_name node_name device_name bytes k =
      if is_empty group_name || is_empty node_name || is_empty device_name
      then k
      else update_peer (matches x.util (node group_name node_name))
          (update_device device_name
            (bury (codes "DBIRTH") (codes "DDEATH") (receive_protobuf true now bytes)))
          k

  -- HandleDeviceCommandMessage and HandleDeviceDataMessage, which do the same.
  unfoldable pub handle_device_data_message : ℕ → Text → Text → Text → List ℕ → Known → Known
  handle_device_data_message now group_name node_name device_name bytes k =
      if is_empty group_name || is_empty node_name || is_empty device_name
      then k
      else visit now (node group_name node_name)
          (update_device device_name (receive (codes "DBIRTH") (receive_protobuf true now bytes))) k

  -- The choice that Message makes by the levels of the topic name.
  unfoldable pub route : ℕ → TopicName → List ℕ → Known → Known
  route now t bytes k =
      let is_type = text_eq t.message_type in
      if is_type (codes "STATE")
      then handle_state_message now t.node_id bytes k
      else if is_type (codes "NBIRTH")
      then handle_node_birth_message now t.group_id t.node_id bytes k
      else if is_type (codes "NDEATH")
      then handle_node_death_message now t.group_id t.node_id bytes k
      else if is_type (codes "NCMD")
      then handle_node_command_message now t.group_id t.node_id bytes k
      else if is_type (codes "NDATA")
      then handle_node_data_message now t.group_id t.node_id bytes k
      else if is_type (codes "DBIRTH")
      then handle_device_birth_message now t.group_id t.node_id t.device_id bytes k
      else if is_type (codes "DDEATH")
      then handle_device_death_message now t.group_id t.node_id t.device_id bytes k
      else if is_type (codes "DCMD") || is_type (codes "DDATA")
      then handle_device_data_message now t.group_id t.node_id t.device_id bytes k
      else k

  -- Message, with OnMessageArrived's check of the name.
  unfoldable pub message_arrived : ℕ → Text → List ℕ → Known → Known
  message_arrived now topic_name bytes k =
      if is_empty topic_name
      then k
      else route now (set_topic topic_name (make_sparkplug_topic.names)) bytes k

  -- The same on a node.
  unfoldable pub node_message_arrived : ℕ → Text → List ℕ → Node → Node
  node_message_arrived now topic_name bytes n =
      let k = message_arrived now topic_name bytes (as_known n) in
      record n { client = k.own.client; device_list = k.own.device_list; node_list = k.peers }
