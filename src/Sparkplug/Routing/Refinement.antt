-- ===== src/Sparkplug/Routing/Refinement.antt =====
-- The list of a node's external nodes and hosts as a map from names to entries, and the messages as
-- changes of that map (`Message` in src/sparkplugnode.cpp).
use mathlib.Core.Option
use pubsublib.Prelude.{
  ℕ, ◌≡◌, Bool, true, false, not, ◌&&◌, ◌||◌, Option, some, List, arith, if◌then◌else◌, is_none,
}
use pubsublib.Prelude.Texts.{codes, text_eq, is_empty}
use pubsublib.Topic.Name.{TopicName}
use pubsublib.Externals.{Externals}
use pubsublib.Sparkplug.Node.{Peer}
use pubsublib.Sparkplug.Routing.Known.{Known, Key, host, node, matches, get_peer, update_peer}
use pubsublib.Sparkplug.Routing.Handlers.{
  receive_json, receive_protobuf, receive, bury, obey, on_client, update_device, bear_device,
  new_peer, visit, route, handle_state_message, handle_node_birth_message,
  handle_node_death_message, handle_node_command_message, handle_node_data_message,
  handle_device_birth_message, handle_device_death_message, handle_device_data_message,
}
use pubsublib.Sparkplug.Routing.Keys.{same_key}

-- What a message asks for: a change of the entry of a name, which is made if it is missing; a change of
-- an entry that is there; a command to the receiver, if the name is known; or nothing.
pub data Request : Type 0 where
  meet : Key → (Peer → Peer) → Request
  change : Key → (Peer → Peer) → Request
  command : Key → (Peer → Peer) → Request
  nothing : Request

-- The receiver, and what is known under each name.
abbrev pub Directory : Type 0
Directory = Peer × (Key → Option Peer)

module _ (x : Externals) where
  -- The request of a message, by the levels of its topic name.
  unfoldable pub request_of : ℕ → TopicName → List ℕ → Request
  request_of now t bytes =
      let is_type = text_eq t.message_type in
      let remote = node t.group_id t.node_id in
      let named = not (is_empty t.group_id) && not (is_empty t.node_id) in
      let device_named = named && not (is_empty t.device_id) in
      let proto = λ (create : Bool). receive_protobuf x create now bytes in
      if is_type (codes "STATE")
      then (if is_empty t.node_id
          then nothing
          else meet (host t.node_id) (on_client (receive x (codes "STATE") (receive_json x bytes))))
      else if is_type (codes "NBIRTH")
      then (if named
          then meet remote (on_client (receive x (codes "NBIRTH") (proto true)))
          else nothing)
      else if is_type (codes "NDEATH")
      then (if named
          then change remote (on_client (bury x (codes "NBIRTH") (codes "NDEATH") (proto true)))
          else nothing)
      else if is_type (codes "NCMD")
      then (if named then command remote (on_client (obey x (proto false))) else nothing)
      else if is_type (codes "NDATA")
      then change remote (on_client (receive x (codes "NBIRTH") (proto false)))
      else if is_type (codes "DBIRTH")
      then (if device_named
          then meet remote (bear_device x now t.device_id (proto true))
          else nothing)
      else if is_type (codes "DDEATH")
      then (if device_named
          then change remote
              (update_device x t.device_id (bury x (codes "DBIRTH") (codes "DDEATH") (proto true)))
          else nothing)
      else if is_type (codes "DCMD") || is_type (codes "DDATA")
      then (if device_named
          then meet remote (update_device x t.device_id (receive x (codes "DBIRTH") (proto true)))
          else nothing)
      else nothing

  -- The map after a request.
  unfoldable pub serve : ℕ → Request → Directory → Directory
  serve now (meet key f) (own, find) = (
    (if matches x.util key own then f own else own),
    λ name.
        if same_key x.util key name
        then some (f (Option.get_or (find name) (new_peer x now key)))
        else find name,
  )
  serve now (change key f) (own, find) = (
    (if matches x.util key own then f own else own),
    λ name. if same_key x.util key name then Option.map f (find name) else find name,
  )
  serve now (command key f) (own, find) =
      if is_none (find key)
      then (own, find)
      else (f own, λ name. if matches x.util name own then some (f own) else find name)
  serve now nothing d = d

  -- The map that a list of entries stands for.
  unfoldable pub directory : Known → Directory
  directory k = (k.own, λ name. get_peer x.util name k)

  -- The list after a request.
  unfoldable pub perform : ℕ → Request → Known → Known
  perform now (meet key f) k = visit x now key f k
  perform now (change key f) k = update_peer (matches x.util key) f k
  perform now (command key f) k =
      if is_none (get_peer x.util key k) then k else record k { own = f k.own }
  perform now nothing k = k

  -- The functions of the program do what the requests ask for.
  pub route-perform :
      (now : ℕ) (t : TopicName) (bytes : List ℕ) (k : Known)
      → route x now t bytes k ≡ perform now (request_of now t bytes) k
  unfolding route request_of perform handle_state_message handle_node_birth_message
      handle_node_death_message handle_node_command_message handle_node_data_message
      handle_device_birth_message handle_device_death_message handle_device_data_message
  route-perform now t bytes k = ground arith
