-- ===== src/Sparkplug/Routing/Known.antt =====
-- Whom a node knows: itself, and the list of external nodes and hosts (`GetHost` and `GetNode` in
-- src/sparkplugnode.cpp).
use pubsublib.Prelude.{
  Bool, not, ◌&&◌, Option, some, List, [], ◌∷◌, ◌++◌, if◌then◌else◌, is_none, find_if, update_if,
}
use pubsublib.Prelude.Texts.{Text, is_empty}
use pubsublib.StringUtil.{StringUtil}
use pubsublib.Sparkplug.Node.{Peer}

-- The receiver of the messages and its `node_list_`.
pub record Known : Type 0 where
  pub own : Peer
  pub peers : List Peer

-- What GetHost and GetNode are asked for.
pub data Key : Type 0 where
  host : Text → Key
  node : Text → Text → Key

-- A pointer to the first that passes a test, the receiver in front of the list.
unfoldable pub find_peer : (Peer → Bool) → Known → Option Peer
find_peer test k = if test k.own then some k.own else find_if test k.peers

-- A change through that pointer.
unfoldable pub update_peer : (Peer → Bool) → (Peer → Peer) → Known → Known
update_peer test f k =
    if test k.own then record k { own = f k.own } else record k { peers = update_if test f k.peers }

-- A new entry, if the pointer is null.
unfoldable pub ensure_peer : (Peer → Bool) → Peer → Known → Known
ensure_peer test new k =
    if is_none (find_peer test k) then record k { peers = k.peers ++ new ∷ [] } else k

module _ (u : StringUtil) where
  -- The test of GetHost, and the tests of GetNode, which finds nothing without both names. IEquals is
  -- symmetric.
  abbrev pub is_host_named : Text → Peer → Bool
  is_host_named host_id p = p.is_host && u.iequals host_id p.name

  abbrev pub is_node_named : Text → Text → Peer → Bool
  is_node_named group_id node_id p =
      not (is_empty group_id)
      && not (is_empty node_id)
      && u.iequals group_id p.group_id
      && u.iequals node_id p.name

  unfoldable pub matches : Key → Peer → Bool
  matches (host id) = is_host_named id
  matches (node group_id node_id) = is_node_named group_id node_id

  -- GetHost and GetNode.
  unfoldable pub get_peer : Key → Known → Option Peer
  get_peer key = find_peer (matches key)
