-- ===== src/Sparkplug/Routing/Receivers.antt =====
-- What messages leave alone in the node that receives them (src/sparkplugnode.cpp).
use pubsublib.Prelude.{
  ℕ, ◌≡◌, refl, ap, ◌∙◌, Bool, true, false, ◌&&◌, List, [], ◌∷◌, ◌++◌, arith, if◌then◌else◌, any,
  update_if, All, Bool-cases, Option-cases, inl, inr,
}
use pubsublib.Prelude.Texts.{Text, codes, text_eq, is_empty}
use pubsublib.Topic.Name.{TopicName, set_topic}
use pubsublib.Topic.Object.{make_sparkplug_topic}
use pubsublib.Externals.{Externals}
use pubsublib.Sparkplug.Node.{Node, Peer, says_online, is_host_online}
use pubsublib.Sparkplug.Creation.{make_node_peer}
use pubsublib.Sparkplug.Routing.Known.{
  Known, host, node, matches, get_peer, update_peer, ensure_peer,
}
use pubsublib.Sparkplug.Routing.Handlers.{
  new_peer, visit, message_arrived, as_known, node_message_arrived,
}
use pubsublib.Sparkplug.Routing.Keys.{is_tidy, SameHead, is_host-matches}
use pubsublib.Sparkplug.Routing.Views.{IsTidy, ensure_peer-IsTidy}
use pubsublib.Sparkplug.Routing.Refinement.{
  Request, meet, change, command, nothing, request_of, perform, route-perform,
}
use pubsublib.Sparkplug.Routing.Requests.{Allows, IsGentle, new_peer_named, request_of-IsGentle}
use pubsublib.Sparkplug.Routing.Deliveries.{own-update_peer, own-visit, message_arrived-perform}

-- A message that is a STATE message.
abbrev pub is_state_message : Text → Bool
is_state_message topic_name =
    text_eq (set_topic topic_name (make_sparkplug_topic.names)).message_type (codes "STATE")

-- A node's list in which no host has a group.
abbrev pub IsTidyNode : Node → Type 0
IsTidyNode n = All (λ p. is_tidy p ≡ true) n.node_list

module _ (x : Externals) where
  if-SameHead :
      (b : Bool) (p : Peer) (f : Peer → Peer)
      → ((p : Peer) → SameHead (f p) p)
      → SameHead (if b then f p else p) p
  if-SameHead true p f keep = keep p
  if-SameHead false p f keep = (refl, refl, refl)

  perform-SameHead :
      (now : ℕ) (r : Request) (k : Known) → IsGentle r → SameHead (perform x now r k).own k.own
  unfolding perform Allows
  perform-SameHead now (meet key f) k (v, keep) =
      rw (own-visit x now key f k) (if-SameHead (matches x.util key k.own) k.own f keep)
  perform-SameHead now (change key f) k keep =
      rw (own-update_peer x (matches x.util key) f k)
        (if-SameHead (matches x.util key k.own) k.own f keep)
  perform-SameHead now (command key f) k keep = elim (Option-cases (get_peer x.util key k)) [
    | inl e ↦ rw (e, perform) (refl, refl, refl)
    | inr (p, e) ↦ rw (e, perform) (keep k.own)
  ]
  perform-SameHead now nothing k keep = (refl, refl, refl)

  -- A message keeps the names and the settings of the receiver.
  message_arrived-SameHead :
      (now : ℕ) (topic_name : Text) (bytes : List ℕ) (k : Known)
      → SameHead (message_arrived x now topic_name bytes k).own k.own
  unfolding message_arrived
  message_arrived-SameHead now topic_name bytes k =
      let names = set_topic topic_name (make_sparkplug_topic.names) in
      let r = request_of x now names bytes in
      rw (route-perform x now names bytes k) (elim (Bool-cases (is_empty topic_name)) [
        | inl e ↦ rw e (refl, refl, refl)
        | inr e ↦ rw e (perform-SameHead now r k (request_of-IsGentle x now names bytes))
      ])

  pub in_service-node_message_arrived :
      (now : ℕ) (topic_name : Text) (bytes : List ℕ) (n : Node)
      → (node_message_arrived x now topic_name bytes n).in_service ≡ n.in_service
  unfolding node_message_arrived as_known
  in_service-node_message_arrived now topic_name bytes n =
      (message_arrived-SameHead now topic_name bytes (as_known n)).2

  -- Whether a host is listed that says that it is online.
  abbrev lists_online : List Peer → Bool
  lists_online = any (λ p. p.is_host && says_online x p.client)

  abbrev asks_for_host : Request → Bool
  asks_for_host (meet (host id) f) = true
  asks_for_host (change (host id) f) = true
  asks_for_host _ = false

  request_of-node :
      (now : ℕ) (t : TopicName) (bytes : List ℕ)
      → text_eq t.message_type (codes "STATE") ≡ false
      → asks_for_host (request_of x now t bytes) ≡ false
  unfolding request_of
  request_of-node now t bytes h = ground arith

  lists_online-update_if :
      (g m : Text) (f : Peer → Peer) (ps : List Peer)
      → ((p : Peer) → SameHead (f p) p)
      → All (λ p. is_tidy p ≡ true) ps
      → lists_online (update_if (matches x.util (node g m)) f ps) ≡ lists_online ps
  lists_online-update_if g m f [] keep t = refl
  lists_online-update_if g m f (p ∷ ps) keep (t, ts) =
      ground
        (arith, is_host-matches x.util g m p t, (keep p).0, lists_online-update_if g m f ps keep ts)

  lists_online-append :
      (new : Peer) (ps : List Peer)
      → new.is_host ≡ false
      → lists_online (ps ++ new ∷ []) ≡ lists_online ps
  lists_online-append new [] h = ground arith
  lists_online-append new (p ∷ ps) h = ground (arith, lists_online-append new ps h)

  lists_online-update_peer :
      (g m : Text) (f : Peer → Peer) (k : Known)
      → ((p : Peer) → SameHead (f p) p)
      → IsTidy k
      → lists_online (update_peer (matches x.util (node g m)) f k).peers ≡ lists_online k.peers
  unfolding update_peer
  lists_online-update_peer g m f k keep (t, ts) =
      ground (arith, lists_online-update_if g m f k.peers keep ts)

  lists_online-ensure_peer :
      (test : Peer → Bool) (new : Peer) (k : Known)
      → new.is_host ≡ false
      → lists_online (ensure_peer test new k).peers ≡ lists_online k.peers
  unfolding ensure_peer
  lists_online-ensure_peer test new k h = ground (arith, lists_online-append new k.peers h)

  lists_online-perform :
      (now : ℕ) (r : Request) (k : Known)
      → IsGentle r
      → asks_for_host r ≡ false
      → IsTidy k
      → lists_online (perform x now r k).peers ≡ lists_online k.peers
  unfolding perform visit Allows new_peer make_node_peer
  lists_online-perform now (meet (node g m) f) k (v, keep) a t =
      let new = new_peer x now (node g m) in
      let (found, tidy) = new_peer_named x now (node g m) v in
      let test = matches x.util (node g m) in
      lists_online-update_peer g m f (ensure_peer test new k) keep
        (ensure_peer-IsTidy x.util test new k tidy t)
      ∙ lists_online-ensure_peer test new k refl
  lists_online-perform now (change (node g m) f) k keep a t =
      lists_online-update_peer g m f k keep t
  lists_online-perform now (meet (host id) f) k keep a t = ground arith
  lists_online-perform now (change (host id) f) k keep a t = ground arith
  lists_online-perform now (command key f) k keep a t = ground arith
  lists_online-perform now nothing k keep a t = refl

  lists_online-message_arrived :
      (now : ℕ) (topic_name : Text) (bytes : List ℕ) (k : Known)
      → is_state_message topic_name ≡ false
      → IsTidy k
      → lists_online (message_arrived x now topic_name bytes k).peers ≡ lists_online k.peers
  unfolding message_arrived
  lists_online-message_arrived now topic_name bytes k s t =
      let names = set_topic topic_name (make_sparkplug_topic.names) in
      let r = request_of x now names bytes in
      let gentle = request_of-IsGentle x now names bytes in
      rw (route-perform x now names bytes k) (elim (Bool-cases (is_empty topic_name)) [
        | inl e ↦ rw e refl
        | inr e ↦ rw e (lists_online-perform now r k gentle (request_of-node now names bytes s) t)
      ])

  pub is_host_online-node_message_arrived :
      (now : ℕ) (topic_name : Text) (bytes : List ℕ) (n : Node)
      → is_state_message topic_name ≡ false
      → IsTidyNode n
      → is_host_online x (node_message_arrived x now topic_name bytes n) ≡ is_host_online x n
  unfolding is_host_online node_message_arrived as_known
  is_host_online-node_message_arrived now topic_name bytes n s t =
      lists_online-message_arrived now topic_name bytes (as_known n) s (refl, t)

  pub node_message_arrived-IsTidyNode :
      (now : ℕ) (topic_name : Text) (bytes : List ℕ) (n : Node)
      → IsTidyNode n
      → IsTidyNode (node_message_arrived x now topic_name bytes n)
  unfolding node_message_arrived as_known
  node_message_arrived-IsTidyNode now topic_name bytes n t =
      (message_arrived-perform x (record { time = now; topic_name = topic_name; body = bytes })
        (as_known n) (refl, t)).1.1

  pub wait-node_message_arrived :
      (now : ℕ) (topic_name : Text) (bytes : List ℕ) (n : Node)
      → (node_message_arrived x now topic_name bytes n).wait_on_host_online ≡ n.wait_on_host_online
  unfolding node_message_arrived as_known
  wait-node_message_arrived now topic_name bytes n =
      ap (λ s. s.wait_on_host_online) (message_arrived-SameHead now topic_name bytes (as_known n)).1
