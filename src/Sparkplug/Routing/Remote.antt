-- ===== src/Sparkplug/Routing/Remote.antt =====
-- What messages do to the devices of external nodes (`HandleDeviceBirthMessage` and the others for
-- devices in src/sparkplugnode.cpp): nothing, once CreateDevice has made them.
use pubsublib.Prelude.{
  ℕ, Bool, List, [], ◌∷◌, arith, update_if, All, All-append, Bool-cases, Option-cases, inl, inr,
}
use pubsublib.Prelude.Texts.{is_empty}
use pubsublib.Topic.Name.{set_topic}
use pubsublib.Topic.Object.{make_sparkplug_topic}
use pubsublib.Externals.{Externals}
use pubsublib.Sparkplug.Node.{Peer}
use pubsublib.Sparkplug.Creation.{make_node_peer, make_host_peer}
use pubsublib.Sparkplug.Routing.Known.{
  Known, Key, host, node, matches, find_peer, get_peer, update_peer, ensure_peer,
}
use pubsublib.Sparkplug.Routing.Handlers.{receive, bury, new_peer, visit, message_arrived}
use pubsublib.Sparkplug.Routing.Refinement.{
  Request, meet, change, command, nothing, request_of, perform, route-perform,
}
use pubsublib.Sparkplug.Routing.Requests.{Allows, request_of-Allows}
use pubsublib.Sparkplug.Routing.Deliveries.{Delivery, deliver}
use pubsublib.Sparkplug.Routing.Fresh.{
  HasFreshDevices, update_device-fresh, receive-fresh, bury-fresh, bear_device-fresh,
}

module _ (x : Externals) where
  abbrev KeepsFresh : (Peer → Peer) → Type 0
  KeepsFresh f = (p : Peer) → HasFreshDevices x p → HasFreshDevices x (f p)

  update_if-fresh :
      (test : Peer → Bool) (f : Peer → Peer) (ps : List Peer)
      → KeepsFresh f
      → All (HasFreshDevices x) ps
      → All (HasFreshDevices x) (update_if test f ps)
  update_if-fresh test f [] keep h = h
  update_if-fresh test f (p ∷ ps) keep (h, hs) = elim (Bool-cases (test p)) [
    | inl e ↦ rw e (keep p h, hs)
    | inr e ↦ rw e (h, update_if-fresh test f ps keep hs)
  ]

  update_peer-fresh :
      (test : Peer → Bool) (f : Peer → Peer) (k : Known)
      → KeepsFresh f
      → All (HasFreshDevices x) k.peers
      → All (HasFreshDevices x) (update_peer test f k).peers
  unfolding update_peer
  update_peer-fresh test f k keep h = ground (arith, update_if-fresh test f k.peers keep h)

  new_peer-fresh : (now : ℕ) (key : Key) → HasFreshDevices x (new_peer x now key)
  unfolding new_peer make_node_peer make_host_peer
  new_peer-fresh now (host id) = tt
  new_peer-fresh now (node g n) = tt

  ensure_peer-fresh :
      (test : Peer → Bool) (new : Peer) (k : Known)
      → HasFreshDevices x new
      → All (HasFreshDevices x) k.peers
      → All (HasFreshDevices x) (ensure_peer test new k).peers
  unfolding ensure_peer
  ensure_peer-fresh test new k h hs = elim (Option-cases (find_peer test k)) [
    | inl e ↦ rw (e, ensure_peer) (All-append (HasFreshDevices x) k.peers (new ∷ []) hs (h, tt))
    | inr (p, e) ↦ rw (e, ensure_peer) hs
  ]

  perform-fresh :
      (now : ℕ) (r : Request) (k : Known)
      → Allows KeepsFresh r
      → All (HasFreshDevices x) k.peers
      → All (HasFreshDevices x) (perform x now r k).peers
  unfolding perform visit Allows
  perform-fresh now (meet key f) k (v, keep) h =
      update_peer-fresh (matches x.util key) f _ keep
        (ensure_peer-fresh (matches x.util key) (new_peer x now key) k (new_peer-fresh now key) h)
  perform-fresh now (change key f) k keep h = update_peer-fresh (matches x.util key) f k keep h
  perform-fresh now (command key f) k keep h = elim (Option-cases (get_peer x.util key k)) [
    | inl e ↦ rw (e, perform) h
    | inr (p, e) ↦ rw (e, perform) h
  ]
  perform-fresh now nothing k keep h = h

  message_arrived-fresh :
      (d : Delivery) (k : Known)
      → All (HasFreshDevices x) k.peers
      → All (HasFreshDevices x) (message_arrived x d.time d.topic_name d.body k).peers
  unfolding message_arrived
  message_arrived-fresh d k h =
      let names = set_topic d.topic_name (make_sparkplug_topic.names) in
      let r = request_of x d.time names d.body in
      let keeps =
        request_of-Allows KeepsFresh x d.time names d.body (λ message_type f p h. h)
          (λ birth death f p h. h) (λ f p h. h) (bear_device-fresh x d.time)
          (λ name message_type f p h.
            update_device-fresh x name (receive x message_type f) p (receive-fresh x message_type f)
              h)
          (λ name birth death f p h.
            update_device-fresh x name (bury x birth death f) p (bury-fresh x birth death f) h) in
      rw (route-perform x d.time names d.body k) (elim (Bool-cases (is_empty d.topic_name)) [
        | inl e ↦ rw e h
        | inr e ↦ rw e (perform-fresh d.time r k keeps h)
      ])

  -- Whatever messages arrive, births and data among them, every device of every external node or host is
  -- exactly as CreateDevice makes one, if this was so before: no message ever reaches its metrics.
  pub deliver-fresh :
      (ds : List Delivery) (k : Known)
      → All (HasFreshDevices x) k.peers
      → All (HasFreshDevices x) (deliver x ds k).peers
  unfolding deliver
  deliver-fresh [] k h = h
  deliver-fresh (d ∷ ds) k h =
      deliver-fresh ds (message_arrived x d.time d.topic_name d.body k)
        (message_arrived-fresh d k h)
