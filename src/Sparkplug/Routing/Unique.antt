-- ===== src/Sparkplug/Routing/Unique.antt =====
-- A node lists nobody twice (`node_list_` in src/sparkplugnode.h).
use pubsublib.Prelude.{
  ℕ, suc, ◌+◌, ◌≤◌, ◌≡◌, refl, Bool, true, none, List, [], ◌∷◌, ◌++◌, arith, if◌then◌else◌, find_if,
  update_if, All, Bool-cases, Option-cases, inl, inr,
}
use pubsublib.Prelude.Texts.{is_empty}
use pubsublib.Topic.Name.{set_topic}
use pubsublib.Topic.Object.{make_sparkplug_topic}
use pubsublib.Externals.{Externals}
use pubsublib.StringUtil.{StringUtil}
use pubsublib.Sparkplug.Node.{Peer}
use pubsublib.Sparkplug.Routing.Known.{Known, Key, matches, find_peer, update_peer, ensure_peer}
use pubsublib.Sparkplug.Routing.Handlers.{new_peer, visit, message_arrived}
use pubsublib.Sparkplug.Routing.Keys.{
  is_tidy, SameHead, same_key, same_key-sym, matches_agree, matches-SameHead,
}
use pubsublib.Sparkplug.Routing.Views.{IsTidy}
use pubsublib.Sparkplug.Routing.Refinement.{
  Request, meet, change, command, nothing, request_of, perform, route-perform,
}
use pubsublib.Sparkplug.Routing.Requests.{Allows, IsGentle, new_peer_named, request_of-IsGentle}
use pubsublib.Sparkplug.Routing.Deliveries.{Delivery, deliver, message_arrived-perform}

-- How many entries of a list a test accepts.
abbrev pub count : (Peer → Bool) → List Peer → ℕ
count test [] = 0
count test (p ∷ ps) = if test p then suc (count test ps) else count test ps

module _ (u : StringUtil) where
  -- No name finds two of them, the receiver counted.
  abbrev pub IsUnique : Known → Type 0
  IsUnique k = (name : Key) → count (matches u name) (k.own ∷ k.peers) ≤ 1

  count-update_if :
      (name : Key) (test : Peer → Bool) (f : Peer → Peer) (ps : List Peer)
      → ((p : Peer) → SameHead (f p) p)
      → count (matches u name) (update_if test f ps) ≡ count (matches u name) ps
  count-update_if name test f [] keep = refl
  count-update_if name test f (p ∷ ps) keep =
      ground (arith, matches-SameHead u name (f p) p (keep p), count-update_if name test f ps keep)

  update_peer-IsUnique :
      (test : Peer → Bool) (f : Peer → Peer) (k : Known)
      → ((p : Peer) → SameHead (f p) p)
      → IsUnique k
      → IsUnique (update_peer test f k)
  unfolding update_peer
  update_peer-IsUnique test f k keep h name = ground (
    arith,
    h name,
    matches-SameHead u name (f k.own) k.own (keep k.own),
    count-update_if name test f k.peers keep,
  )

  count-append :
      (name : Key) (new : Peer) (ps : List Peer)
      → count (matches u name) (ps ++ new ∷ [])
        ≡ count (matches u name) ps + (if matches u name new then 1 else 0)
  count-append name new [] = ground arith
  count-append name new (p ∷ ps) = ground (arith, count-append name new ps)

  -- What is not found is not counted.
  count-find_if :
      (a b : Key) (ps : List Peer)
      → find_if (matches u a) ps ≡ none
      → same_key u a b ≡ true
      → All (λ p. is_tidy p ≡ true) ps
      → count (matches u b) ps ≡ 0
  count-find_if a b [] h e t = refl
  count-find_if a b (p ∷ ps) h e (t, ts) =
      ground (arith, matches_agree u b a p t, same_key-sym u a b, count-find_if a b ps)

  ensure_peer-IsUnique :
      (key : Key) (new : Peer) (k : Known)
      → matches u key new ≡ true
      → is_tidy new ≡ true
      → IsTidy k
      → IsUnique k
      → IsUnique (ensure_peer (matches u key) new k)
  unfolding ensure_peer find_peer
  ensure_peer-IsUnique key new k m n (t, ts) h name =
      elim (Option-cases (find_if (matches u key) k.peers)) [
        | inl e ↦ ground (
          arith,
          e,
          h name,
          count-append name new k.peers,
          matches_agree u key name new n m,
          matches_agree u name key k.own t,
          same_key-sym u key name,
          count-find_if key name k.peers,
        )
        | inr (p, e) ↦ ground (arith, e, h name)
      ]

module _ (x : Externals) where
  perform-IsUnique :
      (now : ℕ) (r : Request) (k : Known)
      → IsGentle r
      → IsTidy k
      → IsUnique x.util k
      → IsUnique x.util (perform x now r k)
  unfolding perform visit Allows
  perform-IsUnique now (meet key f) k (v, keep) t h =
      let (m, n) = new_peer_named x now key v in
      update_peer-IsUnique x.util (matches x.util key) f _ keep
        (ensure_peer-IsUnique x.util key (new_peer x now key) k m n t h)
  perform-IsUnique now (change key f) k keep t h =
      update_peer-IsUnique x.util (matches x.util key) f k keep h
  perform-IsUnique now (command key f) k keep t h =
      λ name. ground (arith, h name, matches-SameHead x.util name (f k.own) k.own (keep k.own))
  perform-IsUnique now nothing k keep t h = h

  message_arrived-IsUnique :
      (d : Delivery) (k : Known)
      → IsTidy k
      → IsUnique x.util k
      → IsUnique x.util (message_arrived x d.time d.topic_name d.body k)
  unfolding message_arrived
  message_arrived-IsUnique d k t h =
      let names = set_topic d.topic_name (make_sparkplug_topic.names) in
      let r = request_of x d.time names d.body in
      let gentle = request_of-IsGentle x d.time names d.body in
      rw (route-perform x d.time names d.body k) (elim (Bool-cases (is_empty d.topic_name)) [
        | inl e ↦ rw e h
        | inr e ↦ rw e (perform-IsUnique d.time r k gentle t h)
      ])

  -- If no host has a group and no name finds two entries (the receiver counted), this holds after any
  -- messages, with everybody that was listed on the way.
  pub deliver-IsUnique :
      (ds : List Delivery) (k : Known)
      → IsTidy k
      → IsUnique x.util k
      → IsUnique x.util (deliver x ds k)
  unfolding deliver
  deliver-IsUnique [] k t h = h
  deliver-IsUnique (d ∷ ds) k t h =
      let (same, tidy) = message_arrived-perform x d k t in
      deliver-IsUnique ds (message_arrived x d.time d.topic_name d.body k) tidy
        (message_arrived-IsUnique d k t h)
