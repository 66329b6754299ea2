-- ===== src/Sparkplug/Routing/Deliveries.antt =====
-- Any number of messages in turn (`Message` in src/sparkplugnode.cpp), on the list of entries and on the
-- map from names to entries.
use mathlib.Core.Path.{fun_ext}
use mathlib.Core.Option
use pubsublib.Prelude.{
  ℕ, ◌≡◌, refl, ap, ◌∙◌, Bool, true, false, Option, some, List, [], ◌∷◌, arith, if◌then◌else◌,
  is_none, Bool-cases, inl, inr,
}
use pubsublib.Prelude.Texts.{Text, is_empty}
use pubsublib.Topic.Name.{set_topic}
use pubsublib.Topic.Object.{make_sparkplug_topic}
use pubsublib.Externals.{Externals}
use pubsublib.Sparkplug.Node.{Peer}
use pubsublib.Sparkplug.Routing.Known.{
  Known, Key, matches, find_peer, get_peer, update_peer, ensure_peer,
}
use pubsublib.Sparkplug.Routing.Handlers.{new_peer, visit, message_arrived}
use pubsublib.Sparkplug.Routing.Keys.{
  is_valid_key, SameHead, same_key, matches-SameHead, is_tidy-SameHead,
}
use pubsublib.Sparkplug.Routing.Views.{
  IsTidy, get_peer-update_peer, get_peer-ensure_peer, update_peer-IsTidy, ensure_peer-IsTidy,
  if-IsTidy,
}
use pubsublib.Sparkplug.Routing.Refinement.{
  Request, meet, change, command, nothing, Directory, request_of, serve, directory, perform,
  route-perform,
}
use pubsublib.Sparkplug.Routing.Requests.{Allows, IsGentle, new_peer_named, request_of-IsGentle}

-- A message that arrives at a time.
pub record Delivery : Type 0 where
  pub time : ℕ
  pub topic_name : Text
  pub body : List ℕ

module _ (x : Externals) where
  unfoldable pub deliver : List Delivery → Known → Known
  deliver [] k = k
  deliver (d ∷ ds) k = deliver ds (message_arrived x d.time d.topic_name d.body k)

  -- The same on the map.
  unfoldable pub serve_delivery : Delivery → Directory → Directory
  serve_delivery d m =
      if is_empty d.topic_name
      then m
      else serve x d.time
          (request_of x d.time (set_topic d.topic_name (make_sparkplug_topic.names)) d.body) m

  unfoldable pub serve_all : List Delivery → Directory → Directory
  serve_all [] m = m
  serve_all (d ∷ ds) m = serve_all ds (serve_delivery d m)

  pub own-update_peer :
      (test : Peer → Bool) (f : Peer → Peer) (k : Known)
      → (update_peer test f k).own ≡ (if test k.own then f k.own else k.own)
  unfolding update_peer
  own-update_peer test f k = ground arith

  own-ensure_peer :
      (test : Peer → Bool) (new : Peer) (k : Known) → (ensure_peer test new k).own ≡ k.own
  unfolding ensure_peer
  own-ensure_peer test new k = ground arith

  get_peer-visit :
      (now : ℕ) (key name : Key) (f : Peer → Peer) (k : Known)
      → is_valid_key key ≡ true
      → ((p : Peer) → SameHead (f p) p)
      → IsTidy k
      → get_peer x.util name (visit x now key f k) ≡ (
          if same_key x.util key name
          then some (f (Option.get_or (get_peer x.util name k) (new_peer x now key)))
          else get_peer x.util name k)
  unfolding visit
  get_peer-visit now key name f k v keep t =
      let new = new_peer x now key in
      let (m, n) = new_peer_named x now key v in
      let more = ensure_peer (matches x.util key) new k in
      ground (
        arith,
        get_peer-update_peer x.util key name f more keep
            (ensure_peer-IsTidy x.util (matches x.util key) new k n t),
        get_peer-ensure_peer x.util key name new k m n t,
      )

  pub own-visit :
      (now : ℕ) (key : Key) (f : Peer → Peer) (k : Known)
      → (visit x now key f k).own ≡ (if matches x.util key k.own then f k.own else k.own)
  unfolding visit
  own-visit now key f k =
      own-update_peer (matches x.util key) f _
      ∙ ap (λ p. if matches x.util key p then f p else p)
          (own-ensure_peer (matches x.util key) (new_peer x now key) k)

  pair_eq :
      {a b : Peer} {f g : Key → Option Peer}
      → a ≡ b
      → ((name : Key) → f name ≡ g name)
      → Path Directory (a, f) (b, g)
  pair_eq p q = rw (p, fun_ext q) refl

  get_peer-own :
      (name : Key) (f : Peer → Peer) (k : Known)
      → ((p : Peer) → SameHead (f p) p)
      → get_peer x.util name (record k { own = f k.own })
        ≡ (if matches x.util name k.own then some (f k.own) else get_peer x.util name k)
  unfolding get_peer find_peer
  get_peer-own name f k keep =
      ground (arith, matches-SameHead x.util name (f k.own) k.own (keep k.own))

  directory-own :
      (f : Peer → Peer) (k : Known) (unknown : Bool)
      → ((p : Peer) → SameHead (f p) p)
      → directory x (if unknown then k else record k { own = f k.own }) ≡ (
          if unknown then directory x k else (
            f k.own,
            λ name. if matches x.util name k.own then some (f k.own) else get_peer x.util name k,
          ))
  unfolding directory
  directory-own f k true keep = refl
  directory-own f k false keep = pair_eq refl (λ name. get_peer-own name f k keep)

  -- One request changes the list as it changes the map.
  directory-perform :
      (now : ℕ) (r : Request) (k : Known)
      → IsGentle r
      → IsTidy k
      → directory x (perform x now r k) ≡ serve x now r (directory x k)
  unfolding directory perform serve Allows
  directory-perform now (meet key f) k (v, keep) t =
      pair_eq (own-visit now key f k) (λ name. get_peer-visit now key name f k v keep t)
  directory-perform now (change key f) k keep t =
      pair_eq (own-update_peer (matches x.util key) f k)
        (λ name. get_peer-update_peer x.util key name f k keep t)
  directory-perform now (command key f) k keep t =
      directory-own f k (is_none (get_peer x.util key k)) keep
  directory-perform now nothing k keep t = refl

  perform-IsTidy :
      (now : ℕ) (r : Request) (k : Known) → IsGentle r → IsTidy k → IsTidy (perform x now r k)
  unfolding perform visit Allows
  perform-IsTidy now (meet key f) k (v, keep) t =
      let (m, n) = new_peer_named x now key v in
      update_peer-IsTidy x.util (matches x.util key) f _ keep
        (ensure_peer-IsTidy x.util (matches x.util key) (new_peer x now key) k n t)
  perform-IsTidy now (change key f) k keep t =
      update_peer-IsTidy x.util (matches x.util key) f k keep t
  perform-IsTidy now (command key f) k keep (t, ts) =
      if-IsTidy (is_none (get_peer x.util key k)) k (record k { own = f k.own }) (t, ts)
        (is_tidy-SameHead x.util (f k.own) k.own (keep k.own) ∙ t, ts)
  perform-IsTidy now nothing k keep t = t

  pub message_arrived-perform :
      (d : Delivery) (k : Known)
      → IsTidy k
      → (directory x (message_arrived x d.time d.topic_name d.body k)
          ≡ serve_delivery d (directory x k))
        × IsTidy (message_arrived x d.time d.topic_name d.body k)
  unfolding message_arrived serve_delivery
  message_arrived-perform d k t =
      let names = set_topic d.topic_name (make_sparkplug_topic.names) in
      let r = request_of x d.time names d.body in
      let gentle = request_of-IsGentle x d.time names d.body in
      rw (route-perform x d.time names d.body k) (elim (Bool-cases (is_empty d.topic_name)) [
        | inl e ↦ rw e (refl, t)
        | inr e ↦ rw e (directory-perform d.time r k gentle t, perform-IsTidy d.time r k gentle t)
      ])

  -- If no host has a group, any messages in turn change what a node finds under each name exactly as
  -- `serve_all` changes the map from names to entries, where every message changes the one entry that its
  -- request names, or the receiver; and afterwards no host has a group.
  pub directory-deliver :
      (ds : List Delivery) (k : Known)
      → IsTidy k
      → (directory x (deliver ds k) ≡ serve_all ds (directory x k)) × IsTidy (deliver ds k)
  unfolding deliver serve_all
  directory-deliver [] k t = (refl, t)
  directory-deliver (d ∷ ds) k t =
      let (same, tidy) = message_arrived-perform d k t in
      let (rest, end) =
        directory-deliver ds (message_arrived x d.time d.topic_name d.body k) tidy in
      (rest ∙ ap (serve_all ds) same, end)
