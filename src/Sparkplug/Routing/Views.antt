-- ===== src/Sparkplug/Routing/Views.antt =====
-- What a node finds by name after a change of one entry (`GetHost` and `GetNode` in
-- src/sparkplugnode.cpp).
use mathlib.Core.Option
use pubsublib.Prelude.{
  ◌≡◌, refl, Bool, true, false, none, some, List, [], ◌∷◌, ◌++◌, arith, if◌then◌else◌, is_none,
  find_if, update_if, All, All-append, Option-cases, inl, inr,
}
use pubsublib.StringUtil.{StringUtil}
use pubsublib.Sparkplug.Node.{Peer}
use pubsublib.Sparkplug.Routing.Known.{
  Known, Key, matches, find_peer, get_peer, update_peer, ensure_peer,
}
use pubsublib.Sparkplug.Routing.Keys.{
  is_tidy, SameHead, same_key, same_key-sym, matches_agree, matches-SameHead, is_tidy-SameHead,
}

-- No entry, and not the receiver itself, is a host with a group.
abbrev pub IsTidy : Known → Type 0
IsTidy k = (is_tidy k.own ≡ true) × All (λ p. is_tidy p ≡ true) k.peers

pub if-IsTidy : (b : Bool) (j k : Known) → IsTidy j → IsTidy k → IsTidy (if b then j else k)
if-IsTidy true j k h i = h
if-IsTidy false j k h i = i

module _ (u : StringUtil) where
  -- After a change of what one key finds, another key finds the changed entry if it is the same key, and
  -- what it found before if it is not.
  find_if-update :
      (a b : Key) (f : Peer → Peer) (ps : List Peer)
      → ((p : Peer) → SameHead (f p) p)
      → All (λ p. is_tidy p ≡ true) ps
      → find_if (matches u b) (update_if (matches u a) f ps) ≡ (
          if same_key u a b
          then Option.map f (find_if (matches u b) ps)
          else find_if (matches u b) ps)
  find_if-update a b f [] keep t = ground arith
  find_if-update a b f (p ∷ ps) keep (t, ts) = ground (
    arith,
    matches_agree u a b p t,
    matches_agree u b a p t,
    same_key-sym u a b,
    same_key-sym u b a,
    matches-SameHead u b (f p) p (keep p),
    find_if-update a b f ps keep ts,
  )

  pub get_peer-update_peer :
      (a b : Key) (f : Peer → Peer) (k : Known)
      → ((p : Peer) → SameHead (f p) p)
      → IsTidy k
      → get_peer u b (update_peer (matches u a) f k)
        ≡ (if same_key u a b then Option.map f (get_peer u b k) else get_peer u b k)
  unfolding get_peer find_peer update_peer
  get_peer-update_peer a b f k keep (t, ts) = ground (
    arith,
    matches_agree u a b k.own t,
    matches_agree u b a k.own t,
    same_key-sym u a b,
    same_key-sym u b a,
    matches-SameHead u b (f k.own) k.own (keep k.own),
    find_if-update a b f k.peers keep ts,
  )

  find_if-append :
      (a b : Key) (new : Peer) (ps : List Peer)
      → find_if (matches u a) ps ≡ none
      → matches u a new ≡ true
      → is_tidy new ≡ true
      → All (λ p. is_tidy p ≡ true) ps
      → find_if (matches u b) (ps ++ new ∷ [])
        ≡ (if same_key u a b then some new else find_if (matches u b) ps)
  find_if-append a b new [] e m n t = ground (arith, matches_agree u a b new n)
  find_if-append a b new (p ∷ ps) e m n (t, ts) =
      ground (arith, matches_agree u b a p t, same_key-sym u a b, find_if-append a b new ps)

  -- The same keys find the same entry.
  find_if-same_key :
      (a b : Key) (ps : List Peer)
      → same_key u a b ≡ true
      → All (λ p. is_tidy p ≡ true) ps
      → find_if (matches u b) ps ≡ find_if (matches u a) ps
  find_if-same_key a b [] e t = refl
  find_if-same_key a b (p ∷ ps) e (t, ts) = ground (
    arith,
    matches_agree u a b p t,
    matches_agree u b a p t,
    same_key-sym u a b,
    find_if-same_key a b ps e ts,
  )

  pub get_peer-ensure_peer :
      (a b : Key) (new : Peer) (k : Known)
      → matches u a new ≡ true
      → is_tidy new ≡ true
      → IsTidy k
      → get_peer u b (ensure_peer (matches u a) new k)
        ≡ (if same_key u a b then some (Option.get_or (get_peer u b k) new) else get_peer u b k)
  unfolding get_peer find_peer ensure_peer
  get_peer-ensure_peer a b new k m n (t, ts) = elim (Option-cases (find_if (matches u a) k.peers)) [
    | inl e ↦ ground (
      arith,
      e,
      matches_agree u a b k.own t,
      matches_agree u b a k.own t,
      same_key-sym u a b,
      find_if-append a b new k.peers e m n ts,
      find_if-same_key a b k.peers,
    )
    | inr (p, e) ↦ ground (
      arith,
      e,
      matches_agree u a b k.own t,
      matches_agree u b a k.own t,
      same_key-sym u a b,
      find_if-same_key a b k.peers,
    )
  ]

  -- Both changes keep every host without a group.
  update_if-is_tidy :
      (test : Peer → Bool) (f : Peer → Peer) (ps : List Peer)
      → ((p : Peer) → SameHead (f p) p)
      → All (λ p. is_tidy p ≡ true) ps
      → All (λ p. is_tidy p ≡ true) (update_if test f ps)
  update_if-is_tidy test f [] keep t = t
  update_if-is_tidy test f (p ∷ ps) keep (t, ts) =
      ground (arith, is_tidy-SameHead u (f p) p (keep p), update_if-is_tidy test f ps keep ts)

  pub update_peer-IsTidy :
      (test : Peer → Bool) (f : Peer → Peer) (k : Known)
      → ((p : Peer) → SameHead (f p) p)
      → IsTidy k
      → IsTidy (update_peer test f k)
  unfolding update_peer
  update_peer-IsTidy test f k keep (t, ts) = ground (
    arith,
    is_tidy-SameHead u (f k.own) k.own (keep k.own),
    update_if-is_tidy test f k.peers keep ts,
  )

  pub ensure_peer-IsTidy :
      (test : Peer → Bool) (new : Peer) (k : Known)
      → is_tidy new ≡ true
      → IsTidy k
      → IsTidy (ensure_peer test new k)
  unfolding ensure_peer
  ensure_peer-IsTidy test new k n (t, ts) =
      if-IsTidy (is_none (find_peer test k)) (record k { peers = k.peers ++ new ∷ [] }) k
        (t, All-append (λ p. is_tidy p ≡ true) k.peers (new ∷ []) ts (n, tt)) (t, ts)
