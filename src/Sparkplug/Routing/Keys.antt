-- ===== src/Sparkplug/Routing/Keys.antt =====
-- The names under which a node finds itself and its external nodes and hosts.
use pubsublib.Prelude.{◌≡◌, refl, sym, ap, ◌∙◌, Bool, true, false, not, ◌&&◌, ◌||◌, [], ◌∷◌, arith}
use pubsublib.Prelude.Texts.{Text, is_empty, fold_case}
use pubsublib.StringUtil.{StringUtil, iequals-sym, iequals_trans}
use pubsublib.Sparkplug.Node.{Peer}
use pubsublib.Sparkplug.Routing.Known.{Key, host, node, matches}

-- A host belongs to no group, as its constructor has it.
abbrev pub is_tidy : Peer → Bool
is_tidy p = not p.is_host || is_empty p.group_id

-- A key that can be asked for.
abbrev pub is_valid_key : Key → Bool
is_valid_key (host id) = true
is_valid_key (node group_id node_id) = not (is_empty group_id) && not (is_empty node_id)

-- A change that keeps what an entry is found by, and what the user has set.
abbrev pub SameHead : Peer → Peer → Type 0
SameHead q p =
    (q.is_host ≡ p.is_host)
    × (q.client.settings ≡ p.client.settings)
    × (q.client.in_service ≡ p.client.in_service)

is_empty-fold_case : (s : Text) → is_empty (fold_case s) ≡ is_empty s
is_empty-fold_case [] = refl
is_empty-fold_case (c ∷ cs) = refl

module _ (u : StringUtil) where
  abbrev pub same_key : Key → Key → Bool
  same_key (host a) (host b) = u.iequals a b
  same_key (node g n) (node h m) = u.iequals g h && u.iequals n m
  same_key _ _ = false

  is_empty-iequals : (s t : Text) → u.iequals s t ≡ true → is_empty s ≡ is_empty t
  is_empty-iequals s t h =
      sym (is_empty-fold_case s) ∙ ap is_empty ((u.iequals_iff s t).0 h) ∙ is_empty-fold_case t

  iequals-left : (s t r : Text) → u.iequals s r ≡ true → u.iequals t r ≡ u.iequals s t
  iequals-left s t r h =
      ground
        (arith, iequals_trans u s r t, iequals-sym u t r, iequals-sym u s t, iequals_trans u t s r)

  pub same_key-sym : (a b : Key) → same_key a b ≡ true → same_key b a ≡ true
  same_key-sym (host a) (host b) h = iequals-sym u a b h
  same_key-sym (node g n) (node h m) e = ground (arith, iequals-sym u g h, iequals-sym u n m)
  same_key-sym (host a) (node h m) e = ground arith
  same_key-sym (node g n) (host b) e = ground arith

  -- What one key finds, another finds exactly if it is the same.
  pub matches_agree :
      (a b : Key) (p : Peer)
      → is_tidy p ≡ true
      → matches u a p ≡ true
      → matches u b p ≡ same_key a b
  unfolding matches
  matches_agree (host a) (host b) p t h = ground (arith, iequals-left a b p.name)
  matches_agree (node g n) (node h m) p t e = ground (
    arith,
    iequals-left g h p.group_id,
    iequals-left n m p.name,
    is_empty-iequals g h,
    is_empty-iequals n m,
  )
  matches_agree (host a) (node h m) p t e = ground (arith, is_empty-iequals h p.group_id)
  matches_agree (node g n) (host b) p t e = ground (arith, is_empty-iequals g p.group_id)

  -- A node's names find no host.
  pub is_host-matches :
      (g n : Text) (p : Peer) → is_tidy p ≡ true → matches u (node g n) p ≡ true → p.is_host ≡ false
  unfolding matches
  is_host-matches g n p t h = ground (arith, is_empty-iequals g p.group_id)

  pub matches-SameHead : (a : Key) (q p : Peer) → SameHead q p → matches u a q ≡ matches u a p
  unfolding matches
  matches-SameHead (host a) q p (h, s, i) =
      ap (λ b. b && u.iequals a q.name) h ∙ ap (λ s. p.is_host && u.iequals a s.name) s
  matches-SameHead (node g n) q p (h, s, i) =
      ap (λ s. not (is_empty g) && not (is_empty n) && u.iequals g s.group_id && u.iequals n s.name)
        s

  pub is_tidy-SameHead : (q p : Peer) → SameHead q p → is_tidy q ≡ is_tidy p
  is_tidy-SameHead q p (h, s, i) =
      ap (λ b. not b || is_empty q.group_id) h ∙ ap (λ s. not p.is_host || is_empty s.group_id) s
