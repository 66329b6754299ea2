-- ===== src/Sparkplug/Routing/Fresh.antt =====
-- The devices of external nodes (`HandleDeviceBirthMessage` and the others for devices in
-- src/sparkplugnode.cpp): their topics are made as published ones (src/sparkplugdevice.cpp).
use pubsublib.Prelude.{
  ℕ, ◌≡◌, refl, sym, ap, subst, Bool, true, ◌||◌, some, List, [], ◌∷◌, arith, is_none, find_if,
  update_if, erase_if, All, All-append, Bool-cases, Option-cases, inl, inr,
}
use pubsublib.Prelude.Texts.{Text, codes, is_empty}
use pubsublib.StringUtil.Map.{TextMap, find, insert, update}
use pubsublib.Payload.Defs.{Payload}
use pubsublib.Topic.Name.{get_topic}
use pubsublib.Topic.Object.{Topic}
use pubsublib.Externals.{Externals}
use pubsublib.Client.Defs.{
  Client, has_message_type, has_itopic, create_topic, delete_topic, get_topic_by_message_type,
  update_topic_by_message_type,
}
use pubsublib.Sparkplug.Device.{Device}
use pubsublib.Sparkplug.Node.{Peer}
use pubsublib.Sparkplug.Creation.{
  make_client, replace_topic, device_death_topic, device_birth_topic, make_device, new_device,
  create_device,
}
use pubsublib.Sparkplug.Routing.Handlers.{receive_into, receive, bury, update_device, bear_device}

abbrev IsPublished : Topic → Type 0
IsPublished t = t.publish ≡ true

erase_if-All :
    (test : Topic → Bool) (ts : List Topic)
    → All IsPublished ts
    → All IsPublished (erase_if test ts)
erase_if-All test [] h = h
erase_if-All test (t ∷ ts) (h, hs) = ground (arith, erase_if-All test ts hs)

-- A write to received topics does nothing where all topics are published.
update_if-published :
    (test : Topic → Bool) (f : Payload → Payload) (ts : List Topic)
    → All IsPublished ts
    → update_if test (receive_into f) ts ≡ ts
update_if-published test f [] h = refl
update_if-published test f (t ∷ ts) (h, hs) = ground (arith, update_if-published test f ts hs)

find_if-published :
    (test : Topic → Bool) (t : Topic) (ts : List Topic)
    → find_if test ts ≡ some t
    → All IsPublished ts
    → t.publish ≡ true
find_if-published test t [] e h = ground arith
find_if-published test t (s ∷ ts) e (h, hs) = ground (arith, find_if-published test t ts)

module _ (x : Externals) where
  -- Exactly as CreateDevice makes a device.
  abbrev pub IsFresh : Device → Type 0
  IsFresh d = (now : ℕ) × (name : Text) × (c : Client) × (d ≡ new_device x now name c)

  abbrev pub HasFreshDevices : Peer → Type 0
  HasFreshDevices p = All (λ (e : Text × Device). IsFresh e.1) p.device_list

  replace_topic-All :
      (message_type : Text) (t : Topic) (c : Client)
      → IsPublished t
      → All IsPublished c.topic_list
      → All IsPublished (replace_topic x.util message_type t c).topic_list
  unfolding replace_topic create_topic delete_topic
  replace_topic-All message_type t c h hs =
      elim (Option-cases (get_topic_by_message_type x.util message_type c)) [
        | inl e ↦ rw (e, replace_topic) (All-append IsPublished c.topic_list (t ∷ []) hs (h, tt))
        | inr (old, e) ↦
            rw (e, replace_topic)
              (All-append IsPublished
                (erase_if (has_itopic x.util (get_topic old.names).0) c.topic_list) (t ∷ [])
                (erase_if-All _ c.topic_list hs) (h, tt))
      ]

  new_device-IsPublished :
      (now : ℕ) (name : Text) (c : Client)
      → All IsPublished (new_device x now name c).client.topic_list
  unfolding new_device make_device make_client device_death_topic device_birth_topic
  new_device-IsPublished now name c =
      replace_topic-All (codes "DBIRTH") _ _ refl
        (replace_topic-All (codes "DDEATH") _ (make_client x.hw_info) refl tt)

  IsFresh-IsPublished : (d : Device) → IsFresh d → All IsPublished d.client.topic_list
  IsFresh-IsPublished d (now, name, c, e) =
      subst (λ q. All IsPublished q.client.topic_list) (sym e) (new_device-IsPublished now name c)

  receive-published :
      (message_type : Text) (f : Payload → Payload) (c : Client)
      → All IsPublished c.topic_list
      → receive x message_type f c ≡ c
  unfolding receive update_topic_by_message_type
  receive-published message_type f c h =
      ap (λ ts. record c { topic_list = ts })
        (update_if-published (has_message_type x.util message_type) f c.topic_list h)

  get_topic-published :
      (message_type : Text) (t : Topic) (c : Client)
      → get_topic_by_message_type x.util message_type c ≡ some t
      → All IsPublished c.topic_list
      → t.publish ≡ true
  unfolding get_topic_by_message_type
  get_topic-published message_type t c e h =
      find_if-published (has_message_type x.util message_type) t c.topic_list e h

  bury-published :
      (birth death : Text) (f : Payload → Payload) (c : Client)
      → All IsPublished c.topic_list
      → bury x birth death f c ≡ c
  unfolding bury
  bury-published birth death f c h =
      elim (Option-cases (get_topic_by_message_type x.util death c)) [
        | inl e ↦ rw (e, bury) refl
        | inr (t, e) ↦ rw (e, bury) (ground (arith, get_topic-published death t c e h))
      ]

  update-same :
      (name : Text) (f : Client → Client) (ds : TextMap Device)
      → ((d : Device) → IsFresh d → f d.client ≡ d.client)
      → All (λ (e : Text × Device). IsFresh e.1) ds
      → update x.util name (λ d. record d { client = f d.client }) ds ≡ ds
  unfolding update
  update-same name f [] same h = refl
  update-same name f ((k, d) ∷ ds) same (h, hs) =
      ground (arith, same d h, update-same name f ds same hs)

  pub update_device-fresh :
      (name : Text) (f : Client → Client) (p : Peer)
      → ((d : Device) → IsFresh d → f d.client ≡ d.client)
      → HasFreshDevices p
      → HasFreshDevices (update_device x name f p)
  unfolding update_device
  update_device-fresh name f p same h =
      let kept : (update_device x name f p).device_list ≡ p.device_list =
        ground (arith, update-same name f p.device_list same h) in
      subst (All (λ (e : Text × Device). IsFresh e.1)) (sym kept) h

  insert-All :
      (name : Text) (d : Device) (ds : TextMap Device)
      → IsFresh d
      → All (λ (e : Text × Device). IsFresh e.1) ds
      → All (λ (e : Text × Device). IsFresh e.1) (insert x.util name d ds)
  unfolding insert
  insert-All name d [] h hs = (h, tt)
  insert-All name d ((k, w) ∷ ds) h (g, hs) =
      let rest = insert-All name d ds h hs in
      elim (Bool-cases (x.util.ignore_case name k)) [
        | inl e ↦ rw e (h, (g, hs))
        | inr e ↦ rw e (elim (Bool-cases (x.util.ignore_case k name)) [
          | inl e' ↦ rw e' (g, rest)
          | inr e' ↦ rw e' (g, hs)
        ])
      ]

  create_device-fresh :
      (now : ℕ) (name : Text) (p : Peer)
      → HasFreshDevices p
      → HasFreshDevices (create_device x now name p)
  unfolding create_device
  create_device-fresh now name p h =
      let d = new_device x now name p.client in
      let more = insert-All name d p.device_list (now, name, p.client, refl) h in
      elim (Bool-cases (is_empty name || p.is_host)) [
        | inl e ↦ rw (e, create_device) h
        | inr e ↦
            rw (e, create_device)
              (elim (Bool-cases (is_none (find x.util name p.device_list))) [
                | inl k ↦ rw k more
                | inr k ↦ rw k h
              ])
      ]

  pub receive-fresh :
      (message_type : Text) (f : Payload → Payload) (d : Device)
      → IsFresh d
      → receive x message_type f d.client ≡ d.client
  receive-fresh message_type f d h =
      receive-published message_type f d.client (IsFresh-IsPublished d h)

  pub bury-fresh :
      (birth death : Text) (f : Payload → Payload) (d : Device)
      → IsFresh d
      → bury x birth death f d.client ≡ d.client
  bury-fresh birth death f d h = bury-published birth death f d.client (IsFresh-IsPublished d h)

  pub bear_device-fresh :
      (now : ℕ) (name : Text) (f : Payload → Payload) (p : Peer)
      → HasFreshDevices p
      → HasFreshDevices (bear_device x now name f p)
  unfolding bear_device
  bear_device-fresh now name f p h =
      let made = create_device x now name p in
      let grown =
        update_device-fresh name (receive x (codes "DBIRTH") f) made
          (receive-fresh (codes "DBIRTH") f) (create_device-fresh now name p h) in
      elim (Option-cases (get_topic_by_message_type x.util (codes "NBIRTH") p.client)) [
        | inl e ↦ rw (e, bear_device) h
        | inr (t, e) ↦
            rw (e, bear_device)
              (elim (Bool-cases t.publish) [ inl k ↦ rw k h | inr k ↦ rw k grown ])
      ]
