-- ===== src/Topic/Parsing.antt =====
-- What the setter of src/itopic.cpp makes of a topic name.
use pubsublib.Prelude.{
  ℕ, ◌≡◌, refl, sym, ap, subst, ◌∙◌, Bool, false, ◌&&◌, [], ◌∷◌, ◌++◌, foldl, arith, All,
}
use pubsublib.Prelude.Texts.{Text, is_empty, text_eq}
use pubsublib.Topic.Name.{
  TopicName, Scan, empty_name, sparkplug_namespace, state_word, assign_level_name, scan_char,
  end_scan, start_scan, fix_state, set_topic, keep_or,
}
use pubsublib.Topic.Scanning.{IsLevel, slashed, assign_levels, set_topic_levels}

-- The case that `fix_state` rewrites.
abbrev pub is_state_name : Text → Text → Bool
is_state_name name_space group_id =
    text_eq name_space sparkplug_namespace && text_eq group_id state_word

-- Five names joined by slashes, set on a topic with no names yet, become the five levels, unless
-- the first two are `spBv1.0` and `STATE`.
pub set_topic_five :
    (ns group mt node device : Text)
    → All IsLevel (ns ∷ group ∷ mt ∷ node ∷ [])
    → IsLevel device
    → is_state_name ns group ≡ false
    → let topic = slashed (ns ∷ group ∷ mt ∷ node ∷ []) ++ device in
      set_topic topic empty_name ≡ record {
        topic = topic;
        name_space = ns;
        group_id = group;
        message_type = mt;
        node_id = node;
        device_id = device;
      }
unfolding assign_levels assign_level_name fix_state
set_topic_five ns group mt node device h k plain =
    set_topic_levels ns (group ∷ mt ∷ node ∷ []) device empty_name h k ∙ rw (plain, fix_state)

state_levels : All IsLevel (sparkplug_namespace ∷ state_word ∷ [])
state_levels = assumption (refl, tt)

-- `spBv1.0/STATE/<host>`, set on a topic with no names yet, gives a STATE message type, the host as
-- the node and no group.
pub set_topic_state :
    (host : Text)
    → IsLevel host
    → let topic = slashed (sparkplug_namespace ∷ state_word ∷ []) ++ host in
      set_topic topic empty_name ≡ record {
        topic = topic;
        name_space = sparkplug_namespace;
        group_id = [];
        message_type = state_word;
        node_id = host;
        device_id = [];
      }
unfolding assign_levels assign_level_name fix_state text_eq
set_topic_state host k =
    set_topic_levels sparkplug_namespace (state_word ∷ []) host empty_name state_levels k ∙ refl

-- Setting the name of a STATE topic a second time replaces its host by the word STATE.
pub set_topic_state_again :
    (host old node device : Text)
    → IsLevel host
    → (set_topic (slashed (sparkplug_namespace ∷ state_word ∷ []) ++ host) (record {
      topic = old;
      name_space = sparkplug_namespace;
      group_id = [];
      message_type = state_word;
      node_id = node;
      device_id = device;
    })).node_id
      ≡ state_word
unfolding assign_levels assign_level_name fix_state text_eq
set_topic_state_again host old node device k =
    ap (λ (t : TopicName). t.node_id)
      (set_topic_levels sparkplug_namespace (state_word ∷ []) host _ state_levels k)
    ∙ refl

-- Every level has a name, and the group is not STATE.
pub record IsNamed (t : TopicName) : Type 0 where
  pub has_name_space : is_empty t.name_space ≡ false
  pub has_group_id : is_empty t.group_id ≡ false
  pub has_message_type : is_empty t.message_type ≡ false
  pub has_node_id : is_empty t.node_id ≡ false
  pub has_device_id : is_empty t.device_id ≡ false
  pub not_state : text_eq t.group_id state_word ≡ false

keep_or_named : (old name : Text) → is_empty old ≡ false → keep_or old name ≡ old
keep_or_named [] name h = ground arith
keep_or_named (c ∷ cs) name h = refl

assign_named : (l : ℕ) (name : Text) (t : TopicName) → IsNamed t → assign_level_name l name t ≡ t
unfolding assign_level_name
assign_named l name t h = ground (
  arith,
  keep_or_named t.name_space name h.has_name_space,
  keep_or_named t.group_id name h.has_group_id,
  keep_or_named t.message_type name h.has_message_type,
  keep_or_named t.node_id name h.has_node_id,
  keep_or_named t.device_id name h.has_device_id,
)

scan_char-named : (s : Scan) (c : ℕ) → IsNamed s.name → (scan_char s c).name ≡ s.name
unfolding scan_char
scan_char-named s c h = ground (arith, assign_named s.level s.temp s.name h)

scan_named : (s : Scan) (topic : Text) → IsNamed s.name → (foldl scan_char s topic).name ≡ s.name
scan_named s [] h = refl
scan_named s (c ∷ cs) h =
    let same = scan_char-named s c h in
    scan_named (scan_char s c) cs (subst IsNamed (sym same) h) ∙ same

end_scan-named : (s : Scan) → IsNamed s.name → end_scan s ≡ s.name
unfolding end_scan
end_scan-named s h = ground (arith, assign_named s.level s.temp s.name h)

fix_state-named : (t : TopicName) → IsNamed t → fix_state t ≡ t
unfolding fix_state
fix_state-named t h = ground arith

IsNamed-rename : (topic : Text) (t : TopicName) → IsNamed t → IsNamed (record t { topic = topic })
IsNamed-rename topic t h = record {
  has_name_space = h.has_name_space;
  has_group_id = h.has_group_id;
  has_message_type = h.has_message_type;
  has_node_id = h.has_node_id;
  has_device_id = h.has_device_id;
  not_state = h.not_state;
}

-- A topic with a name on each of its five levels, and a group other than STATE, keeps them all,
-- whatever its topic name is set to.
pub set_topic_named :
    (topic : Text) (t : TopicName) → IsNamed t → set_topic topic t ≡ record t { topic = topic }
unfolding set_topic
set_topic_named topic t h =
    let named = IsNamed-rename topic t h in
    let s = foldl scan_char (start_scan (record t { topic = topic })) topic in
    let same : s.name ≡ record t { topic = topic } =
      scan_named (start_scan (record t { topic = topic })) topic named in
    ap fix_state (end_scan-named s (subst IsNamed (sym same) named) ∙ same)
    ∙ fix_state-named _ named
