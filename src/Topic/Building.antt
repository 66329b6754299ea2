-- ===== src/Topic/Building.antt =====
-- The getter of src/itopic.cpp against its setter.
use pubsublib.Prelude.{◌≡◌, refl, false, [], ◌∷◌, ◌++◌, arith, All}
use mathlib.Core.List.{append_assoc}
use pubsublib.Prelude.Texts.{Text, is_empty}
use pubsublib.Topic.Name.{
  TopicName, empty_name, slash, add_topic_part, build_topic, get_topic, set_topic,
}
use pubsublib.Topic.Scanning.{IsLevel, slashed}
use pubsublib.Topic.Parsing.{IsNamed, set_topic_five}

add_named :
    (temp part : Text)
    → is_empty temp ≡ false
    → is_empty part ≡ false
    → add_topic_part temp part ≡ temp ++ slash ∷ part
unfolding add_topic_part
add_named [] part h k = ground arith
add_named (d ∷ ds) [] h k = ground arith
add_named (d ∷ ds) (c ∷ cs) h k = refl

add_first : (part : Text) → add_topic_part [] part ≡ part
unfolding add_topic_part
add_first [] = refl
add_first (c ∷ cs) = refl

is_empty-append : (s t : Text) → is_empty s ≡ false → is_empty (s ++ t) ≡ false
is_empty-append [] t h = ground arith
is_empty-append (c ∷ cs) t h = refl

-- A name with five named levels is those levels with slashes between them.
build_named :
    (t : TopicName)
    → IsNamed t
    → build_topic t
      ≡ slashed (t.name_space ∷ t.group_id ∷ t.message_type ∷ t.node_id ∷ []) ++ t.device_id
unfolding build_topic
build_named t h = simp (
  add_first t.name_space,
  add_named _ t.group_id h.has_name_space h.has_group_id,
  add_named _ t.message_type (is_empty-append t.name_space _ h.has_name_space) h.has_message_type,
  add_named (t.name_space ++ slash ∷ (t.group_id ++ slash ∷ t.message_type)) t.node_id
      (is_empty-append t.name_space _ h.has_name_space) h.has_node_id,
  add_named (t.name_space ++ slash ∷ (t.group_id ++ slash ∷ (t.message_type ++ slash ∷ t.node_id)))
      t.device_id (is_empty-append t.name_space _ h.has_name_space) h.has_device_id,
  append_assoc,
)

-- The name that the getter stores is the name that it returns.
pub get_topic-stored : (t : TopicName) → (get_topic (get_topic t).1).0 ≡ (get_topic t).0
unfolding get_topic build_topic
get_topic-stored t = ground arith

-- A topic without a topic name whose five levels are named and hold no slash, and whose group is not the
-- word STATE: the name that the getter builds, set on a fresh topic, gives the levels back, and
-- the getter has stored it.
pub set_topic-get_topic :
    (t : TopicName)
    → IsNamed t
    → All IsLevel (t.name_space ∷ t.group_id ∷ t.message_type ∷ t.node_id ∷ [])
    → IsLevel t.device_id
    → t.topic ≡ []
    → set_topic (get_topic t).0 empty_name ≡ (get_topic t).1
unfolding get_topic
set_topic-get_topic t h levels last e =
    rw (e, get_topic)
      (rw (build_named t h) (
        set_topic_five t.name_space t.group_id t.message_type t.node_id t.device_id levels last
          (ground arith)))
