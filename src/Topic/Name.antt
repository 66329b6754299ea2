-- ===== src/Topic/Name.antt =====
-- The naming fields of `ITopic` (include/pubsub/itopic.h) and the functions of src/itopic.cpp that
-- split a topic name into its levels and put it together again.
use pubsublib.Prelude.{
  ℕ, suc, Bool, true, false, not, ◌&&◌, ◌||◌, [], ◌∷◌, ◌++◌, foldl, ◌==◌, ltb, if◌then◌else◌,
}
use pubsublib.Prelude.Texts.{Text, codes, text_eq, is_empty}

pub record TopicName : Type 0 where
  pub topic : Text
  pub name_space : Text
  pub group_id : Text
  pub message_type : Text
  pub node_id : Text
  pub device_id : Text

abbrev pub empty_name : TopicName
empty_name = record {
  topic = [];
  name_space = [];
  group_id = [];
  message_type = [];
  node_id = [];
  device_id = [];
}

-- kSparkplugNamespace and the word that marks a STATE topic.
abbrev pub sparkplug_namespace : Text
sparkplug_namespace = codes "spBv1.0"

abbrev pub state_word : Text
state_word = codes "STATE"

abbrev pub slash : ℕ
slash = b'/'

-- A level that already has a name keeps it.
abbrev pub keep_or : Text → Text → Text
keep_or [] name = name
keep_or (c ∷ cs) name = c ∷ cs

-- ITopic::AssignLevelName; a level above 4 is dropped.
unfoldable pub assign_level_name : ℕ → Text → TopicName → TopicName
assign_level_name level name t =
    if level == 0
    then record t { name_space = keep_or t.name_space name }
    else if level == 1
    then record t { group_id = keep_or t.group_id name }
    else if level == 2
    then record t { message_type = keep_or t.message_type name }
    else if level == 3
    then record t { node_id = keep_or t.node_id name }
    else if level == 4
    then record t { device_id = keep_or t.device_id name }
    else t

-- The variables of the loop in `ITopic::Topic(const std::string&)`.
pub record Scan : Type 0 where
  pub level : ℕ
  pub temp : Text
  pub name : TopicName

-- One round of that loop.
unfoldable pub scan_char : Scan → ℕ → Scan
unfolding assign_level_name
scan_char s in_char =
    if in_char == slash
    then record { level = suc s.level; temp = []; name = assign_level_name s.level s.temp s.name }
    else record s { temp = s.temp ++ in_char ∷ [] }

-- The last level, which no slash ends: assigned after a slash has been seen, if it is not empty.
unfoldable pub end_scan : Scan → TopicName
unfolding assign_level_name
end_scan s =
    if ltb 0 s.level && not (is_empty s.temp)
    then assign_level_name s.level s.temp s.name
    else s.name

-- "Handle special case of STATE message".
unfoldable pub fix_state : TopicName → TopicName
unfolding text_eq
fix_state t =
    if text_eq t.name_space sparkplug_namespace && text_eq t.group_id state_word
    then record t { node_id = t.message_type; message_type = t.group_id; group_id = [] }
    else t

abbrev pub start_scan : TopicName → Scan
start_scan t = record { level = 0; temp = []; name = t }

-- The setter ITopic::Topic(const std::string&).
unfoldable pub set_topic : Text → TopicName → TopicName
unfolding end_scan fix_state
set_topic topic t =
    fix_state (end_scan (foldl scan_char (start_scan (record t { topic = topic })) topic))

-- The lambda `add_topic_part` of the getter.
unfoldable pub add_topic_part : Text → Text → Text
add_topic_part temp [] = temp
add_topic_part [] (c ∷ cs) = c ∷ cs
add_topic_part (d ∷ ds) (c ∷ cs) = (d ∷ ds) ++ slash ∷ c ∷ cs

-- The name that the getter builds from the levels.
unfoldable pub build_topic : TopicName → Text
unfolding add_topic_part
build_topic t =
    foldl add_topic_part []
      (t.name_space ∷ t.group_id ∷ t.message_type ∷ t.node_id ∷ t.device_id ∷ [])

-- The getter ITopic::Topic(): it stores the name that it builds (`topic_` is mutable).
unfoldable pub get_topic : TopicName → Text × TopicName
unfolding build_topic
get_topic t =
    let built = build_topic t in
    if is_empty t.topic then (built, record t { topic = built }) else (t.topic, t)

-- strchr: the search ends at the first NUL.
unfoldable pub strchr : Text → ℕ → Bool
strchr [] c = false
strchr (x ∷ xs) c = if x == c then true else if x == 0 then false else strchr xs c

-- ITopic::IsWildcard.
unfoldable pub is_wildcard : TopicName → Bool
unfolding strchr
is_wildcard t = strchr t.topic b'+' || strchr t.topic b'#'
