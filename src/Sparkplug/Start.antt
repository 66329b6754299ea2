-- ===== src/Sparkplug/Start.antt =====
-- `AddDefaultMetrics` and `Start` of a node (src/sparkplugnode.cpp). The creation of the thread is left out.
use pubsublib.Prelude.{Bool, true, false, ◌&&◌, Option, none, some, ◌++◌, if◌then◌else◌}
use pubsublib.Prelude.Texts.{Text, codes, is_empty}
use pubsublib.StringUtil.{StringUtil}
use pubsublib.Metric.TypeCode.{uint64, int64, boolean, string}
use pubsublib.Metric.Defs.{Metric, value_unsigned, value_bool, value_string, set_unit}
use pubsublib.Payload.Defs.{Payload, create_metric, update_metric}
use pubsublib.Topic.Name.{set_topic}
use pubsublib.Client.Defs.{
  Client, version_as_string, add_subscription_front, update_topic_by_message_type,
}
use pubsublib.Sparkplug.Node.{Node}
use pubsublib.Sparkplug.Aliases.{assign_alias_numbers}

-- `spBv1.0/` and a rest, under the name that the program gives to the namespace.
abbrev in_namespace : Text → Text
in_namespace rest = codes "spBv1.0/" ++ rest

unfoldable pub birth_topic_name : Client → Text
birth_topic_name c = in_namespace (c.group_id ++ codes "/NBIRTH/" ++ c.name)

abbrev pub state_subscription : Text
state_subscription = in_namespace (codes "STATE/#")

unfoldable pub command_subscription : Client → Text
command_subscription c = in_namespace (c.group_id ++ codes "/NCMD/" ++ c.name ++ codes "/#")

module _ (u : StringUtil) where
  -- CreateMetric and the setters on what it returns.
  unfoldable pub default_metric : Text → (Metric → Metric) → Payload → Payload
  default_metric name f p = update_metric u name f (create_metric u name p)

  -- A command: a Boolean that is false and that others may write.
  unfoldable pub command_metric : Text → Payload → Payload
  command_metric name =
      default_metric name
        (λ m. record (value_bool false (record m { datatype = boolean })) { read_only = true })

  unfoldable pub string_metric : Text → Text → Payload → Payload
  string_metric name value =
      default_metric name (λ m. value_string u value (record m { datatype = string }))

  -- A text property, left out if it is empty.
  unfoldable pub text_metric : Text → Text → Payload → Payload
  text_metric name value p = if is_empty value then p else string_metric name value p

  unfoldable pub default_metrics : Node → Payload → Payload
  default_metrics n p =
      let bd_seq =
        default_metric (codes "bdSeq")
          (λ m. value_unsigned n.bd_sequence_number (record m { datatype = uint64 })) p in
      let rebirth = command_metric (codes "Node Control/Rebirth") bd_seq in
      let reboot = command_metric (codes "Node Control/Reboot") rebirth in
      let next_server = command_metric (codes "Node Control/Next Server") reboot in
      let scan_rate =
        default_metric (codes "Node Control/Scan Rate")
          (λ m.
            record (set_unit u (codes "ms") (value_bool false (record m { datatype = int64 }))) {
              read_only = true;
            })
          next_server in
      let make = text_metric (codes "Properties/Hardware Make") n.hardware_make scan_rate in
      let model = text_metric (codes "Properties/Hardware Model") n.hardware_model make in
      let os = text_metric (codes "Properties/OS") n.operating_system model in
      let version = text_metric (codes "Properties/OS Version") n.os_version os in
      string_metric (codes "Properties/MQTT Version") (version_as_string n.version) version

  -- AddDefaultMetrics: nothing, if there is no NBIRTH topic.
  unfoldable pub add_default_metrics : Node → Node
  add_default_metrics n = record n {
    client =
        update_topic_by_message_type u (codes "NBIRTH")
          (λ t. record t { payload = default_metrics n t.payload }) n.client;
  }

  -- The topics of the birth and of the death, which a started node publishes.
  unfoldable pub start_topics : Client → Client
  start_topics c =
      let born =
        update_topic_by_message_type u (codes "NBIRTH")
          (λ t. record t { names = set_topic (birth_topic_name c) t.names; publish = true }) c in
      update_topic_by_message_type u (codes "NDEATH") (λ t. record t { publish = true }) born

  -- Start, behind its join and in front of its thread: whether the node was started, and the node.
  unfoldable pub start_joined : Node → Node × Bool
  start_joined n =
      let filled = add_default_metrics n in
      let c = start_topics filled.client in
      let subscribed =
        add_subscription_front (command_subscription c)
          (add_subscription_front state_subscription c) in
      let numbered = assign_alias_numbers u (record filled { client = subscribed }) in
      if is_empty n.group_id then (n, false) else (record numbered { stop_node_task = false }, true)

  -- Start, given whether the thread of an earlier Start was not joined yet: `none` while it waits for a
  -- thread that is in its loop, which it does before it tells it to stop.
  unfoldable pub start_node : Bool → Node → Option (Node × Bool)
  start_node joinable n = if joinable && n.looping then none else some (start_joined n)
