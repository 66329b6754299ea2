-- ===== src/Sparkplug/Aliases.antt =====
-- `AssignAliasNumbers` of a node (src/sparkplugnode.cpp): the metrics of its birth message, and of those
-- of its devices, get alias numbers.
use pubsublib.Prelude.{ℕ, ◌+◌, ◌%◌, none, some, [], ◌∷◌}
use pubsublib.Prelude.Words.{two_64}
use pubsublib.Prelude.Texts.{Text, codes}
use pubsublib.StringUtil.{StringUtil}
use pubsublib.StringUtil.Map.{TextMap}
use pubsublib.Metric.Defs.{Metric}
use pubsublib.Topic.Object.{Topic}
use pubsublib.Client.Defs.{Client, get_topic_by_message_type, update_topic_by_message_type}
use pubsublib.Sparkplug.Device.{Device}
use pubsublib.Sparkplug.Node.{Node}

-- The loop over a metric list; the number is a 64-bit integer.
unfoldable pub number_metrics : ℕ → TextMap Metric → TextMap Metric × ℕ
number_metrics n [] = ([], n)
number_metrics n ((name, m) ∷ ms) =
    let (rest, last) = number_metrics ((n + 1) % two_64) ms in
    ((name, record m { alias = n }) ∷ rest, last)

abbrev pub with_metrics : TextMap Metric → Topic → Topic
with_metrics ms t = record t { payload = record (t.payload) { metric_list = ms } }

module _ (u : StringUtil) where
  -- The metrics of the topic of a message type, if the client has it.
  unfoldable pub number_client : Text → ℕ → Client → Client × ℕ
  number_client message_type n c = elim (get_topic_by_message_type u message_type c) [
    | none ↦ (c, n)
    | some t ↦
        let (ms, last) = number_metrics n t.payload.metric_list in
        (update_topic_by_message_type u message_type (with_metrics ms) c, last)
  ]

  unfoldable pub number_devices : ℕ → TextMap Device → TextMap Device × ℕ
  number_devices n [] = ([], n)
  number_devices n ((name, d) ∷ ds) =
      let (c, next) = number_client (codes "DBIRTH") n d.client in
      let (rest, last) = number_devices next ds in ((name, record d { client = c }) ∷ rest, last)

  unfoldable pub assign_alias_numbers : Node → Node
  assign_alias_numbers n =
      let (c, next) = number_client (codes "NBIRTH") 1 n.client in
      record n { client = c; device_list = (number_devices next n.device_list).0 }
