-- ===== src/Sparkplug/Device.antt =====
-- The class `SparkplugDevice` (src/sparkplugdevice.cpp): a device publishes its birth and its death
-- through the node that it belongs to.
use pubsublib.Prelude.{ℕ, Bool, not, ◌||◌, Option, List, [], ◌∷◌, ◌++◌, map, if◌then◌else◌}
use pubsublib.Prelude.Texts.{Text, codes, text_eq}
use pubsublib.Topic.Name.{set_topic}
use pubsublib.Topic.Object.{Topic}
use pubsublib.Payload.Defs.{add_metric, set_all_metrics_invalid}
use pubsublib.Metric.Defs.{Metric}
use pubsublib.Client.Defs.{Client, update_topic_by_message_type}
use pubsublib.Externals.{Externals, Message}
use pubsublib.Sparkplug.Publish.{publish_prepared}

-- DeviceState.
pub data DeviceState : Type 0 where
  idle offline online : DeviceState

pub record Device : Type 0 where
  pub client : Client
  pub device_state : DeviceState

-- What a device asks its node.
pub record Parent : Type 0 where
  pub name : Text
  pub is_online : Bool
  pub in_service : Bool
  pub is_connected : Bool

-- A device, the node's counter, and the messages that were sent.
pub record Polled : Type 0 where
  pub device : Device
  pub sequence_number : ℕ
  pub messages : List Message

-- The topic name that both functions below build.
unfoldable pub device_topic_name : Text → Parent → Client → Text
device_topic_name message_type parent c =
    codes "spvBv1.0/" ++ c.group_id ++ b'/' ∷ message_type ++ b'/' ∷ parent.name ++ b'/' ∷ c.name

-- SetAllMetricsInvalid, on the topics whose type is DBIRTH.
abbrev pub invalidate : Topic → Topic
invalidate t =
    if text_eq t.names.message_type (codes "DBIRTH")
    then record t { payload = set_all_metrics_invalid t.payload }
    else t

unfoldable pub set_metrics_invalid : Device → Device
set_metrics_invalid d = record d {
  client = record (d.client) { topic_list = map invalidate d.client.topic_list };
}

module _ (x : Externals) where
  -- PublishDeviceBirth and PublishDeviceDeath, by the message type.
  unfoldable pub publish_device : Text → Parent → ℕ → ℕ → Device → Polled
  publish_device message_type parent now n d =
      let rename = λ (t : Topic). record t {
        names = set_topic (device_topic_name message_type parent d.client) t.names;
      } in
      let sent = publish_prepared x message_type rename parent.is_connected now n d.client in
      record {
        device = record d { client = sent.client };
        sequence_number = sent.sequence_number;
        messages = sent.messages;
      }

  unfoldable pub publish_device_birth : Parent → ℕ → ℕ → Device → Polled
  publish_device_birth = publish_device (codes "DBIRTH")

  unfoldable pub publish_device_death : Parent → ℕ → ℕ → Device → Polled
  publish_device_death = publish_device (codes "DDEATH")

  -- The cases of Poll.
  unfoldable pub poll_online : Parent → ℕ → ℕ → Device → Polled
  poll_online parent now n d =
      let dead = publish_device_death parent now n d in
      if not d.client.in_service || not parent.is_online || not parent.in_service
      then record dead {
        device = record (set_metrics_invalid dead.device) { device_state = offline };
      }
      else record { device = d; sequence_number = n; messages = [] }

  unfoldable pub poll_offline : Parent → ℕ → ℕ → Device → Polled
  poll_offline parent now n d =
      let alive = publish_device_birth parent now n d in
      if d.client.in_service || parent.is_online
      then record alive { device = record (alive.device) { device_state = online } }
      else record { device = d; sequence_number = n; messages = [] }

  unfoldable pub poll_idle : ℕ → Device → Polled
  poll_idle n d = record {
    device = record (set_metrics_invalid d) { device_state = offline };
    sequence_number = n;
    messages = [];
  }

  unfoldable pub poll_state : DeviceState → Parent → ℕ → ℕ → Device → Polled
  poll_state idle parent now n d = poll_idle n d
  poll_state offline parent now n d = poll_offline parent now n d
  poll_state online parent now n d = poll_online parent now n d

  -- Poll.
  unfoldable pub poll : Parent → ℕ → ℕ → Device → Polled
  poll parent now n d = poll_state d.device_state parent now n d

  -- Stop.
  unfoldable pub stop_device : Parent → ℕ → ℕ → Device → Polled
  stop_device parent now n d =
      let quiet = set_metrics_invalid d in
      let kept : Polled = record { device = quiet; sequence_number = n; messages = [] } in
      elim d.device_state [
        | online ↦ if parent.is_online then publish_device_death parent now n quiet else kept
        | idle ↦ kept
        | offline ↦ kept
      ]

  -- AddMetric: into the topic of the birth message.
  unfoldable pub add_device_metric : Option Metric → Device → Device
  add_device_metric metric d = record d {
    client =
        update_topic_by_message_type x.util (codes "DBIRTH")
          (λ t. record t { payload = add_metric x.util metric t.payload }) d.client;
  }

-- Start.
unfoldable pub start_device : Device → Device
start_device d = set_metrics_invalid (record d { device_state = idle })
