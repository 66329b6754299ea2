-- ===== src/Sparkplug/Deaths.antt =====
-- The metrics of a device that is gone (`SetAllMetricsInvalid` in src/sparkplugdevice.cpp).
use pubsublib.Prelude.{
  ℕ, ◌≡◌, refl, Bool, true, false, not, ◌||◌, List, [], ◌∷◌, map, all, arith, Bool-cases, inl, inr,
}
use pubsublib.Prelude.Texts.{codes, text_eq}
use pubsublib.StringUtil.Map.{TextMap}
use pubsublib.Metric.Defs.{Metric}
use pubsublib.Payload.Defs.{set_all_metrics_invalid, map_metrics}
use pubsublib.Topic.Object.{Topic}
use pubsublib.Externals.{Externals}
use pubsublib.Sparkplug.Device.{
  DeviceState, idle, offline, online, Device, Parent, invalidate, set_metrics_invalid,
  publish_device_death, poll_online, poll_idle, poll_state, poll,
}

-- Whether the metrics of a DBIRTH topic are all invalid; other topics do not count.
abbrev pub is_stale : Topic → Bool
is_stale t =
    not (text_eq t.names.message_type (codes "DBIRTH"))
    || all (λ entry. not (entry.1.valid)) t.payload.metric_list

abbrev pub is_offline : DeviceState → Bool
is_offline offline = true
is_offline _ = false

all-invalid :
    (ms : TextMap Metric)
    → all (λ entry. not (entry.1.valid)) (map_metrics (λ m. record m { valid = false }) ms) ≡ true
all-invalid [] = refl
all-invalid (m ∷ ms) = all-invalid ms

is_stale-invalidate : (t : Topic) → is_stale (invalidate t) ≡ true
unfolding set_all_metrics_invalid
is_stale-invalidate t = elim (Bool-cases (text_eq t.names.message_type (codes "DBIRTH"))) [
  | inl e ↦ rw e (ground (arith, e, all-invalid t.payload.metric_list))
  | inr e ↦ rw e (ground (arith, e))
]

all-is_stale : (ts : List Topic) → all is_stale (map invalidate ts) ≡ true
all-is_stale [] = refl
all-is_stale (t ∷ ts) = ground (arith, is_stale-invalidate t, all-is_stale ts)

stale-set_metrics_invalid :
    (d : Device) → all is_stale (set_metrics_invalid d).client.topic_list ≡ true
unfolding set_metrics_invalid
stale-set_metrics_invalid d = all-is_stale d.client.topic_list

module _ (x : Externals) where
  stale-poll_state :
      (s : DeviceState) (parent : Parent) (now n : ℕ) (d : Device)
      → d.device_state ≡ s
      → is_offline s ≡ false
      → is_offline (poll_state x s parent now n d).device.device_state ≡ true
      → all is_stale (poll_state x s parent now n d).device.client.topic_list ≡ true
  unfolding poll_state poll_online poll_idle
  stale-poll_state idle parent now n d e f g = stale-set_metrics_invalid d
  stale-poll_state offline parent now n d e f g = ground arith
  stale-poll_state online parent now n d e f g =
      ground (arith, stale-set_metrics_invalid (publish_device_death x parent now n d).device)

  -- A poll that takes a device offline marks every metric of its birth topics as invalid.
  pub stale-poll :
      (parent : Parent) (now n : ℕ) (d : Device)
      → is_offline d.device_state ≡ false
      → is_offline (poll x parent now n d).device.device_state ≡ true
      → all is_stale (poll x parent now n d).device.client.topic_list ≡ true
  unfolding poll
  stale-poll parent now n d f g = stale-poll_state d.device_state parent now n d refl f g
