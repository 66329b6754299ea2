-- ===== src/Host/Events.antt =====
-- The life of a host: `Start`, the end of `HostTask`, `Stop`, and what happens in between
-- (src/sparkplughost.cpp). The creation of the thread is left out, and so is its end in front of a
-- `Start`, which does not come while a thread is in its loop.
use pubsublib.Prelude.{ℕ, Bool, true, false, not, ◌&&◌, List, [], ◌∷◌, ◌++◌, if◌then◌else◌}
use pubsublib.Prelude.Texts.{Text, codes}
use pubsublib.Payload.Defs.{Payload}
use pubsublib.Topic.Name.{set_topic}
use pubsublib.Externals.{Externals, Env, Call, create, set_callbacks, destroy}
use pubsublib.Client.Defs.{
  Client, connect_string, version_as_string, add_subscription_front, update_topic_by_message_type,
}
use pubsublib.Sparkplug.Node.{is_connected}
use pubsublib.Sparkplug.Task.{connected, set_delivered, connection_lost}
use pubsublib.Sparkplug.Start.{string_metric, text_metric}
use pubsublib.Sparkplug.Routing.Known.{Known}
use pubsublib.Sparkplug.Routing.Handlers.{message_arrived, as_known}
use pubsublib.Host.Machine.{
  WorkState, idle, wait_on_disconnect, Host, set_client, leave, loop_test, host_switch, host_round,
}

abbrev pub is_idle : WorkState → Bool
is_idle idle = true
is_idle _ = false

abbrev pub is_waiting_on_disconnect : WorkState → Bool
is_waiting_on_disconnect wait_on_disconnect = true
is_waiting_on_disconnect _ = false

-- The part of HostTask in front of the loop, and its first test.
unfoldable pub begin_task : ℕ → Host → Host
begin_task now h = loop_test (record h { host_timer = now; work_state = idle; in_loop = true })

-- The part behind the loop.
unfoldable pub end_task : Env → Host → Host × List Call
end_task env h =
    if not (is_idle h.work_state)
      && is_connected env h.base
      && not (is_waiting_on_disconnect h.work_state)
    then leave env h
    else (h, [])

-- What Stop does behind the end of the thread. MQTTAsync_destroy of a null handle does nothing.
unfoldable pub destroy_handle : Host → Host × List Call
destroy_handle h =
    (record h { base = record (h.base) { handle = false } }, if h.handle then destroy ∷ [] else [])

-- A host as a receiver.
unfoldable pub host_known : Host → Known
host_known h = let k = as_known h.base in record k { own = record (k.own) { is_host = true } }

unfoldable pub own_state_name : Client → Text
own_state_name c = codes "spBv1.0/STATE/" ++ c.name

module _ (x : Externals) where
  -- AddDefaultMetrics.
  unfoldable pub state_metrics : Client → Payload → Payload
  state_metrics c p =
      let make = text_metric x.util (codes "Properties/Hardware Make") c.hardware_make p in
      let model = text_metric x.util (codes "Properties/Hardware Model") c.hardware_model make in
      let os = text_metric x.util (codes "Properties/OS") c.operating_system model in
      let version = text_metric x.util (codes "Properties/OS Version") c.os_version os in
      string_metric x.util (codes "Properties/MQTT Version") (version_as_string c.version)
        (string_metric x.util (codes "Properties/Sparkplug Version") c.sparkplug_version version)

  unfoldable pub add_default_metrics : Client → Client
  add_default_metrics c =
      update_topic_by_message_type x.util (codes "STATE")
        (λ t. record t { payload = state_metrics c t.payload }) c

  -- A host that starts publishes its STATE topic, under its name, and listens to everything.
  unfoldable pub start_client : Client → Client
  start_client c =
      let named =
        update_topic_by_message_type x.util (codes "STATE")
          (λ t. record t { names = set_topic (own_state_name c) t.names; publish = true })
          (add_default_metrics c) in
      add_subscription_front (codes "spBv1.0/#") (add_subscription_front (own_state_name c) named)

  -- Start, up to the creation of the thread: whether it gets there.
  unfoldable pub start_host : Env → Host → Host × List Call × Bool
  start_host env h =
      let ready = record (set_client (start_client h.client) h) { start_time = env.now } in
      let n = ready.base in
      let made = record n {
        client = record (n.client) { connection_lost = false };
        handle = true;
        delivered = false;
      } in
      let opened = create (connect_string n.settings) true ∷ set_callbacks ∷ [] in
      if not env.create_ok
      then (ready, create (connect_string n.settings) false ∷ [], false)
      else if not env.callbacks_ok
      then (record ready { base = made }, opened, false)
      else (record ready { base = made; stop_work_task = false }, opened, true)

  -- Message, at a host.
  unfoldable pub hear : ℕ → Text → List ℕ → Host → Host
  hear now topic_name bytes h =
      let k = message_arrived x now topic_name bytes (host_known h) in
      record h {
        base = record (h.base) {
          client = k.own.client;
          device_list = k.own.device_list;
          node_list = k.peers;
        };
      }

-- The flag that Stop sets in front of waiting for the thread, and the user's InService.
unfoldable pub request_stop : Host → Host
request_stop h = record h { stop_work_task = true }

unfoldable pub set_in_service : Bool → Host → Host
set_in_service b h = set_client (record (h.client) { in_service = b }) h

pub data Event : Type 0 where
  round : Env → Event
  interrupted : Env → Event  -- a round in which Stop comes between the switch and the test
  accepted : Text → ℕ → ℕ → Event
  answered : Event
  lost : Event
  arrived : ℕ → Text → List ℕ → Event
  service : Bool → Event
  stop : Event

module _ (x : Externals) where
  unfoldable pub step : Event → Host → Host × List Call
  step (round env) h = host_round x env h
  step (interrupted env) h =
      let (h', calls) = host_switch x env h in (loop_test (request_stop h'), calls)
  step (accepted uri version session) h =
      (record h { base = connected uri version session h.base }, [])
  step answered h = (record h { base = set_delivered h.base }, [])
  step lost h = (record h { base = connection_lost h.base }, [])
  step (arrived now topic_name bytes) h = (hear x now topic_name bytes h, [])
  step (service b) h = (set_in_service b h, [])
  step stop h = (request_stop h, [])

  unfoldable pub run : List Event → Host → Host × List Call
  run [] h = (h, [])
  run (e ∷ es) h = let (h', calls) = step e h in let (h'', more) = run es h' in (h'', calls ++ more)

  -- From Start to the end of Stop: a Start that fails is followed by Stop at once.
  unfoldable pub whole_life : Env → Env → List Event → Host → Host × List Call
  whole_life env last es h =
      let (started, creating, ok) = start_host x env h in
      let (ran, calls) = run es (begin_task env.now started) in
      let (ended, sending) = end_task last ran in
      let (gone, destroying) = destroy_handle ended in
      let (failed, undone) = destroy_handle started in
      if ok
      then (gone, creating ++ calls ++ sending ++ destroying)
      else (failed, creating ++ undone)
