-- ===== src/Host/Machine.antt =====
-- The class `SparkplugHost` (src/sparkplughost.h, src/sparkplughost.cpp): its state, its publishing of
-- STATE messages, and the worker thread.
use pubsublib.Prelude.{
  ℕ, ◌+◌, Bool, true, false, not, ◌&&◌, ◌||◌, none, some, List, [], ◌∷◌, ◌++◌, leb, if◌then◌else◌,
}
use pubsublib.Prelude.Texts.{codes}
use pubsublib.Payload.Defs.{set_timestamp, set_value_bool, set_value_string}
use pubsublib.Payload.Json.{generate_json}
use pubsublib.Topic.Name.{get_topic}
use pubsublib.Topic.Object.{Topic, topic_message, store_topic_name}
use pubsublib.Externals.{Externals, Env, Message, qos1, Call, connect, send}
use pubsublib.Client.Defs.{
  Client, version_as_string, add_subscription, get_topic_by_message_type,
  update_topic_by_message_type,
}
use pubsublib.Sparkplug.Publish.{do_publish}
use pubsublib.Sparkplug.Node.{Node, is_connected, send_disconnect, start_subscription}

-- WorkState.
pub data WorkState : Type 0 where
  idle wait_on_connect online offline wait_on_disconnect : WorkState

pub record Host : Type 0 where
  pub base : Node
  pub open base use *
  pub work_state : WorkState
  pub stop_work_task : Bool
  pub in_loop : Bool  -- the thread has passed the test of its loop
  pub start_time : ℕ
  pub host_timer : ℕ

abbrev pub set_client : Client → Host → Host
set_client c h = record h { base = record (h.base) { client = c } }

-- The common part of the callers of SendDisconnect.
unfoldable pub leave : Env → Host → Host × List Call
leave env h = let (sent, calls) = send_disconnect env h.base in (record h { base = sent }, calls)

-- The test of the loop. Stop is the only one that sets the flag, and a thread that is out stays out.
unfoldable pub loop_test : Host → Host
loop_test h = record h { in_loop = h.in_loop && not h.stop_work_task }

unfoldable pub do_wait_on_disconnect : Env → Host → Host × List Call
do_wait_on_disconnect env h =
    if leb h.host_timer env.now || h.delivered
    then (record h { host_timer = env.now + 10_000; work_state = idle }, [])
    else (h, [])

module _ (x : Externals) where
  -- SendConnect: the will says that the host is offline, and the broker keeps it for every new listener.
  unfoldable pub will_topic : ℕ → Topic → Topic
  will_topic start_time t = store_topic_name (record t {
    payload = generate_json x.util x.serialize_json (
        set_value_bool x.util (codes "online") false
          (set_timestamp x.util start_time false t.payload));
  })

  unfoldable pub will_message : Topic → Message
  will_message t = record (topic_message t) { qos = qos1; retained = true }

  unfoldable pub send_connect : Env → Host → Host × List Call × Bool
  send_connect env h = elim (get_topic_by_message_type x.util (codes "STATE") h.client) [
    | none ↦ (h, [], false)
    | some t ↦
        let stored =
          update_topic_by_message_type x.util (codes "STATE") (will_topic h.start_time) h.client in
        (
          record h {
            base = record (h.base) {
              client = record stored { connection_lost = false };
              delivered = false;
            };
          },
          connect (some (will_message (will_topic h.start_time t))) ∷ [],
          env.connect_ok,
        )
  ]

  -- PublishState.
  unfoldable pub told : Bool → Topic → Topic
  told is_online t = record t {
    payload = set_value_bool x.util (codes "online") is_online t.payload;
  }

  unfoldable pub publish_state : Bool → Host → Host × List Call
  publish_state is_online h = elim (get_topic_by_message_type x.util (codes "STATE") h.client) [
    | none ↦ (h, [])
    | some t ↦
        let n = h.sequence_number in
        let stored =
          update_topic_by_message_type x.util (codes "STATE")
            (λ t. (do_publish x n (told is_online t)).0) h.client in
        let (_, message, next) = do_publish x n (told is_online t) in
        (
          record h { base = record (h.base) { client = stored; sequence_number = next } },
          send message ∷ [],
        )
  ]

  unfoldable pub do_idle : Env → Host → Host × List Call
  do_idle env h =
      let due = record h { host_timer = env.now + 10_000; work_state = wait_on_connect } in
      let (sent, calls, connect_ok) = send_connect env due in
      if not (leb h.host_timer env.now)
      then (h, [])
      else ((if connect_ok then sent else record sent { work_state = idle }), calls)

  -- DoWaitOnConnect, over a connection and with the STATE topic: the version goes into the payload, the
  -- topic is subscribed to, and the state is told.
  unfoldable pub set_version : Client → Client
  set_version c =
      update_topic_by_message_type x.util (codes "STATE")
        (λ t. store_topic_name (record t {
          payload =
              set_value_string x.util (codes "Properties/MQTT Version")
                (version_as_string c.version) t.payload;
        }))
        c

  unfoldable pub listen : Topic → Host → Host
  listen t h = set_client (add_subscription (get_topic t.names).0 (set_version h.client)) h

  unfoldable pub tell_state : Host → Host × List Call
  tell_state h =
      let (published, messages) = publish_state h.in_service h in
      (record published { work_state = if h.in_service then online else offline }, messages)

  unfoldable pub do_wait_on_connect : Env → Host → Host × List Call
  do_wait_on_connect env h =
      let late = record h { host_timer = env.now + 10_000; work_state = idle } in
      if leb h.host_timer env.now
      then (late, [])
      else if not (is_connected env h.base) || not h.delivered
      then (h, [])
      else elim (get_topic_by_message_type x.util (codes "STATE") h.client) [
        | none ↦ (late, [])
        | some t ↦
            let ready = listen t h in
            let (next, messages) = tell_state ready in
            (next, start_subscription ready.base ++ messages)
      ]

  -- The end of the connection, as DoOnline and DoOffline ask for it.
  unfoldable pub start_leaving : Env → Host → Host × List Call
  start_leaving env h =
      let (sent, calls) = leave env (record h { host_timer = env.now + 5_000 }) in
      (record sent { work_state = wait_on_disconnect }, calls)

  unfoldable pub do_online : Env → Host → Host × List Call
  do_online env h =
      let (told_off, messages) = publish_state false h in
      let (left, calls) = start_leaving env told_off in
      if h.stop_work_task
      then (left, messages ++ calls)
      else if not h.in_service
      then (record told_off { work_state = offline }, messages)
      else (h, [])

  unfoldable pub do_offline : Env → Host → Host × List Call
  do_offline env h =
      let (told_on, messages) = publish_state true h in
      if h.stop_work_task
      then start_leaving env h
      else if h.in_service
      then (record told_on { work_state = online }, messages)
      else (h, [])

  -- The switch in the loop of HostTask.
  unfoldable pub dispatch : WorkState → Env → Host → Host × List Call
  dispatch idle env h = do_idle env h
  dispatch wait_on_connect env h = do_wait_on_connect env h
  dispatch online env h = do_online env h
  dispatch offline env h = do_offline env h
  dispatch wait_on_disconnect env h = do_wait_on_disconnect env h

  -- The rest of a round, behind the test of the loop: the wait, in which a Stop may come, and then the
  -- switch. A thread that has left the loop does nothing.
  unfoldable pub host_switch : Env → Host → Host × List Call
  host_switch env h = if h.in_loop then dispatch h.work_state env h else (h, [])

  -- That, and the next test.
  unfoldable pub host_round : Env → Host → Host × List Call
  host_round env h = let (h', calls) = host_switch env h in (loop_test h', calls)
