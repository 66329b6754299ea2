-- ===== src/Mqtt/Machine.antt =====
-- The worker thread of `MqttClient` (src/mqttclient.cpp): the four states, the round of each state
-- and the end of the task. A round returns the new client and the calls that it makes.
use pubsublib.Prelude.{
  ℕ, ◌+◌, Bool, true, false, not, ◌&&◌, ◌||◌, none, List, [], ◌∷◌, ◌++◌, map, leb, if◌then◌else◌,
}
use pubsublib.Externals.{
  Externals, Env, Call, create, set_callbacks, connect, disconnect, destroy, subscribe, send,
}
use pubsublib.Topic.Object.{mqtt_publish}
use pubsublib.Client.Defs.{Client, connect_string, publish_topics}

-- ClientState.
pub data ClientState : Type 0 where
  idle wait_on_connect online wait_on_disconnect : ClientState

pub record MqttClient : Type 0 where
  pub client : Client
  pub open client use *
  pub handle : Bool  -- handle_ != nullptr
  pub client_state : ClientState
  pub stop_client_task : Bool
  pub looping : Bool  -- the thread has passed the test of its loop
  pub client_timer : ℕ
  pub delivered : Bool

abbrev pub set_connection_lost : Bool → MqttClient → MqttClient
set_connection_lost b m = record m { client = record (m.client) { connection_lost = b } }

-- IsConnected.
abbrev pub is_connected : Env → MqttClient → Bool
is_connected env m = m.handle && env.is_connected

-- The calls of a destructor of the handle, if there is one.
unfoldable pub destroy_handle : MqttClient → MqttClient × List Call
destroy_handle m = if m.handle then (record m { handle = false }, destroy ∷ []) else (m, [])

-- CreateClient: a failed call of the library leaves no handle; a failure to set the callbacks leaves
-- the handle.
unfoldable pub create_client : Env → MqttClient → MqttClient × List Call × Bool
create_client env m =
    if env.create_ok
    then (
      record m { handle = true },
      create (connect_string m.settings) true ∷ set_callbacks ∷ [],
      env.callbacks_ok,
    )
    else (m, create (connect_string m.settings) false ∷ [], false)

-- SendConnect.
unfoldable pub send_connect : Env → MqttClient → MqttClient × List Call × Bool
send_connect env m =
    (record (set_connection_lost false m) { delivered = false }, connect none ∷ [], env.connect_ok)

-- SendDisconnect; the callers do not look at its result.
unfoldable pub send_disconnect : MqttClient → MqttClient × List Call
send_disconnect m = (record (set_connection_lost false m) { delivered = false }, disconnect ∷ [])

-- StartSubscription.
unfoldable pub start_subscription : MqttClient → List Call
start_subscription m = map (λ topic. subscribe topic m.default_qos) m.subscription_list

-- DoIdle, behind its guards: create and connect.
unfoldable pub try_connect : Env → MqttClient → MqttClient × List Call
try_connect env m =
    let (created, creating, create_ok) = create_client env m in
    let (sent, connecting, connect_ok) = send_connect env created in
    if not create_ok
    then (record created { client_timer = env.now + 10_000 }, creating)
    else if not connect_ok
    then (record sent { client_timer = env.now + 10_000 }, creating ++ connecting)
    else (
      record sent { client_timer = env.now + 5_000; client_state = wait_on_connect },
      creating ++ connecting,
    )

unfoldable pub do_idle : Env → MqttClient → MqttClient × List Call
do_idle env m =
    let (clean, destroying) = destroy_handle m in
    let (tried, calls) = try_connect env clean in
    if not m.in_service
    then (record clean { client_timer = 0 }, destroying)
    else if not (leb m.client_timer env.now)
    then (clean, destroying)
    else (tried, destroying ++ calls)

unfoldable pub do_wait_on_connect : Env → MqttClient → MqttClient × List Call
do_wait_on_connect env m =
    if leb m.client_timer env.now
    then (record m { client_timer = env.now + 10_000; client_state = idle }, [])
    else if not (is_connected env m) || not m.delivered
    then (m, [])
    else (record m { client_state = online }, start_subscription m)

unfoldable pub do_wait_on_disconnect : Env → MqttClient → MqttClient × List Call
do_wait_on_disconnect env m =
    if leb m.client_timer env.now || m.delivered
    then (record m { client_timer = env.now + 10_000; client_state = idle }, [])
    else (m, [])

-- The test of the loop. Stop is the only one that sets the flag, and a thread that is out stays out.
unfoldable pub loop_test : MqttClient → MqttClient
loop_test m = record m { looping = m.looping && not m.stop_client_task }

module _ (x : Externals) where
  unfoldable pub do_online : Env → MqttClient → MqttClient × List Call
  do_online env m =
      let (sent, calls) = send_disconnect m in
      let (published, messages) = publish_topics (mqtt_publish x env.send_ok) m.client in
      if m.stop_client_task || not m.in_service
      then (
        record sent { client_timer = env.now + 5_000; client_state = wait_on_disconnect },
        calls,
      )
      else (record m { client = published }, map send messages)

  -- The switch in the loop of ClientTask.
  unfoldable pub dispatch : ClientState → Env → MqttClient → MqttClient × List Call
  dispatch idle env m = do_idle env m
  dispatch wait_on_connect env m = do_wait_on_connect env m
  dispatch online env m = do_online env m
  dispatch wait_on_disconnect env m = do_wait_on_disconnect env m

  -- The rest of a round, behind the test of the loop: the wait, in which a Stop may come, and then the
  -- switch. A thread that has left the loop does nothing.
  unfoldable pub client_switch : Env → MqttClient → MqttClient × List Call
  client_switch env m = if m.looping then dispatch m.client_state env m else (m, [])

  -- That, and the next test.
  unfoldable pub client_round : Env → MqttClient → MqttClient × List Call
  client_round env m = let (m', calls) = client_switch env m in (loop_test m', calls)

-- The part of ClientTask in front of the loop, and its first test.
unfoldable pub begin_task : MqttClient → MqttClient × List Call
begin_task m =
    let (clean, calls) = destroy_handle m in
    (loop_test (record clean { client_timer = 0; client_state = idle; looping = true }), calls)

abbrev pub is_idle : ClientState → Bool
is_idle idle = true
is_idle _ = false

abbrev pub is_waiting_on_disconnect : ClientState → Bool
is_waiting_on_disconnect wait_on_disconnect = true
is_waiting_on_disconnect _ = false

-- The part of ClientTask behind the loop.
unfoldable pub end_task : Env → MqttClient → MqttClient × List Call
end_task env m =
    let (sent, sending) =
      if not (is_idle m.client_state)
        && is_connected env m
        && not (is_waiting_on_disconnect m.client_state)
      then send_disconnect m
      else (m, []) in
    let (clean, destroying) = destroy_handle sent in (clean, sending ++ destroying)
