-- ===== src/Sparkplug/Task.antt =====
-- The worker thread of a node (`NodeTask` in src/sparkplugnode.cpp), and the callbacks beside it.
use pubsublib.Prelude.{
  ℕ, ◌+◌, Bool, true, false, not, ◌&&◌, ◌||◌, List, [], ◌++◌, leb, if◌then◌else◌,
}
use pubsublib.Prelude.Texts.{Text}
use pubsublib.Externals.{Externals, Env, Call}
use pubsublib.Mqtt.Events.{version_of}
use pubsublib.Sparkplug.Node.{
  Node, NodeState, idle, wait_on_connect, online, wait_on_disconnect, is_connected, destroy_handle,
  create_node, send_connect, send_disconnect, start_subscription, is_host_online,
  publish_node_birth, publish_node_death, poll_devices,
}

-- Two actions in turn.
abbrev pub and_then : Node × List Call → (Node → Node × List Call) → Node × List Call
and_then (n, calls) f = let (m, more) = f n in (m, calls ++ more)

unfoldable pub do_wait_on_disconnect : Env → Node → Node × List Call
do_wait_on_disconnect env n =
    if leb n.node_timer env.now || n.delivered
    then (record n { node_timer = env.now + 10_000; node_state = idle }, [])
    else (n, [])

-- The test of the loop. Stop is the only one that sets the flag, and a thread that is out stays out.
unfoldable pub loop_test : Node → Node
loop_test n = record n { looping = n.looping && not n.stop_node_task }

module _ (x : Externals) where
  -- Whether the node has to wait for a host.
  abbrev pub must_wait : Node → Bool
  must_wait n = n.wait_on_host_online && not (is_host_online x n)

  -- DoIdle, behind its guards.
  unfoldable pub try_connect : Env → Node → Node × List Call
  try_connect env n =
      let (made, creating, create_ok) = create_node env n in
      let (sent, connecting, connect_ok) = send_connect x env made in
      if not create_ok
      then (record made { node_timer = env.now + 10_000 }, creating)
      else if not connect_ok
      then (record sent { node_timer = env.now + 10_000 }, creating ++ connecting)
      else (
        record sent { node_timer = env.now + 5_000; node_state = wait_on_connect },
        creating ++ connecting,
      )

  unfoldable pub do_idle : Env → Node → Node × List Call
  do_idle env n =
      let (clean, destroying) = destroy_handle n in
      let (tried, calls) = try_connect env clean in
      if not (leb n.node_timer env.now) || not n.in_service || must_wait clean
      then (clean, destroying)
      else (tried, destroying ++ calls)

  -- DoWaitOnConnect, once there is a connection.
  unfoldable pub go_online : Env → Node → Node × List Call
  go_online env n =
      let (alive, births) = publish_node_birth x env n in
      let (polled, messages) = poll_devices x env (record alive { node_state = online }) in
      (polled, start_subscription n ++ births ++ messages)

  unfoldable pub do_wait_on_connect : Env → Node → Node × List Call
  do_wait_on_connect env n =
      if is_connected env n
      then go_online env n
      else if leb n.node_timer env.now
      then (record n { node_timer = env.now + 10_000; node_state = idle }, [])
      else (n, [])

  -- DoOnline, when the node has to leave.
  unfoldable pub go_offline : Env → Node → Node × List Call
  go_offline env n =
      let (polled, messages) = poll_devices x env n in
      let (dead, deaths) = publish_node_death x env polled in
      let (sent, calls) = send_disconnect env dead in
      (
        record sent { node_timer = env.now + 5_000; node_state = wait_on_disconnect },
        messages ++ deaths ++ calls,
      )

  unfoldable pub do_online : Env → Node → Node × List Call
  do_online env n =
      if n.stop_node_task || not n.in_service || must_wait n
      then go_offline env n
      else poll_devices x env n

  -- The switch in the loop of NodeTask.
  unfoldable pub dispatch : NodeState → Env → Node → Node × List Call
  dispatch idle env n = do_idle env n
  dispatch wait_on_connect env n = do_wait_on_connect env n
  dispatch online env n = do_online env n
  dispatch wait_on_disconnect env n = do_wait_on_disconnect env n

  -- The rest of a round, behind the test of the loop: the wait, in which a Stop may come, and then the
  -- switch. A thread that has left the loop does nothing.
  unfoldable pub node_switch : Env → Node → Node × List Call
  node_switch env n = if n.looping then dispatch n.node_state env n else (n, [])

  -- That, and the next test.
  unfoldable pub node_round : Env → Node → Node × List Call
  node_round env n = let (n', calls) = node_switch env n in (loop_test n', calls)

-- The part of NodeTask in front of the loop, and its first test.
unfoldable pub begin_task : Node → Node × List Call
begin_task n =
    let (clean, calls) =
      destroy_handle (record n { node_timer = 0; node_state = idle; looping = true }) in
    (loop_test clean, calls)

abbrev pub is_idle : NodeState → Bool
is_idle idle = true
is_idle _ = false

abbrev pub is_waiting_on_disconnect : NodeState → Bool
is_waiting_on_disconnect wait_on_disconnect = true
is_waiting_on_disconnect _ = false

-- The part behind the loop.
unfoldable pub end_task : Env → Node → Node × List Call
end_task env n =
    let (sent, sending) =
      if not (is_idle n.node_state)
        && is_connected env n
        && not (is_waiting_on_disconnect n.node_state)
      then send_disconnect env n
      else (n, []) in
    let (clean, destroying) = destroy_handle sent in (clean, sending ++ destroying)

-- Connect and Connect5.
unfoldable pub connected : Text → ℕ → ℕ → Node → Node
connected server_uri version session n = record n {
  client = record (n.client) { settings = record (n.settings) { version = version_of version } };
  server_uri = server_uri;
  server_version = version;
  server_session = session;
  delivered = true;
}

-- ConnectFailure, Disconnect, DisconnectFailure and their forms for MQTT 5.
unfoldable pub set_delivered : Node → Node
set_delivered n = record n { delivered = true }

-- ConnectionLost.
unfoldable pub connection_lost : Node → Node
connection_lost n = record n { client = record (n.client) { connection_lost = true } }
