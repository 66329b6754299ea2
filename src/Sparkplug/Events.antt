-- ===== src/Sparkplug/Events.antt =====
-- Runs of a node: the rounds of its thread, the callbacks of the MQTT library with the messages that
-- arrive, and the user's switches.
use pubsublib.Prelude.{ℕ, Bool, true, List, [], ◌∷◌, ◌++◌}
use pubsublib.Prelude.Texts.{Text}
use pubsublib.Externals.{Externals, Env, Call}
use pubsublib.Sparkplug.Node.{Node}
use pubsublib.Sparkplug.Routing.Handlers.{node_message_arrived}
use pubsublib.Sparkplug.Task.{
  loop_test, node_switch, node_round, begin_task, end_task, connected, set_delivered,
  connection_lost,
}

-- The user's InService, and the flag that Stop sets in front of waiting for the thread.
unfoldable pub set_in_service : Bool → Node → Node
set_in_service b n = record n { client = record (n.client) { in_service = b } }

unfoldable pub request_stop : Node → Node
request_stop n = record n { stop_node_task = true }

pub data Event : Type 0 where
  round : Env → Event
  interrupted : Env → Event  -- a round in which Stop comes between the switch and the test
  accepted : Text → ℕ → ℕ → Event
  answered : Event
  lost : Event
  arrived : ℕ → Text → List ℕ → Event
  service : Bool → Event
  stop : Event

module _ (x : Externals) where
  unfoldable pub step : Event → Node → Node × List Call
  step (round env) n = node_round x env n
  step (interrupted env) n =
      let (n', calls) = node_switch x env n in (loop_test (request_stop n'), calls)
  step (accepted uri version session) n = (connected uri version session n, [])
  step answered n = (set_delivered n, [])
  step (arrived now topic_name bytes) n = (node_message_arrived x now topic_name bytes n, [])
  step lost n = (connection_lost n, [])
  step (service b) n = (set_in_service b n, [])
  step stop n = (request_stop n, [])

  unfoldable pub run : List Event → Node → Node × List Call
  run [] n = (n, [])
  run (e ∷ es) n = let (n', calls) = step e n in let (n'', more) = run es n' in (n'', calls ++ more)

  -- A whole NodeTask: its beginning, any events, and its end.
  unfoldable pub whole_task : Env → List Event → Node → Node × List Call
  whole_task env es n =
      let (begun, calls) = begin_task n in
      let (ran, more) = run es begun in
      let (ended, last) = end_task env ran in (ended, calls ++ (more ++ last))
