-- ===== src/Sparkplug/Stopping.antt =====
-- How a node's task ends when the user stops it while it is online (`Stop`, `DoOnline` and the end of
-- `NodeTask` in src/sparkplugnode.cpp).
use mathlib.Core.List.{append-nil}
use pubsublib.Prelude.{
  ℕ, ◌≡◌, refl, ap, ◌∙◌, some, true, false, ◌||◌, not, List, [], ◌∷◌, ◌++◌, arith,
}
use pubsublib.Prelude.Texts.{codes, text_eq}
use pubsublib.Externals.{Externals, Env, Call, Message, send, disconnect, destroy}
use pubsublib.Payload.Defs.{set_timestamp}
use pubsublib.Payload.Protobuf.{generate_protobuf}
use pubsublib.Topic.Name.{get_topic, state_word}
use pubsublib.Topic.Building.{get_topic-stored}
use pubsublib.Topic.Object.{
  Topic, topic_message, store_topic_name, takes_sequence_number, sparkplug_payload,
  sparkplug_publish,
}
use pubsublib.Client.Defs.{get_topic_by_message_type}
use pubsublib.Sparkplug.Publish.{do_publish, next_sequence_number}
use pubsublib.Sparkplug.Births.{publish_prepared-some}
use pubsublib.Sparkplug.Node.{
  Node, NodeState, idle, wait_on_connect, online, wait_on_disconnect, destroy_handle,
  send_disconnect, publish_node, publish_node_death, poll_devices,
}
use pubsublib.Sparkplug.Task.{
  loop_test, node_switch, must_wait, do_online, go_offline, dispatch, node_round, end_task,
  is_waiting_on_disconnect, connected, set_delivered, connection_lost,
}
use pubsublib.Sparkplug.Routing.Handlers.{node_message_arrived}
use pubsublib.Sparkplug.Handles.{go_offline-IsQuiet}
use pubsublib.Sparkplug.Leaving.{publish_node-kept, node_round-looping}
use pubsublib.Sparkplug.Events.{
  Event, round, interrupted, accepted, step, run, set_in_service, request_stop,
}

-- Out of the loop, with a handle, after the request to disconnect.
abbrev IsOut : Node → Type 0
IsOut n = (n.looping ≡ false) × (n.handle ≡ true) × (is_waiting_on_disconnect n.node_state ≡ true)

module _ (x : Externals) where
  -- What a node publishes when it leaves.
  abbrev farewell : Env → Node → List Call
  farewell env n =
      let (polled, messages) = poll_devices x env n in
      messages ++ (publish_node_death x env polled).1

  go_offline-IsOut :
      (env : Env) (n : Node)
      → n.handle ≡ true
      → n.stop_node_task ≡ true
      → ((go_offline x env n).1 ≡ farewell env n ++ disconnect ∷ [])
        × IsOut (loop_test (go_offline x env n).0)
  unfolding loop_test go_offline publish_node_death send_disconnect poll_devices
  go_offline-IsOut env n h r =
      let polled = (poll_devices x env n).0 in
      let messages = (poll_devices x env n).1 in
      let deaths = (publish_node x (codes "NDEATH") env polled).1 in
      let (stop_kept, service_kept, loop_kept) = publish_node-kept x (codes "NDEATH") env polled in
      let (handle_kept, quiet) = go_offline-IsQuiet x env n in
      (refl, (ground (arith, stop_kept, loop_kept), handle_kept ∙ h, refl))

  step-IsOut : (e : Event) (n : Node) → IsOut n → ((step x e n).1 ≡ []) × IsOut (step x e n).0
  unfolding step node_message_arrived node_round node_switch loop_test connected set_delivered
      connection_lost set_in_service request_stop
  step-IsOut (round env) n o = ground arith
  step-IsOut (interrupted env) n o = ground arith
  step-IsOut (accepted uri version session) n o = (refl, o)
  step-IsOut _ n o = (refl, o)

  run-IsOut : (es : List Event) (n : Node) → IsOut n → ((run x es n).1 ≡ []) × IsOut (run x es n).0
  unfolding run
  run-IsOut [] n o = (refl, o)
  run-IsOut (e ∷ es) n o =
      let (quiet, o') = step-IsOut e n o in
      let (quiets, end) = run-IsOut es (step x e n).0 o' in (rw (quiet, quiets) refl, end)

  end_task-IsOut : (env : Env) (n : Node) → IsOut n → (end_task env n).1 ≡ destroy ∷ []
  unfolding end_task destroy_handle send_disconnect
  end_task-IsOut env n o = ground arith

  dispatch-IsOut :
      (s : NodeState) (env : Env) (n : Node)
      → s ≡ online
      → n.handle ≡ true
      → n.stop_node_task ≡ true
      → ((dispatch x s env n).1 ≡ farewell env n ++ disconnect ∷ [])
        × IsOut (loop_test (dispatch x s env n).0)
  unfolding dispatch do_online
  dispatch-IsOut online env n e h r =
      let leaves : (n.stop_node_task || not n.in_service || must_wait x n) ≡ true =
        ground (arith, r) in
      rw leaves (go_offline-IsOut env n h r)
  dispatch-IsOut idle env n e h r = ground arith
  dispatch-IsOut wait_on_connect env n e h r = ground arith
  dispatch-IsOut wait_on_disconnect env n e h r = ground arith

  run_round :
      (env : Env) (es : List Event) (n : Node)
      → run x (round env ∷ es) n ≡ (
        (run x es (node_round x env n).0).0,
        (node_round x env n).1 ++ (run x es (node_round x env n).0).1,
      )
  run_round env es n = unfold run step in refl

  stop_node_calls :
      (now later : Env) (es : List Event) (n : Node)
      → n.node_state ≡ online
      → n.looping ≡ true
      → n.handle ≡ true
      → n.stop_node_task ≡ true
      → let (ran, calls) = run x (round now ∷ es) n in
        calls ++ (end_task later ran).1 ≡ (farewell now n ++ disconnect ∷ []) ++ destroy ∷ []
  stop_node_calls now later es n s o h r =
      let (sent, out) = dispatch-IsOut n.node_state now n s h r in
      let (quiet, end) = run-IsOut es (loop_test (dispatch x n.node_state now n).0) out in
      let last =
        end_task-IsOut later (run x es (loop_test (dispatch x n.node_state now n).0)).0 end in
      rw (run_round now es n, node_round-looping x now n o, sent, quiet, append-nil, last) refl

  -- An NDEATH topic as a message: its payload with the time and a sequence number, in protobuf.
  abbrev pub death_message : ℕ → ℕ → Topic → Message
  death_message now sequence_number t = record {
    topic = (get_topic t.names).0;
    body =
        (generate_protobuf x.util x.protobuf (record (set_timestamp x.util now false t.payload) {
          sequence_number = sequence_number;
        })).body;
    qos = t.qos;
    retained = t.retained;
  }

  message-do_publish :
      (now n : ℕ) (t : Topic)
      → t.names.message_type ≡ codes "NDEATH"
      → (do_publish x n (record t { payload = set_timestamp x.util now false t.payload })).1
        ≡ death_message now n t
  unfolding do_publish sparkplug_publish sparkplug_payload takes_sequence_number topic_message
      store_topic_name next_sequence_number text_eq
  message-do_publish now n t type =
      let is_death : text_eq t.names.message_type state_word ≡ false =
        ap (λ s. text_eq s state_word) type in
      rw (is_death, get_topic-stored t.names) refl

  publish_node_death-sends :
      (env : Env) (n : Node) (t : Topic)
      → n.handle ≡ true
      → env.is_connected ≡ true
      → get_topic_by_message_type x.util (codes "NDEATH") n.client ≡ some t
      → t.names.message_type ≡ codes "NDEATH"
      → (publish_node_death x env n).1 ≡ send (death_message env.now n.sequence_number t) ∷ []
  unfolding publish_node_death publish_node
  publish_node_death-sends env n t h there e type =
      rw
        (
          h,
          there,
          publish_prepared-some x (codes "NDEATH") (λ t. t) env.now n.sequence_number n.client t e,
        )
        (ap (λ m. send m ∷ []) (message-do_publish env.now n.sequence_number t type))

  -- When an online node that is in its loop, has a connected handle and has an NDEATH topic is stopped, the
  -- rest of its task makes these calls and no other, whatever happens until the end and in whatever
  -- order: what its devices publish, its NDEATH message with the next sequence number, one request to
  -- disconnect, and the destruction of the handle.
  pub stop_node_online :
      (now later : Env) (es : List Event) (n : Node) (t : Topic)
      → n.node_state ≡ online
      → n.looping ≡ true
      → n.handle ≡ true
      → n.stop_node_task ≡ true
      → now.is_connected ≡ true
      → get_topic_by_message_type x.util (codes "NDEATH") n.client ≡ some t
      → t.names.message_type ≡ codes "NDEATH"
      → let (ran, calls) = run x (round now ∷ es) n in
        let (polled, messages) = poll_devices x now n in
        calls ++ (end_task later ran).1
        ≡ ((messages ++ send (death_message now.now polled.sequence_number t) ∷ [])
            ++ disconnect ∷ [])
          ++ destroy ∷ []
  unfolding poll_devices
  stop_node_online now later es n t s o h r there e type =
      stop_node_calls now later es n s o h r
      ∙ ap (λ sent. (((poll_devices x now n).1 ++ sent) ++ disconnect ∷ []) ++ destroy ∷ [])
          (publish_node_death-sends now (poll_devices x now n).0 t h there e type)
