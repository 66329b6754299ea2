-- ===== src/Mqtt/Stopping.antt =====
-- How the plain client's task ends when the user stops it while it is online (`Stop`, `DoOnline` and the
-- end of `ClientTask` in src/mqttclient.cpp).
use pubsublib.Prelude.{◌≡◌, refl, true, false, List, [], ◌∷◌, ◌++◌, arith}
use pubsublib.Externals.{Externals, Env, disconnect, destroy}
use pubsublib.Mqtt.Machine.{
  MqttClient, ClientState, idle, wait_on_connect, online, wait_on_disconnect,
  is_waiting_on_disconnect, destroy_handle, send_disconnect, do_online, dispatch, client_switch,
  client_round, loop_test, end_task,
}
use pubsublib.Mqtt.Invariant.{client_round-looping}
use pubsublib.Mqtt.Events.{
  Event, step, run, connection_lost, delivery_complete, connected, request_failed, disconnected,
  message_arrived, set_in_service, request_stop, round, interrupted, lost, arrived,
}

-- Out of the loop, with a handle, after the request to disconnect.
abbrev IsOut : MqttClient → Type 0
IsOut m = (m.looping ≡ false) × (m.handle ≡ true) × (is_waiting_on_disconnect m.client_state ≡ true)

module _ (x : Externals) where
  dispatch-IsOut :
      (s : ClientState) (env : Env) (m : MqttClient)
      → s ≡ online
      → m.handle ≡ true
      → m.stop_client_task ≡ true
      → ((dispatch x s env m).1 ≡ disconnect ∷ []) × IsOut (loop_test (dispatch x s env m).0)
  unfolding dispatch do_online send_disconnect loop_test
  dispatch-IsOut idle env m e h r = ground arith
  dispatch-IsOut wait_on_connect env m e h r = ground arith
  dispatch-IsOut online env m e h r = ground arith
  dispatch-IsOut wait_on_disconnect env m e h r = ground arith

  step-IsOut : (e : Event) (m : MqttClient) → IsOut m → ((step x e m).1 ≡ []) × IsOut (step x e m).0
  unfolding step client_round client_switch loop_test connection_lost delivery_complete connected
      request_failed disconnected message_arrived set_in_service request_stop
  step-IsOut (round env) m o = ground arith
  step-IsOut (interrupted env) m o = ground arith
  step-IsOut (arrived now topic_name message) m o = ground arith
  step-IsOut lost m o = (refl, o)
  step-IsOut _ m o = (refl, o)

  run-IsOut :
      (es : List Event) (m : MqttClient) → IsOut m → ((run x es m).1 ≡ []) × IsOut (run x es m).0
  unfolding run
  run-IsOut [] m o = (refl, o)
  run-IsOut (e ∷ es) m o =
      let (quiet, o') = step-IsOut e m o in
      let (quiets, end) = run-IsOut es (step x e m).0 o' in (rw (quiet, quiets) refl, end)

  end_task-IsOut : (env : Env) (m : MqttClient) → IsOut m → (end_task env m).1 ≡ destroy ∷ []
  unfolding end_task destroy_handle send_disconnect
  end_task-IsOut env m o = ground arith

  run_round :
      (env : Env) (es : List Event) (m : MqttClient)
      → run x (round env ∷ es) m ≡ (
        (run x es (client_round x env m).0).0,
        (client_round x env m).1 ++ (run x es (client_round x env m).0).1,
      )
  run_round env es m = unfold run step in refl

  -- When an online client that is in its loop and has a handle is stopped, the rest of its task makes two
  -- calls, whatever happens until the end and in whatever order: one request to disconnect, and the
  -- destruction of the handle. So the end of the task does not ask for the disconnect a second time.
  pub stop_online :
      (now later : Env) (es : List Event) (m : MqttClient)
      → m.client_state ≡ online
      → m.looping ≡ true
      → m.handle ≡ true
      → m.stop_client_task ≡ true
      → let (ran, calls) = run x (round now ∷ es) m in
        calls ++ (end_task later ran).1 ≡ disconnect ∷ destroy ∷ []
  stop_online now later es m s o h r =
      let (sent, out) = dispatch-IsOut m.client_state now m s h r in
      let (quiet, end) = run-IsOut es (loop_test (dispatch x m.client_state now m).0) out in
      let last =
        end_task-IsOut later (run x es (loop_test (dispatch x m.client_state now m).0)).0 end in
      rw (run_round now es m, client_round-looping x now m o, sent, quiet, last) refl
