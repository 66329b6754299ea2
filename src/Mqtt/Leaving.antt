-- ===== src/Mqtt/Leaving.antt =====
-- How the plain client's task leaves the broker (src/mqttclient.cpp).
use pubsublib.Prelude.{ℕ, ◌+◌, ◌≡◌, refl, Bool, true, false, List, [], ◌∷◌, arith, leb, All}
use pubsublib.Externals.{Externals, Env, disconnect}
use pubsublib.Client.Defs.{update_topic, create_topic}
use pubsublib.Mqtt.Machine.{
  MqttClient, ClientState, idle, wait_on_connect, online, wait_on_disconnect, destroy_handle,
  send_disconnect, do_idle, do_online, do_wait_on_disconnect, dispatch, client_round, loop_test,
}
use pubsublib.Mqtt.Invariant.{client_round-looping}
use pubsublib.Mqtt.Events.{
  Event, step, run, connection_lost, delivery_complete, connected, request_failed, disconnected,
  message_arrived, round, interrupted, lost, complete, accepted, refused, closed, arrived, service,
  stop,
}

-- The user's switches; every other event is a round or comes from the broker.
abbrev pub is_switch : Event → Bool
is_switch (service _) = true
is_switch stop = true
is_switch (interrupted _) = true
is_switch _ = false

-- Idle, or waiting at most until `limit` for the end of the connection.
abbrev is_leaving : ℕ → ClientState → ℕ → Bool
is_leaving limit idle timer = true
is_leaving limit wait_on_disconnect timer = leb timer limit
is_leaving limit _ timer = false

-- Out of service, not asked to stop, and leaving.
abbrev IsOnTheWay : ℕ → MqttClient → Type 0
IsOnTheWay limit m =
    (m.in_service ≡ false)
    × (m.stop_client_task ≡ false)
    × (is_leaving limit m.client_state m.client_timer ≡ true)

-- The same, and in the loop.
abbrev Leaves : ℕ → MqttClient → Type 0
Leaves limit m = (m.looping ≡ true) × IsOnTheWay limit m

module _ (x : Externals) (limit : ℕ) where
  dispatch-Leaves :
      (s : ClientState) (env : Env) (m : MqttClient)
      → m.client_state ≡ s
      → is_leaving limit s m.client_timer ≡ true
      → m.looping ≡ true
      → m.in_service ≡ false
      → m.stop_client_task ≡ false
      → Leaves limit (loop_test (dispatch x s env m).0)
  unfolding dispatch do_idle do_wait_on_disconnect destroy_handle loop_test
  dispatch-Leaves idle env m e l o i r = ground arith
  dispatch-Leaves wait_on_connect env m e l o i r = ground arith
  dispatch-Leaves online env m e l o i r = ground arith
  dispatch-Leaves wait_on_disconnect env m e l o i r = ground arith

  step-Leaves :
      (e : Event) (m : MqttClient)
      → is_switch e ≡ false
      → Leaves limit m
      → Leaves limit (step x e m).0
  unfolding step connection_lost delivery_complete connected request_failed disconnected
      message_arrived update_topic create_topic
  step-Leaves (round env) m h (o, (i, r, l)) =
      rw (client_round-looping x env m o) (dispatch-Leaves m.client_state env m refl l o i r)
  step-Leaves (interrupted env) m h l = ground arith
  step-Leaves (arrived now topic_name message) m h l = ground arith
  step-Leaves lost m h l = l
  step-Leaves complete m h l = l
  step-Leaves (accepted uri version) m h l = l
  step-Leaves refused m h l = l
  step-Leaves closed m h l = l
  step-Leaves (service b) m h l = ground arith
  step-Leaves stop m h l = ground arith

  run-Leaves :
      (es : List Event) (m : MqttClient)
      → All (λ e. is_switch e ≡ false) es
      → Leaves limit m
      → Leaves limit (run x es m).0
  unfolding run
  run-Leaves [] m h l = l
  run-Leaves (e ∷ es) m (h, hs) l = run-Leaves es (step x e m).0 hs (step-Leaves e m h l)

  dispatch-left :
      (s : ClientState) (env : Env) (m : MqttClient)
      → m.client_state ≡ s
      → is_leaving limit s m.client_timer ≡ true
      → m.in_service ≡ false
      → leb limit env.now ≡ true
      → (dispatch x s env m).0.client_state ≡ idle
  unfolding dispatch do_idle do_wait_on_disconnect destroy_handle
  dispatch-left idle env m e l i n = ground arith
  dispatch-left wait_on_connect env m e l i n = ground arith
  dispatch-left online env m e l i n = ground arith
  dispatch-left wait_on_disconnect env m e l i n = ground arith

  round-left :
      (env : Env) (m : MqttClient)
      → Leaves limit m
      → leb limit env.now ≡ true
      → (client_round x env m).0.client_state ≡ idle
  unfolding loop_test
  round-left env m (o, (i, r, l)) n =
      rw (client_round-looping x env m o) (dispatch-left m.client_state env m refl l i n)

module _ (x : Externals) where
  dispatch-disconnects :
      (s : ClientState) (env : Env) (m : MqttClient)
      → s ≡ online
      → m.looping ≡ true
      → m.in_service ≡ false
      → m.stop_client_task ≡ false
      → ((dispatch x s env m).1 ≡ disconnect ∷ [])
        × Leaves (env.now + 5_000) (loop_test (dispatch x s env m).0)
  unfolding dispatch do_online send_disconnect loop_test
  dispatch-disconnects idle env m e o i r = ground arith
  dispatch-disconnects wait_on_connect env m e o i r = ground arith
  dispatch-disconnects online env m e o i r = ground arith
  dispatch-disconnects wait_on_disconnect env m e o i r = ground arith

  client_round-disconnects :
      (env : Env) (m : MqttClient)
      → m.client_state ≡ online
      → m.looping ≡ true
      → m.in_service ≡ false
      → m.stop_client_task ≡ false
      → ((client_round x env m).1 ≡ disconnect ∷ [])
        × Leaves (env.now + 5_000) (client_round x env m).0
  client_round-disconnects env m s o i r =
      rw (client_round-looping x env m o) (dispatch-disconnects m.client_state env m s o i r)

  -- An online client that is out of service sends its disconnect request in the next round, and it is
  -- idle after any round five seconds later, whatever the broker answers, delivers or loses and
  -- however many rounds run in between, as long as the user turns no switch.
  pub leaves_in_time :
      (now later : Env) (es : List Event) (m : MqttClient)
      → m.client_state ≡ online
      → m.looping ≡ true
      → m.in_service ≡ false
      → m.stop_client_task ≡ false
      → All (λ e. is_switch e ≡ false) es
      → leb (now.now + 5_000) later.now ≡ true
      → ((client_round x now m).1 ≡ disconnect ∷ [])
        × ((client_round x later (run x es (client_round x now m).0).0).0.client_state ≡ idle)
  leaves_in_time now later es m s o i r h n =
      let (sent, leaving) = client_round-disconnects now m s o i r in
      (
        sent,
        round-left x (now.now + 5_000) later _ (run-Leaves x (now.now + 5_000) es _ h leaving) n,
      )
