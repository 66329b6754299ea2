-- ===== src/Mqtt/Invariant.antt =====
-- What holds of the plain client's task over every run: its states, and the handles that it creates.
use pubsublib.Prelude.{
  ℕ, suc, ◌+◌, ◌≡◌, refl, ap, ◌||◌, Bool, true, false, List, [], ◌∷◌, ◌++◌, map, arith,
  if◌then◌else◌,
}
use pubsublib.Prelude.Texts.{Text}
use pubsublib.Externals.{Externals, Env, Message, Qos, Call, create, destroy, subscribe, send}
use pubsublib.Client.Defs.{publish_topics}
use pubsublib.Topic.Object.{mqtt_publish}
use pubsublib.Mqtt.Machine.{
  MqttClient, ClientState, idle, wait_on_connect, online, wait_on_disconnect, is_idle,
  destroy_handle, create_client, send_connect, send_disconnect, start_subscription, try_connect,
  do_idle, do_wait_on_connect, do_online, do_wait_on_disconnect, dispatch, client_switch,
  client_round, loop_test, begin_task, end_task,
}
use pubsublib.Mqtt.Events.{
  Event, step, run, connection_lost, delivery_complete, connected, request_failed, disconnected,
  message_arrived, set_in_service, request_stop, round, interrupted, lost, arrived,
}

-- In every state but idle there is a handle to talk through.
abbrev pub HasHandle : MqttClient → Type 0
HasHandle m = (is_idle m.client_state || m.handle) ≡ true

-- The handles that a list of calls creates, and those that it destroys.
unfoldable pub created : List Call → ℕ
created [] = 0
created (create _ true ∷ cs) = suc (created cs)
created (_ ∷ cs) = created cs

unfoldable pub destroyed : List Call → ℕ
destroyed [] = 0
destroyed (destroy ∷ cs) = suc (destroyed cs)
destroyed (_ ∷ cs) = destroyed cs

abbrev pub live : Bool → ℕ
live true = 1
live false = 0

-- The diagram of the states.
pub data Edge : ClientState → ClientState → Type 0 where
  stay : {s : ClientState} → Edge s s
  connecting : Edge idle wait_on_connect
  established : Edge wait_on_connect online
  gave_up : Edge wait_on_connect idle
  leaving : Edge online wait_on_disconnect
  left : Edge wait_on_disconnect idle

ruleset edges = (stay, connecting, established, gave_up, leaving, left)

pub created-append : (cs ds : List Call) → created (cs ++ ds) ≡ created cs + created ds
unfolding created
created-append [] ds = omega arith
created-append (create url true ∷ cs) ds = omega (arith, created-append cs ds)
created-append (create url false ∷ cs) ds = created-append cs ds
created-append (c ∷ cs) ds = created-append cs ds

pub destroyed-append : (cs ds : List Call) → destroyed (cs ++ ds) ≡ destroyed cs + destroyed ds
unfolding destroyed
destroyed-append [] ds = omega arith
destroyed-append (destroy ∷ cs) ds = omega (arith, destroyed-append cs ds)
destroyed-append (c ∷ cs) ds = destroyed-append cs ds

-- Messages and subscriptions neither create nor destroy a handle.
pub created-send : (ms : List Message) → created (map send ms) ≡ 0
unfolding created
created-send [] = refl
created-send (m ∷ ms) = created-send ms

pub destroyed-send : (ms : List Message) → destroyed (map send ms) ≡ 0
unfolding destroyed
destroyed-send [] = refl
destroyed-send (m ∷ ms) = destroyed-send ms

created-subscribe : (q : Qos) (ts : List Text) → created (map (λ topic. subscribe topic q) ts) ≡ 0
unfolding created
created-subscribe q [] = refl
created-subscribe q (t ∷ ts) = created-subscribe q ts

destroyed-subscribe :
    (q : Qos) (ts : List Text) → destroyed (map (λ topic. subscribe topic q) ts) ≡ 0
unfolding destroyed
destroyed-subscribe q [] = refl
destroyed-subscribe q (t ∷ ts) = destroyed-subscribe q ts

-- The handle before with those created is the handle after with those destroyed.
abbrev pub Balanced : MqttClient → MqttClient × List Call → Type 0
Balanced m (m', calls) = live m.handle + created calls ≡ live m'.handle + destroyed calls

do_idle-Balanced : (env : Env) (m : MqttClient) → Balanced m (do_idle env m)
unfolding do_idle try_connect create_client send_connect destroy_handle created destroyed
do_idle-Balanced env m = ground arith

do_wait_on_connect-Balanced : (env : Env) (m : MqttClient) → Balanced m (do_wait_on_connect env m)
unfolding do_wait_on_connect start_subscription created destroyed
do_wait_on_connect-Balanced env m = ground (
  arith,
  created-subscribe m.default_qos m.subscription_list,
  destroyed-subscribe m.default_qos m.subscription_list,
)

do_wait_on_disconnect-Balanced :
    (env : Env) (m : MqttClient) → Balanced m (do_wait_on_disconnect env m)
unfolding do_wait_on_disconnect created destroyed
do_wait_on_disconnect-Balanced env m = ground arith

module _ (x : Externals) where
  do_online-Balanced : (env : Env) (m : MqttClient) → Balanced m (do_online x env m)
  unfolding do_online send_disconnect created destroyed
  do_online-Balanced env m =
      let sent = (publish_topics (mqtt_publish x env.send_ok) m.client).1 in
      ground (arith, created-send sent, destroyed-send sent)

  -- A thread in its loop does what its state asks for, and then the test.
  pub client_round-looping :
      (env : Env) (m : MqttClient)
      → m.looping ≡ true
      → client_round x env m
        ≡ (loop_test (dispatch x m.client_state env m).0, (dispatch x m.client_state env m).1)
  unfolding client_round client_switch
  client_round-looping env m r =
      ap
        (λ b.
          let (m', calls) = if b then dispatch x m.client_state env m else (m, []) in
          (loop_test m', calls))
        r

  dispatch-Balanced :
      (s : ClientState) (env : Env) (m : MqttClient) → Balanced m (dispatch x s env m)
  unfolding dispatch
  dispatch-Balanced idle env m = do_idle-Balanced env m
  dispatch-Balanced wait_on_connect env m = do_wait_on_connect-Balanced env m
  dispatch-Balanced online env m = do_online-Balanced env m
  dispatch-Balanced wait_on_disconnect env m = do_wait_on_disconnect-Balanced env m

  step-Balanced : (e : Event) (m : MqttClient) → Balanced m (step x e m)
  unfolding step client_round client_switch loop_test created destroyed connection_lost
      delivery_complete connected request_failed disconnected message_arrived set_in_service
      request_stop
  step-Balanced (round env) m = ground (arith, dispatch-Balanced m.client_state env m)
  step-Balanced (interrupted env) m = ground (arith, dispatch-Balanced m.client_state env m)
  step-Balanced lost m = refl
  step-Balanced (arrived now topic_name message) m = ground arith
  step-Balanced _ m = refl

  run-Balanced : (es : List Event) (m : MqttClient) → Balanced m (run x es m)
  unfolding run created destroyed
  run-Balanced [] m = refl
  run-Balanced (e ∷ es) m =
      let (m', calls) = step x e m in
      omega (
        arith,
        step-Balanced e m,
        run-Balanced es m',
        created-append calls (run x es m').1,
        destroyed-append calls (run x es m').1,
      )

  -- A whole task: its beginning, any events, and its end.
  pub whole_task : Env → List Event → MqttClient → MqttClient × List Call
  whole_task env es m =
      let (begun, calls) = begin_task m in
      let (ran, more) = run x es begun in
      let (ended, last) = end_task env ran in (ended, calls ++ (more ++ last))

  begin_task-Balanced : (m : MqttClient) → Balanced m (begin_task m)
  unfolding begin_task loop_test destroy_handle created destroyed
  begin_task-Balanced m = ground arith

  end_task-Balanced : (env : Env) (m : MqttClient) → Balanced m (end_task env m)
  unfolding end_task destroy_handle send_disconnect created destroyed
  end_task-Balanced env m = ground arith

  handle-end_task : (env : Env) (m : MqttClient) → (end_task env m).0.handle ≡ false
  unfolding end_task destroy_handle send_disconnect
  handle-end_task env m = ground arith

  -- A task destroys every handle that it creates, and the one that it found, whatever happens while
  -- it runs; it ends without a handle.
  pub whole_task-Balanced :
      (env : Env) (es : List Event) (m : MqttClient)
      → (live m.handle + created (whole_task env es m).1 ≡ destroyed (whole_task env es m).1)
        × ((whole_task env es m).0.handle ≡ false)
  unfolding whole_task
  whole_task-Balanced env es m =
      let begun = (begin_task m).0 in
      let calls = (begin_task m).1 in
      let ran = (run x es begun).0 in
      let more = (run x es begun).1 in
      let last = (end_task env ran).1 in
      (
        omega (
          arith,
          begin_task-Balanced m,
          run-Balanced es begun,
          end_task-Balanced env ran,
          created-append calls (more ++ last),
          created-append more last,
          destroyed-append calls (more ++ last),
          destroyed-append more last,
          ap live (handle-end_task env ran),
        ),
        handle-end_task env ran,
      )

  dispatch-Edge :
      (s : ClientState) (env : Env) (m : MqttClient)
      → m.client_state ≡ s
      → Edge s (dispatch x s env m).0.client_state
  unfolding dispatch do_idle do_wait_on_connect do_online do_wait_on_disconnect try_connect
      create_client send_connect send_disconnect destroy_handle
  dispatch-Edge idle env m e = grind (arith, edges)
  dispatch-Edge wait_on_connect env m e = grind (arith, edges)
  dispatch-Edge online env m e = grind (arith, edges)
  dispatch-Edge wait_on_disconnect env m e = grind (arith, edges)

  -- Every event moves the client along an edge of the diagram or leaves its state.
  pub step-Edge : (e : Event) (m : MqttClient) → Edge m.client_state (step x e m).0.client_state
  unfolding step client_round client_switch loop_test connection_lost delivery_complete connected
      request_failed disconnected message_arrived set_in_service request_stop
  step-Edge (round env) m = grind (arith, stay, dispatch-Edge m.client_state env m refl)
  step-Edge (interrupted env) m = grind (arith, stay, dispatch-Edge m.client_state env m refl)
  step-Edge (arrived now topic_name message) m = grind (arith, stay)
  step-Edge lost m = stay
  step-Edge _ m = stay

  dispatch-HasHandle :
      (s : ClientState) (env : Env) (m : MqttClient)
      → m.client_state ≡ s
      → HasHandle m
      → HasHandle (dispatch x s env m).0
  unfolding dispatch do_idle do_wait_on_connect do_online do_wait_on_disconnect try_connect
      create_client send_connect send_disconnect destroy_handle
  dispatch-HasHandle idle env m e h = ground arith
  dispatch-HasHandle wait_on_connect env m e h = ground arith
  dispatch-HasHandle online env m e h = ground arith
  dispatch-HasHandle wait_on_disconnect env m e h = ground arith

  -- Every event keeps a handle in every state but idle.
  step-HasHandle : (e : Event) (m : MqttClient) → HasHandle m → HasHandle (step x e m).0
  unfolding step client_round client_switch loop_test connection_lost delivery_complete connected
      request_failed disconnected message_arrived set_in_service request_stop
  step-HasHandle (round env) m h = ground (arith, dispatch-HasHandle m.client_state env m refl h)
  step-HasHandle (interrupted env) m h =
      ground (arith, dispatch-HasHandle m.client_state env m refl h)
  step-HasHandle (arrived now topic_name message) m h = ground arith
  step-HasHandle lost m h = h
  step-HasHandle _ m h = h

  run-HasHandle : (es : List Event) (m : MqttClient) → HasHandle m → HasHandle (run x es m).0
  unfolding run
  run-HasHandle [] m h = h
  run-HasHandle (e ∷ es) m h = run-HasHandle es (step x e m).0 (step-HasHandle e m h)

  begin_task-HasHandle : (m : MqttClient) → HasHandle (begin_task m).0
  unfolding begin_task loop_test
  begin_task-HasHandle m = ground arith

  -- From the beginning of a task on, after any events, a client that waits for a connection, is
  -- online or waits for the end of the connection has a handle.
  pub run-begin_task-HasHandle :
      (es : List Event) (m : MqttClient) → HasHandle (run x es (begin_task m).0).0
  run-begin_task-HasHandle es m = run-HasHandle es (begin_task m).0 (begin_task-HasHandle m)
