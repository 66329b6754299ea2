-- ===== src/Mqtt/Timing.antt =====
-- The timers of the plain client's task (src/mqttclient.cpp): when it retries.
use pubsublib.Prelude.{
  ℕ, ◌+◌, ◌≡◌, refl, ap, ◌∙◌, Bool, true, false, ◌&&◌, List, [], ◌∷◌, map, arith, leb, ltb, All,
}
use pubsublib.Externals.{Externals, Env}
use pubsublib.Mqtt.Machine.{
  MqttClient, ClientState, idle, wait_on_connect, destroy_handle, create_client, send_connect,
  try_connect, do_idle, dispatch, client_switch, client_round, loop_test,
}
use pubsublib.Mqtt.Events.{step, run, round}
use pubsublib.Mqtt.Invariant.{created, created-append, client_round-looping}

-- An attempt to connect is due.
abbrev pub is_due : Env → MqttClient → Bool
is_due env m = m.in_service && leb m.client_timer env.now

abbrev pub is_waiting_on_connect : ClientState → Bool
is_waiting_on_connect wait_on_connect = true
is_waiting_on_connect _ = false

do_idle-failed :
    (env : Env) (m : MqttClient)
    → m.client_state ≡ idle
    → is_due env m ≡ true
    → (env.create_ok && env.callbacks_ok && env.connect_ok) ≡ false
    → ((do_idle env m).0.client_state ≡ idle)
      × ((do_idle env m).0.client_timer ≡ env.now + 10_000)
      × ((do_idle env m).0.in_service ≡ true)
unfolding do_idle try_connect create_client send_connect destroy_handle
do_idle-failed env m s d f = ground arith

do_idle-waits :
    (env : Env) (m : MqttClient)
    → m.client_state ≡ idle
    → m.in_service ≡ true
    → ltb env.now m.client_timer ≡ true
    → (created (do_idle env m).1 ≡ 0)
      × ((do_idle env m).0.client_state ≡ idle)
      × ((do_idle env m).0.client_timer ≡ m.client_timer)
      × ((do_idle env m).0.in_service ≡ true)
unfolding do_idle destroy_handle created
do_idle-waits env m s i d = ground arith

module _ (x : Externals) where
  dispatch-idle :
      (s : ClientState) (env : Env) (m : MqttClient) → s ≡ idle → dispatch x s env m ≡ do_idle env m
  dispatch-idle s env m e = ap (λ r. dispatch x r env m) e ∙ (unfold dispatch in refl)

  client_round-waits :
      (env : Env) (m : MqttClient)
      → m.client_state ≡ idle
      → m.in_service ≡ true
      → ltb env.now m.client_timer ≡ true
      → (created (client_round x env m).1 ≡ 0)
        × ((client_round x env m).0.client_state ≡ idle)
        × ((client_round x env m).0.client_timer ≡ m.client_timer)
        × ((client_round x env m).0.in_service ≡ true)
  unfolding client_round client_switch loop_test created
  client_round-waits env m s i d =
      ground (arith, dispatch-idle m.client_state env m s, do_idle-waits env m s i d)

  rounds-wait :
      (limit : ℕ) (envs : List Env) (m : MqttClient)
      → m.client_state ≡ idle
      → m.in_service ≡ true
      → m.client_timer ≡ limit
      → All (λ env. ltb env.now limit ≡ true) envs
      → created (run x (map round envs) m).1 ≡ 0
  unfolding run step created
  rounds-wait limit [] m s i t h = refl
  rounds-wait limit (env ∷ envs) m s i t (h, hs) =
      let (quiet, s', t', i') = client_round-waits env m s i (rw t h) in
      let next = (client_round x env m).0 in
      let rest = rounds-wait limit envs next s' i' (t' ∙ t) hs in
      created-append (client_round x env m).1 (run x (map round envs) next).1
      ∙ omega (arith, quiet, rest)

  -- After a failed attempt to connect (the create call, the callbacks or the connect call) the task
  -- makes no handle, and so no attempt, in any number of rounds before ten seconds have passed.
  pub retry_waits :
      (env : Env) (envs : List Env) (m : MqttClient)
      → m.client_state ≡ idle
      → m.looping ≡ true
      → is_due env m ≡ true
      → (env.create_ok && env.callbacks_ok && env.connect_ok) ≡ false
      → All (λ later. ltb later.now (env.now + 10_000) ≡ true) envs
      → created (run x (map round envs) (client_round x env m).0).1 ≡ 0
  unfolding loop_test
  retry_waits env envs m s r d f h =
      let (s', t', i') = do_idle-failed env m s d f in
      rw (client_round-looping x env m r, dispatch-idle m.client_state env m s)
        (rounds-wait (env.now + 10_000) envs (loop_test (do_idle env m).0) s' i' t' h)
