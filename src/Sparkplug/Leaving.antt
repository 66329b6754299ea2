-- ===== src/Sparkplug/Leaving.antt =====
-- How a node leaves the broker (`DoOnline` and `DoWaitOnDisconnect` in src/sparkplugnode.cpp).
use pubsublib.Prelude.{
  ℕ, ◌+◌, ◌≡◌, refl, ap, ◌∙◌, Bool, true, false, not, ◌||◌, List, [], ◌∷◌, ◌++◌, arith, leb,
  if◌then◌else◌, All,
}
use pubsublib.Prelude.Texts.{Text, codes}
use pubsublib.Externals.{Externals, Env, Call, disconnect}
use pubsublib.Sparkplug.Node.{
  Node, NodeState, idle, wait_on_connect, online, wait_on_disconnect, destroy_handle,
  send_disconnect, publish_node, publish_node_death, poll_devices,
}
use pubsublib.Sparkplug.Task.{
  loop_test, node_switch, must_wait, do_idle, do_online, go_offline, do_wait_on_disconnect,
  dispatch, node_round, connected, set_delivered, connection_lost,
}
use pubsublib.Sparkplug.Routing.Handlers.{node_message_arrived}
use pubsublib.Sparkplug.Routing.Receivers.{in_service-node_message_arrived}
use pubsublib.Sparkplug.Births.{in_service-publish_prepared}
use pubsublib.Sparkplug.Events.{
  Event, round, interrupted, accepted, answered, lost, arrived, service, stop, step, run,
}

-- The user's switches; every other event is a round or comes from the broker.
abbrev pub is_switch : Event → Bool
is_switch (service _) = true
is_switch stop = true
is_switch (interrupted _) = true
is_switch _ = false

-- Idle, or waiting at most until `limit` for the end of the connection.
abbrev is_leaving : ℕ → NodeState → ℕ → Bool
is_leaving limit idle timer = true
is_leaving limit wait_on_disconnect timer = leb timer limit
is_leaving limit _ timer = false

-- Out of service, in the loop and not asked to stop, and leaving.
abbrev Leaves : ℕ → Node → Type 0
Leaves limit n =
    (n.looping ≡ true)
    × (n.in_service ≡ false)
    × (n.stop_node_task ≡ false)
    × (is_leaving limit n.node_state n.node_timer ≡ true)

-- The last of a list of calls is the request to disconnect.
abbrev pub EndsInDisconnect : List Call → Type 0
EndsInDisconnect calls = (before : List Call) × (calls ≡ before ++ disconnect ∷ [])

module _ (x : Externals) where
  -- A thread in its loop does what its state asks for, and then the test.
  pub node_round-looping :
      (env : Env) (n : Node)
      → n.looping ≡ true
      → node_round x env n
        ≡ (loop_test (dispatch x n.node_state env n).0, (dispatch x n.node_state env n).1)
  unfolding node_round node_switch
  node_round-looping env n r =
      ap
        (λ b.
          let (n', calls) = if b then dispatch x n.node_state env n else (n, []) in
          (loop_test n', calls))
        r

  pub publish_node-kept :
      (message_type : Text) (env : Env) (n : Node)
      → ((publish_node x message_type env n).0.stop_node_task ≡ n.stop_node_task)
        × ((publish_node x message_type env n).0.in_service ≡ n.in_service)
        × ((publish_node x message_type env n).0.looping ≡ n.looping)
  unfolding publish_node
  publish_node-kept message_type env n = ground (
    arith,
    in_service-publish_prepared x message_type (λ t. t) true env.now n.sequence_number n.client,
  )

  go_offline-Leaves :
      (env : Env) (n : Node)
      → n.looping ≡ true
      → n.in_service ≡ false
      → n.stop_node_task ≡ false
      → EndsInDisconnect (go_offline x env n).1
        × Leaves (env.now + 5_000) (loop_test (go_offline x env n).0)
  unfolding loop_test go_offline publish_node_death send_disconnect poll_devices
  go_offline-Leaves env n o i r =
      let polled = (poll_devices x env n).0 in
      let messages = (poll_devices x env n).1 in
      let deaths = (publish_node x (codes "NDEATH") env polled).1 in
      let (stop_kept, service_kept, loop_kept) = publish_node-kept (codes "NDEATH") env polled in
      (
        (messages ++ deaths, refl),
        (ground (arith, loop_kept, stop_kept), service_kept ∙ i, stop_kept ∙ r, ground arith),
      )

  do_online-leaving :
      (env : Env) (n : Node) → n.in_service ≡ false → do_online x env n ≡ go_offline x env n
  unfolding do_online
  do_online-leaving env n i =
      let leaves : (n.stop_node_task || not n.in_service || must_wait x n) ≡ true =
        ground (arith, i) in
      ap (λ b. if b then go_offline x env n else poll_devices x env n) leaves

  dispatch-disconnects :
      (s : NodeState) (env : Env) (n : Node)
      → s ≡ online
      → n.looping ≡ true
      → n.in_service ≡ false
      → n.stop_node_task ≡ false
      → EndsInDisconnect (dispatch x s env n).1
        × Leaves (env.now + 5_000) (loop_test (dispatch x s env n).0)
  unfolding dispatch
  dispatch-disconnects online env n e o i r =
      rw (do_online-leaving env n i) (go_offline-Leaves env n o i r)
  dispatch-disconnects idle env n e o i r = ground arith
  dispatch-disconnects wait_on_connect env n e o i r = ground arith
  dispatch-disconnects wait_on_disconnect env n e o i r = ground arith

module _ (x : Externals) (limit : ℕ) where
  dispatch-Leaves :
      (s : NodeState) (env : Env) (n : Node)
      → n.node_state ≡ s
      → is_leaving limit s n.node_timer ≡ true
      → n.looping ≡ true
      → n.in_service ≡ false
      → n.stop_node_task ≡ false
      → Leaves limit (loop_test (dispatch x s env n).0)
  unfolding dispatch do_idle do_wait_on_disconnect destroy_handle loop_test
  dispatch-Leaves idle env n e l o i r = ground arith
  dispatch-Leaves wait_on_connect env n e l o i r = ground arith
  dispatch-Leaves online env n e l o i r = ground arith
  dispatch-Leaves wait_on_disconnect env n e l o i r = ground arith

  step-Leaves :
      (e : Event) (n : Node) → is_switch e ≡ false → Leaves limit n → Leaves limit (step x e n).0
  unfolding step node_message_arrived connected set_delivered connection_lost
  step-Leaves (round env) n h (o, i, r, l) =
      rw (node_round-looping x env n o) (dispatch-Leaves n.node_state env n refl l o i r)
  step-Leaves (interrupted env) n h l = ground arith
  step-Leaves (accepted uri version session) n h l = l
  step-Leaves answered n h l = l
  step-Leaves lost n h l = l
  step-Leaves (arrived now topic_name bytes) n h (o, i, r, l) =
      (o, in_service-node_message_arrived x now topic_name bytes n ∙ i, r, l)
  step-Leaves (service b) n h l = ground arith
  step-Leaves stop n h l = ground arith

  run-Leaves :
      (es : List Event) (n : Node)
      → All (λ e. is_switch e ≡ false) es
      → Leaves limit n
      → Leaves limit (run x es n).0
  unfolding run
  run-Leaves [] n h l = l
  run-Leaves (e ∷ es) n (h, hs) l = run-Leaves es (step x e n).0 hs (step-Leaves e n h l)

  dispatch-left :
      (s : NodeState) (env : Env) (n : Node)
      → n.node_state ≡ s
      → is_leaving limit s n.node_timer ≡ true
      → n.in_service ≡ false
      → leb limit env.now ≡ true
      → (dispatch x s env n).0.node_state ≡ idle
  unfolding dispatch do_idle do_wait_on_disconnect destroy_handle
  dispatch-left idle env n e l i k = ground arith
  dispatch-left wait_on_connect env n e l i k = ground arith
  dispatch-left online env n e l i k = ground arith
  dispatch-left wait_on_disconnect env n e l i k = ground arith

  round-left :
      (env : Env) (n : Node)
      → Leaves limit n
      → leb limit env.now ≡ true
      → (node_round x env n).0.node_state ≡ idle
  unfolding loop_test
  round-left env n (o, i, r, l) k =
      rw (node_round-looping x env n o) (dispatch-left n.node_state env n refl l i k)

module _ (x : Externals) where
  -- An online node that is out of service asks to be disconnected in its next round, after all that the
  -- round publishes, and it is idle after any round five seconds later, whatever the broker answers and
  -- however many rounds run in between, as long as the user turns no switch.
  pub node_leaves_in_time :
      (now later : Env) (es : List Event) (n : Node)
      → n.node_state ≡ online
      → n.looping ≡ true
      → n.in_service ≡ false
      → n.stop_node_task ≡ false
      → All (λ e. is_switch e ≡ false) es
      → leb (now.now + 5_000) later.now ≡ true
      → EndsInDisconnect (node_round x now n).1
        × ((node_round x later (run x es (node_round x now n).0).0).0.node_state ≡ idle)
  node_leaves_in_time now later es n s o i r h k = rw (node_round-looping x now n o) (
      let (sent, leaving) = dispatch-disconnects x n.node_state now n s o i r in
      (
        sent,
        round-left x (now.now + 5_000) later _ (run-Leaves x (now.now + 5_000) es _ h leaving) k,
      ))
