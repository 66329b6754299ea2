-- ===== src/Sparkplug/Waiting.antt =====
-- A node that waits for a host application (`WaitOnHostOnline` in src/sparkplugnode.cpp).
use pubsublib.Prelude.{ℕ, ◌≡◌, refl, ◌∙◌, Bool, true, false, not, List, [], ◌∷◌, arith, All}
use pubsublib.Prelude.Texts.{Text}
use pubsublib.Externals.{Externals, Env}
use pubsublib.Mqtt.Invariant.{created, created-append}
use pubsublib.Sparkplug.Node.{
  Node, NodeState, idle, wait_on_connect, online, wait_on_disconnect, destroy_handle,
  is_host_online,
}
use pubsublib.Sparkplug.Routing.Handlers.{node_message_arrived}
use pubsublib.Sparkplug.Routing.Receivers.{
  is_state_message, IsTidyNode, is_host_online-node_message_arrived,
  node_message_arrived-IsTidyNode, wait-node_message_arrived,
}
use pubsublib.Sparkplug.Task.{
  do_idle, dispatch, node_switch, node_round, loop_test, connected, set_delivered, connection_lost,
}
use pubsublib.Sparkplug.Events.{
  Event, round, interrupted, accepted, answered, lost, arrived, service, stop, step, run,
  set_in_service, request_stop,
}

-- No STATE message arrives.
abbrev pub tells_no_state : Event → Bool
tells_no_state (arrived now topic_name bytes) = not (is_state_message topic_name)
tells_no_state _ = true

module _ (x : Externals) where
  -- Idle, no host is online, and no host has a group.
  abbrev Waits : Node → Type 0
  Waits n =
      (n.node_state ≡ idle)
      × (n.wait_on_host_online ≡ true)
      × (is_host_online x n ≡ false)
      × IsTidyNode n

  message-Waits :
      (now : ℕ) (topic_name : Text) (bytes : List ℕ) (n : Node)
      → is_state_message topic_name ≡ false
      → Waits n
      → Waits (node_message_arrived x now topic_name bytes n)
  message-Waits now topic_name bytes n h (s, w, o, t) = (
    (unfold node_message_arrived in s),
    wait-node_message_arrived x now topic_name bytes n ∙ w,
    is_host_online-node_message_arrived x now topic_name bytes n h t ∙ o,
    node_message_arrived-IsTidyNode x now topic_name bytes n t,
  )

  dispatch-Waits :
      (s : NodeState) (env : Env) (n : Node)
      → s ≡ idle
      → Waits n
      → (created (dispatch x s env n).1 ≡ 0) × Waits (dispatch x s env n).0
  unfolding dispatch do_idle destroy_handle created is_host_online
  dispatch-Waits idle env n e w = ground arith
  dispatch-Waits wait_on_connect env n e w = ground arith
  dispatch-Waits online env n e w = ground arith
  dispatch-Waits wait_on_disconnect env n e w = ground arith

  step-Waits :
      (e : Event) (n : Node)
      → tells_no_state e ≡ true
      → Waits n
      → (created (step x e n).1 ≡ 0) × Waits (step x e n).0
  unfolding step node_switch node_round loop_test connected set_delivered connection_lost
      set_in_service request_stop created is_host_online
  step-Waits (round env) n h w = ground (arith, dispatch-Waits n.node_state env n w.0 w)
  step-Waits (interrupted env) n h w = ground (arith, dispatch-Waits n.node_state env n w.0 w)
  step-Waits (accepted uri version session) n h w = (refl, w)
  step-Waits (arrived now topic_name bytes) n h w =
      (refl, message-Waits now topic_name bytes n (ground arith) w)
  step-Waits answered n h w = (refl, w)
  step-Waits lost n h w = (refl, w)
  step-Waits (service b) n h w = (refl, w)
  step-Waits stop n h w = (refl, w)

  -- An idle node that has to wait for a host, knows of no host that is online and lists no host with a
  -- group, stays idle and creates no handle in any run without a STATE message, whatever its rounds, the
  -- broker's answers, the other messages and the user's switches do.
  pub run-Waits :
      (es : List Event) (n : Node)
      → n.node_state ≡ idle
      → n.wait_on_host_online ≡ true
      → is_host_online x n ≡ false
      → IsTidyNode n
      → All (λ e. tells_no_state e ≡ true) es
      → (created (run x es n).1 ≡ 0) × ((run x es n).0.node_state ≡ idle)
  unfolding run created
  run-Waits [] n s w o t h = (refl, s)
  run-Waits (e ∷ es) n s w o t (h, hs) =
      let next = (step x e n).0 in
      let (quiet, (s', w', o', t')) = step-Waits e n h (s, w, o, t) in
      let (rest, end) = run-Waits es next s' w' o' t' hs in
      (created-append (step x e n).1 (run x es next).1 ∙ omega (arith, quiet, rest), end)
