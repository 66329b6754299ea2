-- ===== src/Sparkplug/Handles.antt =====
-- The handles of a node and its waiting for a host (`NodeTask` in src/sparkplugnode.cpp).
use pubsublib.Prelude.{
  ◌+◌, ◌≡◌, refl, ap, ◌∙◌, true, List, [], ◌∷◌, ◌++◌, map, arith, Option-cases, inl, inr,
}
use pubsublib.Prelude.Texts.{Text, codes}
use pubsublib.Externals.{Externals, Env, Call, Qos, subscribe, disconnect}
use pubsublib.Client.Defs.{get_topic_by_message_type}
use pubsublib.Mqtt.Invariant.{
  created, destroyed, live, created-append, destroyed-append, created-send, destroyed-send,
}
use pubsublib.Sparkplug.Publish.{publish_prepared}
use pubsublib.Sparkplug.Node.{
  Node, NodeState, idle, wait_on_connect, online, wait_on_disconnect, as_parent, destroy_handle,
  create_node, send_disconnect, send_connect, subscription_qos, start_subscription, publish_node,
  publish_node_birth, publish_node_death, poll_list, poll_devices,
}
use pubsublib.Sparkplug.Task.{
  do_wait_on_disconnect, try_connect, do_idle, go_online, do_wait_on_connect, go_offline, do_online,
  dispatch, node_switch, node_round, loop_test,
}

-- The handle before with those created is the handle after with those destroyed.
abbrev pub Balanced : Node → Node × List Call → Type 0
Balanced n (m, calls) = live n.handle + created calls ≡ live m.handle + destroyed calls

abbrev pub NoHandles : List Call → Type 0
NoHandles calls = (created calls ≡ 0) × (destroyed calls ≡ 0)

-- Calls that neither create nor destroy a handle, and keep the one there is.
abbrev IsQuiet : Node → Node × List Call → Type 0
IsQuiet n (m, calls) = (m.handle ≡ n.handle) × NoHandles calls

destroy_handle-Balanced : (n : Node) → Balanced n (destroy_handle n)
unfolding destroy_handle created destroyed
destroy_handle-Balanced n = ground arith

create_node-Balanced :
    (env : Env) (n : Node) → Balanced n ((create_node env n).0, (create_node env n).1)
unfolding create_node destroy_handle created destroyed
create_node-Balanced env n = ground arith

subscribe-NoHandles :
    (q : Qos) (ts : List Text)
    → NoHandles (map (λ topic. subscribe topic (subscription_qos q topic)) ts)
unfolding created destroyed
subscribe-NoHandles q [] = (refl, refl)
subscribe-NoHandles q (t ∷ ts) = subscribe-NoHandles q ts

pub start_subscription-NoHandles : (n : Node) → NoHandles (start_subscription n)
unfolding start_subscription
start_subscription-NoHandles n = subscribe-NoHandles n.default_qos n.subscription_list

do_wait_on_disconnect-IsQuiet : (env : Env) (n : Node) → IsQuiet n (do_wait_on_disconnect env n)
unfolding do_wait_on_disconnect created destroyed
do_wait_on_disconnect-IsQuiet env n = ground arith

pub append-NoHandles : (cs ds : List Call) → NoHandles cs → NoHandles ds → NoHandles (cs ++ ds)
append-NoHandles cs ds (a, b) (c, d) =
    (omega (arith, created-append cs ds), omega (arith, destroyed-append cs ds))

module _ (x : Externals) where
  send_connect-IsQuiet :
      (env : Env) (n : Node) → IsQuiet n ((send_connect x env n).0, (send_connect x env n).1)
  unfolding created destroyed send_connect
  send_connect-IsQuiet env n =
      elim (Option-cases (get_topic_by_message_type x.util (codes "NDEATH") n.client)) [
        | inl e ↦ rw (e, send_connect) (refl, (refl, refl))
        | inr (t, e) ↦ rw (e, send_connect) (refl, (refl, refl))
      ]

  publish_node-IsQuiet :
      (message_type : Text) (env : Env) (n : Node) → IsQuiet n (publish_node x message_type env n)
  unfolding publish_node created destroyed
  publish_node-IsQuiet message_type env n =
      let sent =
        (publish_prepared x message_type (λ t. t) true env.now n.sequence_number
          n.client).messages in
      ground (arith, created-send sent, destroyed-send sent)

  poll_devices-IsQuiet : (env : Env) (n : Node) → IsQuiet n (poll_devices x env n)
  unfolding poll_devices
  poll_devices-IsQuiet env n =
      let sent = (poll_list x (as_parent env n) env.now n.sequence_number n.device_list).2 in
      (refl, (created-send sent, destroyed-send sent))

  go_online-IsQuiet : (env : Env) (n : Node) → IsQuiet n (go_online x env n)
  unfolding go_online publish_node_birth
  go_online-IsQuiet env n =
      let alive = (publish_node x (codes "NBIRTH") env n).0 in
      let births = (publish_node x (codes "NBIRTH") env n).1 in
      let messages = (poll_devices x env (record alive { node_state = online })).1 in
      let (h, quiet_births) = publish_node-IsQuiet (codes "NBIRTH") env n in
      let (k, quiet_messages) = poll_devices-IsQuiet env (record alive { node_state = online }) in
      (
        k ∙ h,
        append-NoHandles (start_subscription n ++ births) messages
            (append-NoHandles (start_subscription n) births (start_subscription-NoHandles n)
              quiet_births)
            quiet_messages,
      )

  pub go_offline-IsQuiet : (env : Env) (n : Node) → IsQuiet n (go_offline x env n)
  unfolding go_offline publish_node_death send_disconnect created destroyed
  go_offline-IsQuiet env n =
      let polled = (poll_devices x env n).0 in
      let messages = (poll_devices x env n).1 in
      let deaths = (publish_node x (codes "NDEATH") env polled).1 in
      let (h, quiet_messages) = poll_devices-IsQuiet env n in
      let (k, quiet_deaths) = publish_node-IsQuiet (codes "NDEATH") env polled in
      (
        k ∙ h,
        append-NoHandles (messages ++ deaths) (disconnect ∷ [])
            (append-NoHandles messages deaths quiet_messages quiet_deaths) (refl, refl),
      )

  do_idle-Balanced : (env : Env) (n : Node) → Balanced n (do_idle x env n)
  unfolding do_idle try_connect
  do_idle-Balanced env n =
      let clean = (destroy_handle n).0 in
      let made = (create_node env clean).0 in
      let (h, (c, d)) = send_connect-IsQuiet env made in
      ground (
        arith,
        destroy_handle-Balanced n,
        create_node-Balanced env clean,
        ap live h,
        created-append (destroy_handle n).1 (try_connect x env clean).1,
        created-append (create_node env clean).1 (send_connect x env made).1,
        destroyed-append (destroy_handle n).1 (try_connect x env clean).1,
        destroyed-append (create_node env clean).1 (send_connect x env made).1,
        h,
        c,
        d,
      )

  dispatch-Balanced : (s : NodeState) (env : Env) (n : Node) → Balanced n (dispatch x s env n)
  unfolding dispatch do_wait_on_connect do_online created destroyed
  dispatch-Balanced idle env n = do_idle-Balanced env n
  dispatch-Balanced wait_on_connect env n =
      let (h, (c, d)) = go_online-IsQuiet env n in ground (arith, ap live h, c, d, h)
  dispatch-Balanced online env n =
      let (h, (c, d)) = go_offline-IsQuiet env n in
      let (k, (e, f)) = poll_devices-IsQuiet env n in ground (arith, c, d, h, e, f, k)
  dispatch-Balanced wait_on_disconnect env n =
      let (h, (c, d)) = do_wait_on_disconnect-IsQuiet env n in ground (arith, c, d, h)

  pub node_switch-Balanced : (env : Env) (n : Node) → Balanced n (node_switch x env n)
  unfolding node_switch created destroyed
  node_switch-Balanced env n = ground (arith, dispatch-Balanced n.node_state env n)

  pub node_round-Balanced : (env : Env) (n : Node) → Balanced n (node_round x env n)
  unfolding node_round loop_test
  node_round-Balanced env n = node_switch-Balanced env n
