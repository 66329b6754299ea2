-- ===== src/Sparkplug/Runs.antt =====
-- What holds of a whole task of a node, whatever happens while it runs (src/sparkplugnode.cpp).
use pubsublib.Prelude.{◌+◌, ◌≡◌, refl, ap, false, List, [], ◌∷◌, ◌++◌, arith}
use pubsublib.Externals.{Externals, Env}
use pubsublib.Mqtt.Invariant.{created, destroyed, live, created-append, destroyed-append}
use pubsublib.Sparkplug.Node.{Node, destroy_handle, send_disconnect}
use pubsublib.Sparkplug.Routing.Handlers.{node_message_arrived}
use pubsublib.Sparkplug.Task.{
  loop_test, begin_task, end_task, connected, set_delivered, connection_lost,
}
use pubsublib.Sparkplug.Events.{
  Event, round, interrupted, accepted, step, run, whole_task, set_in_service, request_stop,
}
use pubsublib.Sparkplug.Handles.{Balanced, node_switch-Balanced, node_round-Balanced}

begin_task-Balanced : (n : Node) → Balanced n (begin_task n)
unfolding begin_task loop_test destroy_handle created destroyed
begin_task-Balanced n = ground arith

end_task-Balanced : (env : Env) (n : Node) → Balanced n (end_task env n)
unfolding end_task destroy_handle send_disconnect created destroyed
end_task-Balanced env n = ground arith

handle-end_task : (env : Env) (n : Node) → (end_task env n).0.handle ≡ false
unfolding end_task destroy_handle send_disconnect
handle-end_task env n = ground arith

module _ (x : Externals) where
  step-Balanced : (e : Event) (n : Node) → Balanced n (step x e n)
  unfolding step node_message_arrived loop_test connected set_delivered connection_lost
      set_in_service request_stop created destroyed
  step-Balanced (round env) n = node_round-Balanced x env n
  step-Balanced (interrupted env) n = node_switch-Balanced x env n
  step-Balanced (accepted uri version session) n = refl
  step-Balanced _ n = refl

  run-Balanced : (es : List Event) (n : Node) → Balanced n (run x es n)
  unfolding run created destroyed
  run-Balanced [] n = refl
  run-Balanced (e ∷ es) n =
      let next = (step x e n).0 in
      omega (
        arith,
        step-Balanced e n,
        run-Balanced es next,
        created-append (step x e n).1 (run x es next).1,
        destroyed-append (step x e n).1 (run x es next).1,
      )

  -- A task of a node destroys every handle that it creates, and the one that it found, whatever its
  -- rounds, the broker's answers and the user's switches do; it ends without a handle.
  pub node_task-Balanced :
      (env : Env) (es : List Event) (n : Node)
      → (live n.handle + created (whole_task x env es n).1 ≡ destroyed (whole_task x env es n).1)
        × ((whole_task x env es n).0.handle ≡ false)
  unfolding whole_task
  node_task-Balanced env es n =
      let begun = (begin_task n).0 in
      let calls = (begin_task n).1 in
      let ran = (run x es begun).0 in
      let more = (run x es begun).1 in
      let last = (end_task env ran).1 in
      (
        omega (
          arith,
          begin_task-Balanced n,
          run-Balanced es begun,
          end_task-Balanced env ran,
          created-append calls (more ++ last),
          created-append more last,
          destroyed-append calls (more ++ last),
          destroyed-append more last,
          ap live (handle-end_task env ran),
        ),
        handle-end_task env ran,
      )
