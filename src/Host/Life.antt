-- ===== src/Host/Life.antt =====
-- The handles of a host, from Start to Stop (src/sparkplughost.cpp).
use pubsublib.Prelude.{
  ◌+◌, ◌≡◌, refl, ap, ◌∙◌, Bool, true, false, List, [], ◌∷◌, ◌++◌, arith, Option-cases, inl, inr,
}
use pubsublib.Prelude.Texts.{codes}
use pubsublib.Externals.{Externals, Env, Call}
use pubsublib.Client.Defs.{get_topic_by_message_type}
use pubsublib.Mqtt.Invariant.{created, destroyed, live, created-append, destroyed-append}
use pubsublib.Sparkplug.Node.{send_disconnect, start_subscription}
use pubsublib.Sparkplug.Task.{connected, set_delivered, connection_lost}
use pubsublib.Sparkplug.Handles.{NoHandles, append-NoHandles, start_subscription-NoHandles}
use pubsublib.Host.Machine.{
  Host, WorkState, idle, wait_on_connect, online, offline, wait_on_disconnect, leave, loop_test,
  send_connect, publish_state, listen, tell_state, do_idle, do_wait_on_connect, start_leaving,
  do_online, do_offline, do_wait_on_disconnect, dispatch, host_switch, host_round,
}
use pubsublib.Host.Events.{
  Event, round, interrupted, accepted, begin_task, end_task, destroy_handle, start_host, hear,
  request_stop, set_in_service, step, run, whole_life,
}

-- Calls that neither create nor destroy a handle, and keep the one there is.
abbrev pub IsQuiet : Host → Host × List Call → Type 0
IsQuiet h (h', calls) = (h'.handle ≡ h.handle) × NoHandles calls

module _ (x : Externals) where
  send_connect-IsQuiet :
      (env : Env) (h : Host) → IsQuiet h ((send_connect x env h).0, (send_connect x env h).1)
  unfolding send_connect created destroyed
  send_connect-IsQuiet env h =
      elim (Option-cases (get_topic_by_message_type x.util (codes "STATE") h.client)) [
        | inl e ↦ rw (e, send_connect) (refl, (refl, refl))
        | inr (t, e) ↦ rw (e, send_connect) (refl, (refl, refl))
      ]

  pub publish_state-IsQuiet : (b : Bool) (h : Host) → IsQuiet h (publish_state x b h)
  unfolding publish_state created destroyed
  publish_state-IsQuiet b h =
      elim (Option-cases (get_topic_by_message_type x.util (codes "STATE") h.client)) [
        | inl e ↦ rw (e, publish_state) (refl, (refl, refl))
        | inr (t, e) ↦ rw (e, publish_state) (refl, (refl, refl))
      ]

  do_idle-IsQuiet : (env : Env) (h : Host) → IsQuiet h (do_idle x env h)
  unfolding do_idle created destroyed
  do_idle-IsQuiet env h =
      let due = record h { host_timer = env.now + 10_000; work_state = wait_on_connect } in
      ground (arith, send_connect-IsQuiet env due)

  do_wait_on_connect-IsQuiet : (env : Env) (h : Host) → IsQuiet h (do_wait_on_connect x env h)
  unfolding do_wait_on_connect tell_state listen created destroyed
  do_wait_on_connect-IsQuiet env h =
      elim (Option-cases (get_topic_by_message_type x.util (codes "STATE") h.client)) [
        | inl e ↦ ground (arith, e)
        | inr (t, e) ↦
            let ready = listen x t h in
            let (kept, quiet) = publish_state-IsQuiet ready.in_service ready in
            ground (
              arith,
              e,
              kept,
              append-NoHandles (start_subscription ready.base)
                  (publish_state x ready.in_service ready).1
                  (start_subscription-NoHandles ready.base) quiet,
            )
      ]

  start_leaving-IsQuiet : (env : Env) (h : Host) → IsQuiet h (start_leaving x env h)
  unfolding start_leaving leave send_disconnect created destroyed
  start_leaving-IsQuiet env h = (refl, (refl, refl))

  do_online-IsQuiet : (env : Env) (h : Host) → IsQuiet h (do_online x env h)
  unfolding do_online created destroyed
  do_online-IsQuiet env h =
      let off = publish_state x false h in
      let (kept, quiet) = publish_state-IsQuiet false h in
      let (left, gone) = start_leaving-IsQuiet env off.0 in
      let both = append-NoHandles off.1 (start_leaving x env off.0).1 quiet gone in
      ground (arith, kept, left, both, quiet)

  do_offline-IsQuiet : (env : Env) (h : Host) → IsQuiet h (do_offline x env h)
  unfolding do_offline created destroyed
  do_offline-IsQuiet env h =
      ground (arith, publish_state-IsQuiet true h, start_leaving-IsQuiet env h)

  dispatch-IsQuiet : (s : WorkState) (env : Env) (h : Host) → IsQuiet h (dispatch x s env h)
  unfolding dispatch do_wait_on_disconnect created destroyed
  dispatch-IsQuiet idle env h = do_idle-IsQuiet env h
  dispatch-IsQuiet wait_on_connect env h = do_wait_on_connect-IsQuiet env h
  dispatch-IsQuiet online env h = do_online-IsQuiet env h
  dispatch-IsQuiet offline env h = do_offline-IsQuiet env h
  dispatch-IsQuiet wait_on_disconnect env h = ground arith

  host_switch-IsQuiet : (env : Env) (h : Host) → IsQuiet h (host_switch x env h)
  unfolding host_switch created destroyed
  host_switch-IsQuiet env h = ground (arith, dispatch-IsQuiet h.work_state env h)

  step-IsQuiet : (e : Event) (h : Host) → IsQuiet h (step x e h)
  unfolding step host_round loop_test connected set_delivered connection_lost request_stop
      set_in_service hear created destroyed
  step-IsQuiet (round env) h = host_switch-IsQuiet env h
  step-IsQuiet (interrupted env) h = host_switch-IsQuiet env h
  step-IsQuiet (accepted uri version session) h = (refl, (refl, refl))
  step-IsQuiet _ h = (refl, (refl, refl))

  run-IsQuiet : (es : List Event) (h : Host) → IsQuiet h (run x es h)
  unfolding run created destroyed
  run-IsQuiet [] h = (refl, (refl, refl))
  run-IsQuiet (e ∷ es) h =
      let next = (step x e h).0 in
      let (kept, quiet) = step-IsQuiet e h in
      let (kept', quiet') = run-IsQuiet es next in
      (kept' ∙ kept, append-NoHandles (step x e h).1 (run x es next).1 quiet quiet')

  end_task-IsQuiet : (env : Env) (h : Host) → IsQuiet h (end_task env h)
  unfolding end_task leave send_disconnect created destroyed
  end_task-IsQuiet env h = ground arith

  start_host-created :
      (env : Env) (h : Host)
      → h.handle ≡ false
      → (created (start_host x env h).1 ≡ live (start_host x env h).0.handle)
        × (destroyed (start_host x env h).1 ≡ 0)
  unfolding start_host created destroyed
  start_host-created env h e = ground (arith, e)

  destroy_handle-destroyed :
      (h : Host)
      → (destroyed (destroy_handle h).1 ≡ live h.handle)
        × (created (destroy_handle h).1 ≡ 0)
        × ((destroy_handle h).0.handle ≡ false)
  unfolding destroy_handle created destroyed
  destroy_handle-destroyed h = ground arith

  handle-begin_task : (env : Env) (h : Host) → (begin_task env.now h).handle ≡ h.handle
  unfolding begin_task loop_test
  handle-begin_task env h = refl

  -- A host that starts without a handle destroys what it creates, from Start to Stop, whatever happens in
  -- between and even if Start fails, and ends without a handle.
  pub whole_life-Balanced :
      (env last : Env) (es : List Event) (h : Host)
      → h.handle ≡ false
      → (created (whole_life x env last es h).1 ≡ destroyed (whole_life x env last es h).1)
        × ((whole_life x env last es h).0.handle ≡ false)
  unfolding whole_life
  whole_life-Balanced env last es h e =
      let started = (start_host x env h).0 in
      let creating = (start_host x env h).1 in
      let begun = begin_task env.now started in
      let ran = (run x es begun).0 in
      let calls = (run x es begun).1 in
      let ended = (end_task last ran).0 in
      let sending = (end_task last ran).1 in
      let destroying = (destroy_handle ended).1 in
      let undone = (destroy_handle started).1 in
      let (run_kept, run_quiet) = run-IsQuiet es begun in
      let (end_kept, end_quiet) = end_task-IsQuiet last ran in
      let handles : ended.handle ≡ started.handle =
        end_kept ∙ run_kept ∙ handle-begin_task env started in
      ground (
        arith,
        start_host-created env h e,
        run_quiet,
        end_quiet,
        ap live handles,
        destroy_handle-destroyed ended,
        destroy_handle-destroyed started,
        created-append (creating ++ calls ++ sending) destroying,
        created-append (creating ++ calls) sending,
        created-append creating calls,
        created-append creating undone,
        destroyed-append (creating ++ calls ++ sending) destroying,
        destroyed-append (creating ++ calls) sending,
        destroyed-append creating calls,
        destroyed-append creating undone,
      )
