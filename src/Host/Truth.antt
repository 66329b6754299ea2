-- ===== src/Host/Truth.antt =====
-- The STATE topic of a host tells the truth (src/sparkplughost.cpp).
use pubsublib.Prelude.{
  ℕ, ◌+◌, ◌≡◌, refl, ap, Bool, true, false, not, List, [], ◌∷◌, arith, Option-cases, inl, inr,
}
use pubsublib.Prelude.Texts.{Text, codes}
use pubsublib.Externals.{Externals, Env}
use pubsublib.Client.Defs.{get_topic_by_message_type}
use pubsublib.Sparkplug.Node.{says_online, send_disconnect}
use pubsublib.Sparkplug.Task.{connected, set_delivered, connection_lost}
use pubsublib.Host.Machine.{
  Host, WorkState, idle, wait_on_connect, online, offline, wait_on_disconnect, leave, loop_test,
  listen, tell_state, do_idle, do_wait_on_connect, start_leaving, do_online, do_offline,
  do_wait_on_disconnect, dispatch, host_switch, host_round,
}
use pubsublib.Host.Events.{
  Event, round, interrupted, accepted, arrived, step, run, hear, host_known, request_stop,
  set_in_service,
}
use pubsublib.Host.Deaf.{
  IsDeaf, flag, own-message_arrived_deaf, publish_state-IsDeaf, send_connect-IsDeaf, listen-IsDeaf,
}
use pubsublib.Sparkplug.Routing.Handlers.{as_known}
use pubsublib.Host.Telling.{can_tell}
use pubsublib.Host.State.{
  says_online-publish_state, says_online-send_connect, can_tell-listen, work_state-send_connect,
}

-- What a state wants the topic to tell.
abbrev pub agrees : WorkState → Bool → Bool
agrees online says = says
agrees offline says = not says
agrees _ says = true

module _ (x : Externals) where
  -- The topic can tell, and tells an online host from an offline one.
  abbrev pub IsTruthful : Host → Type 0
  IsTruthful h =
      (can_tell x h.client ≡ true) × (agrees h.work_state (says_online x h.client) ≡ true)

  do_idle-IsTruthful : (env : Env) (h : Host) → IsTruthful h → IsTruthful (do_idle x env h).0
  unfolding do_idle
  do_idle-IsTruthful env h (c, a) =
      let due = record h { host_timer = env.now + 10_000; work_state = wait_on_connect } in
      ground (arith, says_online-send_connect x env due c, work_state-send_connect x env due)

  tell_state-IsTruthful : (h : Host) → can_tell x h.client ≡ true → IsTruthful (tell_state x h).0
  unfolding tell_state
  tell_state-IsTruthful h c = ground (arith, says_online-publish_state x h.in_service h c)

  do_wait_on_connect-IsTruthful :
      (env : Env) (h : Host)
      → IsTruthful h
      → h.work_state ≡ wait_on_connect
      → IsTruthful (do_wait_on_connect x env h).0
  unfolding do_wait_on_connect
  do_wait_on_connect-IsTruthful env h (c, a) s =
      elim (Option-cases (get_topic_by_message_type x.util (codes "STATE") h.client)) [
        | inl e ↦ ground (arith, e)
        | inr (t, e) ↦
            ground (arith, e, tell_state-IsTruthful (listen x t h) (can_tell-listen x t h c))
      ]

  do_online-IsTruthful : (env : Env) (h : Host) → IsTruthful h → IsTruthful (do_online x env h).0
  unfolding do_online start_leaving leave send_disconnect
  do_online-IsTruthful env h (c, a) = ground (arith, says_online-publish_state x false h c)

  do_offline-IsTruthful : (env : Env) (h : Host) → IsTruthful h → IsTruthful (do_offline x env h).0
  unfolding do_offline start_leaving leave send_disconnect
  do_offline-IsTruthful env h (c, a) = ground (arith, says_online-publish_state x true h c)

  dispatch-IsTruthful :
      (s : WorkState) (env : Env) (h : Host)
      → h.work_state ≡ s
      → IsTruthful h
      → IsTruthful (dispatch x s env h).0
  unfolding dispatch do_wait_on_disconnect
  dispatch-IsTruthful idle env h e t = do_idle-IsTruthful env h t
  dispatch-IsTruthful wait_on_connect env h e t = do_wait_on_connect-IsTruthful env h t e
  dispatch-IsTruthful online env h e t = do_online-IsTruthful env h t
  dispatch-IsTruthful offline env h e t = do_offline-IsTruthful env h t
  dispatch-IsTruthful wait_on_disconnect env h e t = ground arith

  host_switch-IsTruthful :
      (env : Env) (h : Host) → IsTruthful h → IsTruthful (host_switch x env h).0
  unfolding host_switch
  host_switch-IsTruthful env h t = ground (arith, dispatch-IsTruthful h.work_state env h refl t)

  -- The same, and it does not listen to itself.
  abbrev pub IsRunning : Host → Type 0
  IsRunning h = IsDeaf x h.client × IsTruthful h

  tell_state-IsDeaf : (h : Host) → IsDeaf x h.client → IsDeaf x (tell_state x h).0.client
  unfolding tell_state
  tell_state-IsDeaf h d = publish_state-IsDeaf x h.in_service h d

  dispatch-IsDeaf :
      (s : WorkState) (env : Env) (h : Host)
      → IsDeaf x h.client
      → IsDeaf x (dispatch x s env h).0.client
  unfolding dispatch do_idle do_wait_on_connect do_online do_offline do_wait_on_disconnect
      start_leaving leave send_disconnect
  dispatch-IsDeaf idle env h d =
      let due = record h { host_timer = env.now + 10_000; work_state = wait_on_connect } in
      ground (arith, send_connect-IsDeaf x env due d)
  dispatch-IsDeaf wait_on_connect env h d =
      elim (Option-cases (get_topic_by_message_type x.util (codes "STATE") h.client)) [
        | inl e ↦ ground (arith, e)
        | inr (t, e) ↦ ground (arith, e, tell_state-IsDeaf (listen x t h) (listen-IsDeaf x t h d))
      ]
  dispatch-IsDeaf online env h d = ground (arith, publish_state-IsDeaf x false h d)
  dispatch-IsDeaf offline env h d = ground (arith, publish_state-IsDeaf x true h d)
  dispatch-IsDeaf wait_on_disconnect env h d = ground arith

  host_switch-IsRunning : (env : Env) (h : Host) → IsRunning h → IsRunning (host_switch x env h).0
  unfolding host_switch
  host_switch-IsRunning env h (d, t) =
      ground
        (arith, dispatch-IsTruthful h.work_state env h refl t, dispatch-IsDeaf h.work_state env h d)

  hear-IsRunning :
      (now : ℕ) (topic_name : Text) (bytes : List ℕ) (h : Host)
      → IsRunning h
      → IsRunning (hear x now topic_name bytes h)
  unfolding hear host_known as_known
  hear-IsRunning now topic_name bytes h (d, t) =
      let same =
        ap (λ p. p.client)
          (own-message_arrived_deaf x now topic_name bytes (host_known h) refl d) in
      rw same (d, t)

  step-IsRunning : (e : Event) (h : Host) → IsRunning h → IsRunning (step x e h).0
  unfolding step host_round loop_test connected set_delivered connection_lost request_stop
      set_in_service flag can_tell says_online get_topic_by_message_type
  step-IsRunning (round env) h r = host_switch-IsRunning env h r
  step-IsRunning (interrupted env) h r = host_switch-IsRunning env h r
  step-IsRunning (arrived now topic_name bytes) h r = hear-IsRunning now topic_name bytes h r
  step-IsRunning (accepted uri version session) h r = r
  step-IsRunning _ h r = r

  -- If a host publishes its STATE topic with the metric `online`, publishes no NBIRTH topic and has no
  -- group, then after any run, in which its rounds, the broker's answers, any messages and the user's
  -- switches take turns, the topic says `online` if the host is online and not if it is offline,
  -- and these conditions still hold.
  pub run-IsRunning : (es : List Event) (h : Host) → IsRunning h → IsRunning (run x es h).0
  unfolding run
  run-IsRunning [] h r = r
  run-IsRunning (e ∷ es) h r = run-IsRunning es (step x e h).0 (step-IsRunning e h r)
