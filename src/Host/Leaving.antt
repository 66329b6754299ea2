-- ===== src/Host/Leaving.antt =====
-- How a host that is online leaves when it is stopped (`Stop`, `DoOnline` and the end of `HostTask` in
-- src/sparkplughost.cpp).
use mathlib.Core.List.{append-nil}
use pubsublib.Prelude.{
  ◌≡◌, refl, ap, ◌∙◌, some, true, false, List, [], ◌∷◌, ◌++◌, arith, if◌then◌else◌, Option-cases,
  inl, inr,
}
use pubsublib.Prelude.Texts.{codes, text_eq, text_eq_refl}
use pubsublib.Externals.{Externals, Env, Message, send, disconnect, destroy}
use pubsublib.Payload.Defs.{set_value_bool, string_to_body}
use pubsublib.Payload.Json.{json_object, generate_json}
use pubsublib.Topic.Name.{get_topic, state_word}
use pubsublib.Topic.Building.{get_topic-stored}
use pubsublib.Topic.Object.{
  Topic, topic_message, store_topic_name, takes_sequence_number, sparkplug_payload,
  sparkplug_publish,
}
use pubsublib.Sparkplug.Publish.{do_publish, next_sequence_number}
use pubsublib.Client.Defs.{get_topic_by_message_type}
use pubsublib.Sparkplug.Node.{send_disconnect}
use pubsublib.Sparkplug.Task.{connected, set_delivered, connection_lost}
use pubsublib.Host.Machine.{
  Host, WorkState, idle, wait_on_connect, online, offline, wait_on_disconnect, leave, loop_test,
  publish_state, told, start_leaving, do_online, dispatch, host_switch, host_round,
}
use pubsublib.Host.Events.{
  Event, round, interrupted, accepted, end_task, is_waiting_on_disconnect, destroy_handle, hear,
  request_stop, set_in_service, step, run,
}
use pubsublib.Host.Life.{publish_state-IsQuiet}

-- Out of the loop, with a handle, after the request to disconnect.
abbrev IsOut : Host → Type 0
IsOut h = (h.in_loop ≡ false) × (h.handle ≡ true) × (is_waiting_on_disconnect h.work_state ≡ true)

module _ (x : Externals) where
  publish_state-kept :
      (h : Host)
      → ((publish_state x false h).0.in_loop ≡ h.in_loop)
        × ((publish_state x false h).0.stop_work_task ≡ h.stop_work_task)
  unfolding publish_state
  publish_state-kept h =
      elim (Option-cases (get_topic_by_message_type x.util (codes "STATE") h.client)) [
        | inl e ↦ rw (e, publish_state) (refl, refl)
        | inr (t, e) ↦ rw (e, publish_state) (refl, refl)
      ]

  do_online-IsOut :
      (env : Env) (h : Host)
      → h.handle ≡ true
      → h.stop_work_task ≡ true
      → ((do_online x env h).1 ≡ (publish_state x false h).1 ++ disconnect ∷ [])
        × IsOut (loop_test (do_online x env h).0)
  unfolding do_online start_leaving leave send_disconnect loop_test
  do_online-IsOut env h e r =
      let (loop_kept, stop_kept) = publish_state-kept h in
      let (kept, quiet) = publish_state-IsQuiet x false h in
      ground (arith, e, r, loop_kept, stop_kept, kept)

  dispatch-IsOut :
      (s : WorkState) (env : Env) (h : Host)
      → s ≡ online
      → h.handle ≡ true
      → h.stop_work_task ≡ true
      → ((dispatch x s env h).1 ≡ (publish_state x false h).1 ++ disconnect ∷ [])
        × IsOut (loop_test (dispatch x s env h).0)
  unfolding dispatch
  dispatch-IsOut online env h o e r = do_online-IsOut env h e r
  dispatch-IsOut idle env h o e r = ground arith
  dispatch-IsOut wait_on_connect env h o e r = ground arith
  dispatch-IsOut offline env h o e r = ground arith
  dispatch-IsOut wait_on_disconnect env h o e r = ground arith

  step-IsOut : (e : Event) (h : Host) → IsOut h → ((step x e h).1 ≡ []) × IsOut (step x e h).0
  unfolding step host_round host_switch loop_test connected set_delivered connection_lost
      request_stop set_in_service hear
  step-IsOut (round env) h o = ground arith
  step-IsOut (interrupted env) h o = ground arith
  step-IsOut (accepted uri version session) h o = (refl, o)
  step-IsOut _ h o = (refl, o)

  run-IsOut : (es : List Event) (h : Host) → IsOut h → ((run x es h).1 ≡ []) × IsOut (run x es h).0
  unfolding run
  run-IsOut [] h o = (refl, o)
  run-IsOut (e ∷ es) h o =
      let (quiet, o') = step-IsOut e h o in
      let (quiets, end) = run-IsOut es (step x e h).0 o' in (rw (quiet, quiets) refl, end)

  end_task-IsOut :
      (env : Env) (h : Host)
      → IsOut h
      → ((end_task env h).1 ≡ []) × ((destroy_handle (end_task env h).0).1 ≡ destroy ∷ [])
  unfolding end_task destroy_handle leave send_disconnect
  end_task-IsOut env h o = ground arith

  host_round-looping :
      (env : Env) (h : Host)
      → h.in_loop ≡ true
      → host_round x env h
        ≡ (loop_test (dispatch x h.work_state env h).0, (dispatch x h.work_state env h).1)
  unfolding host_round host_switch
  host_round-looping env h r =
      ap
        (λ b.
          let (h', calls) = if b then dispatch x h.work_state env h else (h, []) in
          (loop_test h', calls))
        r

  run_round :
      (env : Env) (es : List Event) (h : Host)
      → run x (round env ∷ es) h ≡ (
        (run x es (host_round x env h).0).0,
        (host_round x env h).1 ++ (run x es (host_round x env h).0).1,
      )
  run_round env es h = unfold run step in refl

  stop_host_calls :
      (now later : Env) (es : List Event) (h : Host)
      → h.work_state ≡ online
      → h.in_loop ≡ true
      → h.handle ≡ true
      → h.stop_work_task ≡ true
      → let (ran, calls) = run x (round now ∷ es) h in
        let (ended, sending) = end_task later ran in
        calls ++ sending ++ (destroy_handle ended).1
        ≡ (publish_state x false h).1 ++ disconnect ∷ [] ++ destroy ∷ []
  stop_host_calls now later es h s o e r =
      let next = loop_test (dispatch x h.work_state now h).0 in
      let (sent, out) = dispatch-IsOut h.work_state now h s e r in
      let (quiet, end) = run-IsOut es next out in
      let (silent, gone) = end_task-IsOut later (run x es next).0 end in
      rw
        (
          run_round now es h,
          host_round-looping now h o,
          sent,
          quiet,
          append-nil,
          silent,
          append-nil,
          gone,
        )
        refl

  -- A STATE topic as a message that tells that the host is offline: the JSON text of its metrics, the
  -- metric `online` being false.
  abbrev pub offline_message : Topic → Message
  offline_message t = record {
    topic = (get_topic t.names).0;
    body =
        x.serialize_json
          (json_object x.util (set_value_bool x.util (codes "online") false t.payload).metric_list);
    qos = t.qos;
    retained = t.retained;
  }

  publish_state-offline :
      (h : Host) (t : Topic)
      → get_topic_by_message_type x.util (codes "STATE") h.client ≡ some t
      → t.names.message_type ≡ codes "STATE"
      → (publish_state x false h).1 ≡ send (offline_message t) ∷ []
  unfolding publish_state do_publish sparkplug_publish sparkplug_payload takes_sequence_number
      topic_message store_topic_name told next_sequence_number generate_json string_to_body
  publish_state-offline h t e type =
      let is_state : text_eq t.names.message_type state_word ≡ true =
        ap (λ s. text_eq s state_word) type ∙ text_eq_refl state_word in
      rw (e, publish_state, is_state, get_topic-stored t.names) refl

  -- When an online host that is in its loop, has a handle and has a STATE topic is stopped, the rest of its
  -- life makes these calls and no other, whatever happens until the end and in whatever order: the STATE
  -- message with `online` set to false, one request to disconnect, and the destruction of the handle.
  pub stop_host_online :
      (now later : Env) (es : List Event) (h : Host) (t : Topic)
      → h.work_state ≡ online
      → h.in_loop ≡ true
      → h.handle ≡ true
      → h.stop_work_task ≡ true
      → get_topic_by_message_type x.util (codes "STATE") h.client ≡ some t
      → t.names.message_type ≡ codes "STATE"
      → let (ran, calls) = run x (round now ∷ es) h in
        let (ended, sending) = end_task later ran in
        calls ++ sending ++ (destroy_handle ended).1
        ≡ send (offline_message t) ∷ disconnect ∷ destroy ∷ []
  stop_host_online now later es h t s o e r topic type =
      stop_host_calls now later es h s o e r
      ∙ ap (λ sent. sent ++ disconnect ∷ [] ++ destroy ∷ []) (publish_state-offline h t topic type)
