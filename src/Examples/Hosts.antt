-- ===== src/Examples/Hosts.antt =====
-- A host application.
use pubsublib.Prelude.{◌≡◌, refl, true, false, [], ◌∷◌, ◌++◌}
use pubsublib.Prelude.Texts.{codes, text_eq, lower}
use pubsublib.StringUtil.Map.{find}
use pubsublib.Externals.{send, disconnect, destroy}
use pubsublib.Payload.Defs.{get_metric}
use pubsublib.Topic.Name.{empty_name}
use pubsublib.Topic.Object.{Topic, make_sparkplug_topic}
use pubsublib.Client.Defs.{get_topic_by_message_type}
use pubsublib.Mqtt.Invariant.{created, destroyed}
use pubsublib.Sparkplug.Node.{idle}
use pubsublib.Host.Machine.{Host, WorkState}
use pubsublib.Host.Events.{
  host_known, round, accepted, arrived, service, stop, run, whole_life, end_task, destroy_handle,
}
use pubsublib.Sparkplug.Routing.Handlers.{message_arrived, as_known}
use pubsublib.Host.Deaf.{flag, own-message_arrived_deaf}
use pubsublib.Host.Telling.{can_tell}
use pubsublib.Host.Truth.{IsRunning, run-IsRunning}
use pubsublib.Host.Life.{whole_life-Balanced}
use pubsublib.Host.Leaving.{offline_message, stop_host_online}
use pubsublib.Examples.Data.{externals, client, settings, two_metrics, env_at}
use pubsublib.Examples.Nodes.{node}

abbrev state_topic : Topic
state_topic = record make_sparkplug_topic {
  names = record empty_name { message_type = codes "STATE"; node_id = codes "client" };
  payload = two_metrics;
  publish = true;
}

abbrev host : WorkState → Host
host state = record {
  base = record (node true idle) {
    client = record client {
      settings = record settings { group_id = [] };
      topic_list = state_topic ∷ [];
    };
  };
  work_state = state;
  stop_work_task = true;
  in_loop = true;
  start_time = 5;
  host_timer = 0;
}

abbrev no_handle : Host → Host
no_handle h = record h { base = record (h.base) { handle = false } }

abbrev running : Host → Host
running h = record h { stop_work_task = false }

run-IsRunning_example :
    IsRunning externals
      (run externals
        (round (env_at true 1)
          ∷ accepted [] 4 0
          ∷ round (env_at true 2)
          ∷ arrived 3 (codes "spBv1.0/STATE/client") (codes "x")
          ∷ service false
          ∷ round (env_at true 4)
          ∷ [])
        (running (host pubsublib.Host.Machine.idle))).0
unfolding flag can_tell get_topic_by_message_type get_metric find text_eq lower
run-IsRunning_example =
    run-IsRunning externals
      (round (env_at true 1)
        ∷ accepted [] 4 0
        ∷ round (env_at true 2)
        ∷ arrived 3 (codes "spBv1.0/STATE/client") (codes "x")
        ∷ service false
        ∷ round (env_at true 4)
        ∷ [])
      (running (host pubsublib.Host.Machine.idle)) ((refl, refl, refl), (refl, refl))

whole_life_example :
    let es = round (env_at true 1) ∷ accepted [] 4 0 ∷ round (env_at true 2) ∷ stop ∷ [] in
    let h = no_handle (host pubsublib.Host.Machine.idle) in
    (created (whole_life externals (env_at true 1) (env_at true 9) es h).1
      ≡ destroyed (whole_life externals (env_at true 1) (env_at true 9) es h).1)
    × ((whole_life externals (env_at true 1) (env_at true 9) es h).0.handle ≡ false)
whole_life_example =
    whole_life-Balanced externals (env_at true 1) (env_at true 9)
      (round (env_at true 1) ∷ accepted [] 4 0 ∷ round (env_at true 2) ∷ stop ∷ [])
      (no_handle (host pubsublib.Host.Machine.idle)) refl

stop_host_example :
    let h = host pubsublib.Host.Machine.online in
    let (ran, calls) =
      run externals (round (env_at true 1) ∷ service false ∷ round (env_at true 2) ∷ []) h in
    let (ended, sending) = end_task (env_at true 3) ran in
    calls ++ sending ++ (destroy_handle ended).1
    ≡ send (offline_message externals state_topic) ∷ disconnect ∷ destroy ∷ []
unfolding get_topic_by_message_type text_eq lower
stop_host_example =
    stop_host_online externals (env_at true 1) (env_at true 3)
      (service false ∷ round (env_at true 2) ∷ []) (host pubsublib.Host.Machine.online) state_topic
      refl refl refl refl refl refl

own-message_arrived_example :
    (message_arrived externals 3
      (codes "spBv1.0/STATE/client")
      (codes "x")
      (host_known (host pubsublib.Host.Machine.online))).own
    ≡ (host_known (host pubsublib.Host.Machine.online)).own
unfolding host_known as_known flag get_topic_by_message_type text_eq lower
own-message_arrived_example =
    own-message_arrived_deaf externals 3 (codes "spBv1.0/STATE/client") (codes "x")
      (host_known (host pubsublib.Host.Machine.online)) refl (refl, refl, refl)
