-- ===== src/Examples/Nodes.antt =====
-- A node with one device.
use pubsublib.Prelude.{◌≡◌, refl, arith, ◌+◌, Bool, true, false, some, [], ◌∷◌, all}
use pubsublib.Prelude.Texts.{Text, codes, text_eq, lower}
use pubsublib.StringUtil.Ascii.{ascii}
use pubsublib.Topic.Name.{empty_name, set_topic, scan_char}
use pubsublib.Topic.Object.{Topic, make_sparkplug_topic}
use pubsublib.Client.Defs.{Client, get_topic_by_message_type}
use pubsublib.Mqtt.Invariant.{created, destroyed, live}
use pubsublib.Sparkplug.Device.{Device, Parent, DeviceState, offline, poll, poll_state, poll_online}
use pubsublib.Sparkplug.Node.{Node, NodeState, is_host_online}
use pubsublib.Sparkplug.Task.{begin_task, node_round}
use pubsublib.Sparkplug.Events.{round, accepted, answered, lost, arrived, service, run, whole_task}
use pubsublib.Sparkplug.Aliases.{assign_alias_numbers}
use pubsublib.Sparkplug.Numbering.{
  node_aliases, node_count, count_from, node_aliases-assign_alias_numbers,
}
use pubsublib.Sparkplug.Births.{topics_of, announced, topics_of-poll, poll-poll_flaps}
use pubsublib.Sparkplug.Deaths.{is_stale, stale-poll}
use pubsublib.Sparkplug.Runs.{node_task-Balanced}
use pubsublib.Sparkplug.Waiting.{run-Waits}
use pubsublib.Sparkplug.Leaving.{EndsInDisconnect, node_leaves_in_time}
use pubsublib.Client.Defs.{has_subscription}
use pubsublib.Client.Subscriptions.{IsDistinct}
use pubsublib.Sparkplug.Start.{start_joined, start_node, command_subscription, state_subscription}
use pubsublib.Sparkplug.Starting.{start_node_lem}
use pubsublib.Examples.Data.{externals, client, settings, two_metrics, env_at}

abbrev pub topic_of_type : Text → Topic
topic_of_type message_type = record make_sparkplug_topic {
  names = record empty_name { message_type = message_type };
  payload = two_metrics;
}

abbrev pump_client : Bool → Client
pump_client in_service = record client {
  topic_list = topic_of_type (codes "DBIRTH") ∷ topic_of_type (codes "DDEATH") ∷ [];
  in_service = in_service;
}

abbrev pump : Bool → DeviceState → Device
pump in_service state = record { client = pump_client in_service; device_state = state }

abbrev parent : Parent
parent = record { name = codes "node"; is_online = true; in_service = true; is_connected = true }

abbrev pub node : Bool → NodeState → Node
node in_service state = record {
  client = record client {
    settings = record settings { wait_on_host_online = true };
    topic_list = topic_of_type (codes "NBIRTH") ∷ topic_of_type (codes "NDEATH") ∷ [];
    in_service = in_service;
  };
  handle = true;
  delivered = false;
  server_uri = [];
  server_version = 4;
  server_session = 0;
  bd_sequence_number = 0;
  sequence_number = 255;
  node_state = state;
  stop_node_task = false;
  looping = true;
  node_timer = 0;
  device_list = (codes "pump", pump true offline) ∷ [];
  node_list = [];
}

topics_of-poll_example :
    topics_of (poll externals parent 10 255 (pump true offline))
    ≡ announced offline
        (poll externals parent 10 255 (pump true offline)).device.device_state
        parent
        (pump_client true)
unfolding get_topic_by_message_type text_eq lower
topics_of-poll_example = topics_of-poll externals parent 10 255 (pump true offline) refl refl refl

poll-poll_flaps_example :
    let first = (poll externals parent 10 255 (pump false offline)).device in
    (first.device_state ≡ pubsublib.Sparkplug.Device.online)
    × ((poll externals parent 20 0 first).device.device_state ≡ offline)
poll-poll_flaps_example =
    poll-poll_flaps externals parent 10 20 255 0 (pump false offline) refl refl refl

stale-poll_example :
    all is_stale
      (poll externals parent 10 0
        (pump false pubsublib.Sparkplug.Device.online)).device.client.topic_list
    ≡ true
unfolding poll poll_state poll_online
stale-poll_example =
    stale-poll externals parent 10 0 (pump false pubsublib.Sparkplug.Device.online) refl refl

assign_alias_numbers_example :
    node_aliases ascii (assign_alias_numbers ascii (node true pubsublib.Sparkplug.Node.idle))
    ≡ count_from 1 (node_count ascii (node true pubsublib.Sparkplug.Node.idle))
unfolding get_topic_by_message_type text_eq lower
assign_alias_numbers_example =
    node_aliases-assign_alias_numbers ascii (node true pubsublib.Sparkplug.Node.idle) (omega arith)

node_task_example :
    let es = round (env_at true 1) ∷ accepted [] 4 0 ∷ round (env_at true 2) ∷ lost ∷ [] in
    let n = node true pubsublib.Sparkplug.Node.idle in
    (live n.handle + created (whole_task externals (env_at true 3) es n).1
      ≡ destroyed (whole_task externals (env_at true 3) es n).1)
    × ((whole_task externals (env_at true 3) es n).0.handle ≡ false)
node_task_example =
    node_task-Balanced externals (env_at true 3)
      (round (env_at true 1) ∷ accepted [] 4 0 ∷ round (env_at true 2) ∷ lost ∷ [])
      (node true pubsublib.Sparkplug.Node.idle)

run-Waits_example :
    let es =
      round (env_at true 1)
      ∷ arrived 5 (codes "spBv1.0/plant/NBIRTH/other") (codes "x")
      ∷ service true
      ∷ round (env_at true 2)
      ∷ [] in
    let n = node true pubsublib.Sparkplug.Node.idle in
    (created (run externals es n).1 ≡ 0)
    × ((run externals es n).0.node_state ≡ pubsublib.Sparkplug.Node.idle)
unfolding is_host_online scan_char
run-Waits_example =
    run-Waits externals
      (round (env_at true 1)
        ∷ arrived 5 (codes "spBv1.0/plant/NBIRTH/other") (codes "x")
        ∷ service true
        ∷ round (env_at true 2)
        ∷ [])
      (node true pubsublib.Sparkplug.Node.idle) refl refl refl tt
      (refl, (unfold text_eq set_topic in refl, (refl, (refl, tt))))

node_leaves_example :
    let n = node false pubsublib.Sparkplug.Node.online in
    let es = lost ∷ round (env_at false 200) ∷ answered ∷ [] in
    EndsInDisconnect (node_round externals (env_at true 100) n).1
    × ((node_round externals
          (env_at true 5_100)
          (run externals es (node_round externals (env_at true 100) n).0).0).0.node_state
        ≡ pubsublib.Sparkplug.Node.idle)
node_leaves_example =
    node_leaves_in_time externals (env_at true 100) (env_at true 5_100)
      (lost ∷ round (env_at false 200) ∷ answered ∷ []) (node false pubsublib.Sparkplug.Node.online)
      refl refl refl refl (refl, (refl, (refl, tt))) refl

-- A node whose thread has left its loop and was not joined.
abbrev left : Node → Node
left n = record n { looping = false; stop_node_task = true }

start_node_example :
    let n = left (node true pubsublib.Sparkplug.Node.idle) in
    let started = (start_joined ascii n).0 in
    (start_node ascii true n ≡ some (started, true))
    × ((begin_task started).0.looping ≡ true)
    × IsDistinct started.subscription_list
    × (has_subscription (command_subscription n.client) started.subscription_list ≡ true)
    × (has_subscription state_subscription started.subscription_list ≡ true)
unfolding text_eq
start_node_example =
    start_node_lem ascii true (left (node true pubsublib.Sparkplug.Node.idle)) refl
      (refl, (refl, tt))
