-- ===== src/Examples/Messages.antt =====
-- Tests of what a node hears, and of how tasks are stopped.
use pubsublib.Prelude.{◌≡◌, refl, true, false, [], ◌∷◌, ◌++◌, ◌≤◌, All, arith}
use pubsublib.Prelude.Texts.{Text, codes, text_eq, lower}
use pubsublib.Externals.{send, destroy, disconnect}
use pubsublib.Client.Defs.{get_topic_by_message_type}
use pubsublib.Sparkplug.Node.{poll_devices}
use pubsublib.Mqtt.Machine.{end_task, online}
use pubsublib.Mqtt.Events.{run, round, service, closed, request_stop}
use pubsublib.Mqtt.Stopping.{stop_online}
use pubsublib.Sparkplug.Stopping.{death_message, stop_node_online}
use pubsublib.Sparkplug.Routing.Known.{Known, Key}
use pubsublib.Sparkplug.Routing.Handlers.{as_known}
use pubsublib.Sparkplug.Routing.Views.{IsTidy}
use pubsublib.Sparkplug.Routing.Refinement.{directory}
use pubsublib.Sparkplug.Routing.Deliveries.{Delivery, deliver, serve_all, directory-deliver}
use pubsublib.Sparkplug.Routing.Unique.{IsUnique, deliver-IsUnique}
use pubsublib.Sparkplug.Routing.Fresh.{HasFreshDevices}
use pubsublib.Sparkplug.Routing.Remote.{deliver-fresh}
use pubsublib.Examples.Data.{externals, mqtt_client, env_at}
use pubsublib.Examples.Nodes.{node, topic_of_type}

abbrev message : Text → Delivery
message topic_name = record { time = 5; topic_name = topic_name; body = codes "x" }

abbrev listener : Known
listener = as_known (node true pubsublib.Sparkplug.Node.idle)

stop_online_example :
    let m = request_stop (mqtt_client online true 0) in
    let (ran, calls) =
      run externals
        (round (env_at true 1) ∷ closed ∷ service false ∷ round (env_at true 2) ∷ [])
        m in
    calls ++ (end_task (env_at true 3) ran).1 ≡ disconnect ∷ destroy ∷ []
unfolding request_stop
stop_online_example =
    stop_online externals (env_at true 1) (env_at true 3)
      (closed ∷ service false ∷ round (env_at true 2) ∷ [])
      (request_stop (mqtt_client online true 0)) refl refl refl refl

stop_node_online_example :
    let n = pubsublib.Sparkplug.Events.request_stop (node true pubsublib.Sparkplug.Node.online) in
    let (ran, calls) =
      pubsublib.Sparkplug.Events.run externals
        (pubsublib.Sparkplug.Events.round (env_at true 1) ∷ pubsublib.Sparkplug.Events.lost ∷ [])
        n in
    let (polled, messages) = poll_devices externals (env_at true 1) n in
    calls ++ (pubsublib.Sparkplug.Task.end_task (env_at true 3) ran).1
    ≡ ((messages
          ++ send
              (death_message externals 1 polled.sequence_number (topic_of_type (codes "NDEATH")))
            ∷ [])
        ++ disconnect ∷ [])
      ++ destroy ∷ []
unfolding pubsublib.Sparkplug.Events.request_stop get_topic_by_message_type text_eq lower
stop_node_online_example =
    stop_node_online externals (env_at true 1) (env_at true 3)
      (pubsublib.Sparkplug.Events.lost ∷ [])
      (pubsublib.Sparkplug.Events.request_stop (node true pubsublib.Sparkplug.Node.online))
      (topic_of_type (codes "NDEATH")) refl refl refl refl refl refl refl

directory-deliver_example :
    let ds =
      message (codes "spBv1.0/plant/NBIRTH/other") ∷ message (codes "spBv1.0/STATE/scada") ∷ [] in
    (directory externals (deliver externals ds listener)
      ≡ serve_all externals ds (directory externals listener))
    × IsTidy (deliver externals ds listener)
unfolding as_known
directory-deliver_example =
    directory-deliver externals
      (message (codes "spBv1.0/plant/NBIRTH/other") ∷ message (codes "spBv1.0/STATE/scada") ∷ [])
      listener (refl, tt)

alone :
    (name : Key)
    → pubsublib.Sparkplug.Routing.Unique.count
        (pubsublib.Sparkplug.Routing.Known.matches externals.util name)
        (listener.own ∷ listener.peers)
      ≤ 1
unfolding as_known
alone name = ground arith

deliver-IsUnique_example : IsUnique externals.util (
    deliver externals
      (message (codes "spBv1.0/plant/DBIRTH/other/pump")
        ∷ message (codes "spBv1.0/PLANT/NDATA/Other")
        ∷ [])
      listener)
unfolding as_known
deliver-IsUnique_example =
    deliver-IsUnique externals
      (message (codes "spBv1.0/plant/DBIRTH/other/pump")
        ∷ message (codes "spBv1.0/PLANT/NDATA/Other")
        ∷ [])
      listener (refl, tt) alone

deliver-fresh_example :
    All
      (HasFreshDevices externals)
      (deliver externals
        (message (codes "spBv1.0/plant/DBIRTH/other/pump")
          ∷ message (codes "spBv1.0/plant/DDATA/other/pump")
          ∷ [])
        listener).peers
unfolding as_known
deliver-fresh_example =
    deliver-fresh externals
      (message (codes "spBv1.0/plant/DBIRTH/other/pump")
        ∷ message (codes "spBv1.0/plant/DDATA/other/pump")
        ∷ [])
      listener tt
