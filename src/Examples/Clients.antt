-- ===== src/Examples/Clients.antt =====
-- The plain client: its subscriptions, its publishing and its task.
use mathlib.Core.Option
use pubsublib.Prelude.{
  ◌≡◌, refl, ◌+◌, true, false, none, some, [], ◌∷◌, ◌||◌, ◌&&◌, not, map, if◌then◌else◌,
}
use pubsublib.Prelude.Texts.{codes, text_eq, is_empty}
use pubsublib.Payload.Defs.{get_metric}
use pubsublib.Topic.Name.{get_topic}
use pubsublib.Topic.Object.{mqtt_publish}
use pubsublib.Externals.{disconnect}
use pubsublib.Client.Defs.{
  has_subscription, add_subscription, add_subscription_front, delete_subscription, publish_topics,
  get_topic_of,
}
use pubsublib.Client.Subscriptions.{IsDistinct, add_subscription_lem, delete_subscription_lem}
use pubsublib.Client.Publishing.{due_messages, publish_topics_again}
use pubsublib.Mqtt.Machine.{idle, wait_on_connect, online, client_round, begin_task}
use pubsublib.Mqtt.Events.{round, accepted, closed, arrived, run, step, message_arrived}
use pubsublib.Mqtt.Invariant.{
  created, destroyed, live, whole_task, whole_task-Balanced, Edge, step-Edge, HasHandle,
  run-begin_task-HasHandle,
}
use pubsublib.Mqtt.Timing.{retry_waits}
use pubsublib.Mqtt.Leaving.{leaves_in_time}
use pubsublib.Mqtt.Messages.{new_topic, with_message, message_arrived_lem, message_arrived_new}
use pubsublib.Examples.Data.{externals, client, mqtt_client, out_of_service, env_at, hello}

add_subscription_example :
    IsDistinct (add_subscription (codes "c") client).subscription_list
    × IsDistinct (add_subscription_front (codes "c") client).subscription_list
    × (has_subscription (codes "b") (add_subscription (codes "c") client).subscription_list ≡ (
        text_eq (codes "b") (codes "c") || has_subscription (codes "b") client.subscription_list))
    × (has_subscription (codes "b") (add_subscription_front (codes "c") client).subscription_list
        ≡ (text_eq (codes "b") (codes "c")
            || has_subscription (codes "b") client.subscription_list))
unfolding text_eq
add_subscription_example = add_subscription_lem (codes "b") (codes "c") client (refl, (refl, tt))

delete_subscription_example :
    has_subscription (codes "b") (delete_subscription (codes "b") client).subscription_list ≡ (
      has_subscription (codes "b") client.subscription_list
      && not (text_eq (codes "b") (codes "b")))
unfolding text_eq
delete_subscription_example =
    delete_subscription_lem (codes "b") (codes "b") client (refl, (refl, tt))

publish_topics_example :
    let (published, messages) = publish_topics (mqtt_publish externals (λ m. false)) client in
    (messages ≡ due_messages externals client.topic_list)
    × ((publish_topics (mqtt_publish externals (λ m. true)) published).1 ≡ [])
publish_topics_example = publish_topics_again externals (λ m. false) (λ m. true) client

whole_task_example :
    let es = round (env_at true 1) ∷ accepted [] 4 ∷ round (env_at true 2) ∷ [] in
    let m = mqtt_client idle true 0 in
    (live m.handle + created (whole_task externals (env_at true 3) es m).1
      ≡ destroyed (whole_task externals (env_at true 3) es m).1)
    × ((whole_task externals (env_at true 3) es m).0.handle ≡ false)
whole_task_example =
    whole_task-Balanced externals (env_at true 3)
      (round (env_at true 1) ∷ accepted [] 4 ∷ round (env_at true 2) ∷ []) (mqtt_client idle true 0)

step-Edge_example :
    Edge wait_on_connect
      (step externals (round (env_at true 1)) (mqtt_client wait_on_connect true 5)).0.client_state
step-Edge_example = step-Edge externals (round (env_at true 1)) (mqtt_client wait_on_connect true 5)

run-HasHandle_example :
    HasHandle
      (run externals (round (env_at true 1) ∷ []) (begin_task (mqtt_client online true 0)).0).0
run-HasHandle_example =
    run-begin_task-HasHandle externals (round (env_at true 1) ∷ []) (mqtt_client online true 0)

retry_waits_example :
    created
      (run externals
        (map round (env_at true 200 ∷ env_at true 10_099 ∷ []))
        (client_round externals (env_at false 100) (mqtt_client idle false 0)).0).1
    ≡ 0
retry_waits_example =
    retry_waits externals (env_at false 100) (env_at true 200 ∷ env_at true 10_099 ∷ [])
      (mqtt_client idle false 0) refl refl refl refl (refl, (refl, tt))

leaves_in_time_example :
    let m = out_of_service (mqtt_client online true 0) in
    let es = closed ∷ arrived 120 (codes "new/topic") hello ∷ round (env_at false 200) ∷ [] in
    ((client_round externals (env_at true 100) m).1 ≡ disconnect ∷ [])
    × ((client_round externals
          (env_at true 5_100)
          (run externals es (client_round externals (env_at true 100) m).0).0).0.client_state
        ≡ idle)
leaves_in_time_example =
    leaves_in_time externals (env_at true 100) (env_at true 5_100)
      (closed ∷ arrived 120 (codes "new/topic") hello ∷ round (env_at false 200) ∷ [])
      (out_of_service (mqtt_client online true 0)) refl refl refl refl (refl, (refl, (refl, tt)))
      refl

message_arrived_example :
    let m = mqtt_client online true 0 in
    get_topic_of
      (codes "car/speed")
      (message_arrived externals 7 (codes "car/speed") hello m).client
    ≡ (if is_empty (codes "car/speed")
        then get_topic_of (codes "car/speed") m.client
        else some (
            with_message externals 7 (codes "car/speed") hello (
              Option.get_or
                (get_topic_of (codes "car/speed") m.client)
                (new_topic (codes "car/speed")))))
message_arrived_example =
    message_arrived_lem externals 7 (codes "car/speed") hello (mqtt_client online true 0)

message_arrived_new_example :
    Option.map
      (λ t. get_metric externals.util (codes "new/topic") t.payload)
      (get_topic_of
        (codes "new/topic")
        (message_arrived externals 7 (codes "new/topic") hello (mqtt_client online true 0)).client)
    ≡ some none
message_arrived_new_example =
    message_arrived_new externals 7 (codes "new/topic") (codes "new/topic") hello
      (mqtt_client online true 0) refl (unfold get_topic_of get_topic text_eq in refl)
