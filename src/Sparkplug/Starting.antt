-- ===== src/Sparkplug/Starting.antt =====
-- What a started node listens to (`Start` in src/sparkplugnode.cpp).
use pubsublib.Prelude.{
  ℕ, ◌≡◌, refl, sym, ap, subst, ◌∙◌, Bool, true, false, none, some, ◌&&◌, ◌||◌, if◌then◌else◌,
  arith, Option-cases, inl, inr,
}
use pubsublib.Prelude.Texts.{Text, codes, text_eq_refl, is_empty}
use pubsublib.StringUtil.{StringUtil}
use pubsublib.Client.Defs.{
  Client, has_subscription, add_subscription_front, get_topic_by_message_type,
  update_topic_by_message_type,
}
use pubsublib.Client.Subscriptions.{IsDistinct, add_subscription_lem}
use pubsublib.Sparkplug.Node.{Node, destroy_handle}
use pubsublib.Sparkplug.Aliases.{number_client, assign_alias_numbers}
use pubsublib.Sparkplug.Start.{
  state_subscription, command_subscription, add_default_metrics, start_topics, start_joined,
  start_node,
}
use pubsublib.Sparkplug.Task.{begin_task, loop_test}

module _ (u : StringUtil) where
  subscriptions-number_client :
      (message_type : Text) (n : ℕ) (c : Client)
      → (number_client u message_type n c).0.subscription_list ≡ c.subscription_list
  unfolding number_client update_topic_by_message_type
  subscriptions-number_client message_type n c =
      elim (Option-cases (get_topic_by_message_type u message_type c)) [
        | inl e ↦ rw (e, number_client) refl
        | inr (t, e) ↦ rw (e, number_client) refl
      ]

  subscriptions-start_topics :
      (c : Client)
      → ((start_topics u c).subscription_list ≡ c.subscription_list)
        × (command_subscription (start_topics u c) ≡ command_subscription c)
  unfolding start_topics update_topic_by_message_type command_subscription
  subscriptions-start_topics c = (refl, refl)

  add_both :
      (s : Text) (c d : Client)
      → c.subscription_list ≡ d.subscription_list
      → IsDistinct d.subscription_list
      → let list =
          (add_subscription_front s
            (add_subscription_front state_subscription c)).subscription_list in
        IsDistinct list
        × (has_subscription s list ≡ true)
        × (has_subscription state_subscription list ≡ true)
  add_both s c d e h =
      let first = add_subscription_front state_subscription c in
      let (_, distinct, _, _) =
        add_subscription_lem s state_subscription c (subst IsDistinct (sym e) h) in
      let (_, _, _, has_state) =
        add_subscription_lem state_subscription state_subscription c (subst IsDistinct (sym e) h) in
      let (_, both, _, has_own) = add_subscription_lem s s first distinct in
      let (_, _, _, still) = add_subscription_lem state_subscription s first distinct in
      (
        both,
        has_own ∙ ap (λ b. b || has_subscription s first.subscription_list) (text_eq_refl s),
        ground (arith, still, has_state, text_eq_refl state_subscription),
      )

  subscriptions-prepared :
      (n : Node)
      → ((start_topics u (add_default_metrics u n).client).subscription_list ≡ n.subscription_list)
        × (command_subscription (start_topics u (add_default_metrics u n).client)
            ≡ command_subscription n.client)
  unfolding start_topics add_default_metrics update_topic_by_message_type command_subscription
  subscriptions-prepared n = (refl, refl)

  start_joined-started :
      (n : Node)
      → is_empty n.group_id ≡ false
      → let c = start_topics u (add_default_metrics u n).client in
        ((start_joined u n).1 ≡ true)
        × ((start_joined u n).0.stop_node_task ≡ false)
        × ((start_joined u n).0.subscription_list
            ≡ (add_subscription_front
                (command_subscription c)
                (add_subscription_front state_subscription c)).subscription_list)
  unfolding start_joined assign_alias_numbers
  start_joined-started n g = rw g (refl, refl, subscriptions-number_client (codes "NBIRTH") 1 _)

  start_joined_lem :
      (n : Node)
      → is_empty n.group_id ≡ false
      → IsDistinct n.subscription_list
      → let started = (start_joined u n).0 in
        ((start_joined u n).1 ≡ true)
        × (started.stop_node_task ≡ false)
        × IsDistinct started.subscription_list
        × (has_subscription (command_subscription n.client) started.subscription_list ≡ true)
        × (has_subscription state_subscription started.subscription_list ≡ true)
  start_joined_lem n g h =
      let c = start_topics u (add_default_metrics u n).client in
      let (same, command) = subscriptions-prepared n in
      let (ok, running, list) = start_joined-started n g in
      let (distinct, own, state) = add_both (command_subscription c) c n.client same h in
      (
        ok,
        running,
        subst IsDistinct (sym list) distinct,
        ap (λ s. has_subscription s (start_joined u n).0.subscription_list) (sym command)
            ∙ ap (has_subscription (command_subscription c)) list
            ∙ own,
        ap (has_subscription state_subscription) list ∙ state,
      )

  enters : (n : Node) → n.stop_node_task ≡ false → (begin_task n).0.looping ≡ true
  unfolding begin_task loop_test destroy_handle
  enters n running = ground (arith, running)

  -- Start of a node that has a group, whose earlier thread is joined or has left its loop, succeeds; the
  -- thread that it makes enters its loop, and the node lists no subscription twice and listens to its own
  -- commands and to the states of the hosts. While an earlier thread is in its loop, Start waits.
  pub start_node_lem :
      (joinable : Bool) (n : Node)
      → is_empty n.group_id ≡ false
      → IsDistinct n.subscription_list
      → let started = (start_joined u n).0 in
        (start_node u joinable n ≡ (if joinable && n.looping then none else some (started, true)))
        × ((begin_task started).0.looping ≡ true)
        × IsDistinct started.subscription_list
        × (has_subscription (command_subscription n.client) started.subscription_list ≡ true)
        × (has_subscription state_subscription started.subscription_list ≡ true)
  unfolding start_node
  start_node_lem joinable n g h =
      let (ok, running, distinct, own, state) = start_joined_lem n g h in
      (
        ap (λ b. if joinable && n.looping then none else some ((start_joined u n).0, b)) ok,
        enters (start_joined u n).0 running,
        distinct,
        own,
        state,
      )
