-- ===== src/Sparkplug/Publish.antt =====
-- Publishing with the sequence number of the node (`NextSequenceNumber` in src/sparkplugnode.h and
-- `DoPublish` in src/sparkplugtopic.cpp).
use pubsublib.Prelude.{ℕ, suc, Bool, false, none, some, List, [], ◌∷◌, if◌then◌else◌}
use pubsublib.Prelude.Words.{u8}
use pubsublib.Prelude.Texts.{Text}
use pubsublib.Payload.Defs.{set_timestamp}
use pubsublib.Topic.Object.{Topic, takes_sequence_number, sparkplug_publish}
use pubsublib.Client.Defs.{Client, get_topic_by_message_type, update_topic_by_message_type}
use pubsublib.Externals.{Externals, Message}

-- NextSequenceNumber: the number in front of the increment, and the counter behind it.
unfoldable pub next_sequence_number : ℕ → ℕ × ℕ
next_sequence_number n = (n, u8 (suc n))

-- A client, the counter, and the messages that were sent.
pub record Published : Type 0 where
  pub client : Client
  pub sequence_number : ℕ
  pub messages : List Message

module _ (x : Externals) where
  -- DoPublish with the counter.
  unfoldable pub do_publish : ℕ → Topic → Topic × Message × ℕ
  do_publish n t =
      let (seq, next) = next_sequence_number n in
      let (sent, message) = sparkplug_publish x seq t in
      (sent, message, (if takes_sequence_number x t then next else n))

  -- The common part of the four functions that publish a birth or a death message: the topic of the
  -- message type is prepared, gets the time, and is sent over a connection that is there.
  unfoldable pub publish_prepared : Text → (Topic → Topic) → Bool → ℕ → ℕ → Client → Published
  publish_prepared message_type prepare is_connected now n c =
      elim (get_topic_by_message_type x.util message_type c) [
        | none ↦ record { client = c; sequence_number = n; messages = [] }
        | some t ↦
            let ready = record (prepare t) {
              payload = set_timestamp x.util now false (prepare t).payload;
            } in
            let (sent, message, next) = do_publish n ready in
            let store =
              λ (s : Topic). update_topic_by_message_type x.util message_type (λ _. s) c in
            if is_connected
            then record { client = store sent; sequence_number = next; messages = message ∷ [] }
            else record { client = store ready; sequence_number = n; messages = [] }
      ]
