-- ===== src/Sparkplug/Numbering.antt =====
-- The numbers that AssignAliasNumbers gives out.
use pubsublib.Prelude.{
  ℕ, suc, ◌+◌, ◌%◌, ◌<◌, ◌≡◌, refl, ap, subst, ◌∙◌, Option, none, some, List, [], ◌∷◌, ◌++◌, length,
  arith, zero, find_if-update_if, Option-cases, inl, inr,
}
use mathlib.Core.Option
use pubsublib.Prelude.Words.{two_64}
use pubsublib.Prelude.Texts.{Text, codes}
use pubsublib.StringUtil.{StringUtil}
use pubsublib.StringUtil.Map.{TextMap}
use pubsublib.Metric.Defs.{Metric}
use pubsublib.Topic.Object.{Topic}
use pubsublib.Client.Defs.{
  Client, has_message_type, get_topic_by_message_type, update_topic_by_message_type,
}
use pubsublib.Sparkplug.Device.{Device}
use pubsublib.Sparkplug.Node.{Node}
use pubsublib.Sparkplug.Aliases.{
  number_metrics, with_metrics, number_client, number_devices, assign_alias_numbers,
}

abbrev pub aliases : TextMap Metric → List ℕ
aliases [] = []
aliases ((name, m) ∷ ms) = m.alias ∷ aliases ms

-- n, n + 1, and so on: k numbers.
abbrev pub count_from : ℕ → ℕ → List ℕ
count_from n zero = []
count_from n (suc k) = n ∷ count_from (n + 1) k

add_zero : (n : ℕ) → n + 0 ≡ n
add_zero n = omega arith

zero_add : (k : ℕ) → k ≡ 0 + k
zero_add k = omega arith

add_suc : (n j : ℕ) → n + suc j ≡ n + 1 + j
add_suc n j = omega arith

suc_add : (j k : ℕ) → suc (j + k) ≡ suc j + k
suc_add j k = omega arith

count_from-append : (n j k : ℕ) → count_from n j ++ count_from (n + j) k ≡ count_from n (j + k)
count_from-append n zero k = ap (λ i. count_from i k) (add_zero n) ∙ ap (count_from n) (zero_add k)
count_from-append n (suc j) k =
    ap (λ l. n ∷ l)
      (ap (λ i. count_from (n + 1) j ++ count_from i k) (add_suc n j)
        ∙ count_from-append (n + 1) j k)
    ∙ ap (count_from n) (suc_add j k)

number_metrics_lem :
    (n : ℕ) (ms : TextMap Metric)
    → n + length ms < two_64
    → (aliases (number_metrics n ms).0 ≡ count_from n (length ms))
      × ((number_metrics n ms).1 ≡ n + length ms)
unfolding number_metrics
number_metrics_lem n [] h = (refl, omega arith)
number_metrics_lem n ((name, m) ∷ ms) h =
    let next : (n + 1) % two_64 ≡ n + 1 = omega arith in
    let (numbers, last) = number_metrics_lem (n + 1) ms (omega arith) in
    rw next (ap (λ l. n ∷ l) numbers, omega (arith, last))

abbrev pub payload_metrics : Option Topic → TextMap Metric
payload_metrics none = []
payload_metrics (some t) = t.payload.metric_list

module _ (u : StringUtil) where
  -- The metrics of the topic of a message type.
  abbrev pub metrics_of : Text → Client → TextMap Metric
  metrics_of message_type c = payload_metrics (get_topic_by_message_type u message_type c)

  get_topic_by_message_type-update :
      (message_type : Text) (ms : TextMap Metric) (c : Client)
      → get_topic_by_message_type u message_type
          (update_topic_by_message_type u message_type (with_metrics ms) c)
        ≡ Option.map (with_metrics ms) (get_topic_by_message_type u message_type c)
  unfolding get_topic_by_message_type update_topic_by_message_type
  get_topic_by_message_type-update message_type ms c =
      find_if-update_if (has_message_type u message_type) (with_metrics ms) c.topic_list (λ t. refl)

  number_client-none :
      (message_type : Text) (n : ℕ) (c : Client)
      → get_topic_by_message_type u message_type c ≡ none
      → number_client u message_type n c ≡ (c, n)
  unfolding number_client
  number_client-none message_type n c e = rw (e, number_client) refl

  number_client-some :
      (message_type : Text) (n : ℕ) (c : Client) (t : Topic)
      → get_topic_by_message_type u message_type c ≡ some t
      → number_client u message_type n c ≡ (
        update_topic_by_message_type u message_type
            (with_metrics (number_metrics n t.payload.metric_list).0)
            c,
        (number_metrics n t.payload.metric_list).1,
      )
  unfolding number_client
  number_client-some message_type n c t e = rw (e, number_client) refl

  number_client_lem :
      (message_type : Text) (n : ℕ) (c : Client)
      → n + length (metrics_of message_type c) < two_64
      → (aliases (metrics_of message_type (number_client u message_type n c).0)
          ≡ count_from n (length (metrics_of message_type c)))
        × ((number_client u message_type n c).1 ≡ n + length (metrics_of message_type c))
  number_client_lem message_type n c h =
      elim (Option-cases (get_topic_by_message_type u message_type c)) [
        | inl e ↦
            let bare = ap payload_metrics e in
            rw (number_client-none message_type n c e, bare) (refl, omega arith)
        | inr (t, e) ↦
            let known = ap payload_metrics e in
            let ms = t.payload.metric_list in
            let after = ap payload_metrics (
              get_topic_by_message_type-update message_type (number_metrics n ms).0 c
              ∙ ap (Option.map (with_metrics (number_metrics n ms).0)) e) in
            let (numbers, last) =
              number_metrics_lem n ms (subst (λ l. n + length l < two_64) known h) in
            rw (number_client-some message_type n c t e, known, after) (numbers, last)
      ]

  -- All metrics of the births of the devices, in their order.
  abbrev pub births_count : TextMap Device → ℕ
  births_count [] = 0
  births_count ((name, d) ∷ ds) = length (metrics_of (codes "DBIRTH") d.client) + births_count ds

  abbrev pub births_aliases : TextMap Device → List ℕ
  births_aliases [] = []
  births_aliases ((name, d) ∷ ds) =
      aliases (metrics_of (codes "DBIRTH") d.client) ++ births_aliases ds

  number_devices_lem :
      (n : ℕ) (ds : TextMap Device)
      → n + births_count ds < two_64
      → births_aliases (number_devices u n ds).0 ≡ count_from n (births_count ds)
  unfolding number_devices
  number_devices_lem n [] h = refl
  number_devices_lem n ((name, d) ∷ ds) h =
      let k = length (metrics_of (codes "DBIRTH") d.client) in
      let (own, last) = number_client_lem (codes "DBIRTH") n d.client (omega arith) in
      let rest = number_devices_lem (n + k) ds (omega arith) in
      rw (own, last) (ap (λ l. count_from n k ++ l) rest ∙ count_from-append n k (births_count ds))

  -- The numbers of all metrics of a node's births: its own, then those of its devices.
  abbrev pub node_aliases : Node → List ℕ
  node_aliases n = aliases (metrics_of (codes "NBIRTH") n.client) ++ births_aliases n.device_list

  abbrev pub node_count : Node → ℕ
  node_count n = length (metrics_of (codes "NBIRTH") n.client) + births_count n.device_list

  -- After AssignAliasNumbers the metrics of the births of a node and its devices have the numbers 1, 2, 3
  -- and so on, in their order, so that no number is given twice and none is 0, as long as there are fewer
  -- than 2^64 - 1 of them.
  pub node_aliases-assign_alias_numbers :
      (n : Node)
      → 1 + node_count n < two_64
      → node_aliases (assign_alias_numbers u n) ≡ count_from 1 (node_count n)
  unfolding assign_alias_numbers
  node_aliases-assign_alias_numbers n h =
      let k = length (metrics_of (codes "NBIRTH") n.client) in
      let (own, last) = number_client_lem (codes "NBIRTH") 1 n.client (omega arith) in
      let rest = number_devices_lem (1 + k) n.device_list (omega arith) in
      rw (own, last)
        (ap (λ l. count_from 1 k ++ l) rest ∙ count_from-append 1 k (births_count n.device_list))
