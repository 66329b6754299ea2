-- ===== src/Payload/Defs.antt =====
-- The class `Payload` (include/pubsub/payload.h, src/payload.cpp): a list of metrics and the bytes
-- that are sent. A metric that a pointer refers to is changed through its name in the list; the
-- list never holds a null pointer.
use pubsublib.Prelude.{
  ℕ, Bool, false, Option, none, some, List, [], ◌∷◌, ◌++◌, ◌==◌, if◌then◌else◌, is_none, any,
}
use pubsublib.Prelude.Texts.{Text, codes, is_empty}
use pubsublib.StringUtil.{StringUtil}
use pubsublib.StringUtil.Map.{TextMap, find, insert, update}
use pubsublib.Metric.Numbers.{read_unsigned}
use pubsublib.Metric.TypeCode.{string}
use pubsublib.Metric.Defs.{Metric, make_metric, value_unsigned, value_bool, value_string, get_bool}

pub record Payload : Type 0 where
  pub uuid : Text
  pub timestamp : ℕ
  pub sequence_number : ℕ
  pub metric_list : TextMap Metric
  pub body : List ℕ

abbrev pub empty_payload : Payload
empty_payload = record {
  uuid = [];
  timestamp = 0;
  sequence_number = 0;
  metric_list = [];
  body = [];
}

abbrev pub timestamp_key : Text
timestamp_key = codes "timestamp"

-- A function on the metric, on every entry.
abbrev pub map_metrics : (Metric → Metric) → TextMap Metric → TextMap Metric
map_metrics f [] = []
map_metrics f ((name, metric) ∷ ms) = (name, f metric) ∷ map_metrics f ms

-- DeleteMetrics compares the metric's own name, not its key.
abbrev pub delete_named : StringUtil → Text → TextMap Metric → TextMap Metric
delete_named u name [] = []
delete_named u name ((k, metric) ∷ ms) =
    if u.iequals name metric.name then ms else (k, metric) ∷ delete_named u name ms

-- The search of GetMetric(uint64_t).
abbrev pub find_alias : ℕ → TextMap Metric → Option Metric
find_alias alias [] = none
find_alias alias ((k, metric) ∷ ms) =
    if alias == metric.alias then some metric else find_alias alias ms

-- A change of the metric that GetMetric(uint64_t) finds, through its pointer.
abbrev pub update_alias : ℕ → (Metric → Metric) → TextMap Metric → TextMap Metric
update_alias alias f [] = []
update_alias alias f ((k, metric) ∷ ms) =
    if alias == metric.alias then (k, f metric) ∷ ms else (k, metric) ∷ update_alias alias f ms

-- MakeString: the values between semicolons, a star for null.
abbrev pub metric_text : Metric → Text
metric_text m = if m.is_null then codes "*" else m.value

abbrev pub join_rest : TextMap Metric → Text
join_rest [] = []
join_rest ((_, m) ∷ ms) = b';' ∷ metric_text m ++ join_rest ms

unfoldable pub make_string : TextMap Metric → Text
make_string [] = []
make_string ((_, m) ∷ ms) = metric_text m ++ join_rest ms

-- BodyToString stops at the first NUL.
unfoldable pub body_to_string : List ℕ → Text
body_to_string [] = []
body_to_string (byte ∷ bytes) = if byte == 0 then [] else byte ∷ body_to_string bytes

-- StringToBody.
unfoldable pub string_to_body : Text → Payload → Payload
string_to_body body_text p = record p { body = body_text }

-- GenerateText.
unfoldable pub generate_text : Payload → Payload
unfolding make_string string_to_body
generate_text p = string_to_body (make_string p.metric_list) p

abbrev pub is_updated_list : TextMap Metric → Bool
is_updated_list = any (λ entry. entry.1.updated)

-- IsUpdated, of the payload and of its topic.
unfoldable pub is_updated : Payload → Bool
is_updated p = is_updated_list p.metric_list

-- ITopic::ResetUpdated and ITopic::SetAllMetricsInvalid on the topic's payload.
unfoldable pub reset_updated : Payload → Payload
reset_updated p = record p {
  metric_list = map_metrics (λ m. record m { updated = false }) p.metric_list;
}

unfoldable pub set_all_metrics_invalid : Payload → Payload
set_all_metrics_invalid p = record p {
  metric_list = map_metrics (λ m. record m { valid = false }) p.metric_list;
}

module _ (u : StringUtil) where
  -- GetMetric(const std::string&).
  unfoldable pub get_metric : Text → Payload → Option Metric
  get_metric name p = find u name p.metric_list

  -- A call of a setter through the pointer that GetMetric returns; nothing, if it is null.
  unfoldable pub update_metric : Text → (Metric → Metric) → Payload → Payload
  update_metric name f p = record p { metric_list = update u name f p.metric_list }

  -- CreateMetric: the metric of that name is in the list afterwards, an old one untouched.
  unfoldable pub create_metric : Text → Payload → Payload
  create_metric name p =
      if is_none (get_metric name p)
      then record p { metric_list = insert u name (make_metric name) p.metric_list }
      else p

  -- AddMetric; `none` is the null pointer.
  unfoldable pub add_metric : Option Metric → Payload → Payload
  add_metric none p = p
  add_metric (some metric) p =
      if is_empty metric.name
      then p
      else if is_none (get_metric metric.name p)
      then record p { metric_list = insert u metric.name metric p.metric_list }
      else p

  -- DeleteMetrics.
  unfoldable pub delete_metrics : Text → Payload → Payload
  delete_metrics name p = record p { metric_list = delete_named u name p.metric_list }

  -- The setter Timestamp: also the metric of that name, and the metrics' own times if asked.
  unfoldable pub set_timestamp : ℕ → Bool → Payload → Payload
  set_timestamp ms set_metrics p =
      let q = update_metric timestamp_key (value_unsigned ms) (record p { timestamp = ms }) in
      if set_metrics
      then record q { metric_list = map_metrics (λ m. record m { timestamp = ms }) q.metric_list }
      else q

  -- The getter Timestamp.
  unfoldable pub get_timestamp : Payload → ℕ
  get_timestamp p = elim (get_metric timestamp_key p) [
    | none ↦ p.timestamp
    | some metric ↦ read_unsigned metric.value
  ]

  -- SetValue and GetValue for bool, SetValue for uint64_t.
  unfoldable pub set_value_bool : Text → Bool → Payload → Payload
  set_value_bool name value p = update_metric name (value_bool value) p

  unfoldable pub get_value_bool : Text → Payload → Bool
  get_value_bool name p = elim (get_metric name p) [
    | none ↦ false
    | some metric ↦ get_bool metric.value
  ]

  unfoldable pub set_value_unsigned : Text → ℕ → Payload → Payload
  set_value_unsigned name value p = update_metric name (value_unsigned value) p

  unfoldable pub set_value_string : Text → Text → Payload → Payload
  set_value_string name value p = update_metric name (value_string u value) p

  -- ParseText: the whole body is the value of the first metric, which is made if there is none.
  unfoldable pub parse_text : Payload → Payload
  parse_text p = elim p.metric_list [
    | [] ↦
        update_metric (codes "Value")
          (λ m. value_string u (body_to_string p.body) (record m { datatype = string }))
          (create_metric (codes "Value") p)
    | (name, metric) ∷ ms ↦ record p {
      metric_list = (name, value_string u (body_to_string p.body) metric) ∷ ms;
    }
  ]
