-- ===== src/Payload/Metrics.antt =====
-- Reading back what the operations of src/payload.cpp wrote.
use mathlib.Core.Option
use pubsublib.Prelude.{
  ℕ, ◌<◌, ◌≡◌, refl, Bool, true, false, not, ◌&&◌, some, [], ◌∷◌, arith, is_none, if◌then◌else◌,
  Option-cases, inl, inr,
}
use pubsublib.Prelude.Texts.{Text, is_empty}
use pubsublib.Prelude.Words.{two_64}
use pubsublib.StringUtil.{StringUtil, iequals_refl}
use pubsublib.StringUtil.Map.{TextMap, find, find-insert, find-update}
use pubsublib.Metric.Numbers.{read_unsigned-to_string}
use pubsublib.Metric.Defs.{Metric, make_metric, value_bool, value_unsigned, get_bool, store_value}
use pubsublib.Metric.Values.{get_bool-value_bool}
use pubsublib.Payload.Defs.{
  Payload, timestamp_key, map_metrics, get_metric, update_metric, create_metric, set_timestamp,
  get_timestamp, set_value_bool, get_value_bool, is_updated, is_updated_list, reset_updated,
}
use pubsublib.Payload.Json.{bool, json_type, apply_json, parse_json_entry}

module _ (u : StringUtil) where
  pub find-map_metrics :
      (k : Text) (f : Metric → Metric) (ms : TextMap Metric)
      → find u k (map_metrics f ms) ≡ Option.map f (find u k ms)
  unfolding find
  find-map_metrics k f [] = refl
  find-map_metrics k f ((j, m) ∷ ms) = ground (arith, find-map_metrics k f ms)

  -- Making a metric adds an empty one under the new name, and nothing if the name is taken, in any
  -- spelling; all other names keep their metrics.
  pub get_metric-create_metric :
      (j k : Text) (p : Payload)
      → get_metric u j (create_metric u k p) ≡ (
          if u.iequals j k && is_none (get_metric u k p)
          then some (make_metric k)
          else get_metric u j p)
  unfolding get_metric create_metric
  get_metric-create_metric j k p = ground (arith, find-insert u j k (make_metric k) p.metric_list)

  pub get_metric-update_metric :
      (j k : Text) (f : Metric → Metric) (p : Payload)
      → get_metric u j (update_metric u k f p)
        ≡ (if u.iequals j k then Option.map f (get_metric u j p) else get_metric u j p)
  unfolding get_metric update_metric
  get_metric-update_metric j k f p = find-update u j k f p.metric_list

  -- A Boolean that is set on an existing metric is read back under every spelling of the name, and
  -- on a missing metric the call does nothing and false is read.
  pub get_value_bool-set_value_bool :
      (j k : Text) (b : Bool) (p : Payload)
      → u.iequals j k ≡ true
      → get_value_bool u j (set_value_bool u k b p)
        ≡ (if is_none (get_metric u j p) then false else b)
  unfolding get_value_bool set_value_bool
  get_value_bool-set_value_bool j k b p same = elim (Option-cases (get_metric u j p)) [
    | inl e ↦ ground (arith, get_metric-update_metric j k (value_bool b) p)
    | inr (m, e) ↦
        ground (arith, get_metric-update_metric j k (value_bool b) p, get_bool-value_bool b m)
  ]

  -- A time below 2^64 that is set is read back, with or without a metric named timestamp.
  pub get_timestamp-set_timestamp :
      (ms : ℕ) (set_metrics : Bool) (p : Payload)
      → ms < two_64
      → get_timestamp u (set_timestamp u ms set_metrics p) ≡ ms
  unfolding get_timestamp set_timestamp get_metric update_metric value_unsigned store_value
  get_timestamp-set_timestamp ms set_metrics p h = ground (
    arith,
    iequals_refl u timestamp_key,
    read_unsigned-to_string ms h,
    find-update u timestamp_key timestamp_key (value_unsigned ms) p.metric_list,
    find-map_metrics timestamp_key (λ m. record m { timestamp = ms })
        (update_metric u timestamp_key (value_unsigned ms)
          (record p { timestamp = ms })).metric_list,
  )

  get_bool-apply_json : (b : Bool) (m : Metric) → get_bool (apply_json u (bool b) m).value ≡ b
  unfolding apply_json
  get_bool-apply_json b m = (get_bool-value_bool b m).0

  -- A JSON entry with a Boolean and a name sets that metric to it, and makes the metric if it is
  -- missing and may be made.
  pub get_value_bool-parse_json_entry :
      (key : Text) (b create_metrics : Bool) (p : Payload)
      → is_empty key ≡ false
      → get_value_bool u key (parse_json_entry u create_metrics p (key, bool b))
        ≡ (if is_none (get_metric u key p) && not create_metrics then false else b)
  unfolding parse_json_entry get_value_bool
  get_value_bool-parse_json_entry key b create_metrics p named =
      let fresh =
        λ (m : Metric). apply_json u (bool b) (record m { datatype = json_type (bool b) }) in
      elim (Option-cases (get_metric u key p)) [
        | inl e ↦ ground (
          arith,
          iequals_refl u key,
          get_metric-create_metric key key p,
          get_metric-update_metric key key fresh (create_metric u key p),
          get_bool-apply_json b (record (make_metric key) { datatype = json_type (bool b) }),
        )
        | inr (m, e) ↦ ground (
          arith,
          iequals_refl u key,
          get_metric-update_metric key key (apply_json u (bool b)) p,
          get_bool-apply_json b m,
        )
      ]

is_updated-map_metrics :
    (ms : TextMap Metric)
    → is_updated_list (map_metrics (λ m. record m { updated = false }) ms) ≡ false
is_updated-map_metrics [] = refl
is_updated-map_metrics (m ∷ ms) = is_updated-map_metrics ms

-- After a reset no metric of the payload is marked as updated.
pub is_updated-reset_updated : (p : Payload) → is_updated (reset_updated p) ≡ false
unfolding is_updated reset_updated
is_updated-reset_updated p = is_updated-map_metrics p.metric_list
