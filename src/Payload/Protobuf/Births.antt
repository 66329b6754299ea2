-- ===== src/Payload/Protobuf/Births.antt =====
-- What a receiver learns from a message in which every metric has an alias.
use pubsublib.Prelude.{ℕ, ◌≡◌, Bool, true, false, none, List, [], ◌∷◌, arith, ◌==◌, All}
use pubsublib.StringUtil.{StringUtil}
use pubsublib.StringUtil.Map.{TextMap, update}
use pubsublib.Metric.Defs.{Metric}
use pubsublib.Payload.Defs.{Payload, update_metric, set_timestamp}
use pubsublib.Payload.Protobuf.Messages.{PbMetric}
use pubsublib.Payload.Protobuf.Writing.{write_metric, write_metrics, make_protobuf}
use pubsublib.Payload.Protobuf.Parsing.{parse_pb_metric, parse_pb_metrics, read_protobuf}

-- Every metric of a list has an alias.
abbrev pub HasAliases : TextMap Metric → Type 0
HasAliases = All (λ entry. (entry.1.alias == 0) ≡ false)

-- A metric of a message with neither its name nor its type.
abbrev pub IsNameless : PbMetric → Type 0
IsNameless pb = (pb.name ≡ none) × (pb.datatype ≡ none)

module _ (u : StringUtil) where
  write_metric-IsNameless :
      (m : Metric) → (m.alias == 0) ≡ false → IsNameless (write_metric u false m)
  unfolding write_metric
  write_metric-IsNameless m h = ground arith

  write_metrics-IsNameless :
      (ms : TextMap Metric) → HasAliases ms → All IsNameless (write_metrics u false ms).0
  unfolding write_metrics
  write_metrics-IsNameless [] h = tt
  write_metrics-IsNameless ((name, m) ∷ ms) h =
      ground (arith, write_metrics-IsNameless ms h.1, write_metric-IsNameless m h.0)

  parse_pb_metric-empty :
      (create : Bool) (p : Payload) (pb : PbMetric)
      → IsNameless pb
      → p.metric_list ≡ []
      → (parse_pb_metric u create p pb).metric_list ≡ []
  unfolding parse_pb_metric
  parse_pb_metric-empty create p pb h e = ground arith

  parse_pb_metrics-empty :
      (create : Bool) (pbs : List PbMetric) (p : Payload)
      → All IsNameless pbs
      → p.metric_list ≡ []
      → (parse_pb_metrics u create pbs p).metric_list ≡ []
  unfolding parse_pb_metrics
  parse_pb_metrics-empty create [] p h e = e
  parse_pb_metrics-empty create (pb ∷ pbs) p h e =
      parse_pb_metrics-empty create pbs (parse_pb_metric u create p pb) h.1
        (parse_pb_metric-empty create p pb h.0 e)

  -- A payload in which every metric has an alias makes a message from which a
  -- receiver with an empty payload makes no metric, even where it may make them.
  pub read_protobuf-make_protobuf_empty :
      (now : ℕ) (p q : Payload)
      → HasAliases p.metric_list
      → q.metric_list ≡ []
      → (read_protobuf u true now (make_protobuf u false p) q).metric_list ≡ []
  unfolding read_protobuf make_protobuf
  read_protobuf-make_protobuf_empty now p q h e =
      parse_pb_metrics-empty true (write_metrics u false p.metric_list).0 _
        (write_metrics-IsNameless p.metric_list h)
        (unfold set_timestamp update_metric update in ground arith)
