-- ===== src/Examples/Payloads.antt =====
-- Payloads: their metrics, their bodies and their messages.
use pubsublib.Prelude.{◌≡◌, refl, arith, true, false, [], ◌∷◌}
use pubsublib.Prelude.Int.{negsuc}
use pubsublib.Prelude.Texts.{codes}
use pubsublib.StringUtil.Ascii.{ascii}
use pubsublib.Metric.TypeCode.{int64}
use pubsublib.Metric.Numbers.{to_string, to_string_signed}
use pubsublib.Payload.Defs.{empty_payload}
use pubsublib.Payload.Protobuf.{write_value, make_protobuf, parse_value, read_protobuf}
use pubsublib.Payload.Protobuf.Metrics.{parse_value-write_value}
use pubsublib.Payload.Protobuf.Births.{read_protobuf-make_protobuf_empty}
use pubsublib.Examples.Data.{speed}

write_value_example :
    (parse_value ascii (write_value ascii int64 (codes "-42")) speed).value ≡ codes "-42"
unfolding to_string_signed to_string pubsublib.Metric.Numbers.decimal_digits
write_value_example =
    parse_value-write_value ascii int64 (codes "-42") speed refl (negsuc 41, omega arith, refl)

make_protobuf_example :
    (read_protobuf ascii true 5
      (make_protobuf ascii false
        (record empty_payload { metric_list = (codes "Speed", speed) ∷ [] }))
      empty_payload).metric_list
    ≡ []
make_protobuf_example =
    read_protobuf-make_protobuf_empty ascii 5
      (record empty_payload { metric_list = (codes "Speed", speed) ∷ [] }) empty_payload (refl, tt)
      refl
