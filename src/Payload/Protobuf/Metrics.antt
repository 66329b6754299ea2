-- ===== src/Payload/Protobuf/Metrics.antt =====
-- What a metric's value survives on its way through a message.
use pubsublib.Prelude.{ℕ, ◌<◌, ◌≡◌, refl, ◌⊎◌, false, [], ◌∷◌, arith, ◌==◌, All}
use pubsublib.Prelude.Texts.{Text, codes}
use pubsublib.Prelude.Int.{ℤ}
use pubsublib.Prelude.Words.{
  two_31, two_32, two_63, two_64, InRange, to_signed, to_unsigned, to_signed-to_unsigned_32,
  to_signed-to_unsigned_64,
}
use pubsublib.StringUtil.{StringUtil}
use pubsublib.Metric.Numbers.{
  to_string, to_string_signed, read_signed, read_int32, read_signed_within-to_string_signed,
  read_uint32-to_string, read_unsigned-to_string,
}
use pubsublib.Metric.TypeCode.{
  MetricType, type_code, int8, int16, int32, int64, uint8, uint16, uint32, uint64, float, double,
  boolean,
}
use pubsublib.Metric.Defs.{
  Metric, store_value, replace_comma, value_signed, value_unsigned, value_float, value_bool,
  value_string, is_decimal, get_bool,
}
use pubsublib.Payload.Protobuf.Writing.{write_value}
use pubsublib.Payload.Protobuf.Parsing.{parse_value, is_signed}

-- The texts that the setters of a metric store for its type. A floating point text is one that reading
-- and printing leave as it is, without a comma.
abbrev pub IsPrinted : StringUtil → MetricType → Text → Type 0
IsPrinted u int8 v = (a : ℤ) × InRange two_31 a × (v ≡ to_string_signed a)
IsPrinted u int16 v = (a : ℤ) × InRange two_31 a × (v ≡ to_string_signed a)
IsPrinted u int32 v = (a : ℤ) × InRange two_31 a × (v ≡ to_string_signed a)
IsPrinted u int64 v = (a : ℤ) × InRange two_63 a × (v ≡ to_string_signed a)
IsPrinted u uint8 v = (n : ℕ) × (n < two_32) × (v ≡ to_string n)
IsPrinted u uint16 v = (n : ℕ) × (n < two_32) × (v ≡ to_string n)
IsPrinted u uint32 v = (n : ℕ) × (n < two_32) × (v ≡ to_string n)
IsPrinted u uint64 v = (n : ℕ) × (n < two_64) × (v ≡ to_string n)
IsPrinted u float v = (u.float_text v ≡ v) × All (λ c. (c == b',') ≡ false) v
IsPrinted u double v = (u.double_text v ≡ v) × All (λ c. (c == b',') ≡ false) v
IsPrinted u boolean v = (v ≡ codes "0") ⊎ (v ≡ codes "1")
IsPrinted u _ v = Unit {0}

replace_comma_none : (v : Text) → All (λ c. (c == b',') ≡ false) v → replace_comma v ≡ v
unfolding replace_comma
replace_comma_none [] h = refl
replace_comma_none (c ∷ cs) h = ground (arith, replace_comma_none cs h.1)

int32_round :
    (v : Text) (a : ℤ)
    → InRange two_31 a
    → v ≡ to_string_signed a
    → to_string_signed (to_signed two_31 (to_unsigned two_32 (read_int32 v))) ≡ v
unfolding read_int32
int32_round v a h e =
    rw (e, read_signed_within-to_string_signed two_31 a h, to_signed-to_unsigned_32 a h)

int64_round :
    (v : Text) (a : ℤ)
    → InRange two_63 a
    → v ≡ to_string_signed a
    → to_string_signed (to_signed two_63 (to_unsigned two_64 (read_signed v))) ≡ v
unfolding read_signed
int64_round v a h e =
    rw (e, read_signed_within-to_string_signed two_63 a h, to_signed-to_unsigned_64 a h)

module _ (u : StringUtil) where
  -- A value that is printed as its metric type prints it comes out of a message, at a metric of that
  -- type, as the same text. This covers every type: integers, floating point texts that hold no
  -- comma and that reading and printing leave as they are, Booleans, and all that travels as a string.
  pub parse_value-write_value :
      (t : MetricType) (v : Text) (m : Metric)
      → m.datatype ≡ t
      → IsPrinted u t v
      → (parse_value u (write_value u t v) m).value ≡ v
  unfolding parse_value write_value is_signed value_signed value_unsigned store_value value_float
      value_bool value_string is_decimal type_code get_bool
  parse_value-write_value int8 v m e (a, h, p) = ground (arith, int32_round v a h p)
  parse_value-write_value int16 v m e (a, h, p) = ground (arith, int32_round v a h p)
  parse_value-write_value int32 v m e (a, h, p) = ground (arith, int32_round v a h p)
  parse_value-write_value int64 v m e (a, h, p) = ground (arith, int64_round v a h p)
  parse_value-write_value uint8 v m e (n, h, p) = ground (arith, read_uint32-to_string n h)
  parse_value-write_value uint16 v m e (n, h, p) = ground (arith, read_uint32-to_string n h)
  parse_value-write_value uint32 v m e (n, h, p) = ground (arith, read_uint32-to_string n h)
  parse_value-write_value uint64 v m e (n, h, p) = ground (arith, read_unsigned-to_string n h)
  parse_value-write_value float v m e (same, h) = rw (same) (replace_comma_none v h)
  parse_value-write_value double v m e (same, h) = rw (same) (replace_comma_none v h)
  parse_value-write_value boolean v m e h = ground arith
  parse_value-write_value _ v m e h = ground arith
