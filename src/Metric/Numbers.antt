-- ===== src/Metric/Numbers.antt =====
-- Numbers as texts: `std::to_string` and `std::istringstream >>`, as the templates `Metric::Value`
-- use them (include/pubsub/metric.h).
use pubsublib.Prelude.{
  ℕ, zero, suc, ◌+◌, ◌-◌, ◌*◌, ◌/◌, ◌%◌, ◌<◌, ◌≡◌, refl, Bool, true, false, ◌&&◌, ◌||◌, [], ◌∷◌,
  ◌∙◌, ap, arith, All, ◌==◌, ltb, leb, if◌then◌else◌, Bool-cases, ltb→lt, inl, inr,
}
use pubsublib.Prelude.Texts.{Text}
use pubsublib.Prelude.Words.{two_31, two_32, two_63, two_64, InRange}
use pubsublib.Prelude.Int.{ℤ, pos, negsuc}

-- The digits of a number in front of a text. The fuel is used up only below the last digit.
unfoldable pub decimal_digits : ℕ → ℕ → Text → Text
decimal_digits zero n rest = rest
decimal_digits (suc fuel) n rest =
    let more = decimal_digits fuel (n / 10) ((b'0' + n % 10) ∷ rest) in
    if ltb n 10 then (b'0' + n % 10) ∷ rest else more

-- std::to_string of an unsigned integer.
unfoldable pub to_string : ℕ → Text
to_string n = decimal_digits (suc n) n []

-- std::to_string of a signed integer.
unfoldable pub to_string_signed : ℤ → Text
to_string_signed (pos n) = to_string n
to_string_signed (negsuc n) = b'-' ∷ to_string (suc n)

unfoldable pub is_digit : ℕ → Bool
is_digit c = leb b'0' c && leb c b'9'

-- std::isspace.
unfoldable pub is_space : ℕ → Bool
is_space c = c == b' ' || (leb 9 c && leb c 13)

unfoldable pub skip_space : Text → Text
skip_space [] = []
skip_space (c ∷ cs) = if is_space c then skip_space cs else c ∷ cs

-- The digits at the start of a text, on top of the number read so far.
unfoldable pub read_digits : ℕ → Text → ℕ
read_digits acc [] = acc
read_digits acc (c ∷ cs) = if is_digit c then read_digits (acc * 10 + (c - b'0')) cs else acc

-- The optional sign: whether it is a minus, and the rest.
unfoldable pub read_sign : Text → Bool × Text
read_sign [] = (false, [])
read_sign (c ∷ cs) =
    if c == b'-' then (true, cs) else if c == b'+' then (false, cs) else (false, c ∷ cs)

-- `str >> temp` for uint64_t: a number out of range gives the largest one, a minus negates modulo
-- 2^64, and a text without digits gives 0.
unfoldable pub read_unsigned : Text → ℕ
read_unsigned text =
    let (minus, digits) = read_sign (skip_space text) in
    let n = read_digits 0 digits in
    if leb two_64 n then two_64 - 1 else if minus then (two_64 - n) % two_64 else n

-- `str >> temp` for a signed type whose largest number is `half` - 1: a number out of range gives
-- the end of the range.
unfoldable pub read_signed_within : ℕ → Text → ℤ
read_signed_within half text =
    let (minus, digits) = read_sign (skip_space text) in
    let n = read_digits 0 digits in
    if minus
    then (if n == 0 then pos 0 else if ltb half n then negsuc (half - 1) else negsuc (n - 1))
    else if leb half n
    then pos (half - 1)
    else pos n

-- int64_t and int32_t.
unfoldable pub read_signed : Text → ℤ
read_signed = read_signed_within two_63

unfoldable pub read_int32 : Text → ℤ
read_int32 = read_signed_within two_31

-- uint32_t.
unfoldable pub read_uint32 : Text → ℕ
read_uint32 text =
    let (minus, digits) = read_sign (skip_space text) in
    let n = read_digits 0 digits in
    if leb two_32 n then two_32 - 1 else if minus then (two_32 - n) % two_32 else n

-- A text that starts with a digit.
abbrev pub StartsWithDigit : Text → Type 0
StartsWithDigit [] = ⊥
StartsWithDigit (c ∷ _) = is_digit c ≡ true

digit-is_digit : (n : ℕ) → is_digit (b'0' + n % 10) ≡ true
unfolding is_digit
digit-is_digit n = ground arith

decimal_digits-start :
    (fuel n : ℕ) (rest : Text) → n < fuel → StartsWithDigit (decimal_digits fuel n rest)
unfolding decimal_digits
decimal_digits-start zero n rest h = absurd (omega arith)
decimal_digits-start (suc fuel) n rest h =
    ground (arith, digit-is_digit n, decimal_digits-start fuel (n / 10) ((b'0' + n % 10) ∷ rest))

read_digits-digit :
    (acc n : ℕ) (rest : Text)
    → read_digits acc ((b'0' + n % 10) ∷ rest) ≡ read_digits (acc * 10 + n % 10) rest
unfolding read_digits
read_digits-digit acc n rest =
    let same : (b'0' + n % 10) - b'0' ≡ n % 10 = omega arith in ground (arith, digit-is_digit n)

read_digits-decimal_digits :
    (fuel n : ℕ) (rest : Text)
    → n < fuel
    → read_digits 0 (decimal_digits fuel n rest) ≡ read_digits n rest
unfolding decimal_digits
read_digits-decimal_digits zero n rest h = absurd (omega arith)
read_digits-decimal_digits (suc fuel) n rest h = elim (Bool-cases (ltb n 10)) [
  | inl last ↦
      rw last (
        read_digits-digit 0 n rest ∙ ap (λ k. read_digits k rest) (omega (arith, ltb→lt n 10 last)))
  | inr more ↦ rw more (
      read_digits-decimal_digits fuel (n / 10) ((b'0' + n % 10) ∷ rest) (ground arith)
      ∙ read_digits-digit (n / 10) n rest
      ∙ ap (λ k. read_digits k rest) (omega arith))
]

skip_space-digit : (t : Text) → StartsWithDigit t → skip_space t ≡ t
unfolding skip_space is_digit is_space
skip_space-digit [] h = refl
skip_space-digit (c ∷ cs) h = ground arith

read_sign-digit : (t : Text) → StartsWithDigit t → read_sign t ≡ (false, t)
unfolding read_sign is_digit
read_sign-digit [] h = refl
read_sign-digit (c ∷ cs) h = ground arith

to_string-start : (n : ℕ) → StartsWithDigit (to_string n)
unfolding to_string
to_string-start n = decimal_digits-start (suc n) n [] (omega arith)

read_digits-to_string : (n : ℕ) → read_digits 0 (to_string n) ≡ n
unfolding to_string read_digits
read_digits-to_string n = read_digits-decimal_digits (suc n) n [] (omega arith)

-- An unsigned 64-bit number printed and read is that number.
-- A number is printed in digits.
decimal_digits-digits :
    (fuel n : ℕ) (rest : Text)
    → All (λ c. is_digit c ≡ true) rest
    → All (λ c. is_digit c ≡ true) (decimal_digits fuel n rest)
unfolding decimal_digits
decimal_digits-digits zero n rest h = h
decimal_digits-digits (suc fuel) n rest h = ground (
  arith,
  digit-is_digit n,
  decimal_digits-digits fuel (n / 10) ((b'0' + n % 10) ∷ rest) (digit-is_digit n, h),
)

pub to_string-digits : (n : ℕ) → All (λ c. is_digit c ≡ true) (to_string n)
unfolding to_string
to_string-digits n = decimal_digits-digits (suc n) n [] tt

pub read_unsigned-to_string : (n : ℕ) → n < two_64 → read_unsigned (to_string n) ≡ n
unfolding read_unsigned
read_unsigned-to_string n h =
    rw
      (
        skip_space-digit _ (to_string-start n),
        read_sign-digit _ (to_string-start n),
        read_digits-to_string n,
      )
      (ground arith)

-- A signed number in the range of the reader, printed and read, is that number.
pub read_signed_within-to_string_signed :
    (half : ℕ) (a : ℤ) → InRange half a → read_signed_within half (to_string_signed a) ≡ a
unfolding read_signed_within to_string_signed
read_signed_within-to_string_signed half (pos n) h =
    rw
      (
        skip_space-digit _ (to_string-start n),
        read_sign-digit _ (to_string-start n),
        read_digits-to_string n,
      )
      (ground arith)
read_signed_within-to_string_signed half (negsuc n) h =
    let minus : read_sign (skip_space (b'-' ∷ to_string (suc n))) ≡ (true, to_string (suc n)) =
      unfold read_sign skip_space is_space in refl in
    rw (minus, read_digits-to_string (suc n)) (ground arith)

pub read_uint32-to_string : (n : ℕ) → n < two_32 → read_uint32 (to_string n) ≡ n
unfolding read_uint32
read_uint32-to_string n h =
    rw
      (
        skip_space-digit _ (to_string-start n),
        read_sign-digit _ (to_string-start n),
        read_digits-to_string n,
      )
      (ground arith)
