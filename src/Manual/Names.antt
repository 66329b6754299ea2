-- ===== src/Manual/Names.antt =====
-- Names as identifiers and the ids of the result rows (`convertToId` in docs/manual/html/search/search.js).
use mathlib.Core.List.{append_assoc}
use pubsublib.Prelude.{
  ℕ, ◌/◌, ◌%◌, ◌<◌, ◌≡◌, refl, ap, ◌∙◌, true, false, ◌&&◌, ◌||◌, [], ◌∷◌, ◌++◌, arith, ◌==◌,
  Bool-cases, inl, inr, All,
}
use pubsublib.Prelude.Texts.{Text, codes, lower, fold_case}
use pubsublib.Metric.Numbers.{to_string, is_digit, to_string-digits}
use pubsublib.Topic.Object.{starts_with}
use pubsublib.Manual.Ids.{is_kept, hex_digit, convert_char, convert_to_id}
use pubsublib.Manual.Results.{Row, after_digits, without_sr, match_name}

hex_digit_eq : (a b : ℕ) → a < 16 → b < 16 → (hex_digit a == hex_digit b) ≡ (a == b)
unfolding hex_digit
hex_digit_eq a b h k = ground arith

-- One character after another: the code of a character is no part of that of another one.
starts_with-convert_char :
    (c d : ℕ) (s t : Text)
    → starts_with (convert_char c ++ s) (convert_char d ++ t) ≡ ((c == d) && starts_with s t)
unfolding convert_char is_kept
starts_with-convert_char c d s t =
    ground (arith, hex_digit_eq (c / 16) (d / 16), hex_digit_eq (c % 16) (d % 16))

starts_with-convert_char_none : (c : ℕ) (s : Text) → starts_with (convert_char c ++ s) [] ≡ false
unfolding convert_char is_kept
starts_with-convert_char_none c s = ground arith

-- The id of the row of a name, with its number.
abbrev pub row_id : Text → ℕ → Text
row_id name n = codes "SR_" ++ convert_to_id name ++ b'_' ∷ to_string n

-- Identifiers have no capital letters.
lower-hex_digit : (n : ℕ) → lower (hex_digit n) ≡ hex_digit n
unfolding lower hex_digit
lower-hex_digit n = ground arith

lower-kept : (c : ℕ) → is_kept c ≡ true → lower c ≡ c
unfolding is_kept lower
lower-kept c h = ground arith

lower-underscore : lower b'_' ≡ b'_'
unfolding lower
lower-underscore = refl

fold_case-convert_char :
    (c : ℕ) (s : Text) → fold_case (convert_char c ++ s) ≡ convert_char c ++ fold_case s
unfolding convert_char
fold_case-convert_char c s = elim (Bool-cases (is_kept c)) [
  | inl kept ↦ rw (kept, lower-kept c kept) refl
  | inr other ↦
      rw (other, lower-underscore, lower-hex_digit (c / 16), lower-hex_digit (c % 16)) refl
]

fold_case-convert_to_id :
    (name s : Text) → fold_case (convert_to_id name ++ s) ≡ convert_to_id name ++ fold_case s
unfolding convert_to_id
fold_case-convert_to_id [] s = refl
fold_case-convert_to_id (c ∷ cs) s =
    rw (append_assoc, append_assoc)
      (fold_case-convert_char c (convert_to_id cs ++ s)
        ∙ ap (λ t. convert_char c ++ t) (fold_case-convert_to_id cs s))

fold_case-digits : (s : Text) → All (λ c. is_digit c ≡ true) s → fold_case s ≡ s
unfolding is_digit lower
fold_case-digits [] h = refl
fold_case-digits (c ∷ cs) h =
    let same : lower c ≡ c = ground (arith, h.0) in
    rw (same) (ap (λ t. c ∷ t) (fold_case-digits cs h.1))

pub match_name-row_id :
    (row : Row) (name : Text) (n : ℕ)
    → match_name (record row { id = row_id name n }) ≡ convert_to_id name ++ b'_' ∷ to_string n
unfolding match_name without_sr after_digits lower
match_name-row_id row name n =
    fold_case-convert_to_id name (b'_' ∷ to_string n)
    ∙ ap (λ t. convert_to_id name ++ b'_' ∷ t) (fold_case-digits (to_string n) (to_string-digits n))

-- The number behind a name is no part of a word.
starts_with-convert_char_number :
    (c : ℕ) (s digits : Text)
    → (is_kept c || c == b'_') ≡ true
    → All (λ d. is_digit d ≡ true) digits
    → starts_with (convert_char c ++ s) (b'_' ∷ digits) ≡ false
unfolding convert_char is_kept is_digit hex_digit
starts_with-convert_char_number c s [] w h = ground arith
starts_with-convert_char_number c s (d ∷ []) w h = ground arith
starts_with-convert_char_number c s (d ∷ e ∷ digits) w h = ground (arith, h.0, h.1.0)

pub starts_with-numbered :
    (word name digits : Text)
    → All (λ c. (is_kept c || c == b'_') ≡ true) word
    → All (λ d. is_digit d ≡ true) digits
    → starts_with (convert_to_id word) (convert_to_id name ++ b'_' ∷ digits) ≡ starts_with word name
unfolding convert_to_id
starts_with-numbered [] name digits w h = refl
starts_with-numbered (c ∷ cs) [] digits w h =
    starts_with-convert_char_number c (convert_to_id cs) digits w.0 h
starts_with-numbered (c ∷ cs) (d ∷ ds) digits w h = rw (append_assoc) (
    starts_with-convert_char c d (convert_to_id cs) (convert_to_id ds ++ b'_' ∷ digits)
    ∙ ap (λ b. (c == d) && b) (starts_with-numbered cs ds digits w.1 h))
