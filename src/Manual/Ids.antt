-- ===== src/Manual/Ids.antt =====
-- `convertToId` (docs/manual/html/search/search.js): names as identifiers of the result rows. A text is
-- the list of its UTF-16 code units.
use pubsublib.Prelude.{ℕ, ◌+◌, ◌/◌, ◌%◌, Bool, ◌&&◌, ◌||◌, [], ◌∷◌, ◌++◌, leb, ltb, if◌then◌else◌}
use pubsublib.Prelude.Texts.{Text}

-- The class [a-z0-9\u0080-\uFFFF].
unfoldable pub is_kept : ℕ → Bool
is_kept c = (leb b'a' c && leb c b'z') || (leb b'0' c && leb c b'9') || leb 128 c

-- A digit of toString(16).
unfoldable pub hex_digit : ℕ → ℕ
hex_digit n = if ltb n 10 then b'0' + n else 87 + n

-- One round of the loop; a code below 16 gets a leading zero.
unfoldable pub convert_char : ℕ → Text
convert_char c = if is_kept c then c ∷ [] else b'_' ∷ hex_digit (c / 16) ∷ hex_digit (c % 16) ∷ []

unfoldable pub convert_to_id : Text → Text
convert_to_id [] = []
convert_to_id (c ∷ cs) = convert_char c ++ convert_to_id cs
