-- ===== src/Manual/Prefixes.antt =====
-- Searching for the rows of names (`Search` in docs/manual/html/search/search.js).
use pubsublib.Prelude.{ℕ, zero, suc, ◌≡◌, Bool, true, ◌||◌, List, [], ◌∷◌, ◌==◌, if◌then◌else◌, All}
use pubsublib.Prelude.Texts.{Text, lower}
use pubsublib.Topic.Object.{starts_with}
use pubsublib.Manual.Ids.{is_kept}
use pubsublib.Manual.Results.{Row}
use pubsublib.Manual.Names.{row_id}

-- The rows that are displayed.
abbrev pub displayed_count : List Row → ℕ
displayed_count [] = 0
displayed_count (row ∷ rows) =
    if row.displayed then suc (displayed_count rows) else displayed_count rows

-- Rows with the ids of names and their numbers.
abbrev pub rows_of : List (Text × ℕ) → List Row → List Row
rows_of [] rows = []
rows_of (name ∷ names) [] = []
rows_of ((name, n) ∷ names) (row ∷ rows) = record row { id = row_id name n } ∷ rows_of names rows

-- Each row that is there, displayed if its name starts with the word.
abbrev pub shown_for : Text → List (Text × ℕ) → List Row → List Row
shown_for word [] rows = []
shown_for word (name ∷ names) [] = []
shown_for word ((name, n) ∷ names) (row ∷ rows) =
    record row { id = row_id name n; displayed = starts_with word name } ∷ shown_for word names rows

-- What a word is made of: letters, digits and `_`.
abbrev pub is_word_char : ℕ → Bool
is_word_char c = is_kept (lower c) || c == b'_'

abbrev pub IsWord : Text → Type 0
IsWord = All (λ c. is_word_char c ≡ true)

abbrev pub spaces : ℕ → Text
spaces zero = []
spaces (suc n) = b' ' ∷ spaces n
