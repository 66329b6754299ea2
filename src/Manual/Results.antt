-- ===== src/Manual/Results.antt =====
-- The class `SearchResults` (docs/manual/html/search/search.js): the rows of a result page, and moving
-- among them by the keys. Row number i is the element `Item<i>`.
use pubsublib.Prelude.{
  ℕ, zero, suc, ◌+◌, ◌-◌, Bool, true, false, not, ◌&&◌, Option, none, some, List, [], ◌∷◌, ltb,
  ◌==◌, if◌then◌else◌,
}
use mathlib.Core.Option.{get_or}
use pubsublib.Prelude.Texts.{Text, fold_case, is_empty}
use pubsublib.Metric.Numbers.{is_digit}
use pubsublib.Topic.Object.{starts_with}
use pubsublib.Manual.Ids.{convert_to_id}
use pubsublib.Manual.Box.{without_leading}

-- A row: the id of its element, whether it is displayed, whether it has an element for
-- children, how many there are, and whether they are displayed.
pub record Row : Type 0 where
  pub id : Text
  pub displayed : Bool
  pub has_children : Bool
  pub children : ℕ
  pub children_displayed : Bool

pub record SearchResults : Type 0 where
  pub rows : List Row
  pub last_match_count : ℕ
  pub last_key : ℕ
  pub repeat_on : Bool

-- `replace(/ +$/, "")`.
unfoldable pub without_trailing : Text → Text
without_trailing [] = []
without_trailing (c ∷ cs) =
    let rest = without_trailing cs in if (c == b' ') && is_empty rest then [] else c ∷ rest

-- `replace(/^sr\d*_/, '')`: the rest behind the digits and the `_`, if they are there.
unfoldable pub after_digits : Text → Option Text
after_digits [] = none
after_digits (c ∷ cs) =
    let rest = after_digits cs in if c == b'_' then some cs else if is_digit c then rest else none

unfoldable pub without_sr : Text → Text
without_sr [] = []
without_sr (c ∷ []) = c ∷ []
without_sr (c ∷ d ∷ cs) =
    if (c == b's') && (d == b'r') then get_or (after_digits cs) (c ∷ d ∷ cs) else c ∷ d ∷ cs

-- What a search compares a row with. `toLowerCase` is that of the ASCII letters.
unfoldable pub match_name : Row → Text
match_name row = without_sr (fold_case row.id)

-- The loop of Search.
unfoldable pub match_rows : Text → List Row → List Row × ℕ
match_rows search [] = ([], 0)
match_rows search (row ∷ rows) =
    let (rest, matches) = match_rows search rows in
    if starts_with search (match_name row)
    then (record row { displayed = true } ∷ rest, suc matches)
    else (record row { displayed = false } ∷ rest, matches)

-- The word that is looked for: the one that was given, or else the query of the URL, which comes here
-- behind its `?` and unescaped.
unfoldable pub search_word : Text → Text → Text
search_word query word =
    let given = if is_empty word then query else word in
    convert_to_id (fold_case (without_trailing (without_leading given)))

-- Search. The elements `Searching` and `NoMatches` of the page are left out.
unfoldable pub search : Text → Text → SearchResults → SearchResults
search query word r =
    let (rows, matches) = match_rows (search_word query word) r.rows in
    record r { rows = rows; last_match_count = matches }

-- `getElementById('Item' + index)`.
unfoldable pub item : ℕ → List Row → Option Row
item n [] = none
item zero (row ∷ rows) = some row
item (suc n) (row ∷ rows) = item n rows

-- NavNext: the first displayed row from an index on.
unfoldable pub first_displayed : ℕ → List Row → Option ℕ
first_displayed n [] = none
first_displayed n (row ∷ rows) = if row.displayed then some n else first_displayed (n + 1) rows

abbrev pub drop_rows : ℕ → List Row → List Row
drop_rows zero rows = rows
drop_rows (suc n) [] = []
drop_rows (suc n) (row ∷ rows) = drop_rows n rows

unfoldable pub nav_next : ℕ → List Row → Option ℕ
nav_next index rows = first_displayed index (drop_rows index rows)

-- NavPrev, for the indices below a bound: the last displayed row among them. A row that does not exist
-- ends the loop.
unfoldable pub nav_prev : ℕ → List Row → Option ℕ
nav_prev zero rows = none
nav_prev (suc index) rows =
    let rest = nav_prev index rows in
    elim (item index rows) [ none ↦ none | some row ↦ if row.displayed then some index else rest ]

-- The same functions as the loops that they are, with fuel for their rounds: `none` where it runs out.
unfoldable pub next_loop : ℕ → ℕ → List Row → Option (Option ℕ)
next_loop zero index rows = none
next_loop (suc fuel) index rows =
    let next = next_loop fuel (index + 1) rows in
    elim (item index rows) [
      | none ↦ some none
      | some row ↦ if row.displayed then some (some index) else next
    ]

-- From the row below a bound on: there is no `Item-1`.
unfoldable pub prev_loop : ℕ → ℕ → List Row → Option (Option ℕ)
prev_loop zero bound rows = none
prev_loop (suc fuel) zero rows = some none
prev_loop (suc fuel) (suc index) rows =
    let previous = prev_loop fuel index rows in
    elim (item index rows) [
      | none ↦ some none
      | some row ↦ if row.displayed then some (some index) else previous
    ]

-- ProcessKeys: the new state and the result.
pub data KeyEvent : Type 0 where
  keydown keypress keyup other : KeyEvent

unfoldable pub process_keys : KeyEvent → ℕ → SearchResults → SearchResults × Bool
process_keys keydown code r = (record r { repeat_on = false; last_key = code }, not (code == 0))
process_keys keypress code r =
    if r.repeat_on
    then (r, not (r.last_key == 0))
    else (record r { repeat_on = not (r.last_key == 0) }, false)
process_keys keyup code r = (record r { last_key = 0; repeat_on = false }, false)
process_keys other code r = (r, not (r.last_key == 0))

-- Where the focus goes: to a row, to a child of a row, to the search field, nowhere, or to the search
-- field with the results closed.
pub data Focus : Type 0 where
  on_item : ℕ → Focus
  on_child : ℕ → ℕ → Focus
  on_field stays closes : Focus

abbrev pub shows_children : Option Row → Bool
shows_children none = false
shows_children (some row) = row.has_children && row.children_displayed

-- The children of a row, for the ids of which the loops below ask.
abbrev pub child_count : Option Row → ℕ
child_count none = 0
child_count (some row) = row.children

abbrev pub on_last_child : ℕ → ℕ → ℕ → Focus
on_last_child index found zero = on_item found
on_last_child index found (suc n) = on_child index n

-- The case Up of Nav. The children that the loop looks for are those of the row above, which need not be
-- the row that was found.
unfoldable pub nav_up : ℕ → List Row → Focus
nav_up zero rows = on_field
nav_up (suc index) rows = elim (nav_prev (suc index) rows) [
  | none ↦ on_field
  | some found ↦
      if shows_children (item found rows)
      then on_last_child index found (child_count (item index rows))
      else on_item found
]

abbrev pub on_found : Option ℕ → Focus
on_found none = stays
on_found (some found) = on_item found

-- The case Down.
unfoldable pub nav_down : ℕ → List Row → Focus
nav_down index rows =
    if shows_children (item index rows) && ltb 0 (child_count (item index rows))
    then on_child index 0
    else on_found (nav_next (index + 1) rows)

-- The cases Right and Left.
unfoldable pub show_children : Bool → ℕ → List Row → List Row
show_children b n [] = []
show_children b zero (row ∷ rows) =
    (if row.has_children then record row { children_displayed = b } else row) ∷ rows
show_children b (suc n) (row ∷ rows) = row ∷ show_children b n rows

-- Nav: the new state, the focus, and the result.
unfoldable pub nav_key : ℕ → ℕ → SearchResults → SearchResults × Focus × Bool
nav_key index key r =
    if key == 38
    then (r, nav_up index r.rows, false)
    else if key == 40
    then (r, nav_down index r.rows, false)
    else if key == 39
    then (record r { rows = show_children true index r.rows }, stays, false)
    else if key == 37
    then (record r { rows = show_children false index r.rows }, stays, false)
    else if key == 27
    then (r, closes, false)
    else (r, stays, key == 13)

unfoldable pub nav : KeyEvent → ℕ → ℕ → SearchResults → SearchResults × Focus × Bool
nav event code index r =
    let (processed, goes_on) = process_keys event code r in
    let result = nav_key index processed.last_key processed in
    if code == 13
    then (r, stays, true)
    else if not goes_on
    then (processed, stays, false)
    else result

-- NavChild, once its keys are processed.
unfoldable pub nav_child_key : ℕ → ℕ → ℕ → List Row → Focus × Bool
nav_child_key index child key rows =
    if key == 38
    then ((if child == 0 then on_item index else on_child index (child - 1)), false)
    else if key == 40
    then (
      (if ltb (child + 1) (child_count (item index rows))
          then on_child index (child + 1)
          else on_found (nav_next (index + 1) rows)),
      false,
    )
    else if key == 27
    then (closes, false)
    else (stays, key == 13)

unfoldable pub nav_child : KeyEvent → ℕ → ℕ → ℕ → SearchResults → SearchResults × Focus × Bool
nav_child event code index child r =
    let (processed, goes_on) = process_keys event code r in
    let (focus, result) = nav_child_key index child processed.last_key processed.rows in
    if code == 13
    then (r, stays, true)
    else if not goes_on
    then (processed, stays, false)
    else (processed, focus, result)
