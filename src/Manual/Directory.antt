-- ===== src/Manual/Directory.antt =====
-- The tables of directories and classes of the manual: toggleLevel, toggleFolder and updateStripes of
-- docs/manual/html/dynsections.js.
use pubsublib.Prelude.{
  ℕ, suc, ◌+◌, Bool, true, false, not, ◌&&◌, List, [], ◌∷◌, ◌++◌, map, ltb, ◌==◌, if◌then◌else◌,
}
use pubsublib.Prelude.Texts.{Text, codes, text_eq}
use pubsublib.Metric.Numbers.{is_digit}
use pubsublib.Topic.Object.{starts_with}

-- The icon of a folder, the arrow, and the class of a striped row.
pub data Icon : Type 0 where
  no_icon icon_open icon_closed : Icon

pub data Arrow : Type 0 where
  no_arrow arrow_down arrow_right : Arrow

pub data Stripe : Type 0 where
  no_stripe even odd : Stripe

-- A row, whose id is `row_` and its place in the tree, as in `0_12_`.
pub record DirectoryRow : Type 0 where
  pub id : Text
  pub icon : Icon
  pub arrow : Arrow
  pub shown : Bool
  pub stripe : Stripe

-- updateStripes, on the rows from one on that is even or odd.
unfoldable pub stripe_rows : Bool → List DirectoryRow → List DirectoryRow
stripe_rows is_even [] = []
stripe_rows is_even (row ∷ rows) =
    let next = stripe_rows (not is_even) rows in
    let same = stripe_rows is_even rows in
    if row.shown
    then record row { stripe = if is_even then even else odd } ∷ next
    else record row { stripe = no_stripe } ∷ same

unfoldable pub update_stripes : List DirectoryRow → List DirectoryRow
update_stripes = stripe_rows true

-- The icon and the arrow of a row that is opened or closed: a row without them keeps none.
unfoldable pub open_icon : Icon → Icon
open_icon no_icon = no_icon
open_icon icon_open = icon_open
open_icon icon_closed = icon_open

unfoldable pub close_icon : Icon → Icon
close_icon no_icon = no_icon
close_icon icon_open = icon_closed
close_icon icon_closed = icon_closed

unfoldable pub turn : Arrow → Arrow → Arrow
turn to no_arrow = no_arrow
turn to arrow_down = to
turn to arrow_right = to

-- `this.id.split('_').length - 1`: the number of `_` in the id with its `row_`.
unfoldable pub underscores : Text → ℕ
underscores [] = 0
underscores (c ∷ cs) = let rest = underscores cs in if c == b'_' then suc rest else rest

unfoldable pub row_level : DirectoryRow → ℕ
row_level row = underscores (codes "row_" ++ row.id)

-- toggleLevel.
unfoldable pub level_row : ℕ → DirectoryRow → DirectoryRow
level_row level row =
    if ltb (row_level row) (level + 1)
    then record row { icon = open_icon row.icon; arrow = turn arrow_down row.arrow; shown = true }
    else if row_level row == level + 1
    then record row { icon = close_icon row.icon; arrow = turn arrow_right row.arrow; shown = true }
    else record row { shown = false }

unfoldable pub toggle_level : ℕ → List DirectoryRow → List DirectoryRow
toggle_level level rows = update_stripes (map (level_row level) rows)

-- The pattern `\d+_` up to the end.
unfoldable pub is_number_end : Bool → Text → Bool
is_number_end some_digit [] = false
is_number_end some_digit (c ∷ cs) =
    if is_digit c then is_number_end true cs else some_digit && (text_eq (c ∷ cs) (b'_' ∷ []))

unfoldable pub is_child_id : Text → Text → Bool
is_child_id [] rest = is_number_end false rest
is_child_id (c ∷ cs) [] = false
is_child_id (c ∷ cs) (d ∷ ds) = (c == d) && is_child_id cs ds

-- childRows.filter(':first').is(':visible').
unfoldable pub first_child_shown : Text → List DirectoryRow → Bool
first_child_shown folder [] = false
first_child_shown folder (row ∷ rows) =
    if is_child_id folder row.id then row.shown else first_child_shown folder rows

-- The rows after the clicked one: all children hidden, or the direct ones shown and closed.
unfoldable pub hide_row : Text → DirectoryRow → DirectoryRow
hide_row folder row = if starts_with folder row.id then record row { shown = false } else row

unfoldable pub show_child : Text → DirectoryRow → DirectoryRow
show_child folder row =
    if is_child_id folder row.id
    then record row { icon = close_icon row.icon; arrow = turn arrow_right row.arrow; shown = true }
    else row

-- toggleFolder, from the clicked row on.
unfoldable pub toggle_clicked : Text → DirectoryRow → List DirectoryRow → List DirectoryRow
toggle_clicked folder row rows =
    if first_child_shown folder rows
    then record row { icon = close_icon row.icon; arrow = turn arrow_right row.arrow }
      ∷ map (hide_row folder) rows
    else record row { icon = open_icon row.icon; arrow = turn arrow_down row.arrow }
      ∷ map (show_child folder) rows

unfoldable pub toggle_rows : Text → List DirectoryRow → List DirectoryRow
toggle_rows folder [] = []
toggle_rows folder (row ∷ rows) =
    let rest = toggle_rows folder rows in
    if text_eq row.id folder then toggle_clicked folder row rows else row ∷ rest

unfoldable pub toggle_folder : Text → List DirectoryRow → List DirectoryRow
toggle_folder folder rows = update_stripes (toggle_rows folder rows)
