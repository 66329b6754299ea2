-- ===== src/Manual/Folders.antt =====
-- Opening and closing a folder of a table (toggleFolder of docs/manual/html/dynsections.js).
use pubsublib.Prelude.{
  ◌≡◌, refl, ap, ◌∙◌, Bool, true, false, not, ◌&&◌, ◌||◌, List, [], ◌∷◌, map, arith, if◌then◌else◌,
}
use pubsublib.Prelude.Texts.{Text, text_eq}
use pubsublib.Topic.Object.{starts_with}
use pubsublib.Manual.Directory.{
  DirectoryRow, stripe_rows, update_stripes, is_child_id, first_child_shown, hide_row, show_child,
  toggle_clicked, toggle_rows, toggle_folder,
}

-- What a reader sees of a table: the place of each row, and whether it is shown.
pub record View : Type 0 where
  pub place : Text
  pub visible : Bool

abbrev pub views_of : List DirectoryRow → List View
views_of [] = []
views_of (row ∷ rows) = record { place = row.id; visible = row.shown } ∷ views_of rows

-- A click on a folder, on the views after it.
abbrev pub first_visible : Text → List View → Bool
first_visible folder [] = false
first_visible folder (v ∷ vs) =
    if is_child_id folder v.place then v.visible else first_visible folder vs

abbrev pub hide_below : Text → List View → List View
hide_below folder [] = []
hide_below folder (v ∷ vs) =
    (if starts_with folder v.place then record v { visible = false } else v) ∷ hide_below folder vs

abbrev pub show_children : Text → List View → List View
show_children folder [] = []
show_children folder (v ∷ vs) =
    (if is_child_id folder v.place then record v { visible = true } else v)
    ∷ show_children folder vs

abbrev pub toggle_below : Text → List View → List View
toggle_below folder vs =
    if first_visible folder vs then hide_below folder vs else show_children folder vs

abbrev pub toggle_views : Text → List View → List View
toggle_views folder [] = []
toggle_views folder (v ∷ vs) =
    v ∷ (if text_eq v.place folder then toggle_below folder vs else toggle_views folder vs)

-- A folder that is in the table, has children, and shows none of the rows below it.
abbrev pub has_child : Text → List View → Bool
has_child folder [] = false
has_child folder (v ∷ vs) = is_child_id folder v.place || has_child folder vs

abbrev pub all_hidden : Text → List View → Bool
all_hidden folder [] = true
all_hidden folder (v ∷ vs) =
    (not (starts_with folder v.place) || not v.visible) && all_hidden folder vs

abbrev pub is_closed_folder : Text → List View → Bool
is_closed_folder folder [] = false
is_closed_folder folder (v ∷ vs) =
    if text_eq v.place folder
    then has_child folder vs && all_hidden folder vs
    else is_closed_folder folder vs

-- The functions of the page, on views.
views_of-stripe_rows :
    (is_even : Bool) (rows : List DirectoryRow)
    → views_of (stripe_rows is_even rows) ≡ views_of rows
unfolding stripe_rows
views_of-stripe_rows is_even [] = refl
views_of-stripe_rows is_even (row ∷ rows) =
    ground (arith, views_of-stripe_rows is_even rows, views_of-stripe_rows (not is_even) rows)

first_child_shown-views_of :
    (folder : Text) (rows : List DirectoryRow)
    → first_child_shown folder rows ≡ first_visible folder (views_of rows)
unfolding first_child_shown
first_child_shown-views_of folder [] = refl
first_child_shown-views_of folder (row ∷ rows) =
    ground (arith, first_child_shown-views_of folder rows)

views_of-hide_row :
    (folder : Text) (rows : List DirectoryRow)
    → views_of (map (hide_row folder) rows) ≡ hide_below folder (views_of rows)
unfolding hide_row
views_of-hide_row folder [] = refl
views_of-hide_row folder (row ∷ rows) = ground (arith, views_of-hide_row folder rows)

views_of-show_child :
    (folder : Text) (rows : List DirectoryRow)
    → views_of (map (show_child folder) rows) ≡ show_children folder (views_of rows)
unfolding show_child
views_of-show_child folder [] = refl
views_of-show_child folder (row ∷ rows) = ground (arith, views_of-show_child folder rows)

views_of-toggle_rows :
    (folder : Text) (rows : List DirectoryRow)
    → views_of (toggle_rows folder rows) ≡ toggle_views folder (views_of rows)
unfolding toggle_rows toggle_clicked
views_of-toggle_rows folder [] = refl
views_of-toggle_rows folder (row ∷ rows) = ground (
  arith,
  first_child_shown-views_of folder rows,
  views_of-hide_row folder rows,
  views_of-show_child folder rows,
  views_of-toggle_rows folder rows,
)

-- A click on a table does to the views what toggle_views does.
pub views_of-toggle_folder :
    (folder : Text) (rows : List DirectoryRow)
    → views_of (toggle_folder folder rows) ≡ toggle_views folder (views_of rows)
unfolding toggle_folder update_stripes
views_of-toggle_folder folder rows =
    views_of-stripe_rows true (toggle_rows folder rows) ∙ views_of-toggle_rows folder rows

-- A child is below its folder.
starts_with-is_child_id :
    (folder place : Text) → is_child_id folder place ≡ true → starts_with folder place ≡ true
unfolding is_child_id
starts_with-is_child_id [] place h = refl
starts_with-is_child_id (c ∷ cs) [] h = h
starts_with-is_child_id (c ∷ cs) (d ∷ ds) h = ground (arith, starts_with-is_child_id cs ds)

first_visible-hidden :
    (folder : Text) (vs : List View) → all_hidden folder vs ≡ true → first_visible folder vs ≡ false
first_visible-hidden folder [] h = refl
first_visible-hidden folder (v ∷ vs) h =
    ground (arith, first_visible-hidden folder vs, starts_with-is_child_id folder v.place)

first_visible-show_children :
    (folder : Text) (vs : List View)
    → has_child folder vs ≡ true
    → first_visible folder (show_children folder vs) ≡ true
first_visible-show_children folder [] h = h
first_visible-show_children folder (v ∷ vs) h =
    ground (arith, first_visible-show_children folder vs)

hide_below-show_children :
    (folder : Text) (vs : List View)
    → all_hidden folder vs ≡ true
    → hide_below folder (show_children folder vs) ≡ vs
hide_below-show_children folder [] h = refl
hide_below-show_children folder (v ∷ vs) h =
    ground (arith, hide_below-show_children folder vs, starts_with-is_child_id folder v.place)

toggle_below_again :
    (folder : Text) (vs : List View)
    → has_child folder vs ≡ true
    → all_hidden folder vs ≡ true
    → toggle_below folder (toggle_below folder vs) ≡ vs
toggle_below_again folder vs child hidden =
    rw (first_visible-hidden folder vs hidden, first_visible-show_children folder vs child)
      (hide_below-show_children folder vs hidden)

toggle_views_again :
    (folder : Text) (vs : List View)
    → is_closed_folder folder vs ≡ true
    → toggle_views folder (toggle_views folder vs) ≡ vs
toggle_views_again folder [] h = refl
toggle_views_again folder (v ∷ vs) h =
    ground (arith, toggle_below_again folder vs, toggle_views_again folder vs)

-- A folder that has children and shows none of the rows below it is opened by one click and closed by the
-- next: the second click leaves the rows that are shown as they were before the first.
pub toggle_folder_again :
    (folder : Text) (rows : List DirectoryRow)
    → is_closed_folder folder (views_of rows) ≡ true
    → views_of (toggle_folder folder (toggle_folder folder rows)) ≡ views_of rows
toggle_folder_again folder rows h =
    views_of-toggle_folder folder (toggle_folder folder rows)
    ∙ ap (toggle_views folder) (views_of-toggle_folder folder rows)
    ∙ toggle_views_again folder (views_of rows) h
