-- ===== src/Manual/Box.antt =====
-- The class `SearchBox` (docs/manual/html/search/search.js): the search field, the window of results and
-- the window that selects a category. The positions of the windows and the focus are left out.
use pubsublib.Prelude.{
  ℕ, zero, suc, ◌+◌, Bool, true, false, not, ◌&&◌, ◌||◌, [], ◌∷◌, ltb, ◌==◌, if◌then◌else◌,
}
use pubsublib.Prelude.Int.{ℤ, pos, negsuc}
use pubsublib.Prelude.Texts.{Text, text_eq, is_empty}

pub record SearchBox : Type 0 where
  pub field : Text  -- the value of the search field
  pub last_search_value : Text
  pub search_index : ℤ
  pub search_active : Bool
  pub results_shown : Bool
  pub close_shown : Bool
  pub select_shown : Bool
  pub key_timeout : Bool
  pub hide_timeout : Bool
  pub select_items : ℕ  -- SelectItemCount

-- `replace(/ +/g, "")` and `replace(/^ +/, "")`.
unfoldable pub without_spaces : Text → Text
without_spaces [] = []
without_spaces (c ∷ cs) = if c == b' ' then without_spaces cs else c ∷ without_spaces cs

unfoldable pub without_leading : Text → Text
without_leading [] = []
without_leading (c ∷ cs) = if c == b' ' then without_leading cs else c ∷ cs

-- Activate.
unfoldable pub activate : Bool → SearchBox → SearchBox
activate is_active b =
    if is_active || b.results_shown
    then record b { search_active = true }
    else record b { search_active = false; last_search_value = []; field = [] }

unfoldable pub on_search_select_show : SearchBox → SearchBox
on_search_select_show b = record b { select_shown = true; hide_timeout = false }

unfoldable pub on_search_select_hide : SearchBox → SearchBox
on_search_select_hide b = record b { hide_timeout = true }

unfoldable pub close_results_window : SearchBox → SearchBox
close_results_window b = activate false (record b { results_shown = false; close_shown = false })

unfoldable pub close_selection_window : SearchBox → SearchBox
close_selection_window b = record b { select_shown = false }

-- Search, with the results handled.
unfoldable pub search_box : SearchBox → SearchBox
search_box b = record b {
  key_timeout = false;
  last_search_value = without_leading b.field;
  close_shown = b.close_shown || not b.results_shown;
  results_shown = true;
}

-- The end of OnSearchFieldChange.
unfoldable pub field_changed : SearchBox → SearchBox
field_changed b =
    let value = without_spaces b.field in
    if text_eq value b.last_search_value
    then b
    else if not (is_empty value)
    then record b { key_timeout = true }
    else record b { results_shown = false; close_shown = false; last_search_value = [] }

-- OnSearchFieldChange, given the key and whether shift is held.
unfoldable pub on_search_field_change : ℕ → Bool → SearchBox → SearchBox
on_search_field_change code shift b =
    let quiet = record b { key_timeout = false } in
    if code == 40 || code == 13
    then (if shift then on_search_select_show quiet else field_changed quiet)
    else if code == 27
    then activate false
        (record quiet { results_shown = false; close_shown = false; last_search_value = [] })
    else field_changed quiet

-- The index of a category one up and one down, and its comparison with 0 and with the number of categories.
abbrev pub increment : ℤ → ℤ
increment (pos n) = pos (n + 1)
increment (negsuc zero) = pos 0
increment (negsuc (suc n)) = negsuc n

abbrev pub decrement : ℤ → ℤ
decrement (pos zero) = negsuc 0
decrement (pos (suc n)) = pos n
decrement (negsuc n) = negsuc (n + 1)

abbrev pub is_below : ℤ → ℕ → Bool
is_below (pos n) count = ltb n count
is_below (negsuc n) count = true

abbrev pub is_positive : ℤ → Bool
is_positive (pos n) = ltb 0 n
is_positive (negsuc n) = false

-- OnSelectItem.
unfoldable pub on_select_item : ℤ → SearchBox → SearchBox
on_select_item id b =
    let chosen = record b { search_index = id } in
    if not (is_empty (without_spaces b.field)) && b.search_active then search_box chosen else chosen

-- OnSearchSelectKey.
unfoldable pub on_search_select_key : ℕ → SearchBox → SearchBox
on_search_select_key code b =
    if (code == 40) && is_below b.search_index b.select_items
    then on_select_item (increment b.search_index) b
    else if (code == 38) && is_positive b.search_index
    then on_select_item (decrement b.search_index) b
    else if code == 13 || code == 27
    then close_selection_window (on_select_item b.search_index b)
    else b
