-- ===== src/Manual/Panel.antt =====
-- The panel of the search page (docs/manual/html/search/search.js).
use pubsublib.Prelude.{ℕ, zero, suc, ◌≡◌, Bool, true, false, [], arith, leb}
use pubsublib.Prelude.Int.{ℤ, pos, negsuc}
use pubsublib.Manual.Box.{
  SearchBox, activate, search_box, close_selection_window, close_results_window, on_select_item,
  on_search_select_key, on_search_field_change, increment, decrement, is_below, is_positive,
}

-- From 0 to a number.
abbrev pub is_within : ℤ → ℕ → Bool
is_within (pos n) count = leb n count
is_within (negsuc n) count = false

increment-within :
    (i : ℤ) (count : ℕ)
    → is_below i count ≡ true
    → is_within i count ≡ true
    → is_within (increment i) count ≡ true
increment-within (pos n) count h k = ground arith
increment-within (negsuc n) count h k = ground arith

decrement-within :
    (i : ℤ) (count : ℕ)
    → is_positive i ≡ true
    → is_within i count ≡ true
    → is_within (decrement i) count ≡ true
decrement-within (pos zero) count h k = ground arith
decrement-within (pos (suc n)) count h k = ground arith
decrement-within (negsuc n) count h k = ground arith

-- The keys of the category window keep its index in the range from 0 to the number of categories, which it
-- may reach.
pub search_index-on_search_select_key :
    (code : ℕ) (b : SearchBox)
    → is_within b.search_index b.select_items ≡ true
    → is_within
        (on_search_select_key code b).search_index
        (on_search_select_key code b).select_items
      ≡ true
unfolding on_search_select_key on_select_item search_box close_selection_window
search_index-on_search_select_key code b h = ground (
  arith,
  increment-within b.search_index b.select_items,
  decrement-within b.search_index b.select_items,
)

-- The Escape key in the search field, like closing the results, leaves an empty field, no results and an
-- inactive panel, whatever was there before; Escape also stops the timer, and closing forgets the word.
pub escape_lem :
    (shift : Bool) (b : SearchBox)
    → let escaped = on_search_field_change 27 shift b in
      let closed = close_results_window b in
      (escaped.field ≡ [])
      × (escaped.results_shown ≡ false)
      × (escaped.search_active ≡ false)
      × (escaped.key_timeout ≡ false)
      × (closed.field ≡ [])
      × (closed.results_shown ≡ false)
      × (closed.search_active ≡ false)
      × (closed.last_search_value ≡ [])
unfolding on_search_field_change close_results_window activate
escape_lem shift b = ground arith
