-- ===== src/Examples/Pages.antt =====
-- The search page of the manual.
use pubsublib.Prelude.{ℕ, ◌≡◌, refl, true, false, some, List, [], ◌∷◌, arith}
use pubsublib.Prelude.Int.{pos}
use pubsublib.Prelude.Texts.{Text, codes}
use pubsublib.Manual.Results.{Row, SearchResults, nav_next, nav_prev, next_loop, prev_loop}
use pubsublib.Manual.Box.{SearchBox, on_search_select_key}
use pubsublib.Manual.Navigation.{nav_loops_end}
use pubsublib.Manual.Creating.{Entry, create_results}
use pubsublib.Manual.Created.{
  linked_pages, found_pages, child_counts, hit_counts, create_results_lem,
}
use pubsublib.Manual.Panel.{is_within, search_index-on_search_select_key}

abbrev row : Row
row = record {
  id = [];
  displayed = false;
  has_children = false;
  children = 0;
  children_displayed = false;
}

abbrev results : SearchResults
results = record { rows = row ∷ row ∷ []; last_match_count = 0; last_key = 0; repeat_on = false }

abbrev box : SearchBox
box = record {
  field = codes "top";
  last_search_value = codes "to";
  search_index = pos 1;
  search_active = true;
  results_shown = true;
  close_shown = true;
  select_shown = true;
  key_timeout = true;
  hide_timeout = false;
  select_items = 3;
}

abbrev names : List (Text × ℕ)
names = (codes "topic_name", 12) ∷ (codes "metric", 0) ∷ []

search_index_example :
    is_within (on_search_select_key 40 box).search_index (on_search_select_key 40 box).select_items
    ≡ true
search_index_example = search_index-on_search_select_key 40 box refl

nav_loops_example :
    (next_loop 3 1 results.rows ≡ some (nav_next 1 results.rows))
    × (prev_loop 3 1 results.rows ≡ some (nav_prev 1 results.rows))
nav_loops_example = nav_loops_end 3 1 results.rows (omega arith) (omega arith)

abbrev entries : List Entry
entries =
    record {
      id = codes "topic_0";
      name = codes "Topic";
      hits = record { page = codes "topic.html"; in_parent = true; scope = codes "pub_sub" } ∷ [];
    }
    ∷ record {
      id = codes "name_1";
      name = codes "Name";
      hits =
          record { page = codes "metric.html"; in_parent = true; scope = codes "Metric" }
          ∷ record { page = codes "client.html"; in_parent = false; scope = codes "Client" }
          ∷ [];
    }
    ∷ []

create_results_example :
    (linked_pages (create_results (codes "../") entries) ≡ found_pages (codes "../") entries)
    × (child_counts (create_results (codes "../") entries) ≡ hit_counts entries)
create_results_example = create_results_lem (codes "../") entries
