-- ===== src/Examples/Sections.antt =====
-- Opening and closing on the pages of the manual.
use pubsublib.Prelude.{◌≡◌, refl, List, true, false, [], ◌∷◌}
use pubsublib.Prelude.Texts.{codes, text_eq}
use pubsublib.Metric.Numbers.{is_digit}
use pubsublib.Manual.Sections.{Code, minus_image, click_all, click_block, run_clicks}
use pubsublib.Manual.Folding.{IsFoldable, run_clicks-IsFoldable}
use pubsublib.Manual.Directory.{
  DirectoryRow, no_icon, icon_open, icon_closed, no_arrow, arrow_down, arrow_right, no_stripe,
  toggle_level, is_number_end, is_child_id, toggle_folder,
}
use pubsublib.Manual.Folders.{views_of, toggle_folder_again}
use pubsublib.Manual.Stripes.{
  shown_of, stripes_of, within_level, numbered_stripes, toggle_level_lem,
}

abbrev code : Code
code = record {
  opened = true;
  fold_all = minus_image;
  blocks =
      record { open_shown = true; closed_shown = false }
      ∷ record { open_shown = false; closed_shown = true }
      ∷ [];
}

abbrev code-IsFoldable : IsFoldable code
code-IsFoldable = record { blocks_folded = (refl, (refl, tt)); image = refl }

run_clicks_example : IsFoldable (run_clicks (click_block 1 ∷ click_all ∷ click_block 0 ∷ []) code)
run_clicks_example =
    run_clicks-IsFoldable (click_block 1 ∷ click_all ∷ click_block 0 ∷ []) code code-IsFoldable

abbrev table : List DirectoryRow
table =
    record {
      id = codes "0_";
      icon = icon_open;
      arrow = arrow_down;
      shown = true;
      stripe = no_stripe;
    }
    ∷ record {
      id = codes "0_0_";
      icon = icon_closed;
      arrow = arrow_right;
      shown = true;
      stripe = no_stripe;
    }
    ∷ record {
      id = codes "0_0_0_";
      icon = no_icon;
      arrow = no_arrow;
      shown = false;
      stripe = no_stripe;
    }
    ∷ []

toggle_level_example :
    (shown_of (toggle_level 1 table) ≡ within_level 1 table)
    × (stripes_of (toggle_level 1 table) ≡ numbered_stripes 0 (within_level 1 table))
toggle_level_example = toggle_level_lem 1 table

-- The second folder is closed: its one row is hidden.
toggle_folder_example :
    views_of (toggle_folder (codes "0_0_") (toggle_folder (codes "0_0_") table)) ≡ views_of table
toggle_folder_example =
    toggle_folder_again (codes "0_0_") table
      (unfold text_eq in unfold is_child_id in unfold is_number_end in unfold is_digit in refl)
