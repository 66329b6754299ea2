-- ===== src/Manual/Stripes.antt =====
-- Which rows of a table are shown and how they are striped (docs/manual/html/dynsections.js).
use pubsublib.Prelude.{
  ℕ, suc, ◌+◌, ◌%◌, ◌≡◌, refl, ap, ◌∙◌, Bool, true, not, List, [], ◌∷◌, map, arith, leb, ◌==◌,
  if◌then◌else◌,
}
use pubsublib.Manual.Directory.{
  DirectoryRow, Stripe, no_stripe, even, odd, stripe_rows, update_stripes, row_level, level_row,
  toggle_level,
}

abbrev pub shown_of : List DirectoryRow → List Bool
shown_of [] = []
shown_of (row ∷ rows) = row.shown ∷ shown_of rows

abbrev pub stripes_of : List DirectoryRow → List Stripe
stripes_of [] = []
stripes_of (row ∷ rows) = row.stripe ∷ stripes_of rows

-- The rows of a level or above it.
abbrev pub within_level : ℕ → List DirectoryRow → List Bool
within_level level [] = []
within_level level (row ∷ rows) = leb (row_level row) (level + 1) ∷ within_level level rows

-- The stripes of rows that are shown or not, after `n` rows that are: even and odd numbers.
abbrev pub numbered_stripes : ℕ → List Bool → List Stripe
numbered_stripes n [] = []
numbered_stripes n (shown ∷ rest) =
    if shown
    then (if n % 2 == 0 then even else odd) ∷ numbered_stripes (suc n) rest
    else no_stripe ∷ numbered_stripes n rest

shown_of-stripe_rows :
    (is_even : Bool) (rows : List DirectoryRow)
    → shown_of (stripe_rows is_even rows) ≡ shown_of rows
unfolding stripe_rows
shown_of-stripe_rows is_even [] = refl
shown_of-stripe_rows is_even (row ∷ rows) =
    ground (arith, shown_of-stripe_rows is_even rows, shown_of-stripe_rows (not is_even) rows)

stripes_of-stripe_rows :
    (n : ℕ) (rows : List DirectoryRow)
    → stripes_of (stripe_rows (n % 2 == 0) rows) ≡ numbered_stripes n (shown_of rows)
unfolding stripe_rows
stripes_of-stripe_rows n [] = refl
stripes_of-stripe_rows n (row ∷ rows) =
    let parity : not (n % 2 == 0) ≡ (suc n % 2 == 0) = ground arith in
    rw (parity) ground (arith, stripes_of-stripe_rows n rows, stripes_of-stripe_rows (suc n) rows)

shown_of-level_row :
    (level : ℕ) (rows : List DirectoryRow)
    → shown_of (map (level_row level) rows) ≡ within_level level rows
unfolding level_row
shown_of-level_row level [] = refl
shown_of-level_row level (row ∷ rows) = ground (arith, shown_of-level_row level rows)

-- After a click on a level exactly its rows and those above it are shown, and the rows that are shown are
-- even and odd in turn, starting with even.
pub toggle_level_lem :
    (level : ℕ) (rows : List DirectoryRow)
    → (shown_of (toggle_level level rows) ≡ within_level level rows)
      × (stripes_of (toggle_level level rows) ≡ numbered_stripes 0 (within_level level rows))
unfolding toggle_level update_stripes
toggle_level_lem level rows =
    let shown = shown_of-level_row level rows in
    (
      shown_of-stripe_rows true (map (level_row level) rows) ∙ shown,
      stripes_of-stripe_rows 0 (map (level_row level) rows) ∙ ap (numbered_stripes 0) shown,
    )
