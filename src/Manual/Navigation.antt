-- ===== src/Manual/Navigation.antt =====
-- The loops that look for the next and the previous row that is displayed (NavNext and NavPrev of
-- docs/manual/html/search/search.js), which run until they find one or miss an element.
use pubsublib.Prelude.{
  ℕ, zero, suc, ◌+◌, ◌≤◌, ◌<◌, ◌≡◌, refl, ap, ◌∙◌, Option, none, some, List, [], ◌∷◌, length, arith,
  if◌then◌else◌,
}
use pubsublib.Manual.Results.{
  Row, item, first_displayed, drop_rows, nav_next, nav_prev, next_loop, prev_loop,
}

item-past : (index : ℕ) (rows : List Row) → length rows ≤ index → item index rows ≡ none
unfolding item
item-past index [] h = refl
item-past zero (row ∷ rows) h = ground arith
item-past (suc n) (row ∷ rows) h = item-past n rows (omega arith)

-- One round of the search for the next row.
abbrev pub next_round : ℕ → Option Row → Option ℕ → Option ℕ
next_round index none rest = none
next_round index (some row) rest = if row.displayed then some index else rest

first_displayed-drop_rows :
    (b index : ℕ) (rows : List Row)
    → first_displayed b (drop_rows index rows)
      ≡ next_round b (item index rows) (first_displayed (b + 1) (drop_rows (suc index) rows))
unfolding first_displayed item
first_displayed-drop_rows b zero [] = refl
first_displayed-drop_rows b (suc n) [] = refl
first_displayed-drop_rows b zero (row ∷ rows) = refl
first_displayed-drop_rows b (suc n) (row ∷ rows) = first_displayed-drop_rows b n rows

nav_next-round :
    (index : ℕ) (rows : List Row)
    → nav_next index rows ≡ next_round index (item index rows) (nav_next (index + 1) rows)
unfolding nav_next
nav_next-round index rows =
    let next : index + 1 ≡ suc index = omega arith in
    rw (next) (
      first_displayed-drop_rows index index rows
      ∙ ap
          (λ k. next_round index (item index rows) (first_displayed k (drop_rows (suc index) rows)))
          next)

next_loop_lem :
    (fuel index : ℕ) (rows : List Row)
    → length rows < fuel + index
    → 0 < fuel
    → next_loop fuel index rows ≡ some (nav_next index rows)
unfolding next_loop
next_loop_lem zero index rows h k = ground arith
next_loop_lem (suc fuel) index rows h k = ground (
  arith,
  nav_next-round index rows,
  item-past index rows,
  item-past (index + 1) rows,
  next_loop_lem fuel (index + 1) rows,
)

prev_loop_lem :
    (fuel bound : ℕ) (rows : List Row)
    → bound < fuel
    → prev_loop fuel bound rows ≡ some (nav_prev bound rows)
unfolding prev_loop nav_prev
prev_loop_lem zero bound rows h = ground arith
prev_loop_lem (suc fuel) zero rows h = refl
prev_loop_lem (suc fuel) (suc index) rows h = ground (arith, prev_loop_lem fuel index rows)

-- Both loops end: more rounds than there are rows, and more than the index, are enough, and they return
-- the first row that is displayed from the index on, and the last one before it that no missing row parts
-- from it.
pub nav_loops_end :
    (fuel index : ℕ) (rows : List Row)
    → length rows < fuel
    → index < fuel
    → (next_loop fuel index rows ≡ some (nav_next index rows))
      × (prev_loop fuel index rows ≡ some (nav_prev index rows))
nav_loops_end fuel index rows h k =
    (next_loop_lem fuel index rows (omega arith) (omega arith), prev_loop_lem fuel index rows k)
