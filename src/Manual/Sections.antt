-- ===== src/Manual/Sections.antt =====
-- The sections, the lists of inherited members and the folded code of a page of the manual
-- (docs/manual/html/dynsections.js). An element that a function looks up is there.
use pubsublib.Prelude.{
  ℕ, zero, suc, ◌-◌, Bool, true, false, not, List, [], ◌∷◌, ◌++◌, length, map, if◌then◌else◌,
}
use pubsublib.Prelude.Texts.{Text, codes}

-- A section that its link opens and closes: the classes of the link, the image of the trigger, and whether
-- the content and the summary are displayed.
pub record Section : Type 0 where
  pub has_opened : Bool
  pub has_closed : Bool
  pub src : Text
  pub content_shown : Bool
  pub summary_shown : Bool

-- The first characters of a text.
abbrev pub take : ℕ → Text → Text
take zero s = []
take (suc n) [] = []
take (suc n) (c ∷ cs) = c ∷ take n cs

-- `src.substring(0, src.length - 8) + 'closed.png'`, and the same for the other image.
unfoldable pub closed_image : Text → Text
closed_image src = take (length src - 8) src ++ codes "closed.png"

unfoldable pub opened_image : Text → Text
opened_image src = take (length src - 10) src ++ codes "open.png"

-- toggleVisibility.
unfoldable pub toggle_visibility : Section → Section
toggle_visibility s =
    if s.content_shown
    then record s {
      content_shown = false;
      summary_shown = true;
      has_closed = true;
      has_opened = false;
      src = closed_image s.src;
    }
    else record s {
      content_shown = true;
      summary_shown = false;
      has_closed = false;
      has_opened = true;
      src = opened_image s.src;
    }

-- The members inherited from a class: the image in the header, and which rows are displayed.
pub record Inherited : Type 0 where
  pub image : Text
  pub rows_shown : List Bool

abbrev pub first_shown : List Bool → Bool
first_shown [] = false
first_shown (shown ∷ rest) = shown

-- toggleInherit.
unfoldable pub toggle_inherit : Inherited → Inherited
toggle_inherit i =
    if first_shown i.rows_shown
    then record i { rows_shown = map (λ shown. false) i.rows_shown; image = closed_image i.image }
    else record i { rows_shown = map (λ shown. true) i.rows_shown; image = opened_image i.image }

-- A block of code that can be folded: whether its `foldopen` and its `foldclosed` element are displayed.
pub record Block : Type 0 where
  pub open_shown : Bool
  pub closed_shown : Bool

-- The page: the variable `opened`, the image of the control of all blocks, and the blocks.
pub data FoldImage : Type 0 where
  plus_image minus_image : FoldImage

pub record Code : Type 0 where
  pub opened : Bool
  pub fold_all : FoldImage
  pub blocks : List Block

abbrev pub folded : Block → Block
folded b = record b { open_shown = false; closed_shown = true }

abbrev pub unfolded : Block → Block
unfolded b = record b { open_shown = true; closed_shown = false }

-- codefold_toggle_all.
unfoldable pub codefold_toggle_all : Code → Code
codefold_toggle_all c =
    if c.opened
    then record c { fold_all = plus_image; blocks = map folded c.blocks; opened = false }
    else record c { fold_all = minus_image; blocks = map unfolded c.blocks; opened = true }

unfoldable pub toggle_block : ℕ → List Block → List Block
toggle_block n [] = []
toggle_block zero (b ∷ rest) =
    record b { open_shown = not b.open_shown; closed_shown = not b.closed_shown } ∷ rest
toggle_block (suc n) (b ∷ rest) = b ∷ toggle_block n rest

-- codefold_toggle, for the block with an index.
unfoldable pub codefold_toggle : ℕ → Code → Code
codefold_toggle id c = record c { blocks = toggle_block id c.blocks }

-- A click on the page, and the clicks of a visit.
pub data Click : Type 0 where
  click_all : Click
  click_block : ℕ → Click

unfoldable pub click : Click → Code → Code
click click_all c = codefold_toggle_all c
click (click_block id) c = codefold_toggle id c

unfoldable pub run_clicks : List Click → Code → Code
run_clicks [] c = c
run_clicks (k ∷ rest) c = run_clicks rest (click k c)
