-- ===== src/Manual/Folding.antt =====
-- Opening and closing on the pages of the manual (docs/manual/html/dynsections.js).
use pubsublib.Prelude.{
  ℕ, zero, suc, ◌-◌, ◌≡◌, refl, ap, Bool, true, false, not, List, [], ◌∷◌, ◌++◌, length,
  length-append, map, All, arith, if◌then◌else◌, Bool-cases, inl, inr,
}
use pubsublib.Prelude.Texts.{Text, codes}
use pubsublib.Manual.Sections.{
  Section, take, closed_image, opened_image, toggle_visibility, Block, Code, plus_image,
  minus_image, folded, unfolded, codefold_toggle_all, toggle_block, codefold_toggle, Click,
  click_all, click_block, click, run_clicks,
}

-- A section that is open or closed.
abbrev pub section_of : Bool → Text → Section
section_of shown base = record {
  has_opened = shown;
  has_closed = not shown;
  src = base ++ (if shown then codes "open.png" else codes "closed.png");
  content_shown = shown;
  summary_shown = not shown;
}

take-append : (s t : Text) → take (length s) (s ++ t) ≡ s
take-append [] t = refl
take-append (c ∷ cs) t = ap (λ r. c ∷ r) (take-append cs t)

without_end : (n : ℕ) (s t : Text) → length t ≡ n → take (length (s ++ t) - n) (s ++ t) ≡ s
without_end n s t e =
    let same : length (s ++ t) - n ≡ length s = ground (arith, length-append s t) in
    rw (same) (take-append s t)

-- The link of a section opens what is closed and closes what is open: the classes of the link, the image,
-- the content and the summary all follow.
pub toggle_visibility_lem :
    (shown : Bool) (base : Text)
    → toggle_visibility (section_of shown base) ≡ section_of (not shown) base
unfolding toggle_visibility closed_image opened_image
toggle_visibility_lem true base = rw (without_end 8 base (codes "open.png") refl) refl
toggle_visibility_lem false base = rw (without_end 10 base (codes "closed.png") refl) refl

-- A block shows exactly one of its two forms.
abbrev pub IsFolded : Block → Type 0
IsFolded b = b.closed_shown ≡ not b.open_shown

-- Every block shows one form, and the control of all blocks has the image that goes with `opened`.
pub record IsFoldable (c : Code) : Type 0 where
  pub blocks_folded : All IsFolded c.blocks
  pub image : c.fold_all ≡ (if c.opened then minus_image else plus_image)

folded-IsFolded : (bs : List Block) → All IsFolded (map folded bs)
folded-IsFolded [] = tt
folded-IsFolded (b ∷ bs) = (refl, folded-IsFolded bs)

unfolded-IsFolded : (bs : List Block) → All IsFolded (map unfolded bs)
unfolded-IsFolded [] = tt
unfolded-IsFolded (b ∷ bs) = (refl, unfolded-IsFolded bs)

toggle_block-IsFolded :
    (n : ℕ) (bs : List Block) → All IsFolded bs → All IsFolded (toggle_block n bs)
unfolding toggle_block
toggle_block-IsFolded n [] h = tt
toggle_block-IsFolded zero (b ∷ bs) h = (ap not h.0, h.1)
toggle_block-IsFolded (suc n) (b ∷ bs) h = (h.0, toggle_block-IsFolded n bs h.1)

click-IsFoldable : (k : Click) (c : Code) → IsFoldable c → IsFoldable (click k c)
unfolding click codefold_toggle_all codefold_toggle
click-IsFoldable click_all c h = elim (Bool-cases c.opened) [
  | inl e ↦ rw (e) record { blocks_folded = folded-IsFolded c.blocks; image = refl }
  | inr e ↦ rw (e) record { blocks_folded = unfolded-IsFolded c.blocks; image = refl }
]
click-IsFoldable (click_block id) c h = record {
  blocks_folded = toggle_block-IsFolded id c.blocks h.blocks_folded;
  image = h.image;
}

-- After any clicks on a page, every block of code still shows exactly one of its two forms, and the image
-- of the control of all blocks goes with what its next click does.
pub run_clicks-IsFoldable :
    (ks : List Click) (c : Code) → IsFoldable c → IsFoldable (run_clicks ks c)
unfolding run_clicks
run_clicks-IsFoldable [] c h = h
run_clicks-IsFoldable (k ∷ ks) c h = run_clicks-IsFoldable ks (click k c) (click-IsFoldable k c h)
