-- ===== src/Manual/Created.antt =====
-- What is on a result page (createResults of docs/manual/html/search/search.js).
use pubsublib.Prelude.{
  ℕ, suc, ◌≡◌, refl, ap, ◌∙◌, Option, none, some, List, [], ◌∷◌, ◌++◌, length, arith, ◌==◌,
  Option-cases, inl, inr, false, if◌then◌else◌,
}
use pubsublib.Prelude.Texts.{Text, text_eq, is_empty}
use pubsublib.Manual.Creating.{
  Dom, no_element, element, Hit, Entry, child_link, child_links, single_result, multiple_results,
  entry_link, entry_content, result_content, create_from, create_results, is_div,
  find_child_element,
}

-- The pages of the elements that close the results when they are clicked, in the order of the page.
abbrev pub linked_pages : Dom → List Text
linked_pages no_element = []
linked_pages (element tag a inside next) =
    (if is_empty a.on_click then [] else a.href ∷ []) ++ linked_pages inside ++ linked_pages next

-- The pages of all that was found.
abbrev pub hit_pages : Text → List Hit → List Text
hit_pages path [] = []
hit_pages path (hit ∷ hits) = (path ++ hit.page) ∷ hit_pages path hits

abbrev pub found_pages : Text → List Entry → List Text
found_pages path [] = []
found_pages path (entry ∷ entries) = hit_pages path entry.hits ++ found_pages path entries

-- For each row, the number of children that FindChildElement finds.
abbrev pub element_count : Dom → ℕ
element_count no_element = 0
element_count (element tag a inside next) = suc (element_count next)

abbrev pub count_found : Option Dom → Option ℕ
count_found none = none
count_found (some d) = some (element_count d)

abbrev pub child_counts : Dom → List (Option ℕ)
child_counts no_element = []
child_counts (element tag a inside next) =
    count_found (find_child_element inside) ∷ child_counts next

-- The number of what was found, where it is not one.
abbrev pub hit_counts : List Entry → List (Option ℕ)
hit_counts [] = []
hit_counts (entry ∷ entries) =
    (if length entry.hits == 1 then none else some (length entry.hits)) ∷ hit_counts entries

linked_pages-child_links :
    (path : Text) (e c : ℕ) (hits : List Hit)
    → linked_pages (child_links path e c hits) ≡ hit_pages path hits
unfolding child_links child_link
linked_pages-child_links path e c [] = refl
linked_pages-child_links path e c (hit ∷ hits) =
    ap (λ ps. (path ++ hit.page) ∷ ps) (linked_pages-child_links path e (suc c) hits)

element_count-child_links :
    (path : Text) (e c : ℕ) (hits : List Hit)
    → element_count (child_links path e c hits) ≡ length hits
unfolding child_links
element_count-child_links path e c [] = refl
element_count-child_links path e c (hit ∷ hits) =
    ap suc (element_count-child_links path e (suc c) hits)

append-empty {ℓ} : {A : Type ℓ} (xs : List A) → xs ++ [] ≡ xs
append-empty [] = refl
append-empty (x ∷ xs) = ap (λ ys. x ∷ ys) (append-empty xs)

linked_pages-entry_content :
    (path : Text) (e : ℕ) (entry : Entry) (hits : List Hit)
    → entry.hits ≡ hits
    → linked_pages (entry_content path e entry hits) ≡ hit_pages path entry.hits
unfolding entry_content single_result multiple_results entry_link
linked_pages-entry_content path e entry [] h =
    append-empty (linked_pages (child_links path e 0 entry.hits))
    ∙ linked_pages-child_links path e 0 entry.hits
linked_pages-entry_content path e entry (hit ∷ []) h = rw (h) refl
linked_pages-entry_content path e entry (hit ∷ other ∷ hits) h =
    append-empty (linked_pages (child_links path e 0 entry.hits))
    ∙ linked_pages-child_links path e 0 entry.hits

find_child_element-entry_content :
    (path : Text) (e : ℕ) (entry : Entry) (hits : List Hit)
    → entry.hits ≡ hits
    → count_found (find_child_element (entry_content path e entry hits))
      ≡ (if length hits == 1 then none else some (length hits))
unfolding entry_content single_result multiple_results entry_link find_child_element is_div text_eq
find_child_element-entry_content path e entry [] h =
    ap some (element_count-child_links path e 0 entry.hits ∙ ap length h)
find_child_element-entry_content path e entry (hit ∷ []) h = refl
find_child_element-entry_content path e entry (hit ∷ other ∷ hits) h =
    let many : (suc (suc (length hits)) == 1) ≡ false = ground arith in
    rw (many) (ap some (element_count-child_links path e 0 entry.hits ∙ ap length h))

linked_pages-create_from :
    (path : Text) (e : ℕ) (entries : List Entry)
    → linked_pages (create_from path e entries) ≡ found_pages path entries
unfolding create_from result_content
linked_pages-create_from path e [] = refl
linked_pages-create_from path e (entry ∷ entries) =
    rw
      (
        append-empty (linked_pages (entry_content path e entry entry.hits)),
        linked_pages-entry_content path e entry entry.hits refl,
        linked_pages-create_from path (suc e) entries,
      )
      refl

-- The content of an entry stands one element deeper.
find_child_element-result_content :
    (path : Text) (e : ℕ) (entry : Entry)
    → find_child_element (result_content path e entry)
      ≡ find_child_element (entry_content path e entry entry.hits)
unfolding result_content find_child_element is_div text_eq
find_child_element-result_content path e entry =
    elim (Option-cases (find_child_element (entry_content path e entry entry.hits))) [
      | inl none_there ↦ rw (none_there) refl
      | inr found ↦ rw (found.1) refl
    ]

child_counts-create_from :
    (path : Text) (e : ℕ) (entries : List Entry)
    → child_counts (create_from path e entries) ≡ hit_counts entries
unfolding create_from
child_counts-create_from path e [] = refl
child_counts-create_from path e (entry ∷ entries) =
    rw
      (
        find_child_element-result_content path e entry,
        find_child_element-entry_content path e entry entry.hits refl,
        child_counts-create_from path (suc e) entries,
      )
      refl

-- A result page has one link for each thing that was found, in order, which closes the results, and
-- FindChildElement finds the children of exactly the rows for which not just one thing was found: as many
-- as there are.
pub create_results_lem :
    (path : Text) (entries : List Entry)
    → (linked_pages (create_results path entries) ≡ found_pages path entries)
      × (child_counts (create_results path entries) ≡ hit_counts entries)
unfolding create_results
create_results_lem path entries =
    (linked_pages-create_from path 0 entries, child_counts-create_from path 0 entries)
