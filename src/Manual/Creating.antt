-- ===== src/Manual/Creating.antt =====
-- The building of a result page (createResults of docs/manual/html/search/search.js) and the search for the
-- children of a row in it (FindChildElement). Elements are kept by first child and next sibling.
use pubsublib.Prelude.{
  ℕ, suc, Bool, true, false, ◌&&◌, Option, none, some, List, [], ◌∷◌, ◌++◌, if◌then◌else◌,
}
use pubsublib.Prelude.Texts.{Text, codes, text_eq}
use pubsublib.Metric.Numbers.{to_string}

pub data Tag : Type 0 where
  div_tag link_tag span_tag : Tag

-- The attributes that are set, each empty otherwise.
pub record Attributes : Type 0 where
  pub id : Text
  pub class_name : Text
  pub key_action : Text
  pub on_click : Text
  pub href : Text
  pub target : Text
  pub inner : Text

pub data Dom : Type 0 where
  no_element : Dom
  element : Tag → Attributes → Dom → Dom → Dom

-- A line of `searchData`: its id, its name, and what was found under it: the page, whether it opens in the
-- parent, and the scope.
pub record Hit : Type 0 where
  pub page : Text
  pub in_parent : Bool
  pub scope : Text

pub record Entry : Type 0 where
  pub id : Text
  pub name : Text
  pub hits : List Hit

abbrev pub no_attributes : Attributes
no_attributes = record {
  id = [];
  class_name = [];
  key_action = [];
  on_click = [];
  href = [];
  target = [];
  inner = [];
}

abbrev pub close_action : Text
close_action = codes "searchBox.CloseResultsWindow()"

unfoldable pub target_of : Hit → Text
target_of hit = if hit.in_parent then codes "_parent" else codes "_blank"

-- The link of an entry, before it is known what was found.
unfoldable pub entry_link : ℕ → Entry → Attributes
entry_link e entry = record no_attributes {
  id = codes "Item" ++ to_string e;
  key_action = codes "return searchResults.Nav(event," ++ to_string e ++ codes ")";
  class_name = codes "SRSymbol";
  inner = entry.name;
}

unfoldable pub child_link : Text → ℕ → ℕ → Hit → Attributes
child_link path e c hit = record {
  id = codes "Item" ++ to_string e ++ codes "_c" ++ to_string c;
  class_name = codes "SRScope";
  key_action =
      codes "return searchResults.NavChild(event,"
      ++ to_string e
      ++ codes ","
      ++ to_string c
      ++ codes ")";
  on_click = close_action;
  href = path ++ hit.page;
  target = target_of hit;
  inner = hit.scope;
}

unfoldable pub child_links : Text → ℕ → ℕ → List Hit → Dom
child_links path e c [] = no_element
child_links path e c (hit ∷ hits) =
    element link_tag (child_link path e c hit) no_element (child_links path e (suc c) hits)

unfoldable pub single_result : Text → Attributes → Hit → Dom
single_result path link hit =
    element link_tag
      (record link { href = path ++ hit.page; on_click = close_action; target = target_of hit })
      no_element
      (element span_tag (record no_attributes { class_name = codes "SRScope"; inner = hit.scope })
        no_element no_element)

unfoldable pub multiple_results : Text → ℕ → Entry → Dom
multiple_results path e entry =
    element link_tag
      (record (entry_link e entry) {
        href = codes "javascript:searchResults.Toggle(\"SR_" ++ entry.id ++ codes "\")";
      })
      no_element
      (element div_tag (record no_attributes { class_name = codes "SRChildren" })
        (child_links path e 0 entry.hits) no_element)

-- What stands in the `SREntry` element.
unfoldable pub entry_content : Text → ℕ → Entry → List Hit → Dom
entry_content path e entry [] = multiple_results path e entry
entry_content path e entry (hit ∷ []) = single_result path (entry_link e entry) hit
entry_content path e entry (hit ∷ other ∷ hits) = multiple_results path e entry

unfoldable pub result_content : Text → ℕ → Entry → Dom
result_content path e entry =
    element div_tag (record no_attributes { class_name = codes "SREntry" })
      (entry_content path e entry entry.hits) no_element

unfoldable pub create_from : Text → ℕ → List Entry → Dom
create_from path e [] = no_element
create_from path e (entry ∷ entries) =
    element div_tag
      (record no_attributes { id = codes "SR_" ++ entry.id; class_name = codes "SRResult" })
      (result_content path e entry) (create_from path (suc e) entries)

-- createResults.
unfoldable pub create_results : Text → List Entry → Dom
create_results path entries = create_from path 0 entries

unfoldable pub is_div : Tag → Bool
is_div div_tag = true
is_div link_tag = false
is_div span_tag = false

-- FindChildElement, from the first child of the element on: what stands in the `SRChildren` element.
unfoldable pub find_child_element : Dom → Option Dom
find_child_element no_element = none
find_child_element (element tag a inside next) =
    let below = find_child_element inside in
    let after = find_child_element next in
    if is_div tag && text_eq a.class_name (codes "SRChildren")
    then some inside
    else if is_div tag
    then elim below [ none ↦ after | some found ↦ some found ]
    else after
