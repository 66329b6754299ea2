-- ===== src/Topic/Scanning.antt =====
-- The loop of `ITopic::Topic(const std::string&)` over one level and over a whole name.
use mathlib.Core.List.{foldl-append, append-nil, append_assoc}
use native.Mathlib.Nat.{add-zero}
use pubsublib.Prelude.{
  ℕ, suc, ◌+◌, ◌≡◌, refl, sym, ap, ◌∙◌, false, List, [], ◌∷◌, ◌++◌, foldl, arith, ◌==◌, All, length,
}
use pubsublib.Prelude.Texts.{Text}
use pubsublib.Topic.Name.{
  TopicName, Scan, slash, assign_level_name, scan_char, end_scan, start_scan, keep_or, fix_state,
  set_topic,
}

-- A level's name holds no slash.
abbrev pub IsLevel : Text → Type 0
IsLevel = All (λ c. (c == slash) ≡ false)

-- The level names, each followed by a slash.
abbrev pub slashed : List Text → Text
slashed [] = []
slashed (p ∷ ps) = p ++ slash ∷ slashed ps

-- What the loop has assigned when it has read the slash behind each of `ps`.
unfoldable pub assign_levels : ℕ → List Text → TopicName → TopicName
assign_levels level [] t = t
assign_levels level (p ∷ ps) t = assign_levels (suc level) ps (assign_level_name level p t)

scan_level :
    (s : Scan) (p : Text) → IsLevel p → foldl scan_char s p ≡ record s { temp = s.temp ++ p }
unfolding scan_char
scan_level s [] h = rw append-nil
scan_level s (c ∷ cs) h = rw h.0 (
    scan_level (record s { temp = s.temp ++ c ∷ [] }) cs h.1
    ∙ ap (λ t. record s { temp = t }) (append_assoc s.temp (c ∷ []) cs))

scan_part :
    (l : ℕ) (p rest : Text) (t : TopicName)
    → IsLevel p
    → foldl scan_char (record { level = l; temp = []; name = t }) (p ++ slash ∷ rest)
      ≡ foldl scan_char (record { level = suc l; temp = []; name = assign_level_name l p t }) rest
unfolding scan_char
scan_part l p rest t h =
    foldl-append scan_char _ p (slash ∷ rest)
    ∙ ap (λ s. foldl scan_char s (slash ∷ rest))
        (scan_level (record { level = l; temp = []; name = t }) p h)

pub scan_slashed :
    (l : ℕ) (ps : List Text) (rest : Text) (t : TopicName)
    → All IsLevel ps
    → foldl scan_char (record { level = l; temp = []; name = t }) (slashed ps ++ rest)
      ≡ foldl scan_char
          (record { level = l + length ps; temp = []; name = assign_levels l ps t })
          rest
unfolding assign_levels
scan_slashed l [] rest t h = rw add-zero
scan_slashed l (p ∷ ps) rest t h =
    let count : suc l + length ps ≡ l + suc (length ps) = omega arith in
    ap (foldl scan_char _) (append_assoc p (slash ∷ slashed ps) rest)
    ∙ scan_part l p (slashed ps ++ rest) t h.0
    ∙ scan_slashed (suc l) ps rest (assign_level_name l p t) h.1
    ∙ ap
        (λ n.
          foldl scan_char
            (record {
              level = n;
              temp = [];
              name = assign_levels (suc l) ps (assign_level_name l p t);
            })
            rest)
        count

keep_or_empty : (name : Text) → keep_or name [] ≡ name
keep_or_empty [] = refl
keep_or_empty (c ∷ cs) = refl

-- An empty level leaves the name as it was.
assign_level_name_empty : (l : ℕ) (t : TopicName) → assign_level_name l [] t ≡ t
unfolding assign_level_name
assign_level_name_empty l t = ground (
  arith,
  keep_or_empty t.name_space,
  keep_or_empty t.group_id,
  keep_or_empty t.message_type,
  keep_or_empty t.node_id,
  keep_or_empty t.device_id,
)

end_scan_lem :
    (l : ℕ) (p : Text) (t : TopicName)
    → end_scan (record { level = suc l; temp = p; name = t }) ≡ assign_level_name (suc l) p t
unfolding end_scan
end_scan_lem l [] t = ground (arith, assign_level_name_empty (suc l) t)
end_scan_lem l (c ∷ cs) t = ground arith

assign_levels-append :
    (l : ℕ) (ps : List Text) (p : Text) (t : TopicName)
    → assign_levels l (ps ++ p ∷ []) t ≡ assign_level_name (l + length ps) p (assign_levels l ps t)
unfolding assign_levels
assign_levels-append l [] p t = rw add-zero
assign_levels-append l (q ∷ ps) p t =
    let count : suc l + length ps ≡ l + suc (length ps) = omega arith in
    assign_levels-append (suc l) ps p (assign_level_name l q t)
    ∙ ap (λ n. assign_level_name n p (assign_levels (suc l) ps (assign_level_name l q t))) count

-- The setter assigns the names between the slashes to the levels in turn, whatever the levels held.
pub set_topic_levels :
    (p : Text) (ps : List Text) (last : Text) (t : TopicName)
    → All IsLevel (p ∷ ps)
    → IsLevel last
    → set_topic (slashed (p ∷ ps) ++ last) t
      ≡ fix_state
          (assign_levels 0 (p ∷ ps ++ last ∷ []) (record t { topic = slashed (p ∷ ps) ++ last }))
unfolding set_topic
set_topic_levels p ps last t h k =
    ap (λ s. fix_state (end_scan s))
      (scan_slashed 0 (p ∷ ps) last (record t { topic = slashed (p ∷ ps) ++ last }) h
        ∙ scan_level _ last k)
    ∙ ap (λ n. fix_state (end_scan (record { level = n; temp = last; name = before }))) count
    ∙ ap fix_state (
        end_scan_lem (length ps) last before
        ∙ ap (λ n. assign_level_name n last before) (sym count)
        ∙ sym (assign_levels-append 0 (p ∷ ps) last renamed))
  where
    renamed : TopicName
    renamed = record t { topic = slashed (p ∷ ps) ++ last }

    before : TopicName
    before = assign_levels 0 (p ∷ ps) renamed

    count : 0 + suc (length ps) ≡ suc (length ps)
    count = omega arith

scan-topic : (s : Scan) (cs : Text) → (foldl scan_char s cs).name.topic ≡ s.name.topic
unfolding scan_char assign_level_name
scan-topic s [] = refl
scan-topic s (c ∷ cs) = ground (arith, scan-topic (scan_char s c) cs)

-- The setter stores the whole name.
pub topic-set_topic : (topic : Text) (t : TopicName) → (set_topic topic t).topic ≡ topic
unfolding set_topic end_scan fix_state assign_level_name
topic-set_topic topic t = ground (arith, scan-topic (start_scan (record t { topic = topic })) topic)
