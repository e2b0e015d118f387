-- ===== src/Topic/Short.antt =====
-- `topic` of src/ddmp/protocol.py for a text that passes for an address and has too few bytes.
use dometic_ddmp.Base.{
  ℕ, ◌<◌, ◌≡◌, refl, ap, ◌∙◌, String, string_eq, Bool, true, false, not, ◌&&◌, leb, inl, inr, none,
  [], ◌∷◌, Option-cases, arith,
}
use dometic_ddmp.Base.Dict.{get}
use dometic_ddmp.Base.Index.{get-index_sound}
use dometic_ddmp.Result.{err, decode_error}
use dometic_ddmp.Text.{Text, codes}
use dometic_ddmp.Address.Laws.{IsBreak, broken, parse-broken}
use dometic_ddmp.Topic.{topics, topic_by_name, or_by_text, topic_by_text, by_name, topic}
use dometic_ddmp.Topic.Lookup.{every, every_sound}

-- The third character, if there is one, is white space that is no space.
abbrev breaks_third : Text → Bool
breaks_third [] = false
breaks_third (a ∷ []) = false
breaks_third (a ∷ b ∷ []) = false
breaks_third (a ∷ b ∷ c ∷ s) = leb 9 c && leb c 13

names_do_not_break : every (λ t. not (breaks_third (codes t.name))) topics ≡ true
unfolding topics
names_do_not_break = refl

module _ (name : String) (b w c w' d : ℕ) (hb : b < 256) (hc : c < 256) (hd : d < 256)
    (hw : IsBreak w) (hw' : IsBreak w') (spelled : codes name ≡ broken b w c w' d) where
  name_breaks : breaks_third (codes name) ≡ true
  name_breaks = rw spelled (ground arith)

  no_such_name : get name topic_by_name ≡ none
  unfolding topic_by_name
  no_such_name = elim (Option-cases (get name topic_by_name)) [
    | inl absent ↦ absent
    | inr (t, found) ↦
        let (same_name, (i, at_i)) = get-index_sound (λ t. t.name) name topics t found in
        let plain = every_sound _ topics i t names_do_not_break at_i in
        let plain' : not (breaks_third (codes name)) ≡ true = rw same_name at plain in
        absurd (ground (arith, name_breaks))
  ]

  -- A text of three bytes in hexadecimal capitals, with a tabulator, line break or the like between each
  -- two, is no topic's name, and `topic` raises a `DecodeError` for it.
  pub topic_of_broken : topic (by_name name) ≡ err decode_error
  unfolding topic topic_by_text
  topic_of_broken =
      ap (or_by_text name) no_such_name ∙ rw (spelled, parse-broken b w c w' d hb hc hd hw hw') refl
