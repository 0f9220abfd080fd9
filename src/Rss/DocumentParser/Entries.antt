-- ===== src/Rss/DocumentParser/Entries.antt =====
-- How the entries of a document are identified.
use mathlib.Core.Path.{subst}
use cpp_mirror_leech_bot.Prelude.{
  ℕ, ◌≡◌, inl, inr, true, Bool-cases, Option, List, [], ◌∷◌, arith, Bytes, bytes, is_empty, All,
}
use cpp_mirror_leech_bot.Prelude.Integers.{ℤ}
use cpp_mirror_leech_bot.Core.Error.{ok}
use cpp_mirror_leech_bot.Rss.DocumentParser.{
  Regex, RssEntry, RssDocument, parse_rss_item, parse_atom_entry, each_entry, parse_rss, parse_atom,
  matches, parse,
}

-- The GUID is empty only where there is no link either.
abbrev pub IsIdentified : RssEntry → Type 0
IsIdentified e = is_empty e.guid ≡ true → e.guid ≡ e.link

module _ (regex : Regex) (timegm_of : Bytes → Bytes → Option ℤ) where
  rss_item-IsIdentified : (body : Bytes) → IsIdentified (parse_rss_item regex timegm_of body)
  unfolding parse_rss_item
  rss_item-IsIdentified body h = ground arith

  atom_entry-IsIdentified : (body : Bytes) → IsIdentified (parse_atom_entry regex timegm_of body)
  unfolding parse_atom_entry
  atom_entry-IsIdentified body h = ground arith

  each_entry-All :
      (read : Bytes → RssEntry) (found : List (ℕ × List Bytes))
      → ((body : Bytes) → IsIdentified (read body))
      → All IsIdentified (each_entry regex timegm_of read found)
  each_entry-All read [] h = tt
  each_entry-All read (m ∷ rest) h = (h _, each_entry-All read rest h)

  -- In a document that was parsed, an entry whose GUID is empty has an empty link too.
  pub parse-IsIdentified :
      (xml : Bytes) (doc : RssDocument)
      → parse regex timegm_of xml ≡ ok doc
      → All IsIdentified doc.entries
  unfolding parse parse_rss parse_atom
  parse-IsIdentified xml doc h = elim (Bool-cases (is_empty xml)) [
    | inl e ↦ ground arith
    | inr e ↦ elim (Bool-cases (matches regex timegm_of (bytes "<rss\\b") xml)) [
      | inl rss ↦
          let p : parse_rss regex timegm_of xml ≡ doc = ground arith in
          subst (λ (d : RssDocument). All IsIdentified d.entries) p
            (each_entry-All (parse_rss_item regex timegm_of) _ rss_item-IsIdentified)
      | inr other ↦ elim (Bool-cases (matches regex timegm_of (bytes "<feed\\b") xml)) [
        | inl atom ↦
            let p : parse_atom regex timegm_of xml ≡ doc = ground arith in
            subst (λ (d : RssDocument). All IsIdentified d.entries) p
              (each_entry-All (parse_atom_entry regex timegm_of) _ atom_entry-IsIdentified)
        | inr neither ↦ ground arith
      ]
    ]
  ]
