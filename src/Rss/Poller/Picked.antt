-- ===== src/Rss/Poller/Picked.antt =====
-- Which entries of a document one scan of a feed hands on.
use cpp_mirror_leech_bot.Prelude.{
  ◌<◌, ◌≡◌, ◌⊎◌, refl, inl, inr, Bool, true, false, Bool-cases, some, Option-cases, List, [], ◌∷◌,
  arith, is_empty, Bytes, All, All-map,
}
use cpp_mirror_leech_bot.Prelude.Order.{bytes_lt}
use cpp_mirror_leech_bot.Persistence.RssFeeds.{RssFeed}
use cpp_mirror_leech_bot.Rss.DocumentParser.{Regex, RssEntry}
use cpp_mirror_leech_bot.Rss.Poller.{
  is_new, matches_optional_regex, entry_passes_filters, scan_entries,
}
use cpp_mirror_leech_bot.Rss.Poller.Scan.{scan_entries-IsHanded}

-- The order of texts by their first difference, a text before those that it begins.
abbrev pub IsBefore : Bytes → Bytes → Type 0
IsBefore _ [] = ⊥
IsBefore [] (y ∷ ys) = Unit {0}
IsBefore (x ∷ xs) (y ∷ ys) = (x < y) ⊎ ((x ≡ y) × IsBefore xs ys)

IsBefore-bytes_lt : (a b : Bytes) → IsBefore a b → bytes_lt a b ≡ true
unfolding bytes_lt
IsBefore-bytes_lt a [] h = absurd h
IsBefore-bytes_lt [] (y ∷ ys) h = refl
IsBefore-bytes_lt (x ∷ xs) (y ∷ ys) (inl h) = ground (arith, h)
IsBefore-bytes_lt (x ∷ xs) (y ∷ ys) (inr h) = ground (arith, h.0, IsBefore-bytes_lt xs ys h.1)

bytes_lt-IsBefore : (a b : Bytes) → bytes_lt a b ≡ true → IsBefore a b
unfolding bytes_lt
bytes_lt-IsBefore a [] h = absurd (ground (arith, h))
bytes_lt-IsBefore [] (y ∷ ys) h = tt
bytes_lt-IsBefore (x ∷ xs) (y ∷ ys) h = ground (arith, h, bytes_lt-IsBefore xs ys)

module _ (regex : Regex) where
  -- The pattern is a regex that the text has a match of, up to case.
  abbrev pub IsMatch : Bytes → Bytes → Type 0
  IsMatch pattern text =
      (regex.compiles pattern ≡ true)
      × ((m : List Bytes) × (regex.search true pattern text ≡ some m))

  -- An entry of a GUID after the last one of the feed, or of any where there was none; whose title
  -- matches what is to be included, if this is set, and not what is to be excluded, if that is.
  pub record IsWanted (feed : RssFeed) (e : RssEntry) : Type 0 where
    pub new : (feed.last_guid ≡ []) ⊎ IsBefore feed.last_guid e.guid
    pub included : (feed.include_regex ≡ []) ⊎ IsMatch feed.include_regex e.title
    pub kept : (feed.exclude_regex ≡ []) ⊎ ¬ IsMatch feed.exclude_regex e.title

  -- The wanted ones of a list, each once and in order.
  pub data Picked (feed : RssFeed) : List RssEntry → List RssEntry → Type 0 where
    nothing : Picked feed [] []
    take :
        {e : RssEntry} {es picked : List RssEntry}
        → IsWanted feed e
        → Picked feed es picked
        → Picked feed (e ∷ es) (e ∷ picked)
    skip :
        {e : RssEntry} {es picked : List RssEntry}
        → ¬ IsWanted feed e
        → Picked feed es picked
        → Picked feed (e ∷ es) picked

  is_empty_nil : (s : Bytes) → is_empty s ≡ true → s ≡ []
  is_empty_nil [] h = refl
  is_empty_nil (c ∷ s) h = absurd (ground (arith, h))

  is_new-IsNew :
      (last : Bytes) (e : RssEntry)
      → is_new regex last e ≡ true
      → (last ≡ []) ⊎ IsBefore last e.guid
  unfolding is_new
  is_new-IsNew [] e h = inl refl
  is_new-IsNew (c ∷ s) e h = inr (bytes_lt-IsBefore (c ∷ s) e.guid h)

  IsNew-is_new :
      (last : Bytes) (e : RssEntry)
      → (last ≡ []) ⊎ IsBefore last e.guid
      → is_new regex last e ≡ true
  unfolding is_new
  IsNew-is_new last e (inl h) = rw h refl
  IsNew-is_new last e (inr h) = ground (arith, IsBefore-bytes_lt last e.guid h)

  matches_unset : (text : Bytes) (b : Bool) → matches_optional_regex regex [] text b ≡ b
  unfolding matches_optional_regex
  matches_unset text b = refl

  matches-cases :
      (pattern text : Bytes) (b : Bool)
      → (pattern ≡ [])
        ⊎ ((IsMatch pattern text × (matches_optional_regex regex pattern text b ≡ true))
            ⊎ ((¬ IsMatch pattern text) × (matches_optional_regex regex pattern text b ≡ false)))
  unfolding matches_optional_regex
  matches-cases [] text b = inl refl
  matches-cases (c ∷ s) text b = elim (Bool-cases (regex.compiles (c ∷ s))) [
    | inr bad ↦ inr (inr (λ h. ground (arith, bad, h.0), rw bad refl))
    | inl good ↦ elim (Option-cases (regex.search true (c ∷ s) text)) [
      | inl miss ↦ inr (inr (λ h. ground (arith, miss, h.1.1), rw (good, miss) refl))
      | inr (m, hit) ↦ inr (inl ((good, (m, hit)), rw (good, hit) refl))
    ]
  ]

  included-cases :
      (pattern text : Bytes)
      → ((matches_optional_regex regex pattern text true ≡ true)
          × ((pattern ≡ []) ⊎ IsMatch pattern text))
        ⊎ ((matches_optional_regex regex pattern text true ≡ false)
            × ¬ ((pattern ≡ []) ⊎ IsMatch pattern text))
  included-cases [] text = inl (matches_unset text true, inl refl)
  included-cases (c ∷ s) text = elim (matches-cases (c ∷ s) text true) [
    | inl e ↦ absurd (ground (arith, e))
    | inr (inl (hit, e)) ↦ inl (e, inr hit)
    | inr (inr (miss, e)) ↦ inr (e, λ h. elim h [ inl n ↦ ground (arith, n) | inr hit ↦ miss hit ])
  ]

  excluded-cases :
      (pattern text : Bytes)
      → ((matches_optional_regex regex pattern text false ≡ false)
          × ((pattern ≡ []) ⊎ ¬ IsMatch pattern text))
        ⊎ ((matches_optional_regex regex pattern text false ≡ true)
            × ¬ ((pattern ≡ []) ⊎ ¬ IsMatch pattern text))
  excluded-cases [] text = inl (matches_unset text false, inl refl)
  excluded-cases (c ∷ s) text = elim (matches-cases (c ∷ s) text false) [
    | inl e ↦ absurd (ground (arith, e))
    | inr (inl (hit, e)) ↦ inr (e, λ h. elim h [ inl n ↦ ground (arith, n) | inr miss ↦ miss hit ])
    | inr (inr (miss, e)) ↦ inl (e, inr miss)
  ]

  -- The code's own test is that of a wanted entry.
  IsWanted-cases :
      (feed : RssFeed) (e : RssEntry)
      → ((is_new regex feed.last_guid e ≡ true)
          × ((entry_passes_filters regex feed e ≡ true) × IsWanted feed e))
        ⊎ (((is_new regex feed.last_guid e ≡ false) ⊎ (entry_passes_filters regex feed e ≡ false))
            × ¬ IsWanted feed e)
  unfolding entry_passes_filters
  IsWanted-cases feed e = elim (Bool-cases (is_new regex feed.last_guid e)) [
    | inr old ↦ inr (inl old, λ h. ground (arith, old, IsNew-is_new feed.last_guid e h.new))
    | inl new ↦ elim (included-cases feed.include_regex e.title) [
      | inr (no_hit, out) ↦ inr (inr (rw no_hit refl), λ h. out h.included)
      | inl (hit, within) ↦ elim (excluded-cases feed.exclude_regex e.title) [
        | inr (bad, out) ↦ inr (inr (rw (hit, bad) refl), λ h. out h.kept)
        | inl (good, kept) ↦ inl (
          new,
          (
            rw (hit, good) refl,
            record { new = is_new-IsNew feed.last_guid e new; included = within; kept = kept },
          ),
        )
      ]
    ]
  ]

  scan_entries-Picks :
      (feed : RssFeed) (newest : Bytes) (es : List RssEntry)
      → Picked feed es (scan_entries regex feed newest es).1
  unfolding scan_entries
  scan_entries-Picks feed newest [] = nothing
  scan_entries-Picks feed newest (e ∷ es) = elim (Bool-cases (bytes_lt newest e.guid)) [
    | inl above ↦ elim (IsWanted-cases feed e) [
      | inl (new, (pass, wanted)) ↦
          rw (new, above, pass) (take wanted (scan_entries-Picks feed e.guid es))
      | inr (inl old, out) ↦ rw old (skip out (scan_entries-Picks feed newest es))
      | inr (inr stopped, out) ↦ elim (Bool-cases (is_new regex feed.last_guid e)) [
        | inl new ↦ rw (new, above, stopped) (skip out (scan_entries-Picks feed e.guid es))
        | inr old ↦ rw old (skip out (scan_entries-Picks feed newest es))
      ]
    ]
    | inr below ↦ elim (IsWanted-cases feed e) [
      | inl (new, (pass, wanted)) ↦
          rw (new, below, pass) (take wanted (scan_entries-Picks feed newest es))
      | inr (inl old, out) ↦ rw old (skip out (scan_entries-Picks feed newest es))
      | inr (inr stopped, out) ↦ elim (Bool-cases (is_new regex feed.last_guid e)) [
        | inl new ↦ rw (new, below, stopped) (skip out (scan_entries-Picks feed newest es))
        | inr old ↦ rw old (skip out (scan_entries-Picks feed newest es))
      ]
    ]
  ]

  -- A scan hands on exactly the wanted entries of the document, each once and in order; and none is
  -- after the GUID that the scan ends with.
  pub scan_entries-Picked :
      (feed : RssFeed) (newest : Bytes) (es : List RssEntry)
      → let (last, handed) = scan_entries regex feed newest es in
        Picked feed es handed × All (λ (e : RssEntry). ¬ IsBefore last e.guid) handed
  scan_entries-Picked feed newest es = (
    scan_entries-Picks feed newest es,
    All-map
        (λ e h k.
          ground (arith, h.1.1, IsBefore-bytes_lt (scan_entries regex feed newest es).0 e.guid k))
        (scan_entries regex feed newest es).1 (scan_entries-IsHanded regex feed newest es),
  )
