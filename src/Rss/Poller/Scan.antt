-- ===== src/Rss/Poller/Scan.antt =====
-- One feed of a scan: the newest GUID, what is handed on, and the rows that the scan reads and writes.
use mathlib.Core.Path.{subst}
use cpp_mirror_leech_bot.Prelude.{
  ◌≡◌, ◌≢◌, ◌⊎◌, inl, inr, true, false, Bool-cases, List, [], ◌∷◌, ◌==◌, arith, if◌then◌else◌,
  Bytes, All,
}
use cpp_mirror_leech_bot.Prelude.Integers.{ℤ, eq_ℤ, eq_ℤ_iff}
use cpp_mirror_leech_bot.Prelude.Order.{
  bytes_lt, bytes_lt_irreflexive, bytes_lt_asymmetric, bytes_le_trans,
}
use cpp_mirror_leech_bot.Core.Error.{ok, Result-cases}
use cpp_mirror_leech_bot.Persistence.TimeCodec.{TimeCodec}
use cpp_mirror_leech_bot.Persistence.RssFeeds.{RssFeed, FeedRow, set_state, map_row, enabled_feeds}
use cpp_mirror_leech_bot.Rss.DocumentParser.{Regex, RssEntry}
use cpp_mirror_leech_bot.Rss.Poller.{is_new, entry_passes_filters, scan_entries}

-- An entry that is new to the feed and not above a GUID.
abbrev pub IsHanded : Regex → RssFeed → Bytes → RssEntry → Type 0
IsHanded regex feed newest e =
    (is_new regex feed.last_guid e ≡ true)
    × ((entry_passes_filters regex feed e ≡ true) × (bytes_lt newest e.guid ≡ false))

module _ (regex : Regex) (feed : RssFeed) where
  scan_le :
      (newest : Bytes) (es : List RssEntry)
      → bytes_lt (scan_entries regex feed newest es).0 newest ≡ false
  unfolding scan_entries
  scan_le newest [] = bytes_lt_irreflexive newest
  scan_le newest (e ∷ es) = ground (
    arith,
    scan_le newest es,
    scan_le e.guid es,
    bytes_lt_asymmetric newest e.guid,
    bytes_le_trans newest e.guid (scan_entries regex feed e.guid es).0,
  )

  -- One new entry, handed on where it passes the filters.
  hand :
      (newest : Bytes) (e : RssEntry) (es : List RssEntry)
      → is_new regex feed.last_guid e ≡ true
      → bytes_lt newest e.guid ≡ false
      → All
          (IsHanded regex feed (scan_entries regex feed newest es).0)
          (scan_entries regex feed newest es).1
      → let (last, handed) = scan_entries regex feed newest es in
        let after : Bytes × List RssEntry =
          if entry_passes_filters regex feed e then (last, e ∷ handed) else (last, handed) in
        All (IsHanded regex feed after.0) after.1
  hand newest e es new le rest = elim (Bool-cases (entry_passes_filters regex feed e)) [
    | inl pass ↦ rw pass (
      (
        new,
        (
          pass,
          bytes_le_trans e.guid newest (scan_entries regex feed newest es).0 le (scan_le newest es),
        ),
      ),
      rest,
    )
    | inr filtered ↦ rw filtered rest
  ]

  -- What is handed on is new, passes the filters, and is not above the newest GUID that the scan ends with.
  pub scan_entries-IsHanded :
      (newest : Bytes) (es : List RssEntry)
      → All
          (IsHanded regex feed (scan_entries regex feed newest es).0)
          (scan_entries regex feed newest es).1
  unfolding scan_entries
  scan_entries-IsHanded newest [] = tt
  scan_entries-IsHanded newest (e ∷ es) = elim (Bool-cases (is_new regex feed.last_guid e)) [
    | inr old ↦ rw old (scan_entries-IsHanded newest es)
    | inl new ↦ elim (Bool-cases (bytes_lt newest e.guid)) [
      | inl above ↦
          rw (new, above)
            (hand e.guid e es new (bytes_lt_irreflexive e.guid) (scan_entries-IsHanded e.guid es))
      | inr below ↦ rw (new, below) (hand newest e es new below (scan_entries-IsHanded newest es))
    ]
  ]

  pub scan_entries-newest :
      (es : List RssEntry)
      → bytes_lt (scan_entries regex feed feed.last_guid es).0 feed.last_guid ≡ false
  scan_entries-newest es = scan_le feed.last_guid es

module _ (codec : TimeCodec) where
  pub map_row-keys :
      (r : FeedRow) (f : RssFeed)
      → map_row codec r ≡ ok f
      → (r.feed_id ≡ f.feed_id) × (r.last_guid ≡ f.last_guid)
  unfolding map_row
  map_row-keys r f h = ground arith

  pub enabled_feeds-nil : (fs : List RssFeed) → enabled_feeds codec [] ≡ ok fs → [] ≡ fs
  unfolding enabled_feeds
  enabled_feeds-nil fs h = ground arith

  -- A row is left out, or its feed is the first.
  pub enabled_feeds-cases :
      (r : FeedRow) (rows : List FeedRow) (fs : List RssFeed)
      → enabled_feeds codec (r ∷ rows) ≡ ok fs
      → (enabled_feeds codec rows ≡ ok fs)
        ⊎ ((f : RssFeed) × (rest : List RssFeed) × (map_row codec r ≡ ok f)
            × (enabled_feeds codec rows ≡ ok rest)
            × (f ∷ rest ≡ fs))
  unfolding enabled_feeds
  enabled_feeds-cases r rows fs h = elim (Bool-cases (r.enabled == 1)) [
    | inr off ↦ inl (ground arith)
    | inl on ↦ elim (Result-cases (map_row codec r)) [
      | inr (e, bad) ↦ ground arith
      | inl (f, read) ↦ elim (Result-cases (enabled_feeds codec rows)) [
        | inr (e, bad) ↦ ground arith
        | inl (rest, all) ↦ inr (f, rest, read, all, ground arith)
      ]
    ]
  ]

module _ {κ} (K : ℤ → Bytes → Type κ) where
  abbrev pub OnRow : FeedRow → Type κ
  OnRow r = K r.feed_id r.last_guid

  abbrev pub OnFeed : RssFeed → Type κ
  OnFeed f = K f.feed_id f.last_guid

  -- What holds of the rows after one feed's state was set.
  pub set_state-All :
      (id : ℤ) (guid checked : Bytes) (rows : List FeedRow)
      → K id guid
      → All (λ r. r.feed_id ≢ id → OnRow r) rows
      → All OnRow (set_state id guid checked rows)
  unfolding set_state
  set_state-All id guid checked [] k h = tt
  set_state-All id guid checked (r ∷ rows) k h =
      let (one, more) = h in
      let rest = set_state-All id guid checked rows k more in
      elim (Bool-cases (eq_ℤ r.feed_id id)) [
        | inl e ↦
            let same : id ≡ r.feed_id = ground (arith, eq_ℤ_iff r.feed_id id) in
            rw e (subst (λ i. K i guid) same k, rest)
        | inr e ↦ rw e (one (λ p. ground (arith, eq_ℤ_iff r.feed_id id)), rest)
      ]

  module _ (codec : TimeCodec) where
    map_row-OnFeed : (r : FeedRow) (f : RssFeed) → map_row codec r ≡ ok f → OnRow r → OnFeed f
    map_row-OnFeed r f h k =
        let (key, guid) = map_row-keys codec r f h in
        subst (λ i. K i f.last_guid) key (subst (λ g. K r.feed_id g) guid k)

    -- What holds of the rows holds of the feeds read from them.
    pub enabled_feeds-All :
        (rows : List FeedRow) (fs : List RssFeed)
        → enabled_feeds codec rows ≡ ok fs
        → All OnRow rows
        → All OnFeed fs
    enabled_feeds-All [] fs h k =
        let p : [] ≡ fs = enabled_feeds-nil codec fs h in subst (All OnFeed) p k
    enabled_feeds-All (r ∷ rows) fs h k =
        let (one, more) = k in
        elim (enabled_feeds-cases codec r rows fs h) [
          | inl off ↦ enabled_feeds-All rows fs off more
          | inr (f, rest, read, all, p) ↦
              subst (All OnFeed) p
                (map_row-OnFeed r f read one, enabled_feeds-All rows rest all more)
        ]
