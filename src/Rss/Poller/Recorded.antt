-- ===== src/Rss/Poller/Recorded.antt =====
-- The GUIDs on record bound what was handed on, and a poll keeps that so.
use mathlib.Core.Path.{subst}
use cpp_mirror_leech_bot.Prelude.{
  ℕ, ◌≤◌, ◌≡◌, ◌≢◌, ◌⊎◌, refl, ◌∙◌, sym, inl, inr, false, Bool-cases, Option, none, some,
  Option-cases, List, [], ◌∷◌, ◌++◌, arith, Bytes, All, All-map, All-zip,
}
use cpp_mirror_leech_bot.Prelude.Integers.{ℤ, pos_part}
use cpp_mirror_leech_bot.Prelude.Order.{bytes_lt, bytes_le_trans}
use cpp_mirror_leech_bot.Core.Error.{AppError, ok, Result-cases}
use cpp_mirror_leech_bot.Domain.Task.{TimePoint}
use cpp_mirror_leech_bot.Persistence.TimeCodec.{TimeCodec}
use cpp_mirror_leech_bot.Persistence.RssFeeds.{
  RssFeed, FeedRow, FeedTable, set_state, select_row, enabled_feeds, list_enabled, update_state,
}
use cpp_mirror_leech_bot.Persistence.RssFeeds.Table.{IsWellFormed, Apart, update_state-IsWellFormed}
use cpp_mirror_leech_bot.Rss.DocumentParser.{Regex, RssEntry, RssDocument, parse}
use cpp_mirror_leech_bot.Rss.Poller.{
  Replies, PollerState, scan_entries, deliver, process_document, process_feed, is_recent,
  is_success, poll_feeds, poll_once,
}
use cpp_mirror_leech_bot.Rss.Poller.Scan.{
  IsHanded, scan_entries-IsHanded, scan_entries-newest, set_state-All, enabled_feeds-All,
  enabled_feeds-nil, enabled_feeds-cases, map_row-keys,
}

-- A feed and an entry that was handed on for it.
abbrev pub Delivery : Type 0
Delivery = ℤ × RssEntry

-- The GUID that a feed has on record is not below the delivery's, if it is of the feed.
abbrev pub NotAbove : Delivery → ℤ → Bytes → Type 0
NotAbove d id guid = d.0 ≡ id → bytes_lt guid d.1.guid ≡ false

-- A key that was given out, of a feed whose record is not below any delivery.
abbrev pub IsRecordedAt : ℕ → List Delivery → ℤ → Bytes → Type 0
IsRecordedAt n ds id guid = (pos_part id ≤ n) × All (λ d. NotAbove d id guid) ds

pub record IsRecorded (s : PollerState) : Type 0 where
  pub table : IsWellFormed s.table
  pub given : All (λ d. pos_part d.0 ≤ s.table.sequence) s.delivered
  pub rows : All (λ r. IsRecordedAt s.table.sequence s.delivered r.feed_id r.last_guid) s.table.rows

-- Different keys.
abbrev ApartFeeds : List RssFeed → Type 0
ApartFeeds [] = Unit
ApartFeeds (f ∷ fs) = All (λ g. f.feed_id ≢ g.feed_id) fs × ApartFeeds fs

module _ (regex : Regex) (codec : TimeCodec) (show : ℤ → Bytes)
    (timegm_of : Bytes → Bytes → Option ℤ) (scan : Replies) where
  pub All-deliver :
      (Q : Delivery → Type 0) (id : ℤ) (es : List RssEntry) (done : List Delivery)
      → All (λ e. Q (id, e)) es
      → All Q done
      → All Q (deliver regex codec show timegm_of scan id es done)
  All-deliver Q id [] done h k = k
  All-deliver Q id (e ∷ es) done h k =
      let (one, more) = h in All-deliver Q id es ((id, e) ∷ done) more (one, k)

  pub deliver-append :
      (id : ℤ) (es : List RssEntry) (new old : List Delivery)
      → deliver regex codec show timegm_of scan id es (new ++ old)
        ≡ deliver regex codec show timegm_of scan id es new ++ old
  deliver-append id [] new old = refl
  deliver-append id (e ∷ es) new old = deliver-append id es ((id, e) ∷ new) old

  absent :
      (id : ℤ) (guid checked : Bytes) (rows : List FeedRow)
      → select_row id rows ≡ none
      → set_state id guid checked rows ≡ rows
  unfolding select_row set_state
  absent id guid checked [] h = refl
  absent id guid checked (r ∷ rows) h = ground (arith, absent id guid checked rows)

  -- Without a fault, `update_state` leaves the rows that `set_state` gives, found or not.
  update_state-rows :
      (fault : Option AppError) (id : ℤ) (guid : Bytes) (checked : TimePoint) (table : FeedTable)
      → fault ≡ none
      → ((update_state codec show fault id guid checked table).0.rows
          ≡ set_state id guid (codec.to_iso8601 checked) table.rows)
        × ((update_state codec show fault id guid checked table).0.sequence ≡ table.sequence)
  unfolding update_state
  update_state-rows (some e) id guid checked table h = ground arith
  update_state-rows none id guid checked table h =
      ground (arith, absent id guid (codec.to_iso8601 checked) table.rows)

  -- A feed of another key keeps its record.
  advance :
      (feed : RssFeed) (newest : Bytes) (handed : List RssEntry) (n : ℕ) (ds : List Delivery)
      (id : ℤ) (guid : Bytes)
      → All (IsHanded regex feed newest) handed
      → id ≢ feed.feed_id
      → IsRecordedAt n ds id guid
      → IsRecordedAt n (deliver regex codec show timegm_of scan feed.feed_id handed ds) id guid
  advance feed newest handed n ds id guid h other k =
      let (below, old) = k in
      (
        below,
        All-deliver (λ d. NotAbove d id guid) feed.feed_id handed ds
            (All-map (λ e one same. absurd (other (sym same))) handed h) old,
      )

  -- The feed that was scanned has the newest GUID on record.
  renew :
      (feed : RssFeed) (newest : Bytes) (handed : List RssEntry) (n : ℕ) (ds : List Delivery)
      → All (IsHanded regex feed newest) handed
      → bytes_lt newest feed.last_guid ≡ false
      → IsRecordedAt n ds feed.feed_id feed.last_guid
      → IsRecordedAt n
          (deliver regex codec show timegm_of scan feed.feed_id handed ds)
          feed.feed_id
          newest
  renew feed newest handed n ds h le k =
      let (below, old) = k in
      (
        below,
        All-deliver (λ d. NotAbove d feed.feed_id newest) feed.feed_id handed ds
            (All-map (λ e one same. one.1.1) handed h)
            (All-map (λ d one same. bytes_le_trans d.1.guid feed.last_guid newest (one same) le) ds
              old),
      )

  -- What a scan keeps true of the state, and of the feeds that it has yet to come to.
  abbrev Kept : List RssFeed → PollerState → Type 0
  Kept fs s =
      IsRecorded s × All (λ f. IsRecordedAt s.table.sequence s.delivered f.feed_id f.last_guid) fs

  process_document-Kept :
      (feed : RssFeed) (fs : List RssFeed) (doc : RssDocument) (s : PollerState)
      → scan.update_fault feed ≡ none
      → ApartFeeds (feed ∷ fs)
      → Kept (feed ∷ fs) s
      → Kept fs (process_document regex codec show timegm_of scan feed doc s)
  unfolding process_document
  process_document-Kept feed fs doc s ok_update apart h =
      let (recorded, feeds) = h in
      let (first, others) = feeds in
      let (distinct, rest) = apart in
      let newest = (scan_entries regex feed feed.last_guid doc.entries).0 in
      let handed = (scan_entries regex feed feed.last_guid doc.entries).1 in
      let new = scan_entries-IsHanded regex feed feed.last_guid doc.entries in
      let n = s.table.sequence in
      let le = scan_entries-newest regex feed doc.entries in
      let eqs =
        update_state-rows (scan.update_fault feed) feed.feed_id newest (scan.finished feed) s.table
          ok_update in
      (
        record {
          table =
              update_state-IsWellFormed codec show _ feed.feed_id newest _ s.table recorded.table;
          given = rw eqs.1 (
              All-deliver (λ d. pos_part d.0 ≤ n) feed.feed_id handed s.delivered
                (All-map (λ e one. first.0) handed new) recorded.given);
          rows =
              rw (eqs.0, eqs.1)
                (set_state-All
                  (IsRecordedAt n
                    (deliver regex codec show timegm_of scan feed.feed_id handed s.delivered))
                  feed.feed_id newest _ s.table.rows
                  (renew feed newest handed n s.delivered new le first)
                  (All-map (λ r one ne. advance feed newest handed n s.delivered _ _ new ne one)
                    s.table.rows recorded.rows));
        },
        rw eqs.1 (
            All-zip
              (λ f ne one. advance feed newest handed n s.delivered _ _ new (λ p. ne (sym p)) one)
              fs distinct others),
      )

  -- A feed is left as it is, or its document was read.
  pub process_feed-cases :
      (feed : RssFeed) (s : PollerState)
      → (process_feed regex codec show timegm_of scan feed s ≡ s)
        ⊎ ((doc : RssDocument) × (process_feed regex codec show timegm_of scan feed s
              ≡ process_document regex codec show timegm_of scan feed doc s))
  unfolding process_feed
  process_feed-cases feed s = elim (Result-cases (scan.get feed)) [
    | inr (e, bad) ↦ inl (ground arith)
    | inl (reply, got) ↦ elim (Result-cases (parse regex timegm_of reply.body)) [
      | inr (e, bad) ↦ inl (ground arith)
      | inl (doc, read) ↦
          elim (Bool-cases (is_success regex codec show timegm_of scan reply.status_code)) [
            | inl fine ↦ inr (doc, ground arith)
            | inr other ↦ inl (ground arith)
          ]
    ]
  ]

  process_feed-Kept :
      (feed : RssFeed) (fs : List RssFeed) (s : PollerState)
      → scan.update_fault feed ≡ none
      → ApartFeeds (feed ∷ fs)
      → Kept (feed ∷ fs) s
      → Kept fs (process_feed regex codec show timegm_of scan feed s)
  process_feed-Kept feed fs s ok_update apart h =
      let kept : Kept fs s = (h.0, h.1.1) in
      elim (process_feed-cases feed s) [
        | inl e ↦ rw e kept
        | inr (doc, e) ↦ rw e (process_document-Kept feed fs doc s ok_update apart h)
      ]

  poll_feeds-IsRecorded :
      (fs : List RssFeed) (s : PollerState)
      → ((f : RssFeed) → scan.update_fault f ≡ none)
      → ApartFeeds fs
      → Kept fs s
      → IsRecorded (poll_feeds regex codec show timegm_of scan fs s)
  unfolding poll_feeds
  poll_feeds-IsRecorded [] s fine apart h = h.0
  poll_feeds-IsRecorded (f ∷ fs) s fine apart h =
      elim (Bool-cases (is_recent regex codec show timegm_of scan f)) [
        | inl recent ↦ rw recent (poll_feeds-IsRecorded fs s fine apart.1 (h.0, h.1.1))
        | inr due ↦ elim (Bool-cases (scan.is_cancelled f)) [
          | inl stop ↦ rw (due, stop) h.0
          | inr go ↦
              rw (due, go)
                (poll_feeds-IsRecorded fs _ fine apart.1
                  (process_feed-Kept f fs s (fine f) apart h))
        ]
      ]

  enabled_feeds-ApartFeeds :
      (rows : List FeedRow) (fs : List RssFeed)
      → enabled_feeds codec rows ≡ ok fs
      → Apart rows
      → ApartFeeds fs
  enabled_feeds-ApartFeeds [] fs h k =
      let p : [] ≡ fs = enabled_feeds-nil codec fs h in subst ApartFeeds p tt
  enabled_feeds-ApartFeeds (r ∷ rows) fs h k =
      let (first, more) = k in
      elim (enabled_feeds-cases codec r rows fs h) [
        | inl off ↦ enabled_feeds-ApartFeeds rows fs off more
        | inr (f, rest, read, all, p) ↦
            let same = (map_row-keys codec r f read).0 in
            let others =
              enabled_feeds-All (λ id guid. r.feed_id ≢ id) codec rows rest all
                (All-map (λ s one. one.0) rows first) in
            subst ApartFeeds p (
              All-map (λ g ne q. ne (same ∙ q)) rest others,
              enabled_feeds-ApartFeeds rows rest all more,
            )
      ]

  -- A poll does nothing, or goes through the feeds that the table holds.
  pub poll_once-cases :
      (s : PollerState)
      → (poll_once regex codec show timegm_of scan s ≡ s)
        ⊎ ((fs : List RssFeed) × (enabled_feeds codec s.table.rows ≡ ok fs)
            × (poll_once regex codec show timegm_of scan s
                ≡ poll_feeds regex codec show timegm_of scan fs s))
  unfolding poll_once list_enabled
  poll_once-cases s = elim (Option-cases scan.list_fault) [
    | inr (e, fault) ↦ inl (ground arith)
    | inl fine ↦ elim (Result-cases (enabled_feeds codec s.table.rows)) [
      | inr (e, bad) ↦ inl (ground arith)
      | inl (fs, read) ↦ inr (fs, read, ground arith)
    ]
  ]

  pub poll_once-IsRecorded :
      (s : PollerState)
      → ((f : RssFeed) → scan.update_fault f ≡ none)
      → IsRecorded s
      → IsRecorded (poll_once regex codec show timegm_of scan s)
  poll_once-IsRecorded s fine h = elim (poll_once-cases s) [
    | inl e ↦ rw e h
    | inr (fs, read, e) ↦ rw e (
        poll_feeds-IsRecorded fs s fine
          (enabled_feeds-ApartFeeds s.table.rows fs read h.table.apart)
          (
            h,
            enabled_feeds-All (IsRecordedAt s.table.sequence s.delivered) codec s.table.rows fs read
                h.rows,
          ))
  ]
