-- ===== src/Rss/Poller/Once.antt =====
-- What the polls hand on over time, while feeds are added and removed between them.
use cpp_mirror_leech_bot.Prelude.{
  suc, ◌≡◌, ◌⊎◌, refl, inl, inr, ◌∙◌, ap, true, false, ◌||◌, Bool-cases, Option, none, List, [],
  ◌∷◌, ◌++◌, arith, Bytes, is_empty, All, All-append, All-map, append_assoc,
}
use cpp_mirror_leech_bot.Prelude.Integers.{ℤ}
use cpp_mirror_leech_bot.Prelude.Order.{bytes_lt, bytes_lt_trans}
use cpp_mirror_leech_bot.Core.Error.{AppError}
use cpp_mirror_leech_bot.Domain.Identifiers.{ChatId, UserId}
use cpp_mirror_leech_bot.Domain.Task.{TimePoint}
use cpp_mirror_leech_bot.Persistence.TimeCodec.{TimeCodec}
use cpp_mirror_leech_bot.Persistence.RssFeeds.{RssFeed, no_feeds}
use cpp_mirror_leech_bot.Persistence.RssFeeds.Table.{All-insert_row, All-delete_rows}
use cpp_mirror_leech_bot.Application.RssSubscription.{add, remove}
use cpp_mirror_leech_bot.Application.RssSubscription.Laws.{
  add-Grows, add-IsWellFormed, remove-Shrinks, remove_case-IsWellFormed,
}
use cpp_mirror_leech_bot.Rss.DocumentParser.{Regex, RssDocument}
use cpp_mirror_leech_bot.Rss.Poller.{
  Replies, PollerState, is_new, scan_entries, deliver, process_document, process_feed, is_recent,
  poll_feeds, poll_once,
}
use cpp_mirror_leech_bot.Rss.Poller.Scan.{scan_entries-IsHanded, enabled_feeds-All}
use cpp_mirror_leech_bot.Rss.Poller.Recorded.{
  Delivery, NotAbove, IsRecorded, IsRecordedAt, All-deliver, deliver-append, process_feed-cases,
  poll_once-cases, poll_once-IsRecorded,
}

-- Later than every earlier delivery of the same feed, or without a GUID.
abbrev pub IsNewer : List Delivery → Delivery → Type 0
IsNewer olds d =
    All (λ old. old.0 ≡ d.0 → (is_empty d.1.guid ≡ true) ⊎ (bytes_lt old.1.guid d.1.guid ≡ true))
      olds

-- What was handed on is a list of newer deliveries before the old ones.
abbrev Extends : List Delivery → PollerState → PollerState → Type 0
Extends olds s s' =
    (new : List Delivery) × (s'.delivered ≡ new ++ s.delivered) × All (IsNewer olds) new

Extends-trans :
    (olds : List Delivery) (r s t : PollerState)
    → Extends olds r s
    → Extends olds s t
    → Extends olds r t
Extends-trans olds r s t (new, e, h) (more, f, k) = (
  more ++ new,
  f ∙ (ap (λ ds. more ++ ds) e ∙ append_assoc more new r.delivered),
  All-append (IsNewer olds) more new k h,
)

-- A GUID that is new to the record, where the record is not below an old one.
new-guid :
    (old last guid : Bytes)
    → bytes_lt last old ≡ false
    → (is_empty last || bytes_lt last guid) ≡ true
    → (is_empty guid ≡ true) ⊎ (bytes_lt old guid ≡ true)
unfolding bytes_lt
new-guid [] [] [] h k = inl refl
new-guid [] [] (g ∷ gs) h k = inr refl
new-guid (o ∷ os) [] guid h k = ground arith
new-guid old (l ∷ ls) guid h k = inr (bytes_lt_trans old (l ∷ ls) guid h k)

module _ (regex : Regex) (codec : TimeCodec) (show : ℤ → Bytes)
    (timegm_of : Bytes → Bytes → Option ℤ) where
  module _ (scan : Replies) (olds : List Delivery) where
    process_document-Extends :
        (feed : RssFeed) (doc : RssDocument) (s : PollerState)
        → All (λ d. NotAbove d feed.feed_id feed.last_guid) olds
        → Extends olds s (process_document regex codec show timegm_of scan feed doc s)
    unfolding process_document is_new
    process_document-Extends feed doc s h =
        let handed = (scan_entries regex feed feed.last_guid doc.entries).1 in
        (
          deliver regex codec show timegm_of scan feed.feed_id handed [],
          deliver-append regex codec show timegm_of scan feed.feed_id handed [] s.delivered,
          All-deliver regex codec show timegm_of scan (IsNewer olds) feed.feed_id handed []
              (All-map
                (λ e one.
                  All-map (λ old le same. new-guid old.1.guid feed.last_guid e.guid (le same) one.0)
                    olds h)
                handed (scan_entries-IsHanded regex feed feed.last_guid doc.entries))
              tt,
        )

    process_feed-Extends :
        (feed : RssFeed) (s : PollerState)
        → All (λ d. NotAbove d feed.feed_id feed.last_guid) olds
        → Extends olds s (process_feed regex codec show timegm_of scan feed s)
    process_feed-Extends feed s h =
        elim (process_feed-cases regex codec show timegm_of scan feed s) [
          | inl e ↦ rw e ([], refl, tt)
          | inr (doc, e) ↦ rw e (process_document-Extends feed doc s h)
        ]

    poll_feeds-Extends :
        (fs : List RssFeed) (s : PollerState)
        → All (λ f. All (λ d. NotAbove d f.feed_id f.last_guid) olds) fs
        → Extends olds s (poll_feeds regex codec show timegm_of scan fs s)
    unfolding poll_feeds
    poll_feeds-Extends [] s h = ([], refl, tt)
    poll_feeds-Extends (f ∷ fs) s h =
        elim (Bool-cases (is_recent regex codec show timegm_of scan f)) [
          | inl recent ↦ rw recent (poll_feeds-Extends fs s h.1)
          | inr due ↦ elim (Bool-cases (scan.is_cancelled f)) [
            | inl stop ↦ rw (due, stop) ([], refl, tt)
            | inr go ↦
                rw (due, go)
                  (Extends-trans olds s (process_feed regex codec show timegm_of scan f s)
                    (poll_feeds regex codec show timegm_of scan fs
                      (process_feed regex codec show timegm_of scan f s))
                    (process_feed-Extends f s h.0)
                    (poll_feeds-Extends fs (process_feed regex codec show timegm_of scan f s) h.1))
          ]
        ]

  -- One scan, or one call of the subscription's operations between two scans.
  pub data Step (s : PollerState) : PollerState → Type 0 where
    polled :
        (scan : Replies)
        → ((f : RssFeed) → scan.update_fault f ≡ none)
        → Step s (poll_once regex codec show timegm_of scan s)
    added :
        (fault : Option AppError) (now : TimePoint) (feed : RssFeed)
        → Step s (record s { table = (add codec fault now feed s.table).0 })
    removed :
        (find_fault fault : Option AppError) (id : ℤ) (requester : UserId) (chat : ChatId)
        → Step s
            (record s { table = (remove codec show find_fault fault id requester chat s.table).0 })

  -- The states that follow the start, where there is no feed and nothing was handed on.
  pub data Reach : PollerState → Type 0 where
    started : Reach (record { table = no_feeds; delivered = [] })
    after : {s t : PollerState} → Reach s → Step s t → Reach t

  added-IsRecorded :
      (fault : Option AppError) (now : TimePoint) (feed : RssFeed) (s : PollerState)
      → IsRecorded s
      → IsRecorded (record s { table = (add codec fault now feed s.table).0 })
  added-IsRecorded fault now feed s h = elim (add-Grows codec fault now feed s.table) [
    | inl e ↦ rw e h
    | inr (r, key, rows, sequence) ↦
        let n = s.table.sequence in
        record {
          table = add-IsWellFormed codec fault now feed s.table h.table;
          given = rw sequence (All-map (λ d one. omega (arith, one)) s.delivered h.given);
          rows =
              rw (rows, sequence)
                (All-insert_row (λ q. IsRecordedAt (suc n) s.delivered q.feed_id q.last_guid) r
                  s.table.rows
                  (
                    rw key (omega arith),
                    All-map (λ d one same. ground (arith, one, same, key)) s.delivered h.given,
                  )
                  (All-map (λ q one. (omega (arith, one.0), one.1)) s.table.rows h.rows));
        }
  ]

  removed-IsRecorded :
      (find_fault fault : Option AppError) (id : ℤ) (requester : UserId) (chat : ChatId)
      (s : PollerState)
      → IsRecorded s
      → IsRecorded
          (record s { table = (remove codec show find_fault fault id requester chat s.table).0 })
  removed-IsRecorded find_fault fault id requester chat s h =
      let formed =
        remove_case-IsWellFormed codec show find_fault fault id requester chat s.table h.table in
      elim (remove-Shrinks codec show find_fault fault id requester chat s.table) [
        | inl e ↦ rw e h
        | inr (test, e) ↦ record {
          table = formed;
          given = rw e h.given;
          rows = rw e (All-delete_rows _ test s.table.rows h.rows);
        }
      ]

  Step-IsRecorded : (s t : PollerState) → Step s t → IsRecorded s → IsRecorded t
  Step-IsRecorded s _ (polled scan fine) h =
      poll_once-IsRecorded regex codec show timegm_of scan s fine h
  Step-IsRecorded s _ (added fault now feed) h = added-IsRecorded fault now feed s h
  Step-IsRecorded s _ (removed find_fault fault id requester chat) h =
      removed-IsRecorded find_fault fault id requester chat s h

  -- Whatever is polled, added and removed, with no failed update of a feed's state: the key of every
  -- delivery was given out, and the GUID on record of its feed is not below that of the delivery.
  pub Reach-IsRecorded : (s : PollerState) → Reach s → IsRecorded s
  Reach-IsRecorded _ started = record {
    table = record { below = tt; apart = tt };
    given = tt;
    rows = tt;
  }
  Reach-IsRecorded t (after {s} reach step) = Step-IsRecorded s t step (Reach-IsRecorded s reach)

  -- After any sequence of polls whose updates did not fail, and of feeds added and removed, one more
  -- poll, which may fail anywhere, hands on only entries whose GUID is greater than that of every entry
  -- handed on before for the same feed, or is empty.
  pub poll_once-IsNewer :
      (scan : Replies) (s : PollerState)
      → Reach s
      → (new : List Delivery) × ((poll_once regex codec show timegm_of scan s).delivered
          ≡ new ++ s.delivered)
        × All (IsNewer s.delivered) new
  poll_once-IsNewer scan s reach =
      let h = Reach-IsRecorded s reach in
      elim (poll_once-cases regex codec show timegm_of scan s) [
        | inl e ↦ rw e ([], refl, tt)
        | inr (fs, read, e) ↦ rw e (
            poll_feeds-Extends scan s.delivered fs s (
              enabled_feeds-All (λ id guid. All (λ d. NotAbove d id guid) s.delivered) codec
                s.table.rows fs read (All-map (λ r one. one.1) s.table.rows h.rows)))
      ]
