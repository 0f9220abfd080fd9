-- ===== src/Rss/Poller.antt =====
-- src/infrastructure/rss/rss_feed_poller.cpp: polling the feeds and handing new entries on. The clock,
-- the replies of the HTTP client, the cancellation state and the faults of the repository are an
-- environment; a handler's exception is caught and only logged, so a handed entry is an entry of `delivered`.
-- `run` is `poll_once` again and again, with a sleep of one minute, until it is cancelled.
pub mod Scan
pub mod Picked
pub mod Recorded
pub mod Once
use cpp_mirror_leech_bot.Prelude.{
  ℕ, suc, ◌+◌, ◌-◌, Bool, true, false, not, ◌&&◌, ◌||◌, ltb, leb, Option, none, some, List, [], ◌∷◌,
  ◌++◌, if◌then◌else◌, Bytes, bytes, is_empty,
}
use cpp_mirror_leech_bot.Prelude.Integers.{ℤ, pos, negsuc, plus}
use cpp_mirror_leech_bot.Prelude.Order.{bytes_lt, lt_ℤ}
use cpp_mirror_leech_bot.Core.Error.{AppError, Result, ok, err}
use cpp_mirror_leech_bot.Domain.Task.{TimePoint}
use cpp_mirror_leech_bot.Persistence.TimeCodec.{TimeCodec}
use cpp_mirror_leech_bot.Persistence.RssFeeds.{RssFeed, FeedTable, list_enabled, update_state}
use cpp_mirror_leech_bot.Rss.DocumentParser.{Regex, RssEntry, RssDocument, parse}

-- The status and the body of a reply.
pub record HttpResponse : Type 0 where
  pub status_code : ℤ
  pub body : Bytes

-- What one scan meets: the clock when it starts and when a feed is done, the reply for a feed, whether
-- the scan is cancelled when it comes to a feed, and the faults of the repository.
pub record Replies : Type 0 where
  pub started : TimePoint
  pub finished : RssFeed → TimePoint
  pub get : RssFeed → Result HttpResponse
  pub is_cancelled : RssFeed → Bool
  pub list_fault : Option AppError
  pub update_fault : RssFeed → Option AppError

-- The feeds, and the entries handed on with the key of their feed, latest first.
pub record PollerState : Type 0 where
  pub table : FeedTable
  pub delivered : List (ℤ × RssEntry)

module _ (regex : Regex) where
  unfoldable pub matches_optional_regex : Bytes → Bytes → Bool → Bool
  matches_optional_regex pattern text default_when_unset =
      if is_empty pattern
      then default_when_unset
      else regex.compiles pattern
        && (elim (regex.search true pattern text) [ none ↦ false | some m ↦ true ])

  unfoldable pub entry_passes_filters : RssFeed → RssEntry → Bool
  entry_passes_filters feed entry =
      matches_optional_regex feed.include_regex entry.title true
      && not (matches_optional_regex feed.exclude_regex entry.title false)

  -- Every entry is new to a feed of which no GUID was seen.
  unfoldable pub is_new : Bytes → RssEntry → Bool
  is_new previous entry = is_empty previous || bytes_lt previous entry.guid

  -- The loop over the entries: the newest GUID after them, and those handed on, in order.
  unfoldable pub scan_entries : RssFeed → Bytes → List RssEntry → Bytes × List RssEntry
  scan_entries feed newest [] = (newest, [])
  scan_entries feed newest (entry ∷ rest) =
      let newest' = if bytes_lt newest entry.guid then entry.guid else newest in
      let skipped = scan_entries feed newest rest in
      let (last, handed) = scan_entries feed newest' rest in
      if not (is_new feed.last_guid entry)
      then skipped
      else if entry_passes_filters feed entry
      then (last, entry ∷ handed)
      else (last, handed)

  module _ (codec : TimeCodec) (to_string : ℤ → Bytes) (timegm_of : Bytes → Bytes → Option ℤ)
      (scan : Replies) where
    -- What `deliver` adds for a feed.
    abbrev pub deliver : ℤ → List RssEntry → List (ℤ × RssEntry) → List (ℤ × RssEntry)
    deliver id [] done = done
    deliver id (e ∷ rest) done = deliver id rest ((id, e) ∷ done)

    -- The part of `process_feed` from the parsed document on.
    unfoldable pub process_document : RssFeed → RssDocument → PollerState → PollerState
    process_document feed doc s =
        let (newest, handed) = scan_entries feed feed.last_guid doc.entries in
        record {
          table =
              (update_state codec to_string (scan.update_fault feed) feed.feed_id newest
                (scan.finished feed) s.table).0;
          delivered = deliver feed.feed_id handed s.delivered;
        }

    -- 200 ≤ status < 300.
    abbrev pub is_success : ℤ → Bool
    is_success (pos n) = leb 200 n && ltb n 300
    is_success (negsuc n) = false

    unfoldable pub process_feed : RssFeed → PollerState → PollerState
    process_feed feed s = elim (scan.get feed) [
      | err e ↦ s
      | ok reply ↦
          if is_success reply.status_code
          then elim (parse regex timegm_of reply.body) [
            | err e ↦ s
            | ok doc ↦ process_document feed doc s
          ]
          else s
    ]

    -- Five minutes since the feed was last checked have not passed.
    abbrev pub is_recent : RssFeed → Bool
    is_recent feed = elim feed.last_checked_at [
      | none ↦ false
      | some checked ↦ lt_ℤ scan.started (plus checked 300000000000)
    ]

    unfoldable pub poll_feeds : List RssFeed → PollerState → PollerState
    poll_feeds [] s = s
    poll_feeds (feed ∷ rest) s =
        let later = poll_feeds rest s in
        let done = poll_feeds rest (process_feed feed s) in
        if is_recent feed then later else if scan.is_cancelled feed then s else done

    unfoldable pub poll_once : PollerState → PollerState
    poll_once s = elim (list_enabled codec scan.list_fault s.table) [
      | err e ↦ s
      | ok feeds ↦ poll_feeds feeds s
    ]
