-- ===== src/Examples/Rss.antt =====
-- A feed that is added, polled twice and removed, with the simplest patterns: every pattern matches the
-- whole text.
use cpp_mirror_leech_bot.Prelude.{
  ◌≡◌, refl, bytes, starts_with, true, false, Option, none, some, List, [], ◌∷◌, ◌++◌, Bytes, All,
}
use cpp_mirror_leech_bot.Prelude.Integers.{ℤ, pos}
use cpp_mirror_leech_bot.Prelude.Order.{bytes_lt}
use cpp_mirror_leech_bot.Core.Error.{ok}
use cpp_mirror_leech_bot.Domain.Task.{TimePoint}
use cpp_mirror_leech_bot.Persistence.RssFeeds.{
  RssFeed, FeedTable, no_feeds, save, insert, has_url, insert_row, row_of, list_enabled,
  enabled_feeds, map_row, update_state, select_row, set_state,
}
use cpp_mirror_leech_bot.Persistence.RssFeeds.View.{
  FeedOp, set_feed_state, spec_of, view, perform, asked, view-perform,
}
use cpp_mirror_leech_bot.Application.RssSubscription.{add}
use cpp_mirror_leech_bot.Rss.DocumentParser.{
  RssEntry, Regex, RssDocument, parse, matches, parse_rss, parse_rss_item, first_tag_text,
  unwrap_cdata,
}
use cpp_mirror_leech_bot.Rss.DocumentParser.Entries.{IsIdentified, parse-IsIdentified}
use cpp_mirror_leech_bot.Rss.Poller.{
  Replies, PollerState, poll_once, poll_feeds, process_feed, process_document, scan_entries, is_new,
  entry_passes_filters, matches_optional_regex,
}
use cpp_mirror_leech_bot.Rss.Poller.Picked.{IsBefore, Picked, scan_entries-Picked}
use cpp_mirror_leech_bot.Rss.Poller.Recorded.{Delivery, IsRecorded}
use cpp_mirror_leech_bot.Rss.Poller.Once.{
  Reach, started, after, polled, added, IsNewer, Reach-IsRecorded, poll_once-IsNewer,
}
use cpp_mirror_leech_bot.Examples.Data.{plain_codec, print_time, read_time}

abbrev whole_text : Regex
whole_text = record {
  compiles = λ p. true;
  search = λ icase p text. some (text ∷ text ∷ []);
  search_all = λ icase p text. (0, text ∷ text ∷ []) ∷ [];
}

abbrev undated : Bytes → Bytes → Option ℤ
undated format text = none

abbrev show_nothing : ℤ → Bytes
show_nothing n = []

-- "http://a".
abbrev site : Bytes
site = b'h' ∷ b't' ∷ b't' ∷ b'p' ∷ b':' ∷ b'/' ∷ b'/' ∷ b'a' ∷ []

abbrev first_feed : RssFeed
first_feed = record {
  feed_id = pos 0;
  title = [];
  url = site;
  chat = pos 100;
  include_regex = [];
  exclude_regex = [];
  last_guid = [];
  last_checked_at = none;
  enabled = true;
  created_at = pos 5;
}

-- A scan at a time at which every feed's document is the body.
abbrev scan_of : TimePoint → Bytes → Replies
scan_of time body = record {
  started = time;
  finished = λ f. time;
  get = λ f. ok (record { status_code = pos 200; body = body });
  is_cancelled = λ f. false;
  list_fault = none;
  update_fault = λ f. none;
}

abbrev first_scan : Replies
first_scan = scan_of (pos 1000000000) (b'p' ∷ [])

abbrev second_scan : Replies
second_scan = scan_of (pos 999000000000) (b'q' ∷ [])

abbrev empty_state : PollerState
empty_state = record { table = no_feeds; delivered = [] }

abbrev added_state : PollerState
added_state = record empty_state { table = (add plain_codec none (pos 6) first_feed no_feeds).0 }

abbrev polled_state : PollerState
polled_state = poll_once whole_text plain_codec show_nothing undated first_scan added_state

polled_state-Reach : Reach whole_text plain_codec show_nothing undated polled_state
polled_state-Reach =
    after (after started (added none (pos 6) first_feed)) (polled first_scan (λ f. refl))

abbrev polled_twice : PollerState
polled_twice = poll_once whole_text plain_codec show_nothing undated second_scan polled_state

abbrev guids : List Delivery → List (ℤ × Bytes)
guids [] = []
guids (d ∷ rest) = (d.0, d.1.guid) ∷ guids rest

-- Both scans hand on their entry.
test_polled : guids polled_twice.delivered ≡ (pos 1, b'q' ∷ []) ∷ (pos 1, b'p' ∷ []) ∷ []
unfolding add save insert has_url insert_row row_of starts_with bytes poll_once list_enabled
    enabled_feeds map_row poll_feeds process_feed process_document scan_entries is_new bytes_lt
    entry_passes_filters matches_optional_regex update_state select_row set_state parse matches
    parse_rss parse_rss_item first_tag_text unwrap_cdata plain_codec print_time read_time
test_polled = refl

poll_once-IsNewer_example :
    (new : List Delivery) × (polled_twice.delivered ≡ new ++ polled_state.delivered)
    × All (IsNewer polled_state.delivered) new
poll_once-IsNewer_example =
    poll_once-IsNewer whole_text plain_codec show_nothing undated second_scan polled_state
      polled_state-Reach

Reach-IsRecorded_example : IsRecorded polled_state
Reach-IsRecorded_example =
    Reach-IsRecorded whole_text plain_codec show_nothing undated polled_state polled_state-Reach

abbrev polled_table : FeedTable
polled_table = polled_state.table

abbrev later_op : FeedOp
later_op = set_feed_state (pos 1) (b'z' ∷ []) (pos 7)

view-perform_example :
    view (perform plain_codec show_nothing later_op polled_table) (pos 1)
    ≡ asked plain_codec show_nothing later_op (spec_of polled_table) (pos 1)
view-perform_example =
    view-perform plain_codec show_nothing later_op polled_table (pos 1)
      (Reach-IsRecorded whole_text plain_codec show_nothing undated polled_state
        polled_state-Reach).table

abbrev one_item : RssDocument
one_item = parse_rss whole_text undated (b'p' ∷ [])

reads_one_item : parse whole_text undated (b'p' ∷ []) ≡ ok one_item
unfolding parse matches
reads_one_item = refl

one_item-IsIdentified : All IsIdentified one_item.entries
one_item-IsIdentified = parse-IsIdentified whole_text undated (b'p' ∷ []) one_item reads_one_item

scan_entries-Picked_example :
    let (last, handed) = scan_entries whole_text first_feed [] one_item.entries in
    Picked whole_text first_feed one_item.entries handed
    × All (λ (e : RssEntry). ¬ IsBefore last e.guid) handed
scan_entries-Picked_example = scan_entries-Picked whole_text first_feed [] one_item.entries
