-- ===== src/Persistence/RssFeeds.antt =====
-- include/cmlb/infrastructure/persistence/rss_feed_repository.hpp and
-- src/infrastructure/persistence/sqlite_rss_feed_repository.cpp: the feed subscriptions, on the rows of
-- the table `rss_feeds` of V0002__rss_feeds.sql. A statement is what SQLite documents of it: `feed_id` is
-- an AUTOINCREMENT key, `url` is UNIQUE, and OR REPLACE deletes the rows in conflict. `fault` is the
-- error of the pool or of the statement, which leaves the table as it was.
pub mod Table
pub mod View
use Prim.Native.Nat.{max}
use cpp_mirror_leech_bot.Prelude.{
  ℕ, zero, suc, ◌==◌, Bool, true, false, Option, none, some, List, [], ◌∷◌, ◌++◌, if◌then◌else◌,
  Bytes, bytes, bytes_eq, ◌||◌,
}
use cpp_mirror_leech_bot.Prelude.Integers.{ℤ, pos, pos_part, eq_ℤ}
use cpp_mirror_leech_bot.Prelude.Order.{lt_ℤ}
use cpp_mirror_leech_bot.Core.Error.{
  AppError, Result, ok, err, error, already_exists, not_found, ◌>>=◌,
}
use cpp_mirror_leech_bot.Domain.Identifiers.{ChatId}
use cpp_mirror_leech_bot.Domain.Task.{TimePoint}
use cpp_mirror_leech_bot.Persistence.TimeCodec.{TimeCodec}

pub record RssFeed : Type 0 where
  pub feed_id : ℤ
  pub title : Bytes
  pub url : Bytes
  pub chat : ChatId
  pub include_regex : Bytes
  pub exclude_regex : Bytes
  pub last_guid : Bytes
  pub last_checked_at : Option TimePoint
  pub enabled : Bool
  pub created_at : TimePoint

-- A row: times as text, and `enabled` as a number.
pub record FeedRow : Type 0 where
  pub feed_id : ℤ
  pub title : Bytes
  pub url : Bytes
  pub chat_id : ℤ
  pub include_regex : Bytes
  pub exclude_regex : Bytes
  pub last_guid : Bytes
  pub last_checked_at : Option Bytes
  pub enabled : ℕ
  pub created_at : Bytes

-- The rows in the order of their keys, and the greatest key that was ever given out.
pub record FeedTable : Type 0 where
  pub rows : List FeedRow
  pub sequence : ℕ

abbrev pub no_feeds : FeedTable
no_feeds = record { rows = []; sequence = 0 }

-- `WHERE feed_id = ?`.
unfoldable pub select_row : ℤ → List FeedRow → Option FeedRow
select_row id [] = none
select_row id (r ∷ rows) = if eq_ℤ r.feed_id id then some r else select_row id rows

-- The rows that a test does not take.
unfoldable pub delete_rows : (FeedRow → Bool) → List FeedRow → List FeedRow
delete_rows test [] = []
delete_rows test (r ∷ rows) = let rest = delete_rows test rows in if test r then rest else r ∷ rest

-- A new row, at the place of its key.
unfoldable pub insert_row : FeedRow → List FeedRow → List FeedRow
insert_row r [] = r ∷ []
insert_row r (s ∷ rows) =
    let rest = insert_row r rows in if lt_ℤ s.feed_id r.feed_id then s ∷ rest else r ∷ s ∷ rows

-- Whether a row has the URL.
unfoldable pub has_url : Bytes → List FeedRow → Bool
has_url url [] = false
has_url url (r ∷ rows) = bytes_eq r.url url || has_url url rows

-- `SET last_guid = ?, last_checked_at = ? WHERE feed_id = ?`.
unfoldable pub set_state : ℤ → Bytes → Bytes → List FeedRow → List FeedRow
set_state id guid checked [] = []
set_state id guid checked (r ∷ rows) =
    (if eq_ℤ r.feed_id id then record r { last_guid = guid; last_checked_at = some checked } else r)
    ∷ set_state id guid checked rows

module _ (codec : TimeCodec) where
  abbrev optional_text : Option TimePoint → Option Bytes
  optional_text none = none
  optional_text (some t) = some (codec.to_iso8601 t)

  -- What `save` binds to the columns.
  unfoldable pub row_of : RssFeed → FeedRow
  row_of f = record {
    feed_id = f.feed_id;
    title = f.title;
    url = f.url;
    chat_id = f.chat;
    include_regex = f.include_regex;
    exclude_regex = f.exclude_regex;
    last_guid = f.last_guid;
    last_checked_at = optional_text f.last_checked_at;
    enabled = if f.enabled then 1 else 0;
    created_at = codec.to_iso8601 f.created_at;
  }

  abbrev optional_time : Option Bytes → Result (Option TimePoint)
  optional_time none = ok none
  optional_time (some text) = do t ← codec.parse_iso8601 text; ok (some t)

  abbrev is_set : ℕ → Bool
  is_set zero = false
  is_set (suc n) = true

  unfoldable pub map_row : FeedRow → Result RssFeed
  map_row r = do
    created ← codec.parse_iso8601 r.created_at
    checked ← optional_time r.last_checked_at
    ok (record {
      feed_id = r.feed_id;
      title = r.title;
      url = r.url;
      chat = r.chat_id;
      include_regex = r.include_regex;
      exclude_regex = r.exclude_regex;
      last_guid = r.last_guid;
      last_checked_at = checked;
      enabled = is_set r.enabled;
      created_at = created;
    })

  -- The rows `WHERE enabled = 1 ORDER BY feed_id`, up to the first that cannot be read.
  unfoldable pub enabled_feeds : List FeedRow → Result (List RssFeed)
  enabled_feeds [] = ok []
  enabled_feeds (r ∷ rows) =
      let rest = enabled_feeds rows in
      if r.enabled == 1 then (do f ← map_row r; fs ← rest; ok (f ∷ fs)) else rest

  unfoldable pub list_enabled : Option AppError → FeedTable → Result (List RssFeed)
  list_enabled (some e) table = err e
  list_enabled none table = enabled_feeds table.rows

  -- What `find` makes of the row that the query gave, if any.
  found : Option FeedRow → Result (Option RssFeed)
  found none = ok none
  found (some r) = do f ← map_row r; ok (some f)

  unfoldable pub find : Option AppError → ℤ → FeedTable → Result (Option RssFeed)
  unfolding found
  find (some e) id table = err e
  find none id table = found (select_row id table.rows)

  abbrev pub with_created : TimePoint → RssFeed → RssFeed
  with_created now f = if eq_ℤ f.created_at (pos 0) then record f { created_at = now } else f

  -- `INSERT INTO rss_feeds`, which gives the next key.
  unfoldable pub insert : RssFeed → FeedTable → FeedTable × Result RssFeed
  unfolding bytes
  insert feed table =
      let id = suc table.sequence in
      let stored : RssFeed = record feed { feed_id = pos id } in
      let after : FeedTable = record {
        rows = insert_row (row_of stored) table.rows;
        sequence = id;
      } in
      if has_url feed.url table.rows
      then (table, error already_exists (bytes "rss_feeds.save: URL already exists: " ++ feed.url))
      else (after, ok stored)

  -- `INSERT OR REPLACE INTO rss_feeds`.
  unfoldable pub replace : RssFeed → FeedTable → FeedTable × Result RssFeed
  replace feed table =
      let conflicts = λ (r : FeedRow). eq_ℤ r.feed_id feed.feed_id || bytes_eq r.url feed.url in
      let after : FeedTable = record {
        rows = insert_row (row_of feed) (delete_rows conflicts table.rows);
        sequence = max table.sequence (pos_part feed.feed_id);
      } in
      (after, ok feed)

  -- `feed_id = 0` asks for a new row; any other identifier replaces.
  unfoldable pub save :
      Option AppError → TimePoint → RssFeed → FeedTable → FeedTable × Result RssFeed
  save (some e) now feed table = (table, err e)
  save none now feed table =
      let dated = with_created now feed in
      if eq_ℤ dated.feed_id (pos 0) then insert dated table else replace dated table

  -- `to_string` is `std::to_string` of a number.
  unfoldable pub update_state :
      (ℤ → Bytes)
      → Option AppError
      → ℤ
      → Bytes
      → TimePoint
      → FeedTable
      → FeedTable × Result (Unit {0})
  unfolding bytes
  update_state to_string (some e) id guid checked table = (table, err e)
  update_state to_string none id guid checked table = elim (select_row id table.rows) [
    | none ↦ (
      table,
      error not_found (bytes "rss_feeds.update_state: no row for feed_id " ++ to_string id),
    )
    | some r ↦
        (record table { rows = set_state id guid (codec.to_iso8601 checked) table.rows }, ok tt)
  ]

unfoldable pub remove :
    (ℤ → Bytes) → Option AppError → ℤ → FeedTable → FeedTable × Result (Unit {0})
unfolding bytes
remove to_string (some e) id table = (table, err e)
remove to_string none id table = elim (select_row id table.rows) [
  | none ↦ (table, error not_found (bytes "rss_feeds.remove: no row for feed_id " ++ to_string id))
  | some r ↦ (record table { rows = delete_rows (λ s. eq_ℤ s.feed_id id) table.rows }, ok tt)
]
