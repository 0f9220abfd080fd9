-- ===== src/Application/RssSubscription.antt =====
-- src/application/rss_subscription.cpp: adding, listing and removing the feeds of a chat. The arguments
-- of a use case include the faults of the repository's calls and the clock. Log lines are left out.
pub mod Laws
pub mod Effects
use cpp_mirror_leech_bot.Prelude.{
  Bool, not, ◌||◌, Option, none, some, List, [], ◌∷◌, if◌then◌else◌, Bytes, bytes, is_empty,
  starts_with,
}
use cpp_mirror_leech_bot.Prelude.Integers.{ℤ, pos, eq_ℤ}
use cpp_mirror_leech_bot.Core.Error.{
  AppError, Result, ok, err, error, invalid_argument, not_found, permission_denied,
}
use cpp_mirror_leech_bot.Domain.Identifiers.{ChatId, UserId}
use cpp_mirror_leech_bot.Domain.Task.{TimePoint}
use cpp_mirror_leech_bot.Persistence.TimeCodec.{TimeCodec}
use cpp_mirror_leech_bot.Persistence.RssFeeds
use cpp_mirror_leech_bot.Persistence.RssFeeds.{RssFeed, FeedTable}

-- The result of `save`, of which `add` gives the key.
abbrev pub key_of : Result RssFeed → Result ℤ
key_of (ok feed) = ok feed.feed_id
key_of (err e) = err e

-- The feeds of one chat.
abbrev pub of_chat : ChatId → List RssFeed → List RssFeed
of_chat chat [] = []
of_chat chat (feed ∷ rest) =
    let filtered = of_chat chat rest in if eq_ℤ feed.chat chat then feed ∷ filtered else filtered

module _ (codec : TimeCodec) where
  unfoldable pub add : Option AppError → TimePoint → RssFeed → FeedTable → FeedTable × Result ℤ
  unfolding bytes starts_with
  add fault now feed table =
      let fresh : RssFeed = record feed { feed_id = pos 0 } in
      let saved = RssFeeds.save codec fault now fresh table in
      if is_empty feed.url
      then (table, error invalid_argument (bytes "rss add: empty URL"))
      else if not
          (starts_with (bytes "http://") feed.url || starts_with (bytes "https://") feed.url)
      then (
        table,
        error invalid_argument (bytes "rss add: URL must start with http:// or https://"),
      )
      else (saved.0, key_of saved.1)

  unfoldable pub list_for_chat : Option AppError → ChatId → FeedTable → Result (List RssFeed)
  list_for_chat fault chat table = elim (RssFeeds.list_enabled codec fault table) [
    | err e ↦ err e
    | ok feeds ↦ ok (of_chat chat feeds)
  ]

  -- The requester reaches the log only.
  unfoldable pub remove :
      (ℤ → Bytes)
      → Option AppError
      → Option AppError
      → ℤ
      → UserId
      → ChatId
      → FeedTable
      → FeedTable × Result (Unit {0})
  unfolding bytes
  remove to_string find_fault fault id requester chat table =
      elim (RssFeeds.find codec find_fault id table) [
        | err e ↦ (table, err e)
        | ok none ↦ (table, error not_found (bytes "rss remove: feed not found"))
        | ok (some feed) ↦
            if not (eq_ℤ feed.chat chat)
            then (table, error permission_denied (bytes "rss remove: requester does not own feed"))
            else RssFeeds.remove to_string fault id table
      ]
