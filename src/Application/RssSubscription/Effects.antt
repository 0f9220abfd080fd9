-- ===== src/Application/RssSubscription/Effects.antt =====
-- What the chat that subscribes or unsubscribes sees of it, and the other feeds.
use cpp_mirror_leech_bot.Prelude.{
  ◌≡◌, ◌⊎◌, inl, inr, true, Bool-cases, Option, none, some, arith, if◌then◌else◌, Bytes,
}
use cpp_mirror_leech_bot.Prelude.Integers.{ℤ, eq_ℤ, eq_ℤ_iff}
use cpp_mirror_leech_bot.Core.Error.{AppError, ok, Result-cases}
use cpp_mirror_leech_bot.Domain.Identifiers.{ChatId, UserId}
use cpp_mirror_leech_bot.Persistence.TimeCodec.{TimeCodec}
use cpp_mirror_leech_bot.Persistence.RssFeeds.{RssFeed, FeedTable, find}
use cpp_mirror_leech_bot.Persistence.RssFeeds.Table.{IsWellFormed}
use cpp_mirror_leech_bot.Persistence.RssFeeds.View.{view, remove-view}
use cpp_mirror_leech_bot.Application.BackendControl.Laws.{is_err}
use cpp_mirror_leech_bot.Application.RssSubscription.{remove}

module _ (codec : TimeCodec) where
  -- A feed that is removed was one of the requester's chat, and it is the only row to go; otherwise
  -- there is an error, and every row stays.
  pub remove-outcome :
      (show : ℤ → Bytes) (find_fault fault : Option AppError) (id : ℤ) (requester : UserId)
      (chat : ChatId) (table : FeedTable)
      → IsWellFormed table
      → let (table', result) = remove codec show find_fault fault id requester chat table in
        ((result ≡ ok tt)
          × (feed : RssFeed) × (find codec find_fault id table ≡ ok (some feed))
          × (feed.chat ≡ chat)
          × ((j : ℤ) → view table' j ≡ (if eq_ℤ id j then none else view table j)))
        ⊎ ((is_err result ≡ true) × (table' ≡ table))
  unfolding remove
  remove-outcome show find_fault fault id requester chat table h =
      elim (Result-cases (find codec find_fault id table)) [
        | inr (e, bad) ↦ inr (ground arith, ground arith)
        | inl (none, found) ↦ inr (ground arith, ground arith)
        | inl (some feed, found) ↦ elim (Bool-cases (eq_ℤ feed.chat chat)) [
          | inl own ↦ elim (remove-view show fault id table h) [
            | inl (fine, gone) ↦ inl (
              ground arith,
              feed,
              found,
              ground (arith, eq_ℤ_iff feed.chat chat),
              λ j. ground (arith, gone j),
            )
            | inr (e, bad, same) ↦ inr (ground arith, ground arith)
          ]
          | inr foreign ↦ inr (ground arith, ground arith)
        ]
      ]
