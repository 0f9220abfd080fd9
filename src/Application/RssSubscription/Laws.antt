-- ===== src/Application/RssSubscription/Laws.antt =====
-- What subscribing and unsubscribing do to the table of feeds.
use cpp_mirror_leech_bot.Prelude.{
  suc, ◌≡◌, ◌⊎◌, refl, inl, inr, Bool, not, ◌||◌, Bool-cases, Option, none, some, Option-cases,
  arith, Bytes, bytes, is_empty, starts_with,
}
use cpp_mirror_leech_bot.Prelude.Integers.{ℤ, pos, eq_ℤ}
use cpp_mirror_leech_bot.Core.Error.{AppError, Result-cases}
use cpp_mirror_leech_bot.Domain.Identifiers.{ChatId, UserId}
use cpp_mirror_leech_bot.Domain.Task.{TimePoint}
use cpp_mirror_leech_bot.Persistence.TimeCodec.{TimeCodec}
use cpp_mirror_leech_bot.Persistence.RssFeeds
use cpp_mirror_leech_bot.Persistence.RssFeeds.{
  RssFeed, FeedRow, FeedTable, insert, insert_row, row_of, has_url, delete_rows, select_row,
}
use cpp_mirror_leech_bot.Persistence.RssFeeds.Table.{
  IsWellFormed, save-IsWellFormed, remove-IsWellFormed,
}
use cpp_mirror_leech_bot.Application.RssSubscription.{add, remove}

module _ (codec : TimeCodec) where
  -- The table as it was, or with one more row, which has the next key.
  abbrev pub Grows : FeedTable → FeedTable → Type 0
  Grows table table' =
      (table' ≡ table)
      ⊎ ((r : FeedRow) × (r.feed_id ≡ pos (suc table.sequence))
          × (table'.rows ≡ insert_row r table.rows)
          × (table'.sequence ≡ suc table.sequence))

  insert-Grows : (feed : RssFeed) (table : FeedTable) → Grows table (insert codec feed table).0
  unfolding insert row_of
  insert-Grows feed table =
      let stored : RssFeed = record feed { feed_id = pos (suc table.sequence) } in
      elim (Bool-cases (has_url feed.url table.rows)) [
        | inl e ↦ inl (ground arith)
        | inr e ↦ rw e (inr (row_of codec stored, refl, refl, refl))
      ]

  save-Grows :
      (fault : Option AppError) (now : TimePoint) (feed : RssFeed) (table : FeedTable)
      → feed.feed_id ≡ pos 0
      → Grows table (RssFeeds.save codec fault now feed table).0
  unfolding RssFeeds.save
  save-Grows (some e) now feed table h = inl refl
  save-Grows none now feed table h = elim (Bool-cases (eq_ℤ feed.created_at (pos 0))) [
    | inl d ↦ rw (d, h) (insert-Grows _ table)
    | inr d ↦ rw (d, h) (insert-Grows _ table)
  ]

  -- `add` leaves the table as it is, or gives a row the next key.
  pub add-Grows :
      (fault : Option AppError) (now : TimePoint) (feed : RssFeed) (table : FeedTable)
      → Grows table (add codec fault now feed table).0
  unfolding add
  add-Grows fault now feed table =
      let fresh : RssFeed = record feed { feed_id = pos 0 } in
      elim (Bool-cases (is_empty feed.url)) [
        | inl e ↦ inl (ground arith)
        | inr e ↦
            elim (Bool-cases (
              not (
                starts_with (bytes "http://") feed.url
                || starts_with (bytes "https://") feed.url))) [
                  | inl f ↦ inl (ground arith)
                  | inr f ↦ rw (e, f) (save-Grows fault now fresh table refl)
                ]
      ]

  pub add-IsWellFormed :
      (fault : Option AppError) (now : TimePoint) (feed : RssFeed) (table : FeedTable)
      → IsWellFormed table
      → IsWellFormed (add codec fault now feed table).0
  unfolding add
  add-IsWellFormed fault now feed table h =
      let fresh : RssFeed = record feed { feed_id = pos 0 } in
      elim (Bool-cases (is_empty feed.url)) [
        | inl e ↦ rw e h
        | inr e ↦
            elim (Bool-cases (
              not (
                starts_with (bytes "http://") feed.url
                || starts_with (bytes "https://") feed.url))) [
                  | inl f ↦ rw (e, f) h
                  | inr f ↦ rw (e, f) (save-IsWellFormed codec fault now fresh table h)
                ]
      ]

  -- The table as it was, or without some rows.
  abbrev pub Shrinks : FeedTable → FeedTable → Type 0
  Shrinks table table' =
      (table' ≡ table)
      ⊎ ((test : FeedRow → Bool) × (table' ≡ (record table { rows = delete_rows test table.rows })))

  delete-Shrinks :
      (show : ℤ → Bytes) (fault : Option AppError) (id : ℤ) (table : FeedTable)
      → Shrinks table (RssFeeds.remove show fault id table).0
  unfolding RssFeeds.remove
  delete-Shrinks show (some e) id table = inl refl
  delete-Shrinks show none id table = elim (Option-cases (select_row id table.rows)) [
    | inl e ↦ rw (RssFeeds.remove, e) (inl refl)
    | inr (r, e) ↦ rw (RssFeeds.remove, e) (inr (λ s. eq_ℤ s.feed_id id, refl))
  ]

  module _ (show : ℤ → Bytes) (find_fault fault : Option AppError) (id : ℤ) (requester : UserId)
      (chat : ChatId) (table : FeedTable) where
    -- `remove` leaves the table as it is, or does what the repository's does.
    remove-cases :
        ((remove codec show find_fault fault id requester chat table).0 ≡ table)
        ⊎ ((remove codec show find_fault fault id requester chat table).0
            ≡ (RssFeeds.remove show fault id table).0)
    unfolding remove
    remove-cases = elim (Result-cases (RssFeeds.find codec find_fault id table)) [
      | inr (e, bad) ↦ inl (ground arith)
      | inl (none, found) ↦ inl (ground arith)
      | inl (some feed, found) ↦ elim (Bool-cases (eq_ℤ feed.chat chat)) [
        | inl own ↦ inr (ground arith)
        | inr foreign ↦ inl (ground arith)
      ]
    ]

    pub remove-Shrinks :
        Shrinks table (remove codec show find_fault fault id requester chat table).0
    remove-Shrinks = elim remove-cases [
      | inl e ↦ inl e
      | inr e ↦ rw e (delete-Shrinks show fault id table)
    ]

    pub remove_case-IsWellFormed :
        IsWellFormed table
        → IsWellFormed (remove codec show find_fault fault id requester chat table).0
    remove_case-IsWellFormed h = elim remove-cases [
      | inl e ↦ rw e h
      | inr e ↦ rw e (remove-IsWellFormed show fault id table h)
    ]
