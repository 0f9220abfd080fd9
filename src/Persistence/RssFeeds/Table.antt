-- ===== src/Persistence/RssFeeds/Table.antt =====
-- The table of feeds stays well formed: keys are given once, and no two rows share a key or a URL.
use Prim.Native.Nat.{max}
use cpp_mirror_leech_bot.Prelude.{
  ℕ, suc, ◌≤◌, ◌≡◌, ◌≢◌, refl, inl, inr, Bool, false, Bool-cases, Option, none, some, Option-cases,
  List, [], ◌∷◌, ◌||◌, arith, Bytes, bytes_eq, bytes_eq_iff, All, All-map,
}
use cpp_mirror_leech_bot.Prelude.Integers.{ℤ, pos, pos_part, eq_ℤ, eq_ℤ_iff}
use cpp_mirror_leech_bot.Prelude.Order.{lt_ℤ}
use cpp_mirror_leech_bot.Core.Error.{AppError}
use cpp_mirror_leech_bot.Domain.Task.{TimePoint}
use cpp_mirror_leech_bot.Persistence.TimeCodec.{TimeCodec}
use cpp_mirror_leech_bot.Persistence.RssFeeds.{
  RssFeed, FeedRow, FeedTable, select_row, delete_rows, insert_row, has_url, set_state, row_of,
  insert, replace, save, update_state, remove,
}

-- Two rows with different keys and different URLs.
abbrev pub Differs : FeedRow → FeedRow → Type 0
Differs r s = (r.feed_id ≢ s.feed_id) × (r.url ≢ s.url)

abbrev pub Apart : List FeedRow → Type 0
Apart [] = Unit
Apart (r ∷ rows) = All (Differs r) rows × Apart rows

pub record IsWellFormed (table : FeedTable) : Type 0 where
  pub below : All (λ r. pos_part r.feed_id ≤ table.sequence) table.rows
  pub apart : Apart table.rows

module _ {κ} (Q : FeedRow → Type κ) where
  pub All-insert_row :
      (r : FeedRow) (rows : List FeedRow) → Q r → All Q rows → All Q (insert_row r rows)
  unfolding insert_row
  All-insert_row r [] q h = (q, tt)
  All-insert_row r (s ∷ rows) q h =
      let (one, more) = h in
      elim (Bool-cases (lt_ℤ s.feed_id r.feed_id)) [
        | inl e ↦ rw e (one, All-insert_row r rows q more)
        | inr e ↦ rw e (q, h)
      ]

  pub All-delete_rows :
      (test : FeedRow → Bool) (rows : List FeedRow) → All Q rows → All Q (delete_rows test rows)
  unfolding delete_rows
  All-delete_rows test [] h = tt
  All-delete_rows test (r ∷ rows) h =
      let (one, more) = h in
      elim (Bool-cases (test r)) [
        | inl e ↦ rw e (All-delete_rows test rows more)
        | inr e ↦ rw e (one, All-delete_rows test rows more)
      ]

Apart-insert_row :
    (r : FeedRow) (rows : List FeedRow)
    → All (Differs r) rows
    → Apart rows
    → Apart (insert_row r rows)
unfolding insert_row
Apart-insert_row r [] h k = (tt, tt)
Apart-insert_row r (s ∷ rows) h k =
    let (one, more) = h in
    let (first, rest) = k in
    let (keys, urls) = one in
    elim (Bool-cases (lt_ℤ s.feed_id r.feed_id)) [
      | inl e ↦ rw e (
        All-insert_row (Differs s) r rows (λ p. keys (cc), λ p. urls (cc)) first,
        Apart-insert_row r rows more rest,
      )
      | inr e ↦ rw e (h, k)
    ]

pub Apart-delete_rows :
    (test : FeedRow → Bool) (rows : List FeedRow) → Apart rows → Apart (delete_rows test rows)
unfolding delete_rows
Apart-delete_rows test [] h = tt
Apart-delete_rows test (r ∷ rows) h =
    let (first, rest) = h in
    elim (Bool-cases (test r)) [
      | inl e ↦ rw e (Apart-delete_rows test rows rest)
      | inr e ↦ rw e (All-delete_rows (Differs r) test rows first, Apart-delete_rows test rows rest)
    ]

-- What depends on the key and the URL alone is kept by `set_state`.
All-set_state :
    (key : ℤ) (url : Bytes) (id : ℤ) (guid checked : Bytes) (rows : List FeedRow)
    → All (λ s. (key ≢ s.feed_id) × (url ≢ s.url)) rows
    → All (λ s. (key ≢ s.feed_id) × (url ≢ s.url)) (set_state id guid checked rows)
unfolding set_state
All-set_state key url id guid checked [] h = tt
All-set_state key url id guid checked (s ∷ rows) h =
    let (one, more) = h in
    (
      elim (Bool-cases (eq_ℤ s.feed_id id)) [ inl e ↦ rw e one | inr e ↦ rw e one ],
      All-set_state key url id guid checked rows more,
    )

Apart-set_state :
    (id : ℤ) (guid checked : Bytes) (rows : List FeedRow)
    → Apart rows
    → Apart (set_state id guid checked rows)
unfolding set_state
Apart-set_state id guid checked [] h = tt
Apart-set_state id guid checked (r ∷ rows) h =
    let (first, rest) = h in
    let others = All-set_state r.feed_id r.url id guid checked rows first in
    (
      elim (Bool-cases (eq_ℤ r.feed_id id)) [ inl e ↦ rw e others | inr e ↦ rw e others ],
      Apart-set_state id guid checked rows rest,
    )

below-set_state :
    (n : ℕ) (id : ℤ) (guid checked : Bytes) (rows : List FeedRow)
    → All (λ r. pos_part r.feed_id ≤ n) rows
    → All (λ r. pos_part r.feed_id ≤ n) (set_state id guid checked rows)
unfolding set_state
below-set_state n id guid checked [] h = tt
below-set_state n id guid checked (s ∷ rows) h =
    let (one, more) = h in
    (
      elim (Bool-cases (eq_ℤ s.feed_id id)) [ inl e ↦ rw e one | inr e ↦ rw e one ],
      below-set_state n id guid checked rows more,
    )

-- A key past all keys, and a URL that no row has.
pub fresh-Differs :
    (r : FeedRow) (n : ℕ) (rows : List FeedRow)
    → r.feed_id ≡ pos (suc n)
    → has_url r.url rows ≡ false
    → All (λ s. pos_part s.feed_id ≤ n) rows
    → All (Differs r) rows
unfolding has_url
fresh-Differs r n [] key url h = tt
fresh-Differs r n (s ∷ rows) key url h =
    let (one, more) = h in
    (
      (λ p. ground (arith, p, key, one), λ p. ground (arith, bytes_eq_iff s.url r.url)),
      fresh-Differs r n rows key (ground arith) more,
    )

pub conflicts-Differs :
    (r : FeedRow) (rows : List FeedRow)
    → All (Differs r) (delete_rows (λ s. eq_ℤ s.feed_id r.feed_id || bytes_eq s.url r.url) rows)
unfolding delete_rows
conflicts-Differs r [] = tt
conflicts-Differs r (s ∷ rows) =
    elim (Bool-cases (eq_ℤ s.feed_id r.feed_id || bytes_eq s.url r.url)) [
      | inl e ↦ rw e (conflicts-Differs r rows)
      | inr e ↦ rw e (
        (
          λ p. ground (arith, eq_ℤ_iff s.feed_id r.feed_id),
          λ p. ground (arith, bytes_eq_iff s.url r.url),
        ),
        conflicts-Differs r rows,
      )
    ]

weaken :
    (m n : ℕ) (rows : List FeedRow)
    → m ≤ n
    → All (λ r. pos_part r.feed_id ≤ m) rows
    → All (λ r. pos_part r.feed_id ≤ n) rows
weaken m n rows h = All-map (λ r below. omega (arith, h, below)) rows

module _ (codec : TimeCodec) where
  insert-IsWellFormed :
      (feed : RssFeed) (table : FeedTable)
      → IsWellFormed table
      → IsWellFormed (insert codec feed table).0
  unfolding insert row_of
  insert-IsWellFormed feed table h =
      let stored = row_of codec (record feed { feed_id = pos (suc table.sequence) }) in
      elim (Bool-cases (has_url feed.url table.rows)) [
        | inl e ↦ rw e h
        | inr e ↦ rw e (record {
          below =
              All-insert_row _ stored table.rows (omega arith)
                (weaken table.sequence (suc table.sequence) table.rows (omega arith) h.below);
          apart =
              Apart-insert_row stored table.rows
                (fresh-Differs stored table.sequence table.rows refl e h.below) h.apart;
        })
      ]

  replace-IsWellFormed :
      (feed : RssFeed) (table : FeedTable)
      → IsWellFormed table
      → IsWellFormed (replace codec feed table).0
  unfolding replace row_of
  replace-IsWellFormed feed table h = record {
    below = All-insert_row _ _ _ (omega arith) (
        All-delete_rows _ _ table.rows (
          weaken table.sequence (max table.sequence (pos_part feed.feed_id)) table.rows
            (omega arith) h.below));
    apart =
        Apart-insert_row _ _ (conflicts-Differs (row_of codec feed) table.rows)
          (Apart-delete_rows _ table.rows h.apart);
  }

  pub save-IsWellFormed :
      (fault : Option AppError) (now : TimePoint) (feed : RssFeed) (table : FeedTable)
      → IsWellFormed table
      → IsWellFormed (save codec fault now feed table).0
  unfolding save
  save-IsWellFormed (some e) now feed table h = h
  save-IsWellFormed none now feed table h = elim (Bool-cases (eq_ℤ feed.feed_id (pos 0))) [
    | inl new ↦ elim (Bool-cases (eq_ℤ feed.created_at (pos 0))) [
      | inl d ↦ rw (d, new) (insert-IsWellFormed _ table h)
      | inr d ↦ rw (d, new) (insert-IsWellFormed _ table h)
    ]
    | inr old ↦ elim (Bool-cases (eq_ℤ feed.created_at (pos 0))) [
      | inl d ↦ rw (d, old) (replace-IsWellFormed _ table h)
      | inr d ↦ rw (d, old) (replace-IsWellFormed _ table h)
    ]
  ]

  pub update_state-IsWellFormed :
      (show : ℤ → Bytes) (fault : Option AppError) (id : ℤ) (guid : Bytes) (checked : TimePoint)
      (table : FeedTable)
      → IsWellFormed table
      → IsWellFormed (update_state codec show fault id guid checked table).0
  unfolding update_state
  update_state-IsWellFormed show (some e) id guid checked table h = h
  update_state-IsWellFormed show none id guid checked table h =
      elim (Option-cases (select_row id table.rows)) [
        | inl e ↦ rw (update_state, e) h
        | inr (r, e) ↦
            rw (update_state, e)
              (record {
                below = below-set_state table.sequence id guid _ table.rows h.below;
                apart = Apart-set_state id guid _ table.rows h.apart;
              })
      ]

pub remove-IsWellFormed :
    (show : ℤ → Bytes) (fault : Option AppError) (id : ℤ) (table : FeedTable)
    → IsWellFormed table
    → IsWellFormed (remove show fault id table).0
unfolding remove
remove-IsWellFormed show (some e) id table h = h
remove-IsWellFormed show none id table h = elim (Option-cases (select_row id table.rows)) [
  | inl e ↦ rw (remove, e) h
  | inr (r, e) ↦
      rw (remove, e)
        (record {
          below = All-delete_rows _ _ table.rows h.below;
          apart = Apart-delete_rows _ table.rows h.apart;
        })
]
