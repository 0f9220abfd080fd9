-- ===== src/Persistence/RssFeeds/View.antt =====
-- The table of feeds, seen as a map from keys to rows.
use cpp_mirror_leech_bot.Prelude.{
  ℕ, suc, ◌≡◌, ◌⊎◌, ◌∙◌, refl, inl, inr, Bool, ◌||◌, Bool-cases, Option, none, some, Option-cases,
  List, [], ◌∷◌, arith, if◌then◌else◌, Bytes, bytes_eq, All,
}
use cpp_mirror_leech_bot.Prelude.Integers.{ℤ, pos, eq_ℤ, eq_ℤ_iff}
use cpp_mirror_leech_bot.Core.Error.{AppError, ok, err}
use cpp_mirror_leech_bot.Domain.Task.{TimePoint}
use cpp_mirror_leech_bot.Persistence.TimeCodec.{TimeCodec}
use cpp_mirror_leech_bot.Persistence.RssFeeds.{
  RssFeed, FeedRow, FeedTable, select_row, delete_rows, insert_row, has_url, set_state, row_of,
  insert, replace, with_created, save, update_state, remove,
}
use cpp_mirror_leech_bot.Persistence.RssFeeds.Table.{
  Differs, Apart, IsWellFormed, fresh-Differs, conflicts-Differs,
}

-- A map from keys to rows, and what is asked of it.
abbrev pub FeedMap : Type 0
FeedMap = ℤ → Option FeedRow

abbrev pub put : FeedRow → FeedMap → FeedMap
put r m j = if eq_ℤ r.feed_id j then some r else m j

abbrev pub keep : (FeedRow → Bool) → Option FeedRow → Option FeedRow
keep test none = none
keep test (some r) = if test r then none else some r

-- No row of which the test holds.
abbrev pub without : (FeedRow → Bool) → FeedMap → FeedMap
without test m j = keep test (m j)

abbrev pub touch : Bytes → Bytes → Option FeedRow → Option FeedRow
touch guid checked none = none
touch guid checked (some r) = some (record r { last_guid = guid; last_checked_at = some checked })

abbrev pub renew : ℤ → Bytes → Bytes → FeedMap → FeedMap
renew id guid checked m j = if eq_ℤ id j then touch guid checked (m j) else m j

abbrev pub view : FeedTable → FeedMap
view table j = select_row j table.rows

absent-select :
    (j : ℤ) (r : FeedRow) (rows : List FeedRow)
    → All (Differs r) rows
    → r.feed_id ≡ j
    → select_row j rows ≡ none
unfolding select_row
absent-select j r [] h e = refl
absent-select j r (s ∷ rows) h e =
    let (one, more) = h in
    ground (arith, one.0, absent-select j r rows more e, eq_ℤ_iff s.feed_id j)

select-insert_row :
    (j : ℤ) (r : FeedRow) (rows : List FeedRow)
    → All (Differs r) rows
    → select_row j (insert_row r rows) ≡ (if eq_ℤ r.feed_id j then some r else select_row j rows)
unfolding select_row insert_row
select-insert_row j r [] h = refl
select-insert_row j r (s ∷ rows) h =
    let (one, more) = h in
    ground
      (arith, one.0, select-insert_row j r rows more, eq_ℤ_iff s.feed_id j, eq_ℤ_iff r.feed_id j)

select-delete_rows :
    (j : ℤ) (test : FeedRow → Bool) (rows : List FeedRow)
    → Apart rows
    → select_row j (delete_rows test rows) ≡ keep test (select_row j rows)
unfolding select_row delete_rows
select-delete_rows j test [] h = refl
select-delete_rows j test (r ∷ rows) h =
    let (first, rest) = h in
    ground (
      arith,
      select-delete_rows j test rows rest,
      absent-select j r rows first,
      eq_ℤ_iff r.feed_id j,
    )

-- Where no row has the key, a row that is found has another.
untouched :
    (id j : ℤ) (rows : List FeedRow)
    → select_row id rows ≡ none
    → select_row j rows ≡ keep (λ r. eq_ℤ r.feed_id id) (select_row j rows)
unfolding select_row
untouched id j [] h = refl
untouched id j (r ∷ rows) h = ground (arith, untouched id j rows, eq_ℤ_iff r.feed_id j)

-- To leave out the rows of one key is to leave out that key.
only :
    (id j : ℤ) (rows : List FeedRow)
    → keep (λ r. eq_ℤ r.feed_id id) (select_row j rows)
      ≡ (if eq_ℤ id j then none else select_row j rows)
unfolding select_row
only id j [] = ground arith
only id j (r ∷ rows) =
    ground (arith, only id j rows, eq_ℤ_iff r.feed_id j, eq_ℤ_iff r.feed_id id, eq_ℤ_iff id j)

select-set_state :
    (j id : ℤ) (guid checked : Bytes) (rows : List FeedRow)
    → select_row j (set_state id guid checked rows)
      ≡ (if eq_ℤ id j then touch guid checked (select_row j rows) else select_row j rows)
unfolding select_row set_state
select-set_state j id guid checked [] = ground arith
select-set_state j id guid checked (r ∷ rows) = ground (
  arith,
  select-set_state j id guid checked rows,
  eq_ℤ_iff r.feed_id j,
  eq_ℤ_iff r.feed_id id,
  eq_ℤ_iff id j,
)

-- The calls that change the table.
pub data FeedOp : Type 0 where
  save_feed : TimePoint → RssFeed → FeedOp
  set_feed_state : ℤ → Bytes → TimePoint → FeedOp
  remove_feed : ℤ → FeedOp

-- What a table promises: a map, the last key given out, and the URLs that are taken.
pub record FeedSpec : Type 0 where
  pub map : FeedMap
  pub last_key : ℕ
  pub is_taken : Bytes → Bool

abbrev pub spec_of : FeedTable → FeedSpec
spec_of table = record {
  map = view table;
  last_key = table.sequence;
  is_taken = λ url. has_url url table.rows;
}

module _ (codec : TimeCodec) (show : ℤ → Bytes) where
  -- A call without a fault, on the table.
  unfoldable pub perform : FeedOp → FeedTable → FeedTable
  perform (save_feed now feed) table = (save codec none now feed table).0
  perform (set_feed_state id guid checked) table =
      (update_state codec show none id guid checked table).0
  perform (remove_feed id) table = (remove show none id table).0

  -- The call on the map: a new feed takes the next key where its URL is free, any other replaces what
  -- has its key or its URL.
  abbrev pub asked : FeedOp → FeedSpec → FeedMap
  asked (save_feed now feed) s =
      let f = with_created codec now feed in
      let fresh : RssFeed = record f { feed_id = pos (suc s.last_key) } in
      let conflicts = λ (r : FeedRow). eq_ℤ r.feed_id f.feed_id || bytes_eq r.url f.url in
      if eq_ℤ f.feed_id (pos 0)
      then if s.is_taken f.url then s.map else put (row_of codec fresh) s.map
      else put (row_of codec f) (without conflicts s.map)
  asked (set_feed_state id guid checked) s = renew id guid (codec.to_iso8601 checked) s.map
  asked (remove_feed id) s = without (λ r. eq_ℤ r.feed_id id) s.map

  pub insert-view :
      (f : RssFeed) (table : FeedTable) (j : ℤ)
      → IsWellFormed table
      → let fresh : RssFeed = record f { feed_id = pos (suc table.sequence) } in
        view (insert codec f table).0 j
        ≡ (if has_url f.url table.rows then view table else put (row_of codec fresh) (view table)) j
  unfolding insert row_of
  insert-view f table j h =
      let fresh : RssFeed = record f { feed_id = pos (suc table.sequence) } in
      elim (Bool-cases (has_url f.url table.rows)) [
        | inl e ↦ rw e refl
        | inr e ↦ rw e (
            select-insert_row j (row_of codec fresh) table.rows
              (fresh-Differs (row_of codec fresh) table.sequence table.rows refl e h.below))
      ]

  replace-view :
      (f : RssFeed) (table : FeedTable) (j : ℤ)
      → IsWellFormed table
      → view (replace codec f table).0 j
        ≡ put
            (row_of codec f)
            (without
              (λ (r : FeedRow). eq_ℤ r.feed_id f.feed_id || bytes_eq r.url f.url)
              (view table))
            j
  unfolding replace row_of
  replace-view f table j h = rw (
    select-insert_row j (row_of codec f) _ (conflicts-Differs (row_of codec f) table.rows),
    select-delete_rows j _ table.rows h.apart,
  )

  stored-view :
      (f : RssFeed) (table : FeedTable) (j : ℤ)
      → IsWellFormed table
      → let fresh : RssFeed = record f { feed_id = pos (suc table.sequence) } in
        let conflicts = λ (r : FeedRow). eq_ℤ r.feed_id f.feed_id || bytes_eq r.url f.url in
        view (if eq_ℤ f.feed_id (pos 0) then insert codec f table else replace codec f table).0 j
        ≡ (if eq_ℤ f.feed_id (pos 0)
              then if has_url f.url table.rows
                then view table
                else put (row_of codec fresh) (view table)
              else put (row_of codec f) (without conflicts (view table)))
            j
  stored-view f table j h = elim (Bool-cases (eq_ℤ f.feed_id (pos 0))) [
    | inl e ↦ rw e (insert-view f table j h)
    | inr e ↦ rw e (replace-view f table j h)
  ]

  -- On a well-formed table every call does to the map of keys to rows what is asked of a map with a
  -- last key and taken URLs.
  pub view-perform :
      (op : FeedOp) (table : FeedTable) (j : ℤ)
      → IsWellFormed table
      → view (perform op table) j ≡ asked op (spec_of table) j
  unfolding perform save update_state select_row remove
  view-perform (save_feed now feed) table j h = stored-view (with_created codec now feed) table j h
  view-perform (set_feed_state id guid checked) table j h =
      elim (Option-cases (select_row id table.rows)) [
        | inl e ↦ rw (perform, update_state, e) (ground (arith, eq_ℤ_iff id j, e))
        | inr (r, e) ↦ rw (perform, update_state, e) (select-set_state j id guid _ table.rows)
      ]
  view-perform (remove_feed id) table j h = elim (Option-cases (select_row id table.rows)) [
    | inl e ↦ rw (perform, remove, e) (untouched id j table.rows e)
    | inr (r, e) ↦ rw (perform, remove, e) (select-delete_rows j _ table.rows h.apart)
  ]

-- `remove` takes the row of its key alone, or fails and takes none.
pub remove-view :
    (show : ℤ → Bytes) (fault : Option AppError) (id : ℤ) (table : FeedTable)
    → IsWellFormed table
    → (((remove show fault id table).1 ≡ ok tt)
        × ((j : ℤ)
            → view (remove show fault id table).0 j ≡ (if eq_ℤ id j then none else view table j)))
      ⊎ ((e : AppError) × ((remove show fault id table).1 ≡ err e)
          × ((remove show fault id table).0 ≡ table))
unfolding remove
remove-view show (some e) id table h = inr (e, refl, refl)
remove-view show none id table h = elim (Option-cases (select_row id table.rows)) [
  | inl e ↦ rw (remove, e) (inr (_, refl, refl))
  | inr (r, e) ↦
      rw (remove, e)
        (inl (refl, λ j. select-delete_rows j _ table.rows h.apart ∙ only id j table.rows))
]
