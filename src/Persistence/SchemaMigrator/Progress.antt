-- ===== src/Persistence/SchemaMigrator/Progress.antt =====
-- A run of the migrations goes on where the last one stopped.
use mathlib.Core.Path.{subst}
use cpp_mirror_leech_bot.Prelude.{
  ℕ, zero, suc, ◌≤◌, ◌≡◌, ◌⊎◌, refl, sym, ap, ◌∙◌, inl, inr, false, leb, Option, none, some,
  Option-cases, List, [], ◌∷◌, ◌++◌, map, arith, Bytes, All, append_nil, append_assoc, take, drop,
}
use cpp_mirror_leech_bot.Core.Error.{AppError, Result, ok, err, Result-cases}
use cpp_mirror_leech_bot.Persistence.SchemaMigrator.{
  Migration, migrations, Database, Sqlite, max_version, rows_of, entry_of,
  ensure_schema_version_table, read_current_version, committed, apply_one, apply_pending, migrate,
}

module _ {Schema : Type 0} (exec : Bytes → Schema → Option Schema) where
  -- The bodies in turn.
  abbrev pub run_bodies : List Migration → Schema → Option Schema
  run_bodies [] s = some s
  run_bodies (m ∷ rest) s = elim (exec m.sql s) [ none ↦ none | some s' ↦ run_bodies rest s' ]

  -- The database that exactly these migrations made of an empty one.
  pub record IsAt (empty : Schema) (done : List Migration) (db : Database Schema) : Type 0 where
    pub versions : rows_of db.versions ≡ map entry_of done
    pub schema : run_bodies done empty ≡ some db.schema

  run_bodies-snoc :
      (done : List Migration) (m : Migration) (s s' s'' : Schema)
      → run_bodies done s ≡ some s'
      → exec m.sql s' ≡ some s''
      → run_bodies (done ++ m ∷ []) s ≡ some s''
  run_bodies-snoc [] m s s' s'' h k = ground arith
  run_bodies-snoc (d ∷ done) m s s' s'' h k = elim (Option-cases (exec d.sql s)) [
    | inl e ↦ ground arith
    | inr (t, e) ↦ rw e (run_bodies-snoc done m t s' s'' (ground arith) k)
  ]

-- The first migrations, in order.
abbrev pub first : ℕ → List Migration
first k = take k migrations

map-snoc :
    (done : List Migration) (m : Migration)
    → map entry_of (done ++ m ∷ []) ≡ map entry_of done ++ entry_of m ∷ []
map-snoc [] m = refl
map-snoc (d ∷ done) m = ap (λ rest. entry_of d ∷ rest) (map-snoc done m)

module _ {Schema : Type 0} (sqlite : Sqlite Schema) (empty : Schema) where
  apply_one-cases :
      (m : Migration) (done : List Migration) (db : Database Schema)
      → IsAt sqlite.exec empty done db
      → ((e : AppError) × (apply_one sqlite m db ≡ (db, err e)))
        ⊎ ((db' : Database Schema) × (apply_one sqlite m db ≡ (db', ok tt))
            × IsAt sqlite.exec empty (done ++ m ∷ []) db')
  unfolding apply_one
  apply_one-cases m done db h = elim (Result-cases (apply_one sqlite m db).1) [
    | inr (e, bad) ↦ inl (e, ground arith)
    | inl (done_it, good) ↦ elim (Option-cases (sqlite.exec m.sql db.schema)) [
      | inl e ↦ ground arith
      | inr (s, e) ↦ inr (
        committed sqlite m s db,
        ground arith,
        record {
          versions = ap (λ rows. rows ++ entry_of m ∷ []) h.versions ∙ sym (map-snoc done m);
          schema = run_bodies-snoc sqlite.exec done m empty db.schema s h.schema e;
        },
      )
    ]
  ]

  abbrev pub Advances :
      List Migration → List Migration → Database Schema × Result (Unit {0}) → Type 0
  Advances done todo p =
      (n : ℕ) × IsAt sqlite.exec empty (done ++ take n todo) p.0
      × (((p.1 ≡ ok tt) × (take n todo ≡ todo)) ⊎ ((e : AppError) × (p.1 ≡ err e)))

  -- Migrations past the current version are applied in order, up to the first failure.
  pending-Advances :
      (current : ℕ) (todo done : List Migration) (db : Database Schema)
      → All (λ m. leb m.version current ≡ false) todo
      → IsAt sqlite.exec empty done db
      → Advances done todo (apply_pending sqlite current todo db)
  unfolding apply_pending
  pending-Advances current [] done db later h =
      (0, subst (λ ms. IsAt sqlite.exec empty ms db) (sym (append_nil done)) h, inl (refl, refl))
  pending-Advances current (m ∷ todo) done db later h =
      let (new, rest) = later in
      elim (apply_one-cases m done db h) [
        | inl (e, bad) ↦
            rw
              (
                new,
                ap (λ (p : Database Schema × Result (Unit {0})). p.1) bad,
                ap (λ (p : Database Schema × Result (Unit {0})). p.0) bad,
              )
              (
                0,
                subst (λ ms. IsAt sqlite.exec empty ms db) (sym (append_nil done)) h,
                inr (e, refl),
              )
        | inr (db', good, there) ↦
            let (n, at, all) = pending-Advances current todo (done ++ m ∷ []) db' rest there in
            rw
              (
                new,
                ap (λ (p : Database Schema × Result (Unit {0})). p.1) good,
                ap (λ (p : Database Schema × Result (Unit {0})). p.0) good,
              )
              (
                suc n,
                subst (λ ms. IsAt sqlite.exec empty ms (apply_pending sqlite current todo db').0)
                    (sym (append_assoc done (m ∷ []) (take n todo))) at,
                elim all [
                  | inl (done_all, whole) ↦ inl (done_all, ap (λ ms. m ∷ ms) whole)
                  | inr (e, bad) ↦ inr (e, bad)
                ],
              )
      ]

  -- The version of a database at the first migrations, and that the run goes on from there.
  version_of : (k : ℕ) → k ≤ 3 → max_version (map entry_of (first k)) ≡ k
  unfolding migrations
  version_of zero le = refl
  version_of (suc zero) le = refl
  version_of (suc (suc zero)) le = refl
  version_of (suc (suc (suc zero))) le = refl
  version_of (suc (suc (suc (suc k)))) le = absurd (omega (arith, le))

  later_versions : (k : ℕ) → k ≤ 3 → All (λ m. leb m.version k ≡ false) (drop k migrations)
  unfolding migrations
  later_versions zero le = (refl, (refl, (refl, tt)))
  later_versions (suc zero) le = (refl, (refl, tt))
  later_versions (suc (suc zero)) le = (refl, tt)
  later_versions (suc (suc (suc zero))) le = tt
  later_versions (suc (suc (suc (suc k)))) le = absurd (omega (arith, le))

  -- Migrations up to the current version are passed over.
  pending-skip :
      (k : ℕ) (db : Database Schema)
      → k ≤ 3
      → apply_pending sqlite k migrations db ≡ apply_pending sqlite k (drop k migrations) db
  unfolding migrations apply_pending
  pending-skip zero db le = refl
  pending-skip (suc zero) db le = refl
  pending-skip (suc (suc zero)) db le = refl
  pending-skip (suc (suc (suc zero))) db le = refl
  pending-skip (suc (suc (suc (suc k)))) db le = absurd (omega (arith, le))

  from_version :
      (k current : ℕ) (db : Database Schema)
      → current ≡ k
      → k ≤ 3
      → IsAt sqlite.exec empty (first k) db
      → Advances (first k) (drop k migrations) (apply_pending sqlite current migrations db)
  from_version k current db same le h =
      rw (same, pending-skip k db le)
        (pending-Advances k (drop k migrations) (first k) db (later_versions k le) h)

  stays :
      (k : ℕ) (db : Database Schema) (e : AppError)
      → IsAt sqlite.exec empty (first k) db
      → Advances (first k) (drop k migrations) (db, err e)
  stays k db e h =
      (0, subst (λ ms. IsAt sqlite.exec empty ms db) (sym (append_nil (first k))) h, inr (e, refl))

  -- From a database that the first migrations made, a run leaves one that the first migrations made,
  -- no fewer of them, whatever statement fails; and all of them where it reports success.
  pub migrate-Advances :
      (k : ℕ) (db : Database Schema)
      → k ≤ 3
      → IsAt sqlite.exec empty (first k) db
      → Advances (first k) (drop k migrations) (migrate sqlite db)
  unfolding migrate ensure_schema_version_table read_current_version apply_pending apply_one
  migrate-Advances k db le h = elim (Option-cases sqlite.acquire_fault) [
    | inr (failure, e) ↦ rw e (stays k db failure h)
    | inl e ↦ rw e (elim (Option-cases sqlite.ensure_fault) [
      | inr (what, e') ↦ rw e' (stays k db _ h)
      | inl e' ↦
          let at : IsAt sqlite.exec empty (first k)
              (record db { versions = some (rows_of db.versions) }) =
            record { versions = h.versions; schema = h.schema } in
          rw e' (elim (Option-cases sqlite.read_fault) [
            | inr (what, e'') ↦
                rw e'' (stays k (record db { versions = some (rows_of db.versions) }) _ at)
            | inl e'' ↦
                rw e'' (from_version k _ _ (ap max_version h.versions ∙ version_of k le) le at)
          ])
    ])
  ]
