-- ===== src/Migrations/Applied.antt =====
-- payment-system/migrations.go: the table of the applied versions, and the runner over it.
use procyon_modules.Base.{
  ℕ, ◌≡◌, refl, sym, ap, ◌∙◌, Bool, true, false, ◌⊎◌, inl, inr, Option, none, some, List, [], ◌∷◌,
  ◌++◌, arith, eqb, All, if◌then◌else◌, subst,
}
use procyon_modules.Base.Int.{ℤ}
use procyon_modules.Models.{Time, PaymentModuleMigration}
use procyon_modules.Models.Errors.{Error}
use procyon_modules.Exec.{
  Result, ok, err, Db, World, Exec, pure, ◌>>=◌, ◌>>◌, time_now, statement, transaction,
}
use procyon_modules.Exec.Rules.{
  at_pure, at_if, at_statement, at_bind, at_bind_statement, at_bind_now, at_transaction, at_commit,
  at_abort, InTransaction,
}
use procyon_modules.Store.Table.{find}
use procyon_modules.Migrations.{
  repair_webhooks, Repairs, failed_case, repair_webhooks-Repairs, IsLive, HasStatuses,
}

-- `paymentMigration`
pub record PaymentMigration : Type 0 where
  pub version : ℕ
  pub up : Exec (Unit {0})

-- gorm's AutoMigrate: a change of the schema, which keeps the rows.
unfoldable pub auto_migrate : Exec (Unit {0})
auto_migrate = statement (λ db. (tt, db))

-- `paymentMigrations`
unfoldable pub payment_migrations : List PaymentMigration
unfolding auto_migrate repair_webhooks
payment_migrations = record { version = 1; up = auto_migrate >> repair_webhooks } ∷ []

abbrev has : Option PaymentModuleMigration → Bool
has none = false
has (some m) = true

-- Is the version in the table?
unfoldable pub is_applied : ℕ → Db → Bool
unfolding find
is_applied version db = has (find (λ m. eqb m.version version) db.migrations)

-- `tx.Create(&models.PaymentModuleMigration{…})`
unfoldable pub record_migration : ℕ → Exec (Unit {0})
record_migration version = do
  now ← time_now
  statement (λ db. (
    tt,
    record db { migrations = db.migrations ++ record { version = version; applied_at = now } ∷ [] },
  ))

-- One round of the loop.
unfoldable pub run_migration : PaymentMigration → Exec (Unit {0})
unfolding is_applied record_migration
run_migration migration = do
  applied ← statement (λ db. (is_applied migration.version db, db))
  if applied then pure tt else transaction (migration.up >> record_migration migration.version)

unfoldable pub run_migrations : List PaymentMigration → Exec (Unit {0})
unfolding run_migration
run_migrations [] = pure tt
run_migrations (m ∷ ms) = run_migration m >> run_migrations ms

-- `runPaymentMigrations`
unfoldable pub run_payment_migrations : Exec (Unit {0})
unfolding auto_migrate run_migrations payment_migrations
run_payment_migrations = auto_migrate >> run_migrations payment_migrations

find_last :
    (version : ℕ) (ms : List PaymentModuleMigration) (at : Time)
    → has (
        find
          (λ m. eqb m.version version)
          (ms ++ record { version = version; applied_at = at } ∷ []))
      ≡ true
unfolding find
find_last version [] at = ground arith
find_last version (m ∷ ms) at = ground (arith, find_last version ms at)

-- A failed run has changed no row. After one that returns the version is in the table; it has
-- changed nothing where it was there before, and else every event is live.
unfoldable pub Migrates : ℤ → World → Result (Unit {0}) × World → Type 0
unfolding is_applied
Migrates lease w (err e, w') = w'.db ≡ w.db
Migrates lease w (ok u, w') =
    (is_applied 1 w'.db ≡ true)
    × (((is_applied 1 w.db ≡ true) × (w'.db ≡ w.db))
        ⊎ ((is_applied 1 w.db ≡ false) × All (IsLive lease) w'.db.webhooks.rows))

abbrev first_version : PaymentMigration
first_version = record { version = 1; up = auto_migrate >> repair_webhooks }

up-Repairs : (lease : ℤ) (w : World) → HasStatuses w.db → Repairs lease (first_version.up w)
unfolding auto_migrate
up-Repairs lease w s =
    at_bind_statement (Repairs lease) (λ db. (tt, db)) _ w (λ text. failed_case lease _ _)
      (repair_webhooks-Repairs lease _ s)

Repairs-IsLive :
    (lease : ℤ) (w : World) → Repairs lease (ok tt, w) → All (IsLive lease) w.db.webhooks.rows
unfolding Repairs
Repairs-IsLive lease w h = h

module _ (lease : ℤ) (w : World) (statuses : HasStatuses w.db) where
  abbrev P : Result (Unit {0}) × World → Type 0
  P = Migrates lease w

  failed : (e : Error) (w' : World) → w'.db ≡ w.db → Migrates lease w (err e, w')
  unfolding Migrates
  failed e w' h = h

  skipped : (w' : World) → w'.db ≡ w.db → is_applied 1 w.db ≡ true → Migrates lease w (ok tt, w')
  unfolding Migrates
  skipped w' h a = (ap (is_applied 1) h ∙ a, inl (a, h))

  done :
      (w1 w' : World) (at : Time)
      → is_applied 1 w.db ≡ false
      → Repairs lease (ok tt, w1)
      → w'.db ≡ record w1.db {
        migrations = w1.db.migrations ++ record { version = 1; applied_at = at } ∷ [];
      }
      → Migrates lease w (ok tt, w')
  unfolding Migrates
  done w1 w' at a live h = (
    ap (is_applied 1) h ∙ find_last 1 w1.db.migrations at,
    inr (
      a,
      subst (λ db. All (IsLive lease) db.webhooks.rows) (sym h) (Repairs-IsLive lease w1 live),
    ),
  )

  recorded :
      (w1 : World) (db : Db)
      → db ≡ w.db
      → is_applied 1 w.db ≡ false
      → Repairs lease (ok tt, w1)
      → InTransaction P db (record_migration 1 w1)
  unfolding record_migration
  recorded w1 db same a live = at_bind_now (InTransaction P db) _ w1 (
      at_statement (InTransaction P db) _ w1 (λ text e. at_abort P db _ _ (failed _ _ same))
        (λ e. at_commit P db tt _ (done w1 _ w1.clock a live refl)))

  body_case :
      (w1 : World) (db : Db)
      → db ≡ w.db
      → HasStatuses w1.db
      → is_applied 1 w.db ≡ false
      → InTransaction P db ((first_version.up >> record_migration 1) w1)
  body_case w1 db same s a =
      at_bind (InTransaction P db) first_version.up _ w1
        (λ e w' h. at_abort P db e w' (failed e _ same))
        (λ u w' h. recorded w' db same a (subst (Repairs lease) h (up-Repairs lease w1 s)))

  one_migration : (w1 : World) → w1.db ≡ w.db → P (run_migration first_version w1)
  unfolding run_migration
  one_migration w1 same =
      at_bind_statement P (λ db. (is_applied 1 db, db)) _ w1 (λ text. failed _ _ same)
        (at_if P (is_applied 1 w1.db) _ _ _
          (λ a. at_pure P tt _ (skipped _ same (ap (is_applied 1) (sym same) ∙ a)))
          (λ a.
            at_transaction P _ _ (λ text w' h. failed _ w' (h ∙ same))
              (body_case _ w1.db same (subst HasStatuses (sym same) statuses)
                (ap (is_applied 1) (sym same) ∙ a))))

  -- On a database whose webhook rows have statuses that the module writes, a run of the migrations
  -- that fails at any statement leaves all tables as they were. One that returns leaves version 1
  -- in the table of versions: where it was there before nothing has changed, so that a second run
  -- repairs nothing again, and else for every event that has not been processed there is a time at
  -- which its row may be claimed.
  pub run_payment_migrations-Migrates : P (run_payment_migrations w)
  unfolding run_payment_migrations
  run_payment_migrations-Migrates =
      at_bind_statement P (λ db. (tt, db)) _ w (λ text. failed _ _ refl)
        (at_bind P (run_migration first_version) _ _ (λ e w' h. subst P h (one_migration _ refl))
          (λ u w' h. at_pure P tt w' (subst P h (one_migration _ refl))))
