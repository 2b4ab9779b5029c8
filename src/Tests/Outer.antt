-- ===== src/Tests/Outer.antt =====
-- The HTTP answers and the migration on concrete values.
use procyon_modules.Base.{◌<◌, refl, [], ◌∷◌}
use procyon_modules.Base.Int.{pos}
use procyon_modules.Base.Text.{bytes}
use procyon_modules.Models.{WebhookStatus}
use procyon_modules.Models.Errors.{Sentinel, Error, sentinel, message, wrapped, joined, is}
use procyon_modules.Exec.{World}
use procyon_modules.Controller.{status_of, payment_http_error, public_error_status}
use procyon_modules.Migrations.Applied.{
  Migrates, run_payment_migrations, run_payment_migrations-Migrates,
}
use procyon_modules.Tests.{new_world, webhook}

-- What a reconciliation of two subscriptions may answer.
abbrev both : Error
both =
    joined (message (bytes "timeout"))
      (wrapped (bytes "reconcile") (sentinel Sentinel.ownership_conflict))

public_error_status_example : status_of (payment_http_error both) < 500
unfolding is
public_error_status_example = public_error_status both Sentinel.ownership_conflict refl refl

-- A database of an older version: an event that was being processed, with no start.
abbrev old_world : World
old_world = record (new_world 100) {
  db = record (new_world 100).db {
    webhooks = record {
      rows =
          record (webhook (bytes "evt_1")) { status = WebhookStatus.processing; updated_at = 7 }
          ∷ [];
      next_id = 2;
    };
  };
}

run_payment_migrations-Migrates_example :
    Migrates (pos 50) old_world (run_payment_migrations old_world)
run_payment_migrations-Migrates_example =
    run_payment_migrations-Migrates (pos 50) old_world (refl, tt)
