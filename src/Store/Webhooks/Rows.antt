-- ===== src/Store/Webhooks/Rows.antt =====
-- An UPDATE of the webhook table, as every lookup of an event sees it.
use procyon_modules.Base.{◌≡◌, refl, Bool, ◌&&◌, if◌then◌else◌}
use procyon_modules.Base.Text.{Text}
use procyon_modules.Models.{PaymentWebhookEvent}
use procyon_modules.Exec.{Db}
use procyon_modules.Store.Table.Laws.{alter, accepts}
use procyon_modules.Store.Keyed.{IsOtherKey}
use procyon_modules.Store.Keyed.Laws.{find-update_self, find-update_ne, update-HasIndex, affected}
use procyon_modules.Store.Webhooks.{is_event, provider_of, event_of, update_webhooks}
use procyon_modules.Store.Webhooks.Keys.{row_of, IsKeyed, KeepsKey}

-- What one UPDATE of the rows of an event that `g` accepts has done, for an event of any key.
pub record Updated (p e : Text) (g : PaymentWebhookEvent → Bool)
    (f : PaymentWebhookEvent → PaymentWebhookEvent) (db : Db) (hit : Bool) (db' : Db) : Type 0 where
  pub hits : hit ≡ accepts g (row_of p e db)
  pub row : row_of p e db' ≡ alter (λ r. if g r then f r else r) (row_of p e db)
  pub others : (p' e' : Text) → IsOtherKey p e p' e' → row_of p' e' db' ≡ row_of p' e' db
  pub payments : db'.payments ≡ db.payments
  pub subscriptions : db'.subscriptions ≡ db.subscriptions
  pub keyed : IsKeyed db'

pub update_webhooks-Updated :
    (f : PaymentWebhookEvent → PaymentWebhookEvent) (k : KeepsKey f) (p e : Text)
    (g : PaymentWebhookEvent → Bool) (db : Db)
    → IsKeyed db
    → Updated p e g f db
        (update_webhooks (λ r. is_event p e r && g r) f db).0
        (update_webhooks (λ r. is_event p e r && g r) f db).1
unfolding update_webhooks
update_webhooks-Updated f k p e g db u = record {
  hits = affected provider_of event_of p e g db.webhooks.rows u;
  row = find-update_self provider_of event_of f k p e g db.webhooks.rows;
  others = find-update_ne provider_of event_of f k p e g db.webhooks.rows;
  payments = refl;
  subscriptions = refl;
  keyed = update-HasIndex provider_of event_of f k _ db.webhooks.rows u;
}
