-- ===== src/Store/Webhooks/Keys.antt =====
-- The rows of the webhook table by the key (provider, event_id) of their event.
use procyon_modules.Base.{Option}
use procyon_modules.Base.Text.{Text}
use procyon_modules.Models.{PaymentWebhookEvent}
use procyon_modules.Exec.{Db}
use procyon_modules.Store.Table.{find}
use procyon_modules.Store.Keyed
use procyon_modules.Store.Keyed.{HasIndex}
use procyon_modules.Store.Webhooks.{is_event, provider_of, event_of}

-- The row of an event, as a lookup finds it.
abbrev pub row_of : Text → Text → Db → Option PaymentWebhookEvent
row_of p e db = find (is_event p e) db.webhooks.rows

-- No event has two rows.
abbrev pub IsKeyed : Db → Type 0
IsKeyed db = HasIndex provider_of event_of db.webhooks.rows

-- The updates that leave the key columns alone.
abbrev pub KeepsKey : (PaymentWebhookEvent → PaymentWebhookEvent) → Type 0
KeepsKey f = Keyed.KeepsKey provider_of event_of f
