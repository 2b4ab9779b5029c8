-- ===== src/Exec/Rules.antt =====
-- One rule for each way to build a call: what has to be shown of its parts so that a predicate
-- `P` holds of the result and of the world that it leaves.
use procyon_modules.Base.{
  ℕ, ◌≡◌, [], refl, ap, Bool, true, false, Option, none, some, List, if◌then◌else◌,
}
use procyon_modules.Base.Text.{Text}
use procyon_modules.Models.{Time}
use procyon_modules.Models.Errors.{Error, message, database}
use procyon_modules.Exec.Results.{require}
use procyon_modules.Exec.{
  Result, ok, err, Db, World, Exec, pure, raise, from, ◌>>=◌, time_now, next_request, statement,
  random_bytes, transaction, end_transaction,
}

module _ {A : Type 0} (P : Result A × World → Type 0) where
  pub at_pure : (a : A) (w : World) → P (ok a, w) → P (pure a w)
  unfolding pure
  at_pure a w h = h

  pub at_raise : (e : Error) (w : World) → P (err e, w) → P (raise e w)
  unfolding raise
  at_raise e w h = h

  pub at_from : (r : Result A) (w : World) → P (r, w) → P (from r w)
  unfolding from
  at_from r w h = h

  pub at_if :
      (b : Bool) (m n : Exec A) (w : World)
      → (b ≡ true → P (m w))
      → (b ≡ false → P (n w))
      → P ((if b then m else n) w)
  at_if true m n w t f = t refl
  at_if false m n w t f = f refl

  pub at_statement :
      (m : Db → A × Db) (w : World)
      → ((text : Text) → w.fails w.requests ≡ some text → P (err (database text), next_request w))
      → (w.fails w.requests ≡ none → P (ok (m w.db).0, record (next_request w) { db = (m w.db).1 }))
      → P (statement m w)
  unfolding statement
  at_statement m w failed done = go (w.fails w.requests) failed done
    where
      go :
          (o : Option Text)
          → ((text : Text) → o ≡ some text → P (err (database text), next_request w))
          → (o ≡ none → P (ok (m w.db).0, record (next_request w) { db = (m w.db).1 }))
          → P (elim o [
            | some text ↦ (err (database text), next_request w)
            | none ↦ (ok (m w.db).0, record (next_request w) { db = (m w.db).1 })
          ])
      go none failed done = done refl
      go (some text) failed done = failed text refl

module _ {A B : Type 0} (P : Result B × World → Type 0) where
  -- The general rule: the rest runs in the world that the first part leaves.
  pub at_bind :
      (m : Exec A) (f : A → Exec B) (w : World)
      → ((e : Error) (w' : World) → m w ≡ (err e, w') → P (err e, w'))
      → ((a : A) (w' : World) → m w ≡ (ok a, w') → P (f a w'))
      → P ((m >>= f) w)
  unfolding ◌>>=◌
  at_bind m f w failed done = go (m w) failed done
    where
      go :
          (r : Result A × World)
          → ((e : Error) (w' : World) → r ≡ (err e, w') → P (err e, w'))
          → ((a : A) (w' : World) → r ≡ (ok a, w') → P (f a w'))
          → P (elim r.0 [ ok a ↦ f a r.1 | err e ↦ (err e, r.1) ])
      go (ok a, w') failed done = done a w' refl
      go (err e, w') failed done = failed e w' refl

  pub at_bind_statement :
      (m : Db → A × Db) (f : A → Exec B) (w : World)
      → ((text : Text) → P (err (database text), next_request w))
      → P (f (m w.db).0 (record (next_request w) { db = (m w.db).1 }))
      → P ((statement m >>= f) w)
  unfolding ◌>>=◌
  at_bind_statement m f w failed done =
      at_statement (λ r. P (elim r.0 [ ok a ↦ f a r.1 | err e ↦ (err e, r.1) ])) m w
        (λ text e. failed text) (λ e. done)

-- A chain that returns has returned at each of its parts.
pub bind_returns :
    {A B : Type 0} (m : Exec A) (f : A → Exec B) (w : World) (b : B) (w' : World)
    → (m >>= f) w ≡ (ok b, w')
    → (a : A) × (w1 : World) × (m w ≡ (ok a, w1)) × (f a w1 ≡ (ok b, w'))
unfolding ◌>>=◌
bind_returns {A} {B} m f w b w' = go (m w)
  where
    go :
        (r : Result A × World)
        → elim r.0 [ ok a ↦ f a r.1 | err e ↦ (err e, r.1) ] ≡ (ok b, w')
        → (a : A) × (w1 : World) × (r ≡ (ok a, w1)) × (f a w1 ≡ (ok b, w'))
    go (ok a, w1) h = (a, w1, refl, h)
    go (err e, w1) h = cc

-- The same, where the first part is a value or an error.
pub from_bind_returns :
    {A B : Type 0} (r : Result A) (f : A → Exec B) (w : World) (b : B) (w' : World)
    → (from r >>= f) w ≡ (ok b, w')
    → (a : A) × (r ≡ ok a) × (f a w ≡ (ok b, w'))
unfolding ◌>>=◌
from_bind_returns (ok a) f w b w' h = (a, refl, h)
from_bind_returns (err e) f w b w' h = cc

pub require_bind_returns :
    {B : Type 0} (t : Bool) (e : Error) (f : Unit {0} → Exec B) (w : World) (b : B) (w' : World)
    → (from (require t e) >>= f) w ≡ (ok b, w')
    → (t ≡ true) × (f tt w ≡ (ok b, w'))
unfolding ◌>>=◌
require_bind_returns true e f w b w' h = (refl, h)
require_bind_returns false e f w b w' h = cc

pub require_returns :
    (t : Bool) (e : Error) (w w' : World)
    → from (require t e) w ≡ (ok tt, w')
    → (t ≡ true) × (w ≡ w')
unfolding from
require_returns true e w w' h = (refl, ap (λ r. r.1) h)
require_returns false e w w' h = cc

pub time_now_returns :
    (w w' : World) (now : Time) → time_now w ≡ (ok now, w') → (w.clock ≡ now) × (w ≡ w')
unfolding time_now
time_now_returns w w' now h = (cc, cc)

pub from_returns :
    {A : Type 0} (r : Result A) (w : World) (a : A) (w' : World)
    → from r w ≡ (ok a, w')
    → (r ≡ ok a) × (w ≡ w')
unfolding from
from_returns r w a w' h = (ap (λ s. s.0) h, ap (λ s. s.1) h)

module _ {B : Type 0} (P : Result B × World → Type 0) where
  pub at_bind_now : (f : Time → Exec B) (w : World) → P (f w.clock w) → P ((time_now >>= f) w)
  unfolding ◌>>=◌ time_now
  at_bind_now f w h = h

  pub at_bind_random :
      (size : ℕ) (f : List ℕ → Exec B) (w : World)
      → ((e : Error) → P (err e, next_request w))
      → ((raw : List ℕ) → w.entropy w.requests size ≡ some raw → P (f raw (next_request w)))
      → P ((random_bytes size >>= f) w)
  unfolding ◌>>=◌ random_bytes
  at_bind_random size f w failed drawn = go (w.entropy w.requests size) drawn
    where
      drawn_as : Option (List ℕ) → Result (List ℕ) × World
      drawn_as o = elim o [
        | some raw ↦ (ok raw, next_request w)
        | none ↦ (err (message []), next_request w)
      ]

      go :
          (o : Option (List ℕ))
          → ((raw : List ℕ) → o ≡ some raw → P (f raw (next_request w)))
          → P (elim (drawn_as o).0 [ ok a ↦ f a (drawn_as o).1 | err e ↦ (err e, (drawn_as o).1) ])
      go none drawn = failed (message [])
      go (some raw) drawn = drawn raw refl

-- The rule of a transaction on `db`: BEGIN or COMMIT may fail, and the body has to establish `P` as
-- it will hold after COMMIT where it returns, and after the roll-back where it fails.
module _ {A : Type 0} (P : Result A × World → Type 0) (db : Db) where
  unfoldable pub InTransaction : Result A × World → Type 0
  InTransaction (ok a, w) = P (ok a, next_request w)
  InTransaction (err e, w) = P (err e, record w { db = db })

  pub at_abort :
      (e : Error) (w : World) → P (err e, record w { db = db }) → InTransaction (err e, w)
  unfolding InTransaction
  at_abort e w h = h

  pub at_commit : (a : A) (w : World) → P (ok a, next_request w) → InTransaction (ok a, w)
  unfolding InTransaction
  at_commit a w h = h

  at_end :
      (r : Result A × World)
      → ((text : Text) (w' : World) → w'.db ≡ db → P (err (database text), w'))
      → InTransaction r
      → P (end_transaction db r)
  unfolding InTransaction
  at_end (err e, w) failed h = h
  at_end (ok a, w) failed h = go (w.fails w.requests)
    where
      go :
          (o : Option Text)
          → P (elim o [
            | some text ↦ (err (database text), record (next_request w) { db = db })
            | none ↦ (ok a, next_request w)
          ])
      go (some text) = failed text _ refl
      go none = h

pub at_transaction :
    {A : Type 0} (P : Result A × World → Type 0) (body : Exec A) (w : World)
    → ((text : Text) (w' : World) → w'.db ≡ w.db → P (err (database text), w'))
    → InTransaction P w.db (body (next_request w))
    → P (transaction body w)
unfolding transaction
at_transaction P body w failed done = go (w.fails w.requests)
  where
    go :
        (o : Option Text)
        → P (elim o [
          | some text ↦ (err (database text), next_request w)
          | none ↦ end_transaction w.db (body (next_request w))
        ])
    go (some text) = failed text _ refl
    go none = at_end P w.db (body (next_request w)) failed done
