-- ===== src/Exec/Reliable.antt =====
-- The rules of an environment where no statement fails: what a call does there.
use procyon_modules.Base.{ℕ, ◌≡◌, sym, subst, Option, none, some, List}
use procyon_modules.Models.Errors.{Error, message}
use procyon_modules.Exec.{
  Result, ok, err, Db, World, Exec, ◌>>=◌, next_request, statement, random_bytes, transaction,
  end_transaction,
}

-- No statement fails.
abbrev pub IsReliable : World → Type 0
IsReliable w = (n : ℕ) → w.fails n ≡ none

-- Every draw of random bytes succeeds.
abbrev pub HasEntropy : World → Type 0
HasEntropy w = (n size : ℕ) → (raw : List ℕ) × (w.entropy n size ≡ some raw)

module _ {A : Type 0} (P : Result A × World → Type 0) where
  pub at_statement_done :
      (m : Db → A × Db) (w : World)
      → w.fails w.requests ≡ none
      → P (ok (m w.db).0, record (next_request w) { db = (m w.db).1 })
      → P (statement m w)
  unfolding statement
  at_statement_done m w h done = rw (statement, h) done

module _ {A B : Type 0} (P : Result B × World → Type 0) where
  pub at_bind_statement_done :
      (m : Db → A × Db) (f : A → Exec B) (w : World)
      → w.fails w.requests ≡ none
      → P (f (m w.db).0 (record (next_request w) { db = (m w.db).1 }))
      → P ((statement m >>= f) w)
  unfolding ◌>>=◌
  at_bind_statement_done m f w h done =
      at_statement_done (λ r. P (elim r.0 [ ok a ↦ f a r.1 | err e ↦ (err e, r.1) ])) m w h done

module _ {B : Type 0} (P : Result B × World → Type 0) where
  pub at_bind_drawn :
      (size : ℕ) (f : List ℕ → Exec B) (w : World) (raw : List ℕ)
      → w.entropy w.requests size ≡ some raw
      → P (f raw (next_request w))
      → P ((random_bytes size >>= f) w)
  unfolding ◌>>=◌ random_bytes
  at_bind_drawn size f w raw h done =
      subst (λ o. P (elim (drawn o).0 [ ok a ↦ f a (drawn o).1 | err e ↦ (err e, (drawn o).1) ]))
        (sym h) done
    where
      drawn : Option (List ℕ) → Result (List ℕ) × World
      drawn o = elim o [
        | some raw ↦ (ok raw, next_request w)
        | none ↦ (err (message List.[]), next_request w)
      ]

module _ {A : Type 0} (P : Result A × World → Type 0) (db : Db) where
  -- The body of a transaction whose COMMIT does not fail.
  unfoldable pub Settles : Result A × World → Type 0
  Settles (ok a, w) = (w.fails w.requests ≡ none) × P (ok a, next_request w)
  Settles (err e, w) = P (err e, record w { db = db })

  pub Settles-ok :
      (a : A) (w : World) → w.fails w.requests ≡ none → P (ok a, next_request w) → Settles (ok a, w)
  unfolding Settles
  Settles-ok a w h p = (h, p)

  pub Settles-err : (e : Error) (w : World) → P (err e, record w { db = db }) → Settles (err e, w)
  unfolding Settles
  Settles-err e w p = p

  at_end : (r : Result A × World) → Settles r → P (end_transaction db r)
  unfolding Settles
  at_end (ok a, w) h = rw h.0 h.1
  at_end (err e, w) h = h

pub at_transaction_done :
    {A : Type 0} (P : Result A × World → Type 0) (body : Exec A) (w : World)
    → w.fails w.requests ≡ none
    → Settles P w.db (body (next_request w))
    → P (transaction body w)
unfolding transaction
at_transaction_done P body w h done =
    rw (transaction, h) (at_end P w.db (body (next_request w)) done)
