-- ===== src/Service/Reconcile/Termination.antt =====
-- The number of batches that `Reconcile` of service.go takes.
use procyon_modules.Base.{
  ℕ, suc, zero, ◌+◌, ◌<◌, ◌≤◌, ◌≡◌, refl, ap, Bool, true, false, inl, inr, Option, some, List, [],
  ◌∷◌, ◌++◌, ltb, arith, All, Bool-cases, if◌then◌else◌, length, take, select,
}
use procyon_modules.Models.{PaymentSubscription}
use procyon_modules.Models.Errors.{Error}
use procyon_modules.Exec.{Result, ok, err, Db, World, next_request}
use procyon_modules.Exec.Rules.{at_statement}
use procyon_modules.Store.Table.Laws.{All-weaken}
use procyon_modules.Store.Table.Members.{IsIn, each-IsIn}
use procyon_modules.Store.Subscriptions.{list_subscriptions_after}
use procyon_modules.Service.{PaymentSystemService}
use procyon_modules.Service.Reconcile.{
  reconcile_one, reconcile_items, reconcile_batches, reconcile, finish_reconcile, batch_size,
}

-- How many keys are above `after_id`.
unfoldable above : ℕ → List ℕ → ℕ
above after_id [] = 0
above after_id (n ∷ ns) = (if ltb after_id n then 1 else 0) + above after_id ns

above_le : (a b : ℕ) (ns : List ℕ) → a ≤ b → above b ns ≤ above a ns
unfolding above
above_le a b [] h = omega arith
above_le a b (n ∷ ns) h = ground (arith, above_le a b ns h)

above_lt : (a b : ℕ) (ns : List ℕ) → a < b → IsIn b ns → above b ns < above a ns
unfolding above
above_lt a b [] h i = absurd i
above_lt a b (n ∷ ns) h (inl e) = ground (arith, above_le a b ns (omega (arith, h)), e)
above_lt a b (n ∷ ns) h (inr i) = ground (arith, above_lt a b ns h i)

above-length : (a : ℕ) (ns : List ℕ) → above a ns ≤ length ns
unfolding above
above-length a [] = omega arith
above-length a (n ∷ ns) = ground (arith, above-length a ns)

All-select :
    (P : PaymentSubscription → Type 0) (p : PaymentSubscription → Bool)
    (rows : List PaymentSubscription)
    → All P rows
    → All (λ r. P r × (p r ≡ true)) (select p rows)
All-select P p [] h = tt
All-select P p (r ∷ rows) h = elim (Bool-cases (p r)) [
  | inl b ↦ rw b ((h.0, b), All-select P p rows h.1)
  | inr b ↦ rw b (All-select P p rows h.1)
]

All-take :
    (P : PaymentSubscription → Type 0) (n : ℕ) (rows : List PaymentSubscription)
    → All P rows
    → All P (take n rows)
All-take P zero rows h = tt
All-take P (suc n) [] h = tt
All-take P (suc n) (r ∷ rows) h = (h.0, All-take P n rows h.1)

-- The last key of a batch after `after_id`.
abbrev last_id : ℕ → List PaymentSubscription → ℕ
last_id after_id [] = after_id
last_id after_id (r ∷ rows) = last_id r.id rows

last_All :
    (P : ℕ → Type 0) (a : ℕ) (rows : List PaymentSubscription)
    → P a
    → All (λ r. P r.id) rows
    → P (last_id a rows)
last_All P a [] h k = h
last_All P a (r ∷ rows) h k = last_All P r.id rows k.0 k.1

items_lt :
    (a : ℕ) (ns : List ℕ) (items : List PaymentSubscription)
    → All (λ r. IsIn r.id ns × (ltb a r.id ≡ true)) items
    → ltb (length items) batch_size ≡ false
    → above (last_id a items) ns < above a ns
items_lt a ns [] v h = cc
items_lt a ns (r ∷ rs) v h =
    let (i, b) = last_All (λ n. IsIn n ns × (ltb a n ≡ true)) r.id rs v.0 v.1 in
    above_lt a (last_id r.id rs) ns (ground (arith, b)) i

-- The databases that reconciliations lead to: `ids` has every primary key of a subscription there,
-- and a row that has been listed in one of them is reconciled into one of them.
pub record Confines (s : PaymentSystemService) (ids : List ℕ) (Inv : Db → Type 0) : Type 0 where
  pub bounded : (db : Db) → Inv db → All (λ r. IsIn r.id ids) db.subscriptions.rows
  pub kept :
      (item : PaymentSubscription) (before : Db) (w : World)
      → Inv before
      → IsIn item before.subscriptions.rows
      → Inv w.db
      → Inv (reconcile_one s item w).1.db

module _ (s : PaymentSystemService) (ids : List ℕ) (Inv : Db → Type 0) where
  items_last :
      (items : List PaymentSubscription) (a : ℕ) (errors : List Error) (w : World)
      → (reconcile_items s items a errors w).0 ≡ last_id a items
  unfolding reconcile_items
  items_last [] a errors w = refl
  items_last (r ∷ rs) a errors w =
      items_last rs r.id (errors ++ (reconcile_one s r w).0) (reconcile_one s r w).1

  items_kept :
      (items : List PaymentSubscription) (a : ℕ) (errors : List Error) (before : Db) (w : World)
      → Confines s ids Inv
      → Inv before
      → All (λ r. IsIn r before.subscriptions.rows) items
      → Inv w.db
      → Inv (reconcile_items s items a errors w).2.db
  unfolding reconcile_items
  items_kept [] a errors before w k b m i = i
  items_kept (r ∷ rs) a errors before w k b m i =
      items_kept rs r.id (errors ++ (reconcile_one s r w).0) before (reconcile_one s r w).1 k b m.1
        (k.kept r before w b m.0 i)

  -- The rows of a batch after `a`.
  abbrev batch : ℕ → Db → List PaymentSubscription
  batch a db = take batch_size (select (λ r. ltb a r.id) db.subscriptions.rows)

  in_batch :
      (P : PaymentSubscription → Type 0) (a : ℕ) (db : Db)
      → All P db.subscriptions.rows
      → All (λ r. P r × (ltb a r.id ≡ true)) (batch a db)
  in_batch P a db h =
      All-take (λ r. P r × (ltb a r.id ≡ true)) batch_size _
        (All-select P (λ r. ltb a r.id) db.subscriptions.rows h)

  -- The loop ends with more fuel than there are keys left.
  batches_end :
      (fuel a : ℕ) (errors : List Error) (w : World)
      → Confines s ids Inv
      → Inv w.db
      → above a ids < fuel
      → (res : List Error × World) × (reconcile_batches s fuel a errors w ≡ some res)
  unfolding reconcile_batches list_subscriptions_after
  batches_end zero a errors w k v h = absurd (omega (arith, h))
  batches_end (suc fuel) a errors w k v h =
      at_statement after_list (λ db. (batch a db, db)) w (λ text e. (_, refl))
        λ e. elim (Bool-cases (ltb (length items) batch_size)) [
          | inl b ↦ ((walked.1, walked.2), rw b refl)
          | inr b ↦
              let fewer =
                items_lt a ids items (in_batch (λ r. IsIn r.id ids) a w.db (k.bounded w.db v)) b in
              let (res, end) =
                batches_end fuel walked.0 walked.1 walked.2 k still
                  (rw (items_last items a errors listed) (omega (arith, fewer, h))) in
              (res, rw b end)
        ]
    where
      items : List PaymentSubscription
      items = batch a w.db

      listed : World
      listed = record (next_request w) { db = w.db }

      walked : ℕ × List Error × World
      walked = reconcile_items s items a errors listed

      still : Inv walked.2.db
      still =
          items_kept items a errors w.db listed k v
            (All-weaken _ _ items (λ r m. m.0)
              (in_batch (λ r. IsIn r w.db.subscriptions.rows) a w.db (each-IsIn _)))
            v

      after_list : Result (List PaymentSubscription) × World → Type 0
      after_list r =
          (res : List Error × World) × (elim r.0 as (λ x. Option (List Error × World)) [
            | err e ↦ some (errors ++ e ∷ [], r.1)
            | ok batch ↦
                let (after', errors', w'') = reconcile_items s batch a errors r.1 in
                let rest = reconcile_batches s fuel after' errors' w'' in
                if ltb (length batch) batch_size then some (errors', w'') else rest
          ]
            ≡ some res)

  -- `Reconcile` comes to its end: if the database is in a set that holds only primary keys of a
  -- list, and that no reconciliation of a row listed in the set leaves, then one batch more than
  -- this list is long is enough, whatever the reconcilers and the statements answer.
  pub reconcile_ends :
      (fuel : ℕ) (w : World)
      → Confines s ids Inv
      → Inv w.db
      → length ids < fuel
      → (res : Result (Unit {0}) × World) × (reconcile s fuel w ≡ some res)
  unfolding reconcile
  reconcile_ends fuel w k v h =
      let (res, e) = batches_end fuel 0 [] w k v (omega (arith, above-length 0 ids, h)) in
      (_, ap (finish_reconcile s) e)
