-- ===== src/Store/Subscriptions/Keys.antt =====
-- The keys of the rows of the subscriptions, and an upsert that finds its row.
use procyon_modules.Base.{
  ℕ, ◌≡◌, ◌≢◌, refl, ap, ◌∙◌, Option, none, some, List, [], ◌∷◌, map, inl, inr, eqb, Bool-cases,
  subst,
}
use procyon_modules.Base.Text.{Text, eq_refl}
use procyon_modules.Models.{PaymentSubscription}
use procyon_modules.Exec.{Result, World, Db}
use procyon_modules.Exec.Rules.{
  at_statement, at_bind_statement, at_bind_now, at_if, at_raise, at_transaction, at_commit,
  at_abort, InTransaction,
}
use procyon_modules.Store.Table.{find, update_where}
use procyon_modules.Store.Table.Members.{IsIn, IsIn-map}
use procyon_modules.Store.Keyed.{is_key}
use procyon_modules.Store.Subscriptions.{
  is_subscription, merged, update_subscription, conflicts, find_subscription, write_subscription,
  upsert_subscription,
}
use procyon_modules.Store.Subscriptions.Upsert.{
  subscription_of, insertion, insert_old, inserted_none,
}

abbrev pub Key : Type 0
Key = ℕ × Text × Text

abbrev pub key_of : PaymentSubscription → Key
key_of r = (r.id, r.provider, r.external_subscription_id)

-- The keys of the rows, in their order.
abbrev pub keys : Db → List Key
keys db = map key_of db.subscriptions.rows

update-keys :
    (id : ℕ) (f : PaymentSubscription → PaymentSubscription) (rows : List PaymentSubscription)
    → ((r : PaymentSubscription) → key_of (f r) ≡ key_of r)
    → map key_of (update_where (λ r. eqb r.id id) f rows) ≡ map key_of rows
unfolding update_where
update-keys id f [] k = refl
update-keys id f (r ∷ rows) k = elim (Bool-cases (eqb r.id id)) [
  | inl b ↦ rw (b, k r, update-keys id f rows k) refl
  | inr b ↦ rw (b, update-keys id f rows k) refl
]

find_key :
    (id : ℕ) (p e : Text) (rows : List PaymentSubscription)
    → IsIn {A = Key} (id, p, e) (map key_of rows)
    → find (is_subscription p e) rows ≢ none
unfolding find is_key
find_key id p e [] i = absurd i
find_key id p e (r ∷ rows) (inl q) =
    λ h. cc (ap (λ k. k.1) q, ap (λ k. k.2) q, h, eq_refl p, eq_refl e)
find_key id p e (r ∷ rows) (inr i) = elim (Bool-cases (is_subscription p e r)) [
  | inl b ↦ λ h. cc
  | inr b ↦ rw b (find_key id p e rows i)
]

-- A row of a database is found in every other one that has the same keys.
pub row_found :
    (item : PaymentSubscription) (before db : Db)
    → IsIn item before.subscriptions.rows
    → keys before ≡ keys db
    → subscription_of item.provider item.external_subscription_id db ≢ none
row_found item before db i same =
    find_key item.id item.provider item.external_subscription_id db.subscriptions.rows
      (subst (IsIn (key_of item)) same (IsIn-map key_of item before.subscriptions.rows i))

module _ (s : PaymentSubscription) (w : World) where
  abbrev P : Result (Unit {0}) × World → Type 0
  P res = keys res.1.db ≡ keys w.db

  written :
      (start : Db) (o : Option PaymentSubscription) (w' : World)
      → keys start ≡ keys w.db
      → keys w'.db ≡ keys w.db
      → InTransaction P start (write_subscription w.clock s o w')
  unfolding write_subscription update_subscription merged
  written start none w' q d = at_raise (InTransaction P start) _ w' (at_abort P start _ _ q)
  written start (some r) w' q d =
      at_if (InTransaction P start) (conflicts s r) _ _ w'
        (λ taken. at_raise (InTransaction P start) _ w' (at_abort P start _ _ q))
        (λ free.
          at_statement (InTransaction P start) _ w' (λ text x. at_abort P start _ _ q)
            (λ x.
              at_commit P start _ _
                (update-keys r.id (merged w.clock s) w'.db.subscriptions.rows (λ r. refl) ∙ d)))

  -- An upsert of a subscription that has a row neither adds nor removes one.
  pub upsert_subscription-keys :
      subscription_of s.provider s.external_subscription_id w.db ≢ none
      → keys (upsert_subscription s w).1.db ≡ keys w.db
  unfolding upsert_subscription find_subscription
  upsert_subscription-keys found = at_bind_now P _ w (
      at_bind_statement P _ _ w (λ text. refl)
        (at_if P (insertion s w).0 _ _ _ (λ c. absurd (found (inserted_none s w c)))
          (λ c.
            at_transaction P _ _ (λ text w' d. ap keys (d ∙ insert_old s w c))
              (at_bind_statement (InTransaction P (insertion s w).1) _ _ _
                (λ text. at_abort P (insertion s w).1 _ _ (ap keys (insert_old s w c)))
                (written (insertion s w).1 _ _ (ap keys (insert_old s w c))
                  (ap keys (insert_old s w c)))))))
