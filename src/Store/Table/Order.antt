-- ===== src/Store/Table/Order.antt =====
-- `ORDER BY key DESC LIMIT 1` over the rows that a condition accepts.
use procyon_modules.Base.{
  ℕ, ◌≤◌, ◌≡◌, refl, Bool, true, false, Option, none, some, List, [], ◌∷◌, arith, leb,
  if◌then◌else◌, All, select, ◌⊎◌, Bool-cases, Option-cases, inl, inr,
}
use procyon_modules.Store.Table.Laws.{All-weaken}
use procyon_modules.Store.Table.{insert_desc, order_desc, first}

module _ {Row : Type 0} (key : Row → ℕ) where
  abbrev better : Row → Option Row → Row
  better x none = x
  better x (some y) = if leb (key y) (key x) then x else y

  first-insert_desc :
      (x : Row) (l : List Row) → first (insert_desc key x l) ≡ some (better x (first l))
  unfolding insert_desc
  first-insert_desc x [] = refl
  first-insert_desc x (y ∷ l) = ground arith

  first-order_desc :
      (x : Row) (l : List Row)
      → first (order_desc key (x ∷ l)) ≡ some (better x (first (order_desc key l)))
  unfolding order_desc
  first-order_desc x l = first-insert_desc x (order_desc key l)

  -- The condition and the order together, by recursion on the table.
  abbrev best : (Row → Bool) → List Row → Option Row
  best p rows = first (order_desc key (select p rows))

  pub best-none :
      (p : Row → Bool) (rows : List Row) → best p rows ≡ none → All (λ r. p r ≡ false) rows
  best-none p [] h = tt
  best-none p (r ∷ rows) h = elim (Bool-cases (p r)) [
    | inl e ↦ absurd (ground (arith, e, first-order_desc r (select p rows)))
    | inr e ↦ (e, best-none p rows (ground (arith, e)))
  ]

  pub best-accepted :
      (p : Row → Bool) (rows : List Row) (s : Row) → best p rows ≡ some s → p s ≡ true
  unfolding order_desc
  best-accepted p [] s h = cc
  best-accepted p (r ∷ rows) s h = elim (Bool-cases (p r)) [
    | inr e ↦ best-accepted p rows s (ground (arith, e))
    | inl e ↦ ground (arith, e, first-order_desc r (select p rows), best-accepted p rows s)
  ]

  pub best-largest :
      (p : Row → Bool) (rows : List Row) (s : Row)
      → best p rows ≡ some s
      → All (λ r. (p r ≡ false) ⊎ (key r ≤ key s)) rows
  best-largest p [] s h = tt
  best-largest p (r ∷ rows) s h = elim (Bool-cases (p r)) [
    | inr e ↦ (inl e, best-largest p rows s (ground (arith, e)))
    | inl e ↦ elim (Option-cases (best p rows)) [
      | inl n ↦ (
        inr (ground (arith, e, first-order_desc r (select p rows))),
        All-weaken (λ a. p a ≡ false) (λ a. (p a ≡ false) ⊎ (key a ≤ key s)) rows (λ a f. inl f)
            (best-none p rows n),
      )
      | inr (y, n) ↦
          let y_le : key y ≤ key s = ground (arith, e, first-order_desc r (select p rows)) in
          (
            inr (ground (arith, e, first-order_desc r (select p rows))),
            All-weaken (λ a. (p a ≡ false) ⊎ (key a ≤ key y)) (λ a. (p a ≡ false) ⊎ (key a ≤ key s))
                rows (λ a f. grow a y y_le f) (best-largest p rows y n),
          )
    ]
  ]
    where
      grow :
          (a y : Row)
          → key y ≤ key s
          → (p a ≡ false) ⊎ (key a ≤ key y)
          → (p a ≡ false) ⊎ (key a ≤ key s)
      grow a y l (inl f) = inl f
      grow a y l (inr f) = inr (omega arith)
