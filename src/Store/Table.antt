-- ===== src/Store/Table.antt =====
-- What the statements of store.go do to a table: the meaning of their SQL.
pub mod Order
pub mod Laws
pub mod Members
use procyon_modules.Base.{
  ℕ, ◌+◌, Bool, Option, none, some, List, [], ◌∷◌, leb, if◌then◌else◌, take, drop,
}
use procyon_modules.Base.Int.{ℤ, pos, negsuc, pos_part}

module _ {Row : Type 0} where
  -- `WHERE p ORDER BY id LIMIT 1`
  unfoldable pub find : (Row → Bool) → List Row → Option Row
  find p [] = none
  find p (r ∷ rs) = let rest = find p rs in if p r then some r else rest

  -- `UPDATE … SET f WHERE p`
  unfoldable pub update_where : (Row → Bool) → (Row → Row) → List Row → List Row
  update_where p f [] = []
  update_where p f (r ∷ rs) = (if p r then f r else r) ∷ update_where p f rs

  -- The number of rows that `p` accepts.
  unfoldable pub count : (Row → Bool) → List Row → ℕ
  count p [] = 0
  count p (r ∷ rs) = (if p r then 1 else 0) + count p rs

  -- Before the first row with a smaller key: rows with equal keys keep their order.
  unfoldable pub insert_desc : (Row → ℕ) → Row → List Row → List Row
  insert_desc key r [] = r ∷ []
  insert_desc key r (s ∷ rs) =
      let further = s ∷ insert_desc key r rs in if leb (key s) (key r) then r ∷ s ∷ rs else further

  -- `ORDER BY key DESC`, then by id.
  unfoldable pub order_desc : (Row → ℕ) → List Row → List Row
  unfolding insert_desc
  order_desc key [] = []
  order_desc key (r ∷ rs) = insert_desc key r (order_desc key rs)

  -- `LIMIT limit OFFSET offset`: gorm writes no limit below 0, and no offset below 1.
  unfoldable pub page : ℤ → ℤ → List Row → List Row
  page (pos limit) offset rows = take limit (drop (pos_part offset) rows)
  page (negsuc limit) offset rows = drop (pos_part offset) rows

  -- The first row in a list, `LIMIT 1`.
  abbrev pub first : List Row → Option Row
  first [] = none
  first (r ∷ rs) = some r
