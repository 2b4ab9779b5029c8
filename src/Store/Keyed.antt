-- ===== src/Store/Keyed.antt =====
-- A unique index on two text columns, as each of the three tables has one: which rows a lookup by
-- key accepts, and what it finds after an insert or an update.
pub mod Laws
pub mod Ids
use procyon_modules.Base.{◌≡◌, Bool, false, ◌&&◌, Option, List}
use procyon_modules.Base.Text.{Text, ◌==◌}
use procyon_modules.Store.Table.{find}
use procyon_modules.Store.Table.Laws.{IsUnique}

-- Two different keys.
abbrev pub IsOtherKey : Text → Text → Text → Text → Type 0
IsOtherKey p e p' e' = (p == p' && e == e') ≡ false

module _ {Row : Type 0} (first second : Row → Text) where
  -- `first = ? AND second = ?`
  unfoldable pub is_key : Text → Text → Row → Bool
  is_key p e r = first r == p && second r == e

  abbrev pub same_key : Row → Row → Bool
  same_key r s = is_key (first r) (second r) s

  -- No two rows have one key.
  abbrev pub HasIndex : List Row → Type 0
  HasIndex rows = IsUnique same_key rows

  -- An update that leaves the key columns alone.
  pub record KeepsKey (f : Row → Row) : Type 0 where
    pub keeps_first : (r : Row) → first (f r) ≡ first r
    pub keeps_second : (r : Row) → second (f r) ≡ second r
