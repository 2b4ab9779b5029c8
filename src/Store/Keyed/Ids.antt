-- ===== src/Store/Keyed/Ids.antt =====
-- Tables with a primary key beside their unique index, and updates by the primary key of a row that
-- was looked up, as the upserts of store.go make them.
use procyon_modules.Base.{
  ℕ, suc, ◌<◌, ◌≡◌, ap, ◌∙◌, Bool, none, some, [], ◌∷◌, ◌++◌, arith, eqb, Bool-cases, inl, inr,
  Option-cases, All,
}
use procyon_modules.Base.Text.{Text, eq_iff}
use procyon_modules.Exec.{Table}
use procyon_modules.Store.Table.{find, update_where}
use procyon_modules.Store.Table.Laws.{
  IsUnique, unique_found, update_where-IsUnique, update_where-All, append-IsUnique, All-append_one,
  All-weaken, find_new,
}
use procyon_modules.Store.Keyed.{IsOtherKey, is_key, HasIndex, KeepsKey}
use procyon_modules.Store.Keyed.Laws.{find-update, insert-HasIndex, update-HasIndex, found_key}

module _ {Row : Type 0} (first second : Row → Text) (id : Row → ℕ) where
  abbrev same_id : Row → Row → Bool
  same_id r s = eqb (id s) (id r)

  -- Both indexes hold, and the next primary key is new.
  pub record IsTable (t : Table Row) : Type 0 where
    pub index : HasIndex first second t.rows
    pub ids : IsUnique same_id t.rows
    pub below : All (λ r. id r < t.next_id) t.rows

  same_id_comm : (r s : Row) → same_id r s ≡ same_id s r
  same_id_comm r s = ground arith

  module _ (f : Row → Row) (k : KeepsKey first second f) (i : (r : Row) → id (f r) ≡ id r)
      (p e : Text) (t : Table Row) (v : IsTable t) (r : Row)
      (h : find (is_key first second p e) t.rows ≡ some r) where
    abbrev by_id : Row → Bool
    by_id s = eqb (id s) (id r)

    pub update_id_self : find (is_key first second p e) (update_where by_id f t.rows) ≡ some (f r)
    update_id_self = find-update first second f k p e by_id t.rows ∙ rw h (ground arith)

    pub update_id_ne :
        (p' e' : Text)
        → IsOtherKey p e p' e'
        → find (is_key first second p' e') (update_where by_id f t.rows)
          ≡ find (is_key first second p' e') t.rows
    update_id_ne p' e' d = elim (Option-cases (find (is_key first second p' e') t.rows)) [
      | inl n ↦ find-update first second f k p' e' by_id t.rows ∙ rw n
      | inr (s, n) ↦ elim (Bool-cases (by_id s)) [
        | inr b ↦ find-update first second f k p' e' by_id t.rows ∙ rw n (ground (arith, b))
        | inl b ↦
            let one : r ≡ s =
              unique_found same_id (is_key first second p e) (is_key first second p' e') t.rows r s
                same_id_comm v.ids h n b in
            let key = found_key first second p e t.rows h in
            let key' = found_key first second p' e' t.rows n in
            absurd (
              ground (
                arith,
                eq_iff p p',
                eq_iff e e',
                key.0,
                key.1,
                key'.0,
                key'.1,
                ap first one,
                ap second one,
              ))
      ]
    ]

    pub update_id-IsTable : IsTable (record t { rows = update_where by_id f t.rows })
    update_id-IsTable = record {
      index = update-HasIndex first second f k by_id t.rows v.index;
      ids =
          update_where-IsUnique same_id by_id f t.rows (λ a b. ground (arith, i a))
            (λ a b. ground (arith, i b)) v.ids;
      below = update_where-All (λ a. id a < t.next_id) by_id f t.rows (λ a l. rw (i a) l) v.below;
    }

  pub insert-IsTable :
      (t : Table Row) (x : Row)
      → IsTable t
      → id x ≡ t.next_id
      → find (is_key first second (first x) (second x)) t.rows ≡ none
      → IsTable (record { rows = t.rows ++ x ∷ []; next_id = suc t.next_id })
  insert-IsTable t x v new h = record {
    index = insert-HasIndex first second t.rows x h v.index;
    ids =
        append-IsUnique same_id t.rows x same_id_comm (find_new id x t.rows (rw new v.below)) v.ids;
    below =
        All-append_one (λ a. id a < suc t.next_id) t.rows x
          (All-weaken (λ a. id a < t.next_id) (λ a. id a < suc t.next_id) t.rows
            (λ a l. omega arith) v.below)
          (omega (arith, new));
  }
