-- ===== src/Store/Keyed/Laws.antt =====
-- The two kinds of statement on a table with a unique index, an insert of a new key and an update,
-- as every lookup by key sees them.
use procyon_modules.Base.{
  ◌≡◌, refl, ◌∙◌, Bool, true, false, ◌&&◌, none, some, List, [], ◌∷◌, ◌++◌, arith, ltb, Bool-cases,
  inl, inr, Option-cases, and_true, if◌then◌else◌, All,
}
use mathlib.Core.Path.{ap₂}
use procyon_modules.Base.Text.{Text, ◌==◌, eq_refl, eq_iff}
use procyon_modules.Base.Text.Laws.{eq_comm}
use procyon_modules.Store.Table.{find, update_where, count}
use procyon_modules.Store.Table.Laws.{
  alter, accepts, find-append, find-update_where, find-update_where_ne, count_key, append-IsUnique,
  update_where-IsUnique, find_accepted,
}
use procyon_modules.Store.Keyed.{IsOtherKey, is_key, same_key, HasIndex, KeepsKey}

-- A lookup that is known at one key, and unchanged at the others, as one equation for every key.
pub at_every_key {ℓ} :
    {A : Type ℓ} (old new : Text → Text → A) (p e : Text) (value : A)
    → new p e ≡ value
    → ((p' e' : Text) → IsOtherKey p e p' e' → new p' e' ≡ old p' e')
    → (p' e' : Text) → new p' e' ≡ (if p == p' && e == e' then value else old p' e')
at_every_key old new p e value same others p' e' = elim (Bool-cases (p == p' && e == e')) [
  | inr h ↦ rw h (others p' e' h)
  | inl h ↦
      rw
        (
          h,
          ← (eq_iff p p').0 (and_true (p == p') (e == e') h).0,
          ← (eq_iff e e').0 (and_true (p == p') (e == e') h).1,
        )
        same
]

-- A lookup that is unchanged at one key and at the others.
pub at_no_key {ℓ} :
    {A : Type ℓ} (old new : Text → Text → A) (p e : Text)
    → new p e ≡ old p e
    → ((p' e' : Text) → IsOtherKey p e p' e' → new p' e' ≡ old p' e')
    → (p' e' : Text) → new p' e' ≡ old p' e'
at_no_key old new p e same others p' e' = elim (Bool-cases (p == p' && e == e')) [
  | inr h ↦ others p' e' h
  | inl h ↦
      rw
        (
          ← (eq_iff p p').0 (and_true (p == p') (e == e') h).0,
          ← (eq_iff e e').0 (and_true (p == p') (e == e') h).1,
        )
        same
]

-- At its own key such an equation gives the value.
pub at_own_key {ℓ} :
    {A : Type ℓ} (old new : Text → Text → A) (p e p' e' : Text) (value : Text → Text → A)
    → (p == p' && e == e') ≡ true
    → new p' e' ≡ (if p == p' && e == e' then value p e else old p' e')
    → new p' e' ≡ value p' e'
at_own_key old new p e p' e' value h eq =
    let p_eq : p ≡ p' = (eq_iff p p').0 (and_true (p == p') (e == e') h).0 in
    let e_eq : e ≡ e' = (eq_iff e e').0 (and_true (p == p') (e == e') h).1 in
    eq ∙ rw h (ap₂ value p_eq e_eq)

module _ {Row : Type 0} (first second : Row → Text) where
  same_key_comm : (r s : Row) → same_key first second r s ≡ same_key first second s r
  unfolding is_key
  same_key_comm r s = ground (arith, eq_comm (first s) (first r), eq_comm (second s) (second r))

  is_key-same_key :
      (p e : Text) (r s : Row)
      → is_key first second p e r ≡ true
      → same_key first second r s ≡ is_key first second p e s
  unfolding is_key
  is_key-same_key p e r s h = ground (arith, eq_iff (first r) p, eq_iff (second r) e)

  is_key_ne :
      (p e p' e' : Text) (r : Row)
      → IsOtherKey p e p' e'
      → is_key first second p' e' r ≡ true
      → is_key first second p e r ≡ false
  unfolding is_key
  is_key_ne p e p' e' r d h = ground (
    arith,
    eq_iff (first r) p',
    eq_iff (second r) e',
    eq_iff (first r) p,
    eq_iff (second r) e,
    eq_iff p p',
    eq_iff e e',
  )

  is_key_self : (x : Row) → is_key first second (first x) (second x) x ≡ true
  unfolding is_key
  is_key_self x = ground (arith, eq_refl (first x), eq_refl (second x))

  -- The key columns of the row that a lookup finds.
  pub found_key :
      (p e : Text) (rows : List Row) {r : Row}
      → find (is_key first second p e) rows ≡ some r
      → (first r ≡ p) × (second r ≡ e)
  unfolding is_key
  found_key p e rows {r} h =
      let key =
        and_true (first r == p) (second r == e) (find_accepted (is_key first second p e) rows h) in
      ((eq_iff (first r) p).0 key.0, (eq_iff (second r) e).0 key.1)

  -- An insert of a row whose key is new.
  module _ (rows : List Row) (x : Row) where
    pub find-insert_self :
        find (is_key first second (first x) (second x)) rows ≡ none
        → find (is_key first second (first x) (second x)) (rows ++ x ∷ []) ≡ some x
    find-insert_self h =
        ground (arith, find-append (is_key first second (first x) (second x)) rows x, is_key_self x)

    pub find-insert_ne :
        (p e : Text)
        → IsOtherKey (first x) (second x) p e
        → find (is_key first second p e) (rows ++ x ∷ []) ≡ find (is_key first second p e) rows
    find-insert_ne p e d = elim (Bool-cases (is_key first second p e x)) [
      | inl h ↦ absurd (ground (arith, is_key_self x, is_key_ne (first x) (second x) p e x d h))
      | inr h ↦ elim (Option-cases (find (is_key first second p e) rows)) [
        | inl n ↦ ground (arith, find-append (is_key first second p e) rows x)
        | inr (r, n) ↦ ground (arith, find-append (is_key first second p e) rows x)
      ]
    ]

    pub insert-HasIndex :
        find (is_key first second (first x) (second x)) rows ≡ none
        → HasIndex first second rows
        → HasIndex first second (rows ++ x ∷ [])
    insert-HasIndex h u = append-IsUnique (same_key first second) rows x same_key_comm h u

  module _ (f : Row → Row) (k : KeepsKey first second f) where
    is_key_keeps :
        (p e : Text) (r : Row) → is_key first second p e (f r) ≡ is_key first second p e r
    unfolding is_key
    is_key_keeps p e r = ground (arith, k.keeps_first r, k.keeps_second r)

    same_key_left : (r s : Row) → same_key first second (f r) s ≡ same_key first second r s
    unfolding is_key
    same_key_left r s = ground (arith, k.keeps_first r, k.keeps_second r)

    pub update-HasIndex :
        (q : Row → Bool) (rows : List Row)
        → HasIndex first second rows
        → HasIndex first second (update_where q f rows)
    update-HasIndex q rows u =
        update_where-IsUnique (same_key first second) q f rows same_key_left
          (λ r s. is_key_keeps (first r) (second r) s) u

    -- An update by any test, as the lookup of one key sees it.
    pub find-update :
        (p e : Text) (q : Row → Bool) (rows : List Row)
        → find (is_key first second p e) (update_where q f rows)
          ≡ alter (λ r. if q r then f r else r) (find (is_key first second p e) rows)
    find-update p e q rows = find-update_where (is_key first second p e) q f rows (is_key_keeps p e)

    module _ (p e : Text) (g : Row → Bool) (rows : List Row) where
      -- An update by key, as the lookup of that key sees it.
      pub find-update_self :
          find
            (is_key first second p e)
            (update_where (λ r. is_key first second p e r && g r) f rows)
          ≡ alter (λ r. if g r then f r else r) (find (is_key first second p e) rows)
      find-update_self = elim (Option-cases (find (is_key first second p e) rows)) [
        | inl n ↦ find-update p e _ rows ∙ rw n
        | inr (r, n) ↦
            find-update p e _ rows
            ∙ rw n (ground (arith, find_accepted (is_key first second p e) rows n))
      ]

      pub find-update_ne :
          (p' e' : Text)
          → IsOtherKey p e p' e'
          → find
              (is_key first second p' e')
              (update_where (λ r. is_key first second p e r && g r) f rows)
            ≡ find (is_key first second p' e') rows
      find-update_ne p' e' d =
          find-update_where_ne (is_key first second p' e') (λ r. is_key first second p e r && g r) f
            rows (is_key_keeps p' e') (λ r h. ground (arith, is_key_ne p e p' e' r d h))

  -- How many rows an update by key touches: none or one.
  pub affected :
      (p e : Text) (g : Row → Bool) (rows : List Row)
      → HasIndex first second rows
      → ltb 0 (count (λ r. is_key first second p e r && g r) rows)
        ≡ accepts g (find (is_key first second p e) rows)
  affected p e g rows u =
      count_key (same_key first second) (is_key first second p e) g rows (is_key-same_key p e) u

  -- With a unique index every row is found under its own key.
  pub find_each :
      (rows : List Row)
      → HasIndex first second rows
      → All (λ r. find (is_key first second (first r) (second r)) rows ≡ some r) rows
  unfolding find
  find_each [] u = tt
  find_each (x ∷ rows) (n, u) =
      (rw (is_key_self x) refl, go rows (find_each rows u) (unfound rows n))
    where
      unfound :
          (rs : List Row)
          → find (same_key first second x) rs ≡ none
          → All (λ r. same_key first second x r ≡ false) rs
      unfound [] h = tt
      unfound (r ∷ rs) h = elim (Bool-cases (same_key first second x r)) [
        | inl e ↦ absurd (ground (arith, e))
        | inr e ↦ (e, unfound rs (ground (arith, e)))
      ]

      go :
          (rs : List Row)
          → All (λ r. find (is_key first second (first r) (second r)) rows ≡ some r) rs
          → All (λ r. same_key first second x r ≡ false) rs
          → All (λ r. find (is_key first second (first r) (second r)) (x ∷ rows) ≡ some r) rs
      go [] a d = tt
      go (r ∷ rs) a d = (rw (same_key_comm r x ∙ d.0) a.0, go rs a.1 d.1)
