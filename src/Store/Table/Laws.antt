-- ===== src/Store/Table/Laws.antt =====
-- Laws of the statements: what a lookup finds after an insert or an update, and how many rows an
-- update by a key touches, in a table where no two rows have one key.
use procyon_modules.Base.{
  ℕ, ◌<◌, ◌≡◌, refl, sym, subst, ap, ◌∙◌, Bool, true, false, ◌&&◌, Option, none, some, List, [],
  ◌∷◌, ◌++◌, arith, ltb, eqb, if◌then◌else◌, All, inl, inr, Bool-cases,
}
use procyon_modules.Store.Table.{find, update_where, count}

module _ {Row : Type 0} where
  -- No row is the same as a later one.
  abbrev pub IsUnique : (Row → Row → Bool) → List Row → Type 0
  IsUnique same [] = Unit
  IsUnique same (r ∷ rs) = (find (same r) rs ≡ none) × IsUnique same rs

  abbrev pub alter : (Row → Row) → Option Row → Option Row
  alter f none = none
  alter f (some r) = some (f r)

  abbrev pub accepts : (Row → Bool) → Option Row → Bool
  accepts g none = false
  accepts g (some r) = g r

  abbrev pub or_else : Option Row → Option Row → Option Row
  or_else none o = o
  or_else (some r) o = some r

  pub find_accepted :
      (p : Row → Bool) (rows : List Row) {r : Row} → find p rows ≡ some r → p r ≡ true
  unfolding find
  find_accepted p [] h = cc
  find_accepted p (s ∷ rows) h = elim (Bool-cases (p s)) [
    | inl yes_s ↦ ground (arith, yes_s)
    | inr no_s ↦ find_accepted p rows (ground (arith, no_s))
  ]

  pub find-append :
      (p : Row → Bool) (rows : List Row) (r : Row)
      → find p (rows ++ r ∷ []) ≡ or_else (find p rows) (if p r then some r else none)
  unfolding find
  find-append p [] r = refl
  find-append p (s ∷ rows) r = ground (arith, find-append p rows r)

  pub find_ext :
      (p q : Row → Bool) (rows : List Row) → ((r : Row) → p r ≡ q r) → find p rows ≡ find q rows
  unfolding find
  find_ext p q [] h = refl
  find_ext p q (r ∷ rows) h = ground (arith, h r, find_ext p q rows h)

  -- An update that keeps the test of a lookup is seen through it.
  pub find-update_where :
      (p q : Row → Bool) (f : Row → Row) (rows : List Row)
      → ((r : Row) → p (f r) ≡ p r)
      → find p (update_where q f rows) ≡ alter (λ r. if q r then f r else r) (find p rows)
  unfolding find update_where
  find-update_where p q f [] h = refl
  find-update_where p q f (r ∷ rows) h = ground (arith, h r, find-update_where p q f rows h)

  -- An update of rows that the lookup does not accept is not seen.
  pub find-update_where_ne :
      (p q : Row → Bool) (f : Row → Row) (rows : List Row)
      → ((r : Row) → p (f r) ≡ p r)
      → ((r : Row) → p r ≡ true → q r ≡ false)
      → find p (update_where q f rows) ≡ find p rows
  unfolding find update_where
  find-update_where_ne p q f [] h d = refl
  find-update_where_ne p q f (r ∷ rows) h d = elim (Bool-cases (p r)) [
    | inl e ↦ ground (arith, d r e)
    | inr e ↦ ground (arith, h r, find-update_where_ne p q f rows h d)
  ]

  count-none :
      (p g : Row → Bool) (rows : List Row) → find p rows ≡ none → count (λ r. p r && g r) rows ≡ 0
  unfolding find count
  count-none p g [] h = refl
  count-none p g (r ∷ rows) h = ground (arith, count-none p g rows)

  -- Where `p` is the test for one key, an update of `p && g` touches a row exactly when the row of
  -- that key is there and `g` accepts it.
  pub count_key :
      (same : Row → Row → Bool) (p g : Row → Bool) (rows : List Row)
      → ((r s : Row) → p r ≡ true → same r s ≡ p s)
      → IsUnique same rows
      → ltb 0 (count (λ r. p r && g r) rows) ≡ accepts g (find p rows)
  unfolding find count
  count_key same p g [] k u = refl
  count_key same p g (r ∷ rows) k u = elim (Bool-cases (p r)) [
    | inl e ↦
        ground (arith, count-none p g rows (find_ext p (same r) rows (λ s. sym (k r s e)) ∙ u.0))
    | inr e ↦ ground (arith, count_key same p g rows k u.1)
  ]

  pub update_where-IsUnique :
      (same : Row → Row → Bool) (q : Row → Bool) (f : Row → Row) (rows : List Row)
      → ((r s : Row) → same (f r) s ≡ same r s)
      → ((r s : Row) → same r (f s) ≡ same r s)
      → IsUnique same rows
      → IsUnique same (update_where q f rows)
  unfolding update_where
  update_where-IsUnique same q f [] l r u = tt
  update_where-IsUnique same q f (x ∷ rows) l r u = (
    find_ext (same (if q x then f x else x)) (same x) (update_where q f rows)
          (λ s. ground (arith, l x s))
        ∙ find-update_where (same x) q f rows (λ s. r x s)
        ∙ ap (alter (λ s. if q s then f s else s)) u.0,
    update_where-IsUnique same q f rows l r u.1,
  )

  pub append-IsUnique :
      (same : Row → Row → Bool) (rows : List Row) (x : Row)
      → ((r s : Row) → same r s ≡ same s r)
      → find (same x) rows ≡ none
      → IsUnique same rows
      → IsUnique same (rows ++ x ∷ [])
  unfolding find
  append-IsUnique same [] x sym_same h u = (refl, tt)
  append-IsUnique same (r ∷ rows) x sym_same h u =
      ground
        (arith, find-append (same r) rows x, sym_same r x, append-IsUnique same rows x sym_same)

  -- What a lookup finds elsewhere fails a test that no row passes.
  none_found :
      (q p : Row → Bool) (rows : List Row) (r : Row)
      → find q rows ≡ none
      → find p rows ≡ some r
      → q r ≡ false
  unfolding find
  none_found q p [] r h e = cc
  none_found q p (x ∷ rows) r h e = elim (Bool-cases (q x)) [
    | inl qx ↦ absurd (ground (arith, qx))
    | inr qx ↦ elim (Bool-cases (p x)) [
      | inl px ↦ ground (arith, px, qx)
      | inr px ↦ none_found q p rows r (ground (arith, qx)) (ground (arith, px))
    ]
  ]

  -- Two lookups that find rows which are the same find one row.
  pub unique_found :
      (same : Row → Row → Bool) (p q : Row → Bool) (rows : List Row) (r s : Row)
      → ((a b : Row) → same a b ≡ same b a)
      → IsUnique same rows
      → find p rows ≡ some r
      → find q rows ≡ some s
      → same r s ≡ true
      → r ≡ s
  unfolding find
  unique_found same p q [] r s c u hp hq h = cc
  unique_found same p q (x ∷ rows) r s c u hp hq h = elim (Bool-cases (p x)) [
    | inl px ↦ elim (Bool-cases (q x)) [
      | inl qx ↦ ground (arith, px, qx)
      | inr qx ↦
          let x_eq : x ≡ r = ground (arith, px) in
          absurd (
            ground (
              arith,
              none_found (same x) q rows s u.0 (ground (arith, qx)),
              h,
              ap (λ a. same a s) x_eq,
            ))
    ]
    | inr px ↦ elim (Bool-cases (q x)) [
      | inl qx ↦
          let x_eq : x ≡ s = ground (arith, qx) in
          absurd (
            ground (
              arith,
              none_found (same x) p rows r u.0 (ground (arith, px)),
              h,
              c r s,
              ap (λ a. same a r) x_eq,
            ))
      | inr qx ↦ unique_found same p q rows r s c u.1 (ground (arith, px)) (ground (arith, qx)) h
    ]
  ]

  pub update_where-All {ℓ} :
      (P : Row → Type ℓ) (q : Row → Bool) (f : Row → Row) (rows : List Row)
      → ((r : Row) → P r → P (f r))
      → All P rows
      → All P (update_where q f rows)
  unfolding update_where
  update_where-All P q f [] k h = tt
  update_where-All P q f (r ∷ rows) k h = (go (q r), update_where-All P q f rows k h.1)
    where
      go : (b : Bool) → P (if b then f r else r)
      go true = k r h.0
      go false = h.0

  pub All-append_one {ℓ} :
      (P : Row → Type ℓ) (rows : List Row) (x : Row) → All P rows → P x → All P (rows ++ x ∷ [])
  All-append_one P [] x h p = (p, tt)
  All-append_one P (r ∷ rows) x h p = (h.0, All-append_one P rows x h.1 p)

  pub All-weaken {ℓ} :
      (P Q : Row → Type ℓ) (rows : List Row) → ((r : Row) → P r → Q r) → All P rows → All Q rows
  All-weaken P Q [] k h = tt
  All-weaken P Q (r ∷ rows) k h = (k r h.0, All-weaken P Q rows k h.1)

  -- What holds of every row holds of a row that a lookup finds.
  pub find-All {ℓ} :
      (P : Row → Type ℓ) (p : Row → Bool) (rows : List Row) {r : Row}
      → All P rows
      → find p rows ≡ some r
      → P r
  unfolding find
  find-All P p [] h e = cc
  find-All P p (x ∷ rows) h e = elim (Bool-cases (p x)) [
    | inl px ↦ let x_eq : x ≡ _ = ground (arith, px) in subst P x_eq h.0
    | inr px ↦ find-All P p rows h.1 (ground (arith, px))
  ]

  pub find_new :
      (id : Row → ℕ) (x : Row) (rows : List Row)
      → All (λ r. id r < id x) rows
      → find (λ r. eqb (id r) (id x)) rows ≡ none
  unfolding find
  find_new id x [] h = refl
  find_new id x (r ∷ rows) h = ground (arith, find_new id x rows h.1)
