-- ===== src/Store/Table/Members.antt =====
-- The values of a list, as for the rows that a SELECT has found.
use procyon_modules.Base.{◌≡◌, refl, ap, ◌⊎◌, inl, inr, List, [], ◌∷◌, map, All}
use procyon_modules.Store.Table.Laws.{All-weaken}

-- The value is one of the list.
abbrev pub IsIn : {A : Type 0} → A → List A → Type 0
IsIn a [] = ⊥
IsIn a (b ∷ bs) = (a ≡ b) ⊎ IsIn a bs

pub IsIn-map : {A B : Type 0} (f : A → B) (a : A) (xs : List A) → IsIn a xs → IsIn (f a) (map f xs)
IsIn-map f a [] i = absurd i
IsIn-map f a (b ∷ bs) (inl e) = inl (ap f e)
IsIn-map f a (b ∷ bs) (inr i) = inr (IsIn-map f a bs i)

pub each-IsIn : {A : Type 0} (xs : List A) → All (λ a. IsIn a xs) xs
each-IsIn [] = tt
each-IsIn (a ∷ xs) = (inl refl, All-weaken _ _ xs (λ b. inr) (each-IsIn xs))
