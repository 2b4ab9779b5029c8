-- ===== src/Config/Names.antt =====
-- The list of the providers' names that `normalizedProviders` makes.
use procyon_modules.Base.{
  ◌≡◌, refl, ◌∙◌, Bool, true, false, ◌&&◌, ◌||◌, not, List, [], ◌∷◌, ◌++◌, map, arith, All,
  Bool-cases, inl, inr, if◌then◌else◌,
}
use procyon_modules.Base.Text.{Text, ◌==◌, is_empty, normalized, eq_iff, eq_refl}
use procyon_modules.Base.Text.Laws.{normalized_idem, eq_comm}
use procyon_modules.Config.{contains_provider, add_providers, normalized_providers}

-- No name stands twice.
abbrev pub IsDistinct : List Text → Type 0
IsDistinct [] = Unit
IsDistinct (n ∷ ns) = (contains_provider ns n ≡ false) × IsDistinct ns

-- A name as the program compares it, not empty.
pub record IsName (n : Text) : Type 0 where
  pub is_normal : normalized n ≡ n
  pub is_set : is_empty n ≡ false

pub record IsNames (names : List Text) : Type 0 where
  pub each : All IsName names
  pub distinct : IsDistinct names

contains-append :
    (ns : List Text) (n m : Text)
    → contains_provider (ns ++ n ∷ []) m ≡ (contains_provider ns m || n == m)
unfolding contains_provider
contains-append [] n m = ground arith
contains-append (x ∷ ns) n m = ground (arith, contains-append ns n m)

append-IsDistinct :
    (ns : List Text) (n : Text)
    → contains_provider ns n ≡ false
    → IsDistinct ns
    → IsDistinct (ns ++ n ∷ [])
unfolding contains_provider
append-IsDistinct [] n h d = (refl, tt)
append-IsDistinct (x ∷ ns) n h d = (
  contains-append ns n x ∙ rw d.0 (ground (arith, h, eq_comm n x)),
  append-IsDistinct ns n (ground (arith, h)) d.1,
)

append-each : (ns : List Text) (n : Text) → All IsName ns → IsName n → All IsName (ns ++ n ∷ [])
append-each [] n h v = (v, tt)
append-each (x ∷ ns) n h v = (h.0, append-each ns n h.1 v)

-- One round of the loop.
round-IsNames :
    (out : List Text) (v : Text) (b : Bool)
    → b ≡ (not (is_empty (normalized v)) && not (contains_provider out (normalized v)))
    → IsNames out
    → IsNames (if b then out ++ normalized v ∷ [] else out)
round-IsNames out v false e h = h
round-IsNames out v true e h = record {
  each =
      append-each out (normalized v) h.each
        (record { is_normal = normalized_idem v; is_set = ground (arith, e) });
  distinct = append-IsDistinct out (normalized v) (ground (arith, e)) h.distinct;
}

add-IsNames : (vs out : List Text) → IsNames out → IsNames (add_providers out vs)
unfolding add_providers
add-IsNames [] out h = h
add-IsNames (v ∷ vs) out h = add-IsNames vs _ (round-IsNames out v _ refl h)

pub normalized_providers-IsNames : (values : List Text) → IsNames (normalized_providers values)
unfolding normalized_providers
normalized_providers-IsNames values = add-IsNames values [] (record { each = tt; distinct = tt })

contains-round :
    (out : List Text) (n m : Text)
    → contains_provider
        (if not (is_empty n) && not (contains_provider out n) then out ++ n ∷ [] else out)
        m
      ≡ (contains_provider out m || (not (is_empty m) && n == m))
contains-round out n m = elim (Bool-cases (n == m)) [
  | inr h ↦ ground (arith, contains-append out n m, h)
  | inl h ↦ rw (← (eq_iff n m).0 h) (ground (arith, contains-append out n n, eq_refl n))
]

contains-add :
    (vs out : List Text) (m : Text)
    → contains_provider (add_providers out vs) m
      ≡ (contains_provider out m || (not (is_empty m) && contains_provider (map normalized vs) m))
unfolding add_providers contains_provider
contains-add [] out m = ground arith
contains-add (v ∷ vs) out m =
    contains-add vs _ m ∙ rw (contains-round out (normalized v) m) (ground arith)

-- The names that `normalizedProviders` returns are exactly those of the given ones, in lower case
-- and trimmed, that are not blank.
pub contains-normalized_providers :
    (values : List Text) (name : Text)
    → contains_provider (normalized_providers values) name
      ≡ (not (is_empty name) && contains_provider (map normalized values) name)
unfolding normalized_providers contains_provider
contains-normalized_providers values name = contains-add values [] name
