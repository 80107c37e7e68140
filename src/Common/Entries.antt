-- ===== src/Common/Entries.antt =====
-- Facts about every entry of a map: predicates on its entries, and keys that occur once.
use mathlib.Core.Path.{◌≡◌, refl, subst}
use mathlib.Core.Logic.{inl, inr}
use mathlib.Core.Bool.{Bool, true}
use mathlib.Core.Option.{none, some}
use mathlib.Core.List.{List, [], ◌∷◌}
use Prim.Native.String.{String}
use native.Mathlib.Omega.{arith}
use text.Mathlib.TextEquality.{eq_iff}
use bridra.Common.Tests.{◌=s=◌, Bool-cases}
use bridra.Common.Lists.{All, head?, keep_if}
use bridra.Common.Dict.{Dict, lookup, insert, delete, lookup-insert, lookup-delete}

-- No key occurs twice.
abbrev pub Unique {ℓ} : {V : Type ℓ} → Dict V → Type ℓ
Unique [] = Unit
Unique ((k, v) ∷ m) = (lookup k m ≡ none) × Unique m

module _ {ℓ} {V : Type ℓ} where
  pub insert-Unique : (k : String) (v : V) (m : Dict V) → Unique m → Unique (insert k v m)
  unfolding insert lookup
  insert-Unique k v [] u = (refl, tt)
  insert-Unique k v ((j, w) ∷ m) u =
      ground (arith, insert-Unique k v m u.1, lookup-insert k j v m, eq_iff j k, eq_iff k j)

  pub delete-Unique : (k : String) (m : Dict V) → Unique m → Unique (delete k m)
  unfolding delete lookup
  delete-Unique k [] u = tt
  delete-Unique k ((j, w) ∷ m) u =
      ground (arith, delete-Unique k m u.1, lookup-delete k j m, eq_iff j k, eq_iff k j)

module _ {ℓ κ} {V : Type ℓ} (P : String → V → Type κ) where
  abbrev pub Entries : Dict V → Type κ
  Entries = All λ e. P e.0 e.1

  pub insert-Entries :
      (k : String) (v : V) (m : Dict V) → P k v → Entries m → Entries (insert k v m)
  unfolding insert
  insert-Entries k v [] p h = (p, tt)
  insert-Entries k v ((j, w) ∷ m) p h = elim (Bool-cases (j =s= k)) [
    | inl e ↦ rw e (p, h.1)
    | inr e ↦ rw e (h.0, insert-Entries k v m p h.1)
  ]

  pub delete-Entries : (k : String) (m : Dict V) → Entries m → Entries (delete k m)
  unfolding delete
  delete-Entries k [] h = tt
  delete-Entries k ((j, w) ∷ m) h = elim (Bool-cases (j =s= k)) [
    | inl e ↦ rw e (delete-Entries k m h.1)
    | inr e ↦ rw e (h.0, delete-Entries k m h.1)
  ]

  pub lookup-Entries : (k : String) (v : V) (m : Dict V) → Entries m → lookup k m ≡ some v → P k v
  unfolding lookup
  lookup-Entries k v [] h e = ground arith
  lookup-Entries k v ((j, w) ∷ m) h e = elim (Bool-cases (j =s= k)) [
    | inl hit ↦ subst (λ i. P i v) ((eq_iff j k).0 hit) (subst (P j) (ground (arith, hit, e)) h.0)
    | inr miss ↦ lookup-Entries k v m h.1 (ground (arith, miss, e))
  ]

module _ {ℓ} {V : Type ℓ} where
  -- What is looked up after one more entry in front, where its key is new.
  lookup_behind :
      (j k : String) (w v : V) (m : Dict V)
      → lookup j m ≡ none
      → lookup k m ≡ some v
      → lookup k ((j, w) ∷ m) ≡ some v
  unfolding lookup
  lookup_behind j k w v m fresh h = ground (arith, eq_iff j k)

module _ {ℓ κ μ} {A : Type ℓ} {P : A → Type κ} {Q : A → Type μ} (f : (a : A) → P a → Q a) where
  pub All-map : (xs : List A) → All P xs → All Q xs
  All-map [] h = tt
  All-map (x ∷ xs) h = (f x h.0, All-map xs h.1)

module _ {ℓ} {V : Type ℓ} where
  -- Where no key occurs twice, each entry is what its key is bound to.
  pub Unique-lookup : (m : Dict V) → Unique m → All (λ e. lookup e.0 m ≡ some e.1) m
  unfolding lookup
  Unique-lookup [] u = tt
  Unique-lookup ((j, w) ∷ m) u = (
    ground (arith, eq_iff j j),
    All-map (λ e h. lookup_behind j e.0 w e.1 m u.0 h) m (Unique-lookup m u.1),
  )

module _ {ℓ κ} {A : Type ℓ} (P : A → Type κ) where
  pub keep_if-All : (p : A → Bool) (xs : List A) → All P xs → All P (keep_if p xs)
  unfolding keep_if
  keep_if-All p [] h = tt
  keep_if-All p (x ∷ xs) h = elim (Bool-cases (p x)) [
    | inl e ↦ rw (e, keep_if) (h.0, keep_if-All p xs h.1)
    | inr e ↦ rw (e, keep_if) (keep_if-All p xs h.1)
  ]

  pub head?-All : (a : A) (xs : List A) → All P xs → head? xs ≡ some a → P a
  head?-All a [] h e = ground arith
  head?-All a (x ∷ xs) h e = subst P (ground arith) h.0

-- The elements that a filter keeps pass its test.
pub keep_if-passes {ℓ} :
    {A : Type ℓ} (p : A → Bool) (xs : List A) → All (λ x. p x ≡ true) (keep_if p xs)
unfolding keep_if
keep_if-passes p [] = tt
keep_if-passes p (x ∷ xs) = elim (Bool-cases (p x)) [
  | inl e ↦ rw (e, keep_if) (e, keep_if-passes p xs)
  | inr e ↦ rw (e, keep_if) (keep_if-passes p xs)
]
