-- ===== src/Common/Ordering.antt =====
-- Lists of values that are known by a text, as Go's maps with string keys and their sorted slices.
use mathlib.Core.Path.{◌≡◌, refl, sym, ap, ◌∙◌, subst}
use mathlib.Core.Logic.{inl, inr}
use mathlib.Core.Bool.{Bool, true, false}
use mathlib.Core.Option.{Option, none, some}
use mathlib.Core.List.{List, [], ◌∷◌, ◌++◌}
use native.Mathlib.Omega.{arith}
use bridra.Common.Tests.{if◌then◌else◌, Bool-cases}
use bridra.Common.Lists.{All, keep_if}
use bridra.Common.Entries.{All-map}
use bridra.Common.Texts.{
  Text, before, same_text, same_text_refl, same_text→eq, not-before_self, before_asymm,
  not-before_nil,
}

-- Texts that are equal to one text are treated alike.
pub same_text_trans : (s t u : Text) → same_text s t ≡ true → same_text s u ≡ same_text t u
same_text_trans s t u h = ap (λ x. same_text x u) (same_text→eq s t h)

pub same_text_sym : (s t : Text) → same_text s t ≡ same_text t s
unfolding same_text
same_text_sym [] [] = refl
same_text_sym [] (d ∷ ds) = refl
same_text_sym (c ∷ cs) [] = refl
same_text_sym (c ∷ cs) (d ∷ ds) = ground (arith, same_text_sym cs ds)

before-differs : (s t : Text) → before s t ≡ true → same_text s t ≡ false
before-differs s t h = elim (Bool-cases (same_text s t)) [
  | inr e ↦ e
  | inl e ↦
      let self : before t t ≡ true = ap (λ x. before x t) (sym (same_text→eq s t e)) ∙ h in
      absurd (ground (arith, self, not-before_self t))
]

module _ {ℓ} {A : Type ℓ} (key : A → Text) where
  -- The first element with the key.
  unfoldable pub find_by : Text → List A → Option A
  find_by k [] = none
  find_by k (x ∷ xs) = let rest = find_by k xs in if same_text (key x) k then some x else rest

  -- Before the first element whose key is not smaller.
  unfoldable pub insert_by : A → List A → List A
  insert_by x [] = x ∷ []
  insert_by x (y ∷ ys) =
      let behind = y ∷ insert_by x ys in if before (key y) (key x) then behind else x ∷ y ∷ ys

  -- sort.Slice by the key
  unfoldable pub sort_by : List A → List A
  sort_by [] = []
  sort_by (x ∷ xs) = insert_by x (sort_by xs)

  -- No key occurs twice.
  abbrev pub Distinct : List A → Type ℓ
  Distinct [] = Unit
  Distinct (x ∷ xs) = (find_by (key x) xs ≡ none) × Distinct xs

  pub find_by-insert_by :
      (k : Text) (x : A) (xs : List A)
      → find_by k (insert_by x xs) ≡ (if same_text (key x) k then some x else find_by k xs)
  unfolding find_by insert_by
  find_by-insert_by k x [] = refl
  find_by-insert_by k x (y ∷ ys) = elim (Bool-cases (before (key y) (key x))) [
    | inr e ↦ rw (e, find_by) refl
    | inl e ↦ ground (
      arith,
      e,
      find_by-insert_by k x ys,
      before-differs (key y) (key x) e,
      same_text_trans (key y) k (key x),
      same_text_sym k (key x),
    )
  ]

  -- Sorting keeps what is found.
  pub find_by-sort_by : (k : Text) (xs : List A) → find_by k (sort_by xs) ≡ find_by k xs
  unfolding find_by sort_by
  find_by-sort_by k [] = refl
  find_by-sort_by k (x ∷ xs) = rw (find_by-insert_by k x (sort_by xs), find_by-sort_by k xs) refl

  insert_by-Distinct :
      (x : A) (xs : List A) → find_by (key x) xs ≡ none → Distinct xs → Distinct (insert_by x xs)
  unfolding find_by insert_by
  insert_by-Distinct x [] h d = (refl, tt)
  insert_by-Distinct x (y ∷ ys) h d = elim (Bool-cases (before (key y) (key x))) [
    | inr e ↦ rw (e, insert_by) (h, d)
    | inl e ↦
        let apart : same_text (key x) (key y) ≡ false =
          same_text_sym (key x) (key y) ∙ before-differs (key y) (key x) e in
        rw (e, insert_by)
          (
            find_by-insert_by (key y) x ys ∙ ground (arith, apart, d.0),
            insert_by-Distinct x ys (ground (arith, h, before-differs (key y) (key x) e)) d.1,
          )
  ]

  pub sort_by-Distinct : (xs : List A) → Distinct xs → Distinct (sort_by xs)
  unfolding sort_by
  sort_by-Distinct [] d = tt
  sort_by-Distinct (x ∷ xs) d =
      insert_by-Distinct x (sort_by xs) (find_by-sort_by (key x) xs ∙ d.0) (sort_by-Distinct xs d.1)

  -- Each key is no smaller than the one before it.
  abbrev pub FollowsIn : Text → List A → Type 0
  FollowsIn k [] = Unit
  FollowsIn k (x ∷ xs) = (before (key x) k ≡ false) × FollowsIn (key x) xs

  find_by-append :
      (k : Text) (xs ys : List A) → find_by k xs ≡ none → find_by k (xs ++ ys) ≡ find_by k ys
  unfolding find_by
  find_by-append k [] ys h = refl
  find_by-append k (x ∷ xs) ys h = ground (arith, h, find_by-append k xs ys)

  pub append-Distinct :
      (x : A) (xs : List A) → find_by (key x) xs ≡ none → Distinct xs → Distinct (xs ++ x ∷ [])
  unfolding find_by
  append-Distinct x [] h d = (refl, tt)
  append-Distinct x (y ∷ ys) h d = (
    find_by-append (key y) ys (x ∷ []) d.0 ∙ ground (arith, h, same_text_sym (key x) (key y)),
    append-Distinct x ys (ground (arith, h)) d.1,
  )

  pub find_by-append_none :
      (k : Text) (xs ys : List A)
      → find_by k xs ≡ none
      → find_by k ys ≡ none
      → find_by k (xs ++ ys) ≡ none
  find_by-append_none k xs ys h g = find_by-append k xs ys h ∙ g

  insert_by-All {κ} :
      (P : A → Type κ) (x : A) (xs : List A) → P x → All P xs → All P (insert_by x xs)
  unfolding insert_by
  insert_by-All P x [] p h = (p, tt)
  insert_by-All P x (y ∷ ys) p h = elim (Bool-cases (before (key y) (key x))) [
    | inr e ↦ rw (e, insert_by) (p, h)
    | inl e ↦ rw (e, insert_by) (h.0, insert_by-All P x ys p h.1)
  ]

  pub sort_by-All {κ} : (P : A → Type κ) (xs : List A) → All P xs → All P (sort_by xs)
  unfolding sort_by
  sort_by-All P [] h = tt
  sort_by-All P (x ∷ xs) h = insert_by-All P x (sort_by xs) h.0 (sort_by-All P xs h.1)

  insert_by-FollowsIn :
      (k : Text) (x : A) (xs : List A)
      → before (key x) k ≡ false
      → FollowsIn k xs
      → FollowsIn k (insert_by x xs)
  unfolding insert_by
  insert_by-FollowsIn k x [] h f = (h, tt)
  insert_by-FollowsIn k x (y ∷ ys) h f = elim (Bool-cases (before (key y) (key x))) [
    | inr e ↦ rw (e, insert_by) (h, (e, f.1))
    | inl e ↦
        rw (e, insert_by)
          (f.0, insert_by-FollowsIn (key y) x ys (before_asymm (key y) (key x) e) f.1)
  ]

  -- A sorted list is in ascending order.
  pub sort_by-FollowsIn : (xs : List A) → FollowsIn [] (sort_by xs)
  unfolding sort_by
  sort_by-FollowsIn [] = tt
  sort_by-FollowsIn (x ∷ xs) =
      insert_by-FollowsIn [] x (sort_by xs) (not-before_nil (key x)) (sort_by-FollowsIn xs)

  -- What holds of all elements holds of the one that is found.
  pub find_by-All {κ} :
      (P : A → Type κ) (k : Text) (x : A) (xs : List A) → All P xs → find_by k xs ≡ some x → P x
  unfolding find_by
  find_by-All P k x [] h e = absurd (ground (arith, e))
  find_by-All P k x (y ∷ ys) h e = elim (Bool-cases (same_text (key y) k)) [
    | inl hit ↦ subst P (ground (arith, hit, e)) h.0
    | inr miss ↦ find_by-All P k x ys h.1 (ground (arith, miss, e))
  ]

  find_by_behind :
      (y x : A) (ys : List A)
      → find_by (key y) ys ≡ none
      → find_by (key x) ys ≡ some x
      → find_by (key x) (y ∷ ys) ≡ some x
  unfolding find_by
  find_by_behind y x ys fresh h = elim (Bool-cases (same_text (key y) (key x))) [
    | inr miss ↦ rw (miss, find_by) h
    | inl hit ↦
        let clash : find_by (key x) ys ≡ none =
          ap (λ k. find_by k ys) (sym (same_text→eq (key y) (key x) hit)) ∙ fresh in
        absurd (ground (arith, clash, h))
  ]

  -- Where no key occurs twice, each element is the one found by its key.
  pub Distinct-found : (xs : List A) → Distinct xs → All (λ x. find_by (key x) xs ≡ some x) xs
  unfolding find_by
  Distinct-found [] d = tt
  Distinct-found (x ∷ xs) d = (
    rw (same_text_refl (key x), find_by) refl,
    All-map (λ y h. find_by_behind x y xs d.0 h) xs (Distinct-found xs d.1),
  )

  pub Distinct-All {κ} :
      (P : A → Type κ) (xs : List A)
      → Distinct xs
      → ((k : Text) (x : A) → find_by k xs ≡ some x → P x)
      → All P xs
  Distinct-All P xs d h = All-map (λ x e. h (key x) x e) xs (Distinct-found xs d)

  -- Where no key occurs twice, a filter finds what passes its test.
  pub find_by-keep_if_passes :
      (p : A → Bool) (k : Text) (xs : List A)
      → Distinct xs
      → find_by k (keep_if p xs)
        ≡ (elim (find_by k xs) [ none ↦ none | some x ↦ if p x then some x else none ])
  unfolding find_by keep_if
  find_by-keep_if_passes p k [] d = refl
  find_by-keep_if_passes p k (x ∷ xs) d =
      let rest = find_by-keep_if_passes p k xs d.1 in
      elim (Bool-cases (same_text (key x) k)) [
        | inr miss ↦ elim (Bool-cases (p x)) [
          | inl e ↦ rw (e, miss, keep_if, find_by) rest
          | inr e ↦ rw (e, miss, keep_if, find_by) rest
        ]
        | inl hit ↦
            let gone : find_by k xs ≡ none =
              ap (λ j. find_by j xs) (sym (same_text→eq (key x) k hit)) ∙ d.0 in
            elim (Bool-cases (p x)) [
              | inl e ↦ ground (arith, e, hit)
              | inr e ↦ rw (e, hit, keep_if, find_by) (rest ∙ rw gone (ground (arith, e)))
            ]
      ]
