-- ===== src/JobStore/Selection.antt =====
-- The job that Reserve of backend/framework/file_job_store.go selects.
use mathlib.Core.Path.{subst}
use bridra.Common.{
  ℕ, ◌≡◌, refl, ◌⊎◌, inl, inr, Bool, true, false, none, some, List, [], ◌∷◌, sym, String, arith,
  All, head?, keep_if, ◌=s=◌, Bool-cases, ◌≢◌,
}
use mathlib.Core.Option.{some-injective}
use bridra.Common.Dict.{lookup}
use bridra.Common.Texts.{codes, not-before_trans, before_asymm, not-before_self}
use bridra.Common.Entries.{
  Unique, Entries, Unique-lookup, All-map, keep_if-All, keep_if-passes, head?-All,
}
use bridra.JobStore.Job.{FileStoredJob, valid_job_identifier}
use bridra.JobStore.Log.{Jobs}
use bridra.JobStore.Operations.{precedes, select, sort_slice, insert_sorted, eligible, values}

-- A record stands under its own identifier, which is valid, and its token is absent or valid.
pub record IsSoundRecord (key : String) (r : FileStoredJob) : Type 0 where
  pub keyed : r.job.id ≡ key
  pub valid_key : valid_job_identifier key ≡ true
  pub valid_token : (r.reservation_token ≡ "") ⊎ (valid_job_identifier r.reservation_token ≡ true)

abbrev pub IsSoundMap : Jobs → Type 0
IsSoundMap jobs = Unique jobs × Entries IsSoundRecord jobs

module _ (P : FileStoredJob → Type 0) where
  All-values : (jobs : Jobs) → All (λ e. P e.1) jobs → All P (values jobs)
  All-values [] h = tt
  All-values ((k, r) ∷ jobs) h = (h.0, All-values jobs h.1)

  module _ (less : FileStoredJob → FileStoredJob → Bool) where
    insert_sorted-All :
        (r : FileStoredJob) (rs : List FileStoredJob)
        → P r
        → All P rs
        → All P (insert_sorted less r rs)
    unfolding insert_sorted
    insert_sorted-All r [] p h = (p, tt)
    insert_sorted-All r (x ∷ xs) p h = elim (Bool-cases (less x r)) [
      | inl e ↦ rw (e, insert_sorted) (h.0, insert_sorted-All r xs p h.1)
      | inr e ↦ rw (e, insert_sorted) (p, h)
    ]

    sort_slice-All : (rs : List FileStoredJob) → All P rs → All P (sort_slice less rs)
    unfolding sort_slice
    sort_slice-All [] h = tt
    sort_slice-All (x ∷ xs) h = insert_sorted-All x _ h.0 (sort_slice-All xs h.1)

All-both {ℓ κ} :
    {A : Type ℓ} (P Q : A → Type κ) (xs : List A) → All P xs → All Q xs → All (λ x. P x × Q x) xs
All-both P Q [] p q = tt
All-both P Q (x ∷ xs) p q = ((p.0, q.0), All-both P Q xs p.1 q.1)

abbrev Bound : Jobs → FileStoredJob → Type 0
Bound jobs r = lookup r.job.id jobs ≡ some r

values-Bound : (jobs : Jobs) → IsSoundMap jobs → All (Bound jobs) (values jobs)
values-Bound jobs h = All-values (Bound jobs) jobs (
    All-map (λ e both. subst (λ k. lookup k jobs ≡ some e.1) (sym both.1.keyed) both.0) jobs
      (All-both _ _ jobs (Unique-lookup jobs h.0) h.1))

-- A selected record is in the map, and it was eligible.
pub select-lookup :
    (now : ℕ) (jobs : Jobs) (r : FileStoredJob)
    → IsSoundMap jobs
    → select now jobs ≡ some r
    → (lookup r.job.id jobs ≡ some r) × (eligible now r ≡ true)
unfolding select
select-lookup now jobs r h e =
    head?-All (λ x. Bound jobs x × (eligible now x ≡ true)) r _
      (sort_slice-All _ _ _ (
        All-both _ _ _ (keep_if-All (Bound jobs) (eligible now) (values jobs) (values-Bound jobs h))
          (keep_if-passes (eligible now) (values jobs))))
      e

-- `b` does not come before `a` in the order of Reserve.
abbrev pub NoLater : FileStoredJob → FileStoredJob → Type 0
NoLater a b = precedes b.job a.job ≡ false

NoLater-trans : (a b c : FileStoredJob) → NoLater a b → NoLater b c → NoLater a c
unfolding precedes
NoLater-trans a b c h k =
    ground (arith, not-before_trans (codes c.job.id) (codes b.job.id) (codes a.job.id))

precedes_asymm : (a b : FileStoredJob) → precedes a.job b.job ≡ true → NoLater a b
unfolding precedes
precedes_asymm a b h = ground (arith, before_asymm (codes a.job.id) (codes b.job.id))

abbrev earlier : FileStoredJob → FileStoredJob → Bool
earlier a b = precedes a.job b.job

NoLater-refl : (a : FileStoredJob) → NoLater a a
unfolding precedes
NoLater-refl a = ground (arith, not-before_self (codes a.job.id))

-- The first record after an insertion is the new one or the old first, and no later than either.
first_of_inserted :
    (x : FileStoredJob) (rs sorted : List FileStoredJob) (a : FileStoredJob)
    → head? (insert_sorted earlier x sorted) ≡ some a
    → ((b : FileStoredJob) → head? sorted ≡ some b → All (NoLater b) rs)
    → (head? sorted ≡ none → rs ≡ [])
    → NoLater a x × All (NoLater a) rs
unfolding insert_sorted
first_of_inserted x rs [] a e least empty =
    subst (λ b. NoLater b x × All (NoLater b) rs) (some-injective _ _ e)
      (NoLater-refl x, subst (All (NoLater x)) (sym (empty refl)) tt)
first_of_inserted x rs (y ∷ ys) a e least empty = elim (Bool-cases (earlier y x)) [
  | inl p ↦
      subst (λ b. NoLater b x × All (NoLater b) rs)
        (some-injective _ _ (rw (p, insert_sorted) at e)) (precedes_asymm y x p, least y refl)
  | inr p ↦
      subst (λ b. NoLater b x × All (NoLater b) rs)
        (some-injective _ _ (rw (p, insert_sorted) at e))
        (NoLater-refl x, All-map (λ r h. NoLater-trans x y r p h) rs (least y refl))
]

insert_sorted-ne-nil :
    (x : FileStoredJob) (rs : List FileStoredJob) → head? (insert_sorted earlier x rs) ≢ none
unfolding insert_sorted
insert_sorted-ne-nil x [] = λ e. cc
insert_sorted-ne-nil x (y ∷ ys) = ground arith

sorted_none : (rs : List FileStoredJob) → head? (sort_slice earlier rs) ≡ none → rs ≡ []
unfolding sort_slice
sorted_none [] e = refl
sorted_none (x ∷ xs) e = absurd (insert_sorted-ne-nil x (sort_slice earlier xs) e)

-- The first record of the sorted list is no later than any.
sorted_first :
    (rs : List FileStoredJob) (a : FileStoredJob)
    → head? (sort_slice earlier rs) ≡ some a
    → All (NoLater a) rs
unfolding sort_slice
sorted_first [] a e = tt
sorted_first (x ∷ xs) a e =
    first_of_inserted x xs (sort_slice earlier xs) a e (λ b f. sorted_first xs b f) (sorted_none xs)

module _ (P : FileStoredJob → Type 0) (p : FileStoredJob → Bool) where
  -- What holds of the values that pass a test holds of each record that passes it.
  kept-lookup :
      (k : String) (r : FileStoredJob) (jobs : Jobs)
      → All P (keep_if p (values jobs))
      → lookup k jobs ≡ some r
      → p r ≡ true
      → P r
  unfolding lookup keep_if
  kept-lookup k r [] h e t = ground arith
  kept-lookup k r ((j, v) ∷ jobs) h e t = elim (Bool-cases (j =s= k)) [
    | inl hit ↦
        let same : v ≡ r = some-injective _ _ (rw (hit, lookup) at e) in
        subst P same (rw (subst (λ x. p x ≡ true) (sym same) t, keep_if) at h).0
    | inr miss ↦ kept-lookup k r jobs (rest_kept j v jobs h) (rw (miss, lookup) at e) t
  ]
    where
      rest_kept :
          (j : String) (v : FileStoredJob) (jobs : Jobs)
          → All P (keep_if p (v ∷ values jobs))
          → All P (keep_if p (values jobs))
      rest_kept j v jobs h = elim (Bool-cases (p v)) [
        | inl e ↦ (rw (e, keep_if) at h).1
        | inr e ↦ rw (e, keep_if) at h
      ]

-- The selected record is eligible, and no eligible record of the map comes before it.
pub select_first :
    (now : ℕ) (jobs : Jobs) (r other : FileStoredJob) (k : String)
    → select now jobs ≡ some r
    → lookup k jobs ≡ some other
    → eligible now other ≡ true
    → NoLater r other
unfolding select
select_first now jobs r other k e hit ready =
    kept-lookup (NoLater r) (eligible now) k other jobs (sorted_first _ r e) hit ready

-- Where nothing is selected, no record of the map is eligible.
pub select-none :
    (now : ℕ) (jobs : Jobs) (other : FileStoredJob) (k : String)
    → select now jobs ≡ none
    → lookup k jobs ≡ some other
    → eligible now other ≡ true
    → ⊥
unfolding select
select-none now jobs other k e hit ready =
    kept-lookup (λ _. ⊥) (eligible now) k other jobs
      (subst (All (λ _. ⊥)) (sym (sorted_none _ e)) tt) hit ready
