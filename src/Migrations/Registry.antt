-- ===== src/Migrations/Registry.antt =====
-- What Register keeps of the registered migrations, backend/framework/migrations.go.
use mathlib.Core.List.{append_assoc, append-nil}
use bridra.Common.{
  subst, past, ok-injective, Result-cases, ℕ, ◌≤◌, ◌≡◌, refl, sym, ap, ◌∙◌, inl, inr, true, false,
  Option, none, some, List, [], ◌∷◌, ◌++◌, arith, Bool-cases, ok, All, all,
}
use bridra.Common.Texts.{Text, is_space}
use bridra.Common.Ordering.{find_by, Distinct, append-Distinct, find_by-append_none}
use bridra.Migrations.Migration.{
  Migration, Runner, version_of, byte_length, trim, trim_left, trim_right, is_empty, is_set,
  is_bad_label, normalize, is_invalid, check_new, register,
}

trim_right-filled :
    (c : ℕ) (cs : Text) → is_space c ≡ false → all is_space (trim_right (c ∷ cs)) ≡ false
unfolding trim_right
trim_right-filled c cs h = rw (h, trim_right) (ground (arith, h))

-- A trimmed text is empty or has something else than space.
trim-filled : (t : Text) → is_empty (trim t) ≡ false → all is_space (trim t) ≡ false
unfolding trim trim_left trim_right
trim-filled [] h = absurd (ground (arith, h))
trim-filled (c ∷ cs) h = elim (Bool-cases (is_space c)) [
  | inl e ↦
      let same : trim (c ∷ cs) ≡ trim cs = rw (e, trim_left, trim) refl in
      ap (all is_space) same ∙ trim-filled cs (ap is_empty (sym same) ∙ h)
  | inr e ↦ rw (e, trim_left, trim) (trim_right-filled c cs e)
]

-- A label that Register lets pass: it is not blank and has 255 bytes at most.
pub record IsLabel (t : Text) : Type 0 where
  pub filled : all is_space t ≡ false
  pub short : byte_length t ≤ 255

trim-IsLabel : (t : Text) → is_bad_label (trim t) ≡ false → IsLabel (trim t)
trim-IsLabel t h = record { filled = trim-filled t (ground (arith, h)); short = ground (arith, h) }

pub record IsRegistered {D Cause : Type 0} (m : Migration D Cause) : Type 0 where
  pub version_label : IsLabel m.version
  pub name_label : IsLabel m.name
  pub has_up : is_set m.up ≡ true

-- Registered migrations: valid ones, with versions that differ.
pub record IsRegistry {D Cause : Type 0} (migrations : List (Migration D Cause)) : Type 0 where
  pub distinct : Distinct version_of migrations
  pub valid : All IsRegistered migrations

module _ {D Cause : Type 0} where
  normalize-IsRegistered :
      (m : Migration D Cause) → is_invalid (normalize m) ≡ false → IsRegistered (normalize m)
  unfolding is_invalid normalize
  normalize-IsRegistered m h = record {
    version_label = trim-IsLabel m.version (ground (arith, h, is_bad_label (trim m.version)));
    name_label = trim-IsLabel m.name (ground (arith, h, is_bad_label (trim m.name)));
    has_up = ground (arith, h, is_set m.up);
  }

  none_where_unset : (o : Option (Migration D Cause)) → is_set o ≡ false → o ≡ none
  none_where_unset none h = refl
  none_where_unset (some m) h = absurd (ground (arith, h))

  append-valid :
      (m : Migration D Cause) (ms : List (Migration D Cause))
      → All IsRegistered ms
      → IsRegistered m
      → All IsRegistered (ms ++ m ∷ [])
  append-valid m [] h k = (k, tt)
  append-valid m (n ∷ ns) h k = (h.0, append-valid m ns h.1 k)

  append-IsRegistry :
      (m : Migration D Cause) (registered seen : List (Migration D Cause))
      → is_set (find_by version_of m.version registered) ≡ false
      → is_set (find_by version_of m.version seen) ≡ false
      → IsRegistered m
      → IsRegistry (registered ++ seen)
      → IsRegistry (registered ++ (seen ++ m ∷ []))
  append-IsRegistry m registered seen h k valid old =
      subst IsRegistry (append_assoc registered seen (m ∷ [])) (record {
        distinct =
            append-Distinct version_of m (registered ++ seen)
              (find_by-append_none version_of m.version registered seen (none_where_unset _ h)
                (none_where_unset _ k))
              old.distinct;
        valid = append-valid m (registered ++ seen) old.valid valid;
      })

  check_new-IsRegistry :
      (registered seen given normalized : List (Migration D Cause))
      → IsRegistry (registered ++ seen)
      → check_new registered seen given ≡ ok normalized
      → IsRegistry (registered ++ normalized)
  unfolding check_new
  check_new-IsRegistry registered seen [] normalized old h =
      subst (λ ms. IsRegistry (registered ++ ms)) (ok-injective _ _ h) old
  check_new-IsRegistry registered seen (m ∷ rest) normalized old h =
      let valid = past (is_invalid (normalize m)) _ _ normalized h in
      let fresh =
        past (is_set (find_by version_of (normalize m).version registered)) _ _ normalized
          valid.1 in
      let new =
        past (is_set (find_by version_of (normalize m).version seen)) _ _ normalized fresh.1 in
      check_new-IsRegistry registered (seen ++ normalize m ∷ []) rest normalized
        (append-IsRegistry (normalize m) registered seen fresh.0 new.0
          (normalize-IsRegistered m valid.0) old)
        new.1

  -- Whatever Register is given, the registered migrations stay valid and their versions distinct.
  pub register-IsRegistry :
      (given : List (Migration D Cause)) (runner : Runner D Cause)
      → IsRegistry runner.migrations
      → IsRegistry (register given runner).0.migrations
  unfolding register
  register-IsRegistry given runner old = elim (Bool-cases runner.registration_closed) [
    | inl e ↦ rw (e, register) old
    | inr e ↦ elim (Result-cases (check_new runner.migrations [] given)) [
      | inl (normalized, f) ↦
          rw (e, f, register)
            (check_new-IsRegistry runner.migrations [] given normalized
              (subst IsRegistry (sym (append-nil runner.migrations)) old) f)
      | inr (failure, f) ↦ rw (e, f, register) old
    ]
  ]
