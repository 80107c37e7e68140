-- ===== src/JobQueue/Registered.antt =====
-- The handlers of a queue stand under their type and their name, backend/framework/jobs.go.
use Prim.Native.Char.{Char, code}
use bridra.Common.{
  refl, ap, ◌∙◌, Bool-cases, if_cases, ◌≤◌, ◌≡◌, ◌≢◌, Bool, true, false, not, ◌||◌, Option, none,
  some, List, [], ◌∷◌, String, ◌=s=◌, Result, arith, Result-cases, inl, inr, ◌⊎◌, eq_iff,
}
use bridra.Common.Dict.{Dict, lookup, insert, lookup-insert, lookup-insert_self}
use bridra.Common.Texts.{is_space, is_blank}
use bridra.JobQueue.Queue.{is_collecting}
use bridra.JobQueue.Executing.{normalize_job_handler_options}
use bridra.JobQueue.Retrying.{normalize-positive}
use bridra.JobQueue.Handlers.{
  HandlerEntry, Handlers, new_handlers, HandlerError, Registration, add_handler, handle_job,
  handle_jobs, after_registration, trim_space, trim_left, trim_right, entry_of, is_present,
}

-- A handler that stands under a type and under its own name.
pub record IsRegistry (q : Handlers) : Type 0 where
  pub typed :
      (t : String) (e : HandlerEntry)
      → lookup t q.handlers ≡ some e
      → (e.job_type ≡ t) × (1 ≤ e.options.max_attempts) × (is_blank e.name ≡ false)
  pub named : (n : String) (e : HandlerEntry) → lookup n q.handlers_by_name ≡ some e → e.name ≡ n
  pub both :
      (t : String) (e : HandlerEntry)
      → q.has_store ≡ true
      → lookup t q.handlers ≡ some e
      → lookup e.name q.handlers_by_name ≡ some e
  pub back :
      (n : String) (e : HandlerEntry)
      → lookup n q.handlers_by_name ≡ some e
      → lookup e.job_type q.handlers ≡ some e

some-injective : (a b : HandlerEntry) → ◌≡◌ {A = Option HandlerEntry} (some a) (some b) → a ≡ b
some-injective a b h = cc

-- What is found after an insertion is the new entry under its key, or was there.
found_after :
    (k at : String) (new e : HandlerEntry) (m : Dict HandlerEntry)
    → lookup at (insert k new m) ≡ some e
    → ((k ≡ at) × (new ≡ e)) ⊎ ((k ≢ at) × (lookup at m ≡ some e))
found_after k at new e m h = ground (arith, lookup-insert k at new m, eq_iff k at, h)

-- An entry that is added under its type and, with a store, under its name.
module _ (entry : HandlerEntry) (q : Handlers) (h : IsRegistry q)
    (attempts : 1 ≤ entry.options.max_attempts) (named : is_blank entry.name ≡ false)
    (fresh : lookup entry.job_type q.handlers ≡ none) where
  typed_after :
      (t : String) (e : HandlerEntry)
      → lookup t (insert entry.job_type entry q.handlers) ≡ some e
      → (e.job_type ≡ t) × (1 ≤ e.options.max_attempts) × (is_blank e.name ≡ false)
  typed_after t e found = elim (found_after entry.job_type t entry e q.handlers found) [
    | inl (same, new) ↦ ground arith
    | inr (other, old) ↦ h.typed t e old
  ]

  kept_after :
      (t : String) (e : HandlerEntry)
      → lookup t q.handlers ≡ some e
      → lookup t (insert entry.job_type entry q.handlers) ≡ some e
  kept_after t e old =
      ground (arith, lookup-insert entry.job_type t entry q.handlers, eq_iff entry.job_type t)

  alone-IsRegistry :
      q.has_store ≡ false
      → IsRegistry (record q { handlers = insert entry.job_type entry q.handlers })
  alone-IsRegistry without = record {
    typed = typed_after;
    named = h.named;
    both = λ t e with_store found. absurd (ground arith);
    back = λ n e found. kept_after e.job_type e (h.back n e found);
  }

  both-IsRegistry :
      q.has_store ≡ true
      → lookup entry.name q.handlers_by_name ≡ none
      → IsRegistry (record q {
        handlers = insert entry.job_type entry q.handlers;
        handlers_by_name = insert entry.name entry q.handlers_by_name;
      })
  both-IsRegistry with_store free = record {
    typed = typed_after;
    named = λ n e found. elim (found_after entry.name n entry e q.handlers_by_name found) [
      | inl (same, new) ↦ ground arith
      | inr (other, old) ↦ h.named n e old
    ];
    both = λ t e _ found. elim (found_after entry.job_type t entry e q.handlers found) [
      | inl (same, new) ↦
          ground (arith, new, lookup-insert_self entry.name entry q.handlers_by_name)
      | inr (other, old) ↦ ground (
        arith,
        h.both t e with_store old,
        lookup-insert entry.name e.name entry q.handlers_by_name,
        eq_iff entry.name e.name,
      )
    ];
    back = λ n e found. elim (found_after entry.name n entry e q.handlers_by_name found) [
      | inl (same, new) ↦ ground (arith, new, lookup-insert_self entry.job_type entry q.handlers)
      | inr (other, old) ↦ kept_after e.job_type e (h.back n e old)
    ];
  }

-- A registration leaves a registry.
abbrev Keeps : Handlers → Result HandlerError Handlers → Type 0
Keeps q registered = IsRegistry (after_registration q registered)

absent : (o : Option HandlerEntry) → is_present o ≡ false → o ≡ none
absent o h = ground arith

add_handler-IsRegistry :
    (entry : HandlerEntry) (q : Handlers)
    → IsRegistry q
    → 1 ≤ entry.options.max_attempts
    → is_blank entry.name ≡ false
    → Keeps q (add_handler entry q)
unfolding add_handler
add_handler-IsRegistry entry q h attempts named =
    if_cases (Keeps q) (not (is_collecting q.state)) (λ _. h)
      λ _.
        if_cases (Keeps q) (is_present (lookup entry.job_type q.handlers)) (λ _. h)
          λ fresh.
            if_cases (Keeps q) (not q.has_store)
              (λ without. alone-IsRegistry entry q h attempts named (absent _ fresh) (ground arith))
              λ stored.
                if_cases (Keeps q) (is_present (lookup entry.name q.handlers_by_name)) (λ _. h)
                  λ free.
                    both-IsRegistry entry q h attempts named (absent _ fresh) (ground arith)
                      (absent _ free)

trim_right-visible :
    (c : Char) (s : String)
    → is_space (code c) ≡ false
    → is_blank (trim_right (String.◌∷◌ c s)) ≡ false
unfolding trim_right is_blank
trim_right-visible c s h = ground (arith, h)

-- A text without its leading spaces is empty, or starts with a character that is none.
trim_left-cases :
    (s : String)
    → (trim_left s ≡ "")
      ⊎ ((c : Char) × (t : String) × (trim_left s ≡ String.◌∷◌ c t) × (is_space (code c) ≡ false))
unfolding trim_left
trim_left-cases String.[] = inl refl
trim_left-cases (String.◌∷◌ c s) = elim (Bool-cases (is_space (code c))) [
  | inl space ↦ rw (space, trim_left) (trim_left-cases s)
  | inr visible ↦ inr (c, s, rw (visible, trim_left) refl, visible)
]

trim_space-cases : (s : String) → (trim_space s ≡ "") ⊎ (is_blank (trim_space s) ≡ false)
unfolding trim_space trim_right
trim_space-cases s = elim (trim_left-cases s) [
  | inl e ↦ inl (ap trim_right e)
  | inr (c, t, e, visible) ↦
      inr (ap (λ u. is_blank (trim_right u)) e ∙ trim_right-visible c t visible)
]

not_blank : (s : String) → s ≢ "" → (s ≡ "") ⊎ (is_blank s ≡ false) → is_blank s ≡ false
not_blank s h (inl e) = absurd (h e)
not_blank s h (inr e) = e

handle_job-IsRegistry : (r : Registration) (q : Handlers) → IsRegistry q → Keeps q (handle_job r q)
unfolding handle_job
handle_job-IsRegistry r q h =
    if_cases (Keeps q) (trim_space r.name =s= "" || not r.has_handler) (λ _. h)
      λ usable. elim (Result-cases (normalize_job_handler_options r.options)) [
        | inl (normalized, e) ↦
            rw (e, handle_job)
              (add_handler-IsRegistry (entry_of r normalized) q h
                (normalize-positive r.options normalized e)
                (not_blank (trim_space r.name) (ground (arith, eq_iff (trim_space r.name) ""))
                  (trim_space-cases r.name)))
        | inr (e, failed) ↦ rw (failed, handle_job) h
      ]

handle_jobs-IsRegistry_from :
    (rs : List Registration) (q : Handlers) → IsRegistry q → IsRegistry (handle_jobs rs q)
unfolding handle_jobs
handle_jobs-IsRegistry_from [] q h = h
handle_jobs-IsRegistry_from (r ∷ rs) q h =
    handle_jobs-IsRegistry_from rs (after_registration q (handle_job r q))
      (handle_job-IsRegistry r q h)

-- Whatever is registered on a new queue, with or without a store: a handler that is found under a
-- type or under a name has that type or name, its name is not blank, it may make at least one
-- attempt, and with a store the handlers found by type are those found by name.
pub handle_jobs-IsRegistry :
    (has_store : Bool) (rs : List Registration)
    → IsRegistry (handle_jobs rs (new_handlers has_store))
unfolding lookup
handle_jobs-IsRegistry has_store rs =
    handle_jobs-IsRegistry_from rs (new_handlers has_store) (record {
      typed = λ t e found. absurd (ground arith);
      named = λ n e found. absurd (ground arith);
      both = λ t e with_store found. absurd (ground arith);
      back = λ n e found. absurd (ground arith);
    })
