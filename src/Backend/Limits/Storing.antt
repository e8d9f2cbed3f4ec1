-- ===== src/Backend/Limits/Storing.antt =====
-- What the stored limits of an exercise are after they are replaced.
use runcodes.Prelude.{
  ℕ, ◌≡◌, ◌≢◌, refl, ◌∙◌, true, false, not, Option, none, some, List, [], ◌∷◌, ◌++◌, keep, All,
  ◌==◌, arith, if◌then◌else◌, is_neg, is_pos, Bool-cases, inl, inr,
}
use runcodes.Backend.Limits.{
  Limits, Overrides, Source, no_overrides, or_no_overrides, empty, usable, Row, find_row, Entry,
  Exercise, authoring_exercise_id, insert_language_limits, replace_rows, list_exercise_limits,
  replace_exercise_limits, resolve_limits,
}
use runcodes.Backend.Limits.Validity.{
  Acceptable, Distinct, usable_iff, validate_language_limits_iff,
}

-- What the payload says of a language: nothing where the language is left out.
pub payload : ℕ → List Entry → Overrides
payload language [] = no_overrides
payload language (e ∷ es) = if e.language == language then e.overrides else payload language es

find_row-append :
    (owner language : ℕ) (xs ys : List Row)
    → find_row owner language xs ≡ none
    → find_row owner language (xs ++ ys) ≡ find_row owner language ys
unfolding find_row
find_row-append owner language [] ys h = refl
find_row-append owner language (x ∷ xs) ys h = ground (arith, find_row-append owner language xs ys)

find_row-append_some :
    (owner language : ℕ) (xs ys : List Row) (o : Overrides)
    → find_row owner language xs ≡ some o
    → find_row owner language (xs ++ ys) ≡ some o
unfolding find_row
find_row-append_some owner language [] ys o h = cc
find_row-append_some owner language (x ∷ xs) ys o h =
    ground (arith, find_row-append_some owner language xs ys o)

find_row_deleted :
    (owner language : ℕ) (rows : List Row)
    → find_row owner language (keep (λ r. not (r.owner == owner)) rows) ≡ none
unfolding find_row
find_row_deleted owner language [] = refl
find_row_deleted owner language (r ∷ rows) = ground (arith, find_row_deleted owner language rows)

find_row_kept :
    (owner other language : ℕ) (rows : List Row)
    → owner ≢ other
    → find_row other language (keep (λ r. not (r.owner == owner)) rows)
      ≡ find_row other language rows
unfolding find_row
find_row_kept owner other language [] n = refl
find_row_kept owner other language (r ∷ rows) n =
    ground (arith, find_row_kept owner other language rows)

find_row-insert_other :
    (owner other language : ℕ) (es : List Entry)
    → owner ≢ other
    → find_row other language (insert_language_limits owner es) ≡ none
unfolding find_row insert_language_limits
find_row-insert_other owner other language [] n = refl
find_row-insert_other owner other language (e ∷ es) n =
    ground (arith, find_row-insert_other owner other language es)

find_row-insert_none :
    (owner language : ℕ) (es : List Entry)
    → All (λ f. f.language ≢ language) es
    → find_row owner language (insert_language_limits owner es) ≡ none
unfolding find_row insert_language_limits
find_row-insert_none owner language [] a = refl
find_row-insert_none owner language (e ∷ es) a =
    ground (arith, a.0, find_row-insert_none owner language es a.1)

empty_nothing : (o : Overrides) → empty o ≡ true → o ≡ no_overrides
unfolding empty
empty_nothing o h = ground arith

find_row-insert :
    (owner language : ℕ) (es : List Entry)
    → Distinct es
    → or_no_overrides (find_row owner language (insert_language_limits owner es))
      ≡ payload language es
unfolding find_row insert_language_limits payload
find_row-insert owner language [] d = refl
find_row-insert owner language (e ∷ es) d = elim (Bool-cases (e.language == language)) [
  | inr other ↦ ground (arith, find_row-insert owner language es d.1)
  | inl this ↦
      ground (arith, find_row-insert_none owner e.language es d.0, empty_nothing e.overrides)
]

find_row-replace :
    (owner language : ℕ) (es : List Entry) (rows : List Row)
    → Distinct es
    → or_no_overrides (find_row owner language (replace_rows owner es rows)) ≡ payload language es
unfolding replace_rows
find_row-replace owner language es rows d =
    let stored = find_row owner language (insert_language_limits owner es) in by_stored stored refl
  where
    by_stored :
        (o : Option Overrides)
        → find_row owner language (insert_language_limits owner es) ≡ o
        → or_no_overrides (
            find_row owner language
              (insert_language_limits owner es ++ keep (λ r. not (r.owner == owner)) rows))
          ≡ payload language es
    by_stored none e = ground (
      arith,
      e,
      find_row-insert owner language es d,
      find_row_deleted owner language rows,
      find_row-append owner language (insert_language_limits owner es)
          (keep (λ r. not (r.owner == owner)) rows) e,
    )
    by_stored (some o) e = ground (
      arith,
      e,
      find_row-insert owner language es d,
      find_row-append_some owner language (insert_language_limits owner es)
          (keep (λ r. not (r.owner == owner)) rows) o e,
    )

-- The listing of an exercise that is no ghost gives back the payload that was stored, for every
-- language, and the rows of other exercises stay as they were.
pub replace-list :
    (base : Limits) (allowed : List ℕ) (x : Exercise) (es : List Entry) (rows after : List Row)
    (other language : ℕ)
    → x.ghost ≡ false
    → replace_exercise_limits allowed x es rows ≡ some after
    → ((list_exercise_limits base after x language).0 ≡ payload language es)
      × (x.id ≢ other → find_row other language after ≡ find_row other language rows)
unfolding replace_exercise_limits list_exercise_limits authoring_exercise_id
replace-list base allowed x es rows after other language g h =
    let (_, distinct) = (validate_language_limits_iff allowed es).0 (ground arith) in
    (ground (arith, find_row-replace x.id language es rows distinct), λ n. ground (arith, others n))
  where
    others :
        x.id ≢ other
        → find_row other language (replace_rows x.id es rows) ≡ find_row other language rows
    others n =
        unfold replace_rows in
        (find_row-append other language (insert_language_limits x.id es)
            (keep (λ r. not (r.owner == x.id)) rows)
            (find_row-insert_other x.id other language es n)
          ∙ find_row_kept x.id other language rows n)

abbrev pub UsableLimits : Limits → Type 0
UsableLimits l =
    (is_pos l.cpu_time ≡ true)
    × (is_neg l.mem_usage ≡ false)
    × (is_neg l.stack ≡ false)
    × (is_neg l.file_size ≡ false)

payload-usable :
    (allowed : List ℕ) (language : ℕ) (es : List Entry)
    → All (Acceptable allowed) es
    → usable (payload language es) ≡ true
unfolding payload usable
payload-usable allowed language [] a = refl
payload-usable allowed language (e ∷ es) a = elim (Bool-cases (e.language == language)) [
  | inl this ↦ rw this ((usable_iff e.overrides).1 a.0.1)
  | inr other ↦ rw other (payload-usable allowed language es a.1)
]

resolve-usable :
    (base : Limits) (o : Overrides) (layer : Source)
    → usable o ≡ true
    → UsableLimits base
    → UsableLimits (resolve_limits base (record { overrides = o; source = layer } ∷ [])).0
unfolding usable resolve_limits
resolve-usable base o layer u b = ground arith

-- Where the platform's limits are usable, so are those of an exercise that is no ghost after any
-- accepted replacement: a positive CPU time, and byte limits that are not negative.
pub replace-UsableLimits :
    (base : Limits) (allowed : List ℕ) (x : Exercise) (es : List Entry) (rows after : List Row)
    (language : ℕ)
    → x.ghost ≡ false
    → UsableLimits base
    → replace_exercise_limits allowed x es rows ≡ some after
    → UsableLimits (list_exercise_limits base after x language).1
unfolding list_exercise_limits replace_exercise_limits
replace-UsableLimits base allowed x es rows after language g b h =
    let (ok, _) = (validate_language_limits_iff allowed es).0 (ground arith) in
    let same = (replace-list base allowed x es rows after 0 language g h).0 in
    resolve-usable base (or_no_overrides (find_row x.id language after)) Source.exercise
      (ground (arith, same, payload-usable allowed language es ok)) b
