-- ===== src/Backend/Limits.antt =====
-- backend/services/limits-service.go and backend/models/limits-model.go: the limits of a test case
-- under a language. The two tables are lists of rows, one for each exercise (or case) and language.
pub mod Resolution
pub mod Validity
pub mod Storing
mod Tests
use runcodes.Prelude.{
  ℕ, Bool, true, false, not, ◌&&◌, ◌||◌, Option, none, some, List, [], ◌∷◌, ◌++◌, any, keep, ◌==◌,
  if◌then◌else◌, ℤ, pos, negsuc, is_neg, is_pos,
}

pub record Limits : Type 0 where
  pub cpu_time : ℤ
  pub mem_usage : ℤ
  pub stack : ℤ
  pub file_size : ℤ

-- A nil field inherits the layer below.
pub record Overrides : Type 0 where
  pub cpu_time : Option ℤ
  pub mem_usage : Option ℤ
  pub stack : Option ℤ
  pub file_size : Option ℤ

pub data Source : Type 0 where
  platform exercise test_case : Source

pub record Sources : Type 0 where
  pub cpu_time : Source
  pub mem_usage : Source
  pub stack : Source
  pub file_size : Source

pub record Layer : Type 0 where
  pub overrides : Overrides
  pub source : Source

abbrev pub no_overrides : Overrides
no_overrides = record { cpu_time = none; mem_usage = none; stack = none; file_size = none }

abbrev is_nil : Option ℤ → Bool
is_nil none = true
is_nil (some v) = false

-- LimitOverrides.Empty
unfoldable pub empty : Overrides → Bool
empty o = is_nil o.cpu_time && is_nil o.mem_usage && is_nil o.stack && is_nil o.file_size

-- if override != nil { value = *override }
abbrev pub or_else : Option ℤ → ℤ → ℤ
or_else none v = v
or_else (some w) v = w

abbrev pub source_or : Option ℤ → Source → Source → Source
source_or none layer s = s
source_or (some w) layer s = layer

apply_limits : Overrides → Limits → Limits
apply_limits o l = record {
  cpu_time = or_else o.cpu_time l.cpu_time;
  mem_usage = or_else o.mem_usage l.mem_usage;
  stack = or_else o.stack l.stack;
  file_size = or_else o.file_size l.file_size;
}

apply_sources : Layer → Sources → Sources
apply_sources y s = record {
  cpu_time = source_or y.overrides.cpu_time y.source s.cpu_time;
  mem_usage = source_or y.overrides.mem_usage y.source s.mem_usage;
  stack = source_or y.overrides.stack y.source s.stack;
  file_size = source_or y.overrides.file_size y.source s.file_size;
}

apply_layers : List Layer → Limits → Sources → Limits × Sources
unfolding apply_limits apply_sources
apply_layers [] l s = (l, s)
apply_layers (y ∷ ys) l s = apply_layers ys (apply_limits y.overrides l) (apply_sources y s)

abbrev all_platform : Sources
all_platform = record {
  cpu_time = platform;
  mem_usage = platform;
  stack = platform;
  file_size = platform;
}

pub resolve_limits : Limits → List Layer → Limits × Sources
unfolding apply_layers
resolve_limits base layers = apply_layers layers base all_platform

-- A row of exercise_language_limits or of test_case_language_limits: its owner and language.
pub record Row : Type 0 where
  pub owner : ℕ
  pub language : ℕ
  pub overrides : Overrides

-- overrides[owner][language], where a missing row overrides nothing.
pub find_row : ℕ → ℕ → List Row → Option Overrides
find_row owner language [] = none
find_row owner language (r ∷ rs) =
    if r.owner == owner && r.language == language
    then some r.overrides
    else find_row owner language rs

abbrev pub or_no_overrides : Option Overrides → Overrides
or_no_overrides none = no_overrides
or_no_overrides (some o) = o

-- TestCaseLanguageLimits, for one case and one language of the exercise.
pub case_limits : Limits → List Row → List Row → ℕ → ℕ → ℕ → Limits × Sources
case_limits base exercises cases exercise_id case_id language =
    resolve_limits base (exercise_layer ∷ case_layer ∷ [])
  where
    exercise_layer : Layer
    exercise_layer = record {
      overrides = or_no_overrides (find_row exercise_id language exercises);
      source = exercise;
    }

    case_layer : Layer
    case_layer = record {
      overrides = or_no_overrides (find_row case_id language cases);
      source = test_case;
    }

-- SQL's COALESCE over the two joined rows (NULL where a LEFT JOIN finds none) and the platform.
abbrev joined : (Overrides → Option ℤ) → Option Overrides → Option ℤ
joined field none = none
joined field (some o) = field o

abbrev coalesce : Option ℤ → Option ℤ → ℤ → ℤ
coalesce (some v) ell p = v
coalesce none (some v) p = v
coalesce none none p = p

-- The row that SnapshotCommitLimits stores for a case of the exercise that owns it. `none` is a
-- commit with no language.
abbrev joined_row : ℕ → Option ℕ → List Row → Option Overrides
joined_row owner none rows = none
joined_row owner (some language) rows = find_row owner language rows

pub snapshot_limits : Limits → List Row → List Row → ℕ → ℕ → Option ℕ → Limits
snapshot_limits base exercises cases exercise_id case_id language =
    let tcl = joined_row case_id language cases in
    let ell = joined_row exercise_id language exercises in
    record {
      cpu_time =
          coalesce (joined (λ o. o.cpu_time) tcl) (joined (λ o. o.cpu_time) ell) base.cpu_time;
      mem_usage =
          coalesce (joined (λ o. o.mem_usage) tcl) (joined (λ o. o.mem_usage) ell) base.mem_usage;
      stack = coalesce (joined (λ o. o.stack) tcl) (joined (λ o. o.stack) ell) base.stack;
      file_size =
          coalesce (joined (λ o. o.file_size) tcl) (joined (λ o. o.file_size) ell) base.file_size;
    }

-- An entry of the payload: a language and its overrides.
pub record Entry : Type 0 where
  pub language : ℕ
  pub overrides : Overrides

abbrev pub positive_or_nil : Option ℤ → Bool
positive_or_nil none = true
positive_or_nil (some v) = is_pos v

abbrev pub natural_or_nil : Option ℤ → Bool
natural_or_nil none = true
natural_or_nil (some v) = not (is_neg v)

unfoldable pub usable : Overrides → Bool
usable o =
    positive_or_nil o.cpu_time
    && natural_or_nil o.mem_usage
    && natural_or_nil o.stack
    && natural_or_nil o.file_size

abbrev pub listed : ℕ → List ℕ → Bool
listed id ids = any (λ i. i == id) ids

-- The loop of validateLanguageLimits; `seen` holds the languages of the entries before.
valid_entries : List ℕ → List ℕ → List Entry → Bool
valid_entries allowed seen [] = true
valid_entries allowed seen (e ∷ es) =
    if not (listed e.language allowed)
    then false
    else if listed e.language seen
    then false
    else if usable e.overrides
    then valid_entries allowed (e.language ∷ seen) es
    else false

-- `false` is ErrInvalidLimits.
pub validate_language_limits : List ℕ → List Entry → Bool
unfolding valid_entries
validate_language_limits allowed es = valid_entries allowed [] es

-- The rows of an insertion: an entry that overrides nothing is left out.
pub insert_language_limits : ℕ → List Entry → List Row
insert_language_limits owner [] = []
insert_language_limits owner (e ∷ es) =
    let rest = insert_language_limits owner es in
    if empty e.overrides
    then rest
    else record { owner = owner; language = e.language; overrides = e.overrides } ∷ rest

-- DELETE … WHERE exercise_id = owner, then the insertion.
pub replace_rows : ℕ → List Entry → List Row → List Row
replace_rows owner es rows =
    insert_language_limits owner es ++ keep (λ r. not (r.owner == owner)) rows

-- An exercise as far as its rows go: a ghost shares the rows of its real exercise.
pub record Exercise : Type 0 where
  pub id : ℕ
  pub ghost : Bool
  pub real_id : Option ℕ

abbrev real_or : Option ℕ → ℕ → ℕ
real_or none id = id
real_or (some real) id = real

unfoldable pub authoring_exercise_id : Exercise → ℕ
authoring_exercise_id e = if e.ghost then real_or e.real_id e.id else e.id

-- ListExerciseLanguageLimits, for one language: it reads the rows of the exercise itself.
pub list_exercise_limits : Limits → List Row → Exercise → ℕ → Overrides × Limits × Sources
list_exercise_limits base rows e language =
    let o = or_no_overrides (find_row e.id language rows) in
    let layer : Layer = record { overrides = o; source = exercise } in
    let r = resolve_limits base (layer ∷ []) in (o, r.0, r.1)

-- ReplaceExerciseLanguageLimits for an author: it writes the rows of the authoring exercise.
unfoldable pub replace_exercise_limits :
    List ℕ → Exercise → List Entry → List Row → Option (List Row)
replace_exercise_limits allowed e es rows =
    if validate_language_limits allowed es
    then some (replace_rows (authoring_exercise_id e) es rows)
    else none
