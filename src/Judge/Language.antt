-- ===== src/Judge/Language.antt =====
-- judge/internal/language/language.go: which language a file or an archive is in. Text is held as code
-- points, `lower` is unicode.ToLower on one of them, and a map is the list of its assignments, newest
-- first.
pub mod Known
pub mod Index
pub mod Archive
pub mod Counted
mod Tests
use runcodes.Prelude.{
  ℕ, suc, ◌+◌, ◌-◌, Bool, true, false, not, ◌&&◌, ◌||◌, Option, none, some, List, [], ◌∷◌, ◌++◌,
  map, any, take, length, ltb, ◌==◌, if◌then◌else◌, is_empty, Text, codes, text_eq, cut_prefix,
}

pub record Language : Type 0 where
  pub name : Text
  pub extensions : List Text
  pub compilable : Bool
  pub image_name : Text

unfoldable pub standard_extension : Language → Text
standard_extension l = elim l.extensions [ [] ↦ [] | e ∷ es ↦ e ]

-- An ambiguous extension is assigned nil, here `none`.
abbrev pub LanguageIndex : Type 0
LanguageIndex = List (Text × Option Language)

unfoldable pub find_index : Text → LanguageIndex → Option (Option Language)
find_index ext [] = none
find_index ext ((e, l) ∷ idx) = if text_eq e ext then some l else find_index ext idx

abbrev pub assigned : Language → Option (Option Language) → Option Language
assigned lang none = some lang
assigned lang (some old) = none

-- The loops of buildIndex, over the extensions of one language and over the languages.
unfoldable pub add_extensions : Language → List Text → LanguageIndex → LanguageIndex
unfolding find_index
add_extensions lang [] idx = idx
add_extensions lang (e ∷ es) idx =
    add_extensions lang es ((e, assigned lang (find_index e idx)) ∷ idx)

unfoldable pub add_languages : List Language → LanguageIndex → LanguageIndex
unfolding add_extensions
add_languages [] idx = idx
add_languages (l ∷ ls) idx = add_languages ls (add_extensions l l.extensions idx)

unfoldable pub build_index : List Language → LanguageIndex
unfolding add_languages
build_index ls = add_languages ls []

abbrev pub or_nil : Option (Option Language) → Option Language
or_nil none = none
or_nil (some l) = l

-- path.Ext: from the last dot of the last path element on.
unfoldable pub path_ext : Text → Text
path_ext [] = []
path_ext (c ∷ s) =
    let rest = path_ext s in
    if not (is_empty rest)
    then rest
    else if c == b'.' && not (any (λ d. d == b'/') s)
    then c ∷ s
    else []

-- strings.TrimPrefix(s, ".")
abbrev pub drop_dot : Text → Text
drop_dot [] = []
drop_dot (c ∷ s) = if c == b'.' then s else c ∷ s

abbrev compounds : List Text
compounds =
    codes "c" ∷ codes "h" ∷ codes "cpp" ∷ codes "cc" ∷ codes "cxx" ∷ codes "c++" ∷ codes "hpp" ∷ []

unfoldable pub is_compound : Text → Bool
is_compound ext = any (text_eq ext) compounds

module _ (lower : ℕ → ℕ) where
  unfoldable pub normalize_extension : Text → Text
  unfolding path_ext is_compound
  normalize_extension name =
      let ext = drop_dot (map lower (path_ext name)) in
      let base = take (length name - length (path_ext name)) name in
      let pre = drop_dot (map lower (path_ext base)) in
      if is_empty ext
      then []
      else if is_compound ext
          && any (λ c. c == b'.') base
          && (text_eq pre (codes "omp") || text_eq pre (codes "mpi"))
      then pre ++ (b'.' ∷ ext)
      else ext

  module _ (known : List Language) where
    unfoldable pub from_extension : Text → Option Language
    unfolding build_index find_index
    from_extension ext = or_nil (find_index (map lower ext) (build_index known))

    pub from_filename : Text → Option Language
    unfolding from_extension normalize_extension
    from_filename name = from_extension (normalize_extension name)

    abbrev standard_of : Option Language → Text
    standard_of none = []
    standard_of (some l) = standard_extension l

    unfoldable pub standardize_extension : Text → Text
    unfolding from_extension standard_extension
    standardize_extension ext =
        let e = map lower (drop_dot ext) in
        if text_eq e (codes "zip") then codes "zip" else standard_of (from_extension e)

    pub is_compilable : Text → Bool
    unfolding from_extension
    is_compilable ext = elim (from_extension ext) [ none ↦ false | some l ↦ l.compilable ]

    -- What one name of an archive is counted as; empty for one that is passed over.
    unfoldable pub counted_as : Text → Text
    unfolding normalize_extension standardize_extension
    counted_as name =
        let ext = normalize_extension name in if is_empty ext then [] else standardize_extension ext

pub record Count : Type 0 where
  pub ext : Text
  pub count : ℕ

-- counts[ext]++
unfoldable pub count_one : Text → List Count → List Count
count_one ext [] = record { ext = ext; count = 1 } ∷ []
count_one ext (c ∷ cs) =
    if text_eq c.ext ext then record c { count = suc c.count } ∷ cs else c ∷ count_one ext cs

unfoldable pub count_all : List Text → List Count → List Count
unfolding count_one
count_all [] cs = cs
count_all (e ∷ es) cs = if is_empty e then count_all es cs else count_all es (count_one e cs)

-- s < t, over the code points (whose order is that of their UTF-8 bytes)
unfoldable pub text_lt : Text → Text → Bool
text_lt [] [] = false
text_lt [] (d ∷ t) = true
text_lt (c ∷ s) [] = false
text_lt (c ∷ s) (d ∷ t) = if ltb c d then true else if c == d then text_lt s t else false

abbrev pub leads : Count → Count → Bool
leads c best = ltb best.count c.count || (c.count == best.count && text_lt c.ext best.ext)

abbrev pub lead_of : Count → Option Count → Option Count
lead_of c none = some c
lead_of c (some b) = if leads c b then some c else some b

-- The last loop of DeduceFromArchive, over the counts in whichever order the map gives them.
unfoldable pub best_count : Option Count → List Count → Option Count
best_count best [] = best
best_count best (c ∷ cs) = best_count (lead_of c best) cs

abbrev pub ext_of : Option Count → Option Text
ext_of none = none
ext_of (some c) = some c.ext

-- `none` is the error; `order` is the order in which the map gives its entries.
unfoldable pub deduce_from_archive :
    (ℕ → ℕ) → List Language → (List Count → List Count) → List Text → Option Text
unfolding counted_as count_all best_count
deduce_from_archive lower known order names =
    ext_of (best_count none (order (count_all (map (counted_as lower known) names) [])))
