-- ===== src/Judge/Language/Index.antt =====
-- buildIndex and FromExtension: an extension is resolved where one language alone lists it, once.
use runcodes.Prelude.{
  ℕ, ◌≡◌, refl, sym, ap, ◌∙◌, inl, inr, Option, none, some, List, [], ◌∷◌, ◌++◌, map, if◌then◌else◌,
  Text, text_eq, text_eq-eq, Bool-cases,
}
use runcodes.Judge.Language.{
  Language, LanguageIndex, find_index, assigned, add_extensions, add_languages, build_index, or_nil,
  from_extension,
}

-- The languages that list the extension, once for each time they do.
abbrev pub owned : Text → Language → List Text → List Language
owned ext l [] = []
owned ext l (e ∷ es) = if text_eq e ext then l ∷ owned ext l es else owned ext l es

abbrev pub owners : Text → List Language → List Language
owners ext [] = []
owners ext (l ∷ ls) = owned ext l l.extensions ++ owners ext ls

abbrev pub only : List Language → Option Language
only [] = none
only (l ∷ []) = some l
only (l ∷ m ∷ ls) = none

abbrev tally : Option (Option Language) → List Language → Option (Option Language)
tally o [] = o
tally o (l ∷ ls) = tally (some (assigned l o)) ls

tally-append :
    (o : Option (Option Language)) (xs ys : List Language)
    → tally o (xs ++ ys) ≡ tally (tally o xs) ys
tally-append o [] ys = refl
tally-append o (x ∷ xs) ys = tally-append (some (assigned x o)) xs ys

tally_ambiguous : (ls : List Language) → tally (some none) ls ≡ some none
tally_ambiguous [] = refl
tally_ambiguous (l ∷ ls) = tally_ambiguous ls

or_nil-tally : (ls : List Language) → or_nil (tally none ls) ≡ only ls
or_nil-tally [] = refl
or_nil-tally (l ∷ []) = refl
or_nil-tally (l ∷ m ∷ ls) = ap or_nil (tally_ambiguous ls)

find-add_extensions :
    (ext : Text) (l : Language) (es : List Text) (idx : LanguageIndex)
    → find_index ext (add_extensions l es idx) ≡ tally (find_index ext idx) (owned ext l es)
unfolding find_index add_extensions
find-add_extensions ext l [] idx = refl
find-add_extensions ext l (e ∷ es) idx =
    find-add_extensions ext l es _ ∙ elim (Bool-cases (text_eq e ext)) [
      | inl same ↦ rw (same, text_eq-eq e ext same) refl
      | inr other ↦ rw other refl
    ]

find-add_languages :
    (ext : Text) (ls : List Language) (idx : LanguageIndex)
    → find_index ext (add_languages ls idx) ≡ tally (find_index ext idx) (owners ext ls)
unfolding add_languages
find-add_languages ext [] idx = refl
find-add_languages ext (l ∷ ls) idx =
    find-add_languages ext ls (add_extensions l l.extensions idx)
    ∙ ap (λ o. tally o (owners ext ls)) (find-add_extensions ext l l.extensions idx)
    ∙ sym (tally-append (find_index ext idx) (owned ext l l.extensions) (owners ext ls))

-- FromExtension over any list of languages gives the language that lists the extension, in lower
-- case, where it is listed exactly once over all languages, and nil where it is listed never or more
-- than once.
from_extension_lem :
    (lower : ℕ → ℕ) (known : List Language) (ext : Text)
    → from_extension lower known ext ≡ only (owners (map lower ext) known)
unfolding from_extension build_index find_index
from_extension_lem lower known ext =
    ap or_nil (find-add_languages (map lower ext) known [])
    ∙ or_nil-tally (owners (map lower ext) known)
