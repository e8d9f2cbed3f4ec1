-- ===== src/Judge/Language/Tests.antt =====
-- Files, extensions and archives at concrete inputs.
use runcodes.Prelude.{
  ◌≤◌, ◌<◌, ◌⊎◌, ℕ, ◌+◌, ◌≡◌, refl, ◌&&◌, some, List, [], ◌∷◌, ◌++◌, map, All, if◌then◌else◌, leb,
  Text, codes, text_eq,
}
use runcodes.Judge.Language.{
  Count, find_index, add_extensions, add_languages, build_index, from_extension,
  normalize_extension, path_ext, is_compound, deduce_from_archive, counted_as, count_all, count_one,
  best_count, standardize_extension, standard_extension, text_lt,
}
use runcodes.Judge.Language.Known.{known_languages}
use runcodes.Judge.Language.Archive.{SameEntries}
use runcodes.Judge.Language.Counted.{times, Before, deduce_from_archive_lem}

abbrev lower : ℕ → ℕ
lower c = if leb b'A' c && leb c b'Z' then c + 32 else c

compound : normalize_extension lower (codes "dir.x/Main.OMP.C") ≡ codes "omp.c"
unfolding normalize_extension codes path_ext is_compound text_eq
compound = refl

abbrev given : List Count → List Count
given cs = cs

given-SameEntries : SameEntries given
given-SameEntries P cs = ((λ h. h), (λ h. h))

abbrev rotated : List Count → List Count
rotated [] = []
rotated (c ∷ cs) = cs ++ c ∷ []

All-rotate :
    (P : Count → Type 0) (c : Count) (cs : List Count) → All P (c ∷ cs) → All P (cs ++ c ∷ [])
All-rotate P c [] h = h
All-rotate P c (x ∷ cs) (h, (hx, hs)) = (hx, All-rotate P c cs (h, hs))

All-unrotate :
    (P : Count → Type 0) (c : Count) (cs : List Count) → All P (cs ++ c ∷ []) → All P (c ∷ cs)
All-unrotate P c [] h = h
All-unrotate P c (x ∷ cs) (hx, hs) = let (hc, rest) = All-unrotate P c cs hs in (hc, (hx, rest))

rotated-SameEntries : SameEntries rotated
rotated-SameEntries P [] = ((λ h. h), (λ h. h))
rotated-SameEntries P (c ∷ cs) = (All-rotate P c cs, All-unrotate P c cs)

abbrev names : List Text
names = codes "main.c" ∷ codes "x.py" ∷ codes "util.c" ∷ codes "README" ∷ []

deduced : deduce_from_archive lower known_languages given names ≡ some (codes "c")
unfolding deduce_from_archive counted_as count_all count_one best_count standardize_extension
    standard_extension from_extension build_index add_languages add_extensions find_index
    normalize_extension path_ext is_compound text_eq codes text_lt
deduced = refl

deduce_from_archive_lem_example :
    (1 ≤ times (codes "c") (map (counted_as lower known_languages) names))
    × ((times (codes "py") (map (counted_as lower known_languages) names)
          < times (codes "c") (map (counted_as lower known_languages) names))
        ⊎ ((times (codes "py") (map (counted_as lower known_languages) names)
              ≡ times (codes "c") (map (counted_as lower known_languages) names))
            × ((codes "py" ≡ codes "c") ⊎ Before (codes "c") (codes "py"))))
unfolding codes
deduce_from_archive_lem_example =
    deduce_from_archive_lem lower known_languages given given-SameEntries names (codes "c")
      (codes "py") deduced refl
