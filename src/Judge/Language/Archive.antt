-- ===== src/Judge/Language/Archive.antt =====
-- DeduceFromArchive: the extension with the highest count, whatever the order of the map.
use runcodes.Prelude.{
  ℕ, ◌≡◌, refl, ap, inl, inr, true, false, Option, none, some, List, [], ◌∷◌, ◌↔◌, if_elim, map,
  All, arith, Text, Bool-cases,
}
use runcodes.Judge.Language.{Count, count_all, text_lt, leads, lead_of, best_count}
use runcodes.Judge.Language.{Language, counted_as, deduce_from_archive, ext_of}

text_lt_trans : (s t u : Text) → text_lt s t ≡ true → text_lt t u ≡ true → text_lt s u ≡ true
unfolding text_lt
text_lt_trans [] [] u h h' = cc
text_lt_trans [] (d ∷ t) [] h h' = cc
text_lt_trans [] (d ∷ t) (e ∷ u) h h' = refl
text_lt_trans (c ∷ s) [] u h h' = cc
text_lt_trans (c ∷ s) (d ∷ t) [] h h' = cc
text_lt_trans (c ∷ s) (d ∷ t) (e ∷ u) h h' = ground (arith, h, h', text_lt_trans s t u)

pub text_lt_total : (s t : Text) → text_lt s t ≡ false → text_lt t s ≡ false → s ≡ t
unfolding text_lt
text_lt_total [] [] h h' = refl
text_lt_total [] (d ∷ t) h h' = cc
text_lt_total (c ∷ s) [] h h' = cc
text_lt_total (c ∷ s) (d ∷ t) h h' = ground (arith, h, h', text_lt_total s t)

leads_trans : (a b c : Count) → leads b a ≡ true → leads c a ≡ false → leads c b ≡ false
leads_trans a b c h h' = elim (Bool-cases (leads c b)) [
  | inl t ↦ ground (arith, h, h', t, text_lt_trans c.ext b.ext a.ext)
  | inr f ↦ f
]

leads_self : (s : Text) → text_lt s s ≡ false
unfolding text_lt
leads_self [] = refl
leads_self (c ∷ s) = ground (arith, leads_self s)

leads_total : (a b : Count) → leads a b ≡ false → leads b a ≡ false → a.ext ≡ b.ext
leads_total a b h h' = ground (arith, h, h', text_lt_total a.ext b.ext)

-- Nothing leads the one that is held; with none held there is nothing.
abbrev Leading : Option Count → List Count → Type 0
Leading none cs = All (λ c. true ≡ false) cs
Leading (some b) cs = All (λ c. leads c b ≡ false) cs

lead_of-Leading :
    (c : Count) (b : Option Count) (seen : List Count) → Leading b seen → Leading (lead_of c b) seen
lead_of-Leading c none [] h = tt
lead_of-Leading c none (x ∷ seen) (h, hs) = cc h
lead_of-Leading c (some b) seen h = elim (Bool-cases (leads c b)) [
  | inl t ↦ rw t (weaken seen h t)
  | inr f ↦ rw f h
]
  where
    weaken :
        (seen : List Count)
        → All (λ x. leads x b ≡ false) seen
        → leads c b ≡ true
        → All (λ x. leads x c ≡ false) seen
    weaken [] h t = tt
    weaken (x ∷ seen) (h, hs) t = (leads_trans b c x t h, weaken seen hs t)

lead_of_self : (c : Count) (b : Option Count) → Leading (lead_of c b) (c ∷ [])
lead_of_self c none = (ground (arith, leads_self c.ext), tt)
lead_of_self c (some b) = elim (Bool-cases (leads c b)) [
  | inl t ↦ rw t (ground (arith, leads_self c.ext), tt)
  | inr f ↦ rw f (f, tt)
]

best_count_keeps :
    (cs : List Count) (b : Option Count) (seen : List Count)
    → Leading b seen
    → Leading (best_count b cs) seen
unfolding best_count
best_count_keeps [] b seen h = h
best_count_keeps (c ∷ cs) b seen h =
    best_count_keeps cs (lead_of c b) seen (lead_of-Leading c b seen h)

Leading-cons :
    (c : Count) (r : Option Count) (cs : List Count)
    → Leading r (c ∷ [])
    → Leading r cs
    → Leading r (c ∷ cs)
Leading-cons c none cs (h, _) hs = (h, hs)
Leading-cons c (some r) cs (h, _) hs = (h, hs)

best_count-Leading :
    (cs : List Count) (b : Option Count) → Leading b [] → Leading (best_count b cs) cs
unfolding best_count
best_count-Leading [] b h = h
best_count-Leading (c ∷ cs) b h =
    Leading-cons c (best_count (lead_of c b) cs) cs
      (best_count_keeps cs (lead_of c b) (c ∷ []) (lead_of_self c b))
      (best_count-Leading cs (lead_of c b) (lead_of-Leading c b [] h))

abbrev Holds : (Count → Type 0) → Option Count → Type 0
Holds P none = Unit
Holds P (some c) = P c

lead_of-Holds :
    (P : Count → Type 0) (c : Count) (b : Option Count) → P c → Holds P b → Holds P (lead_of c b)
lead_of-Holds P c none h h' = h
lead_of-Holds P c (some b) h h' = if_elim (Holds P) (leads c b) _ _ (λ _. h) (λ _. h')

best_count-Holds :
    (P : Count → Type 0) (cs : List Count) (b : Option Count)
    → All P cs
    → Holds P b
    → Holds P (best_count b cs)
unfolding best_count
best_count-Holds P [] b h hb = hb
best_count-Holds P (c ∷ cs) b (h, hs) hb =
    best_count-Holds P cs (lead_of c b) hs (lead_of-Holds P c b h hb)

-- An order of the entries: the same entries, in some sequence.
abbrev pub SameEntries : (List Count → List Count) → Type 1
SameEntries order = (P : Count → Type 0) (cs : List Count) → All P cs ↔ All P (order cs)

-- Two that stand in each other's list, with nothing leading either, have the same extension.
same_lead :
    (xs ys : List Count) (a b : Option Count)
    → ((P : Count → Type 0) → All P xs → Holds P a × Holds P b)
    → ((P : Count → Type 0) → All P ys → Holds P a × Holds P b)
    → Leading a xs
    → Leading b ys
    → ext_of a ≡ ext_of b
same_lead xs ys none none p q h h' = refl
same_lead xs ys none (some b) p q h h' = cc ((p (λ c. true ≡ false) h).1)
same_lead xs ys (some a) none p q h h' = cc ((q (λ c. true ≡ false) h').0)
same_lead xs ys (some a) (some b) p q h h' =
    ap some (leads_total a b ((q (λ c. leads c b ≡ false) h').0) ((p (λ c. leads c a ≡ false) h).1))

-- DeduceFromArchive does not depend on the order in which Go's map gives its entries: any two orders
-- of the same entries deduce the same extension, or both give the error.
deduce_from_archive_order :
    (lower : ℕ → ℕ) (known : List Language) (order order' : List Count → List Count)
    → SameEntries order
    → SameEntries order'
    → (names : List Text)
    → deduce_from_archive lower known order names ≡ deduce_from_archive lower known order' names
unfolding deduce_from_archive
deduce_from_archive_order lower known order order' same same' names =
    same_lead (order cs) (order' cs) (best_count none (order cs)) (best_count none (order' cs))
      (λ P h. (
        best_count-Holds P (order cs) none h tt,
        best_count-Holds P (order' cs) none ((same' P cs).0 ((same P cs).1 h)) tt,
      ))
      (λ P h. (
        best_count-Holds P (order cs) none ((same P cs).0 ((same' P cs).1 h)) tt,
        best_count-Holds P (order' cs) none h tt,
      ))
      (best_count-Leading (order cs) none tt) (best_count-Leading (order' cs) none tt)
  where
    cs : List Count
    cs = count_all (map (counted_as lower known) names) []

-- The extension that DeduceFromArchive gives is that of one of the counts, and no other count is
-- higher, or as high with an extension that comes before it.
pub deduce_from_archive-Leading :
    (lower : ℕ → ℕ) (known : List Language) (order : List Count → List Count)
    → SameEntries order
    → (names : List Text) (ext : Text) → deduce_from_archive lower known order names ≡ some ext
    → (b : Count) × (b.ext ≡ ext)
      × All (λ c. leads c b ≡ false) (count_all (map (counted_as lower known) names) [])
      × ((P : Count → Type 0) → All P (count_all (map (counted_as lower known) names) []) → P b)
unfolding deduce_from_archive
deduce_from_archive-Leading lower known order same names ext e =
    at (best_count none (order cs)) (best_count-Leading (order cs) none tt)
      (λ P h. best_count-Holds P (order cs) none ((same P cs).0 h) tt) e
  where
    cs : List Count
    cs = count_all (map (counted_as lower known) names) []

    at :
        (b : Option Count)
        → Leading b (order cs)
        → ((P : Count → Type 0) → All P cs → Holds P b)
        → ext_of b ≡ some ext
        → (b : Count) × (b.ext ≡ ext)
          × All (λ c. leads c b ≡ false) cs
          × ((P : Count → Type 0) → All P cs → P b)
    at none h p e = cc e
    at (some b) h p e = (b, cc e, (same (λ c. leads c b ≡ false) cs).1 h, p)
