-- ===== src/Judge/Language/Counted.antt =====
-- What DeduceFromArchive deduces: the extension that most of the names have.
use runcodes.Prelude.{
  ℕ, ◌+◌, ◌≤◌, ◌<◌, ◌≡◌, refl, ap, ◌∙◌, ◌⊎◌, inl, inr, Bool, true, false, some, List, [], ◌∷◌, map,
  All, ltb, if◌then◌else◌, is_empty, arith, Text, text_eq, text_eq-eq, text_eq_refl, Bool-cases,
}
use runcodes.Judge.Language.{
  Language, Count, counted_as, count_one, count_all, text_lt, leads, deduce_from_archive,
}
use runcodes.Judge.Language.Archive.{SameEntries, deduce_from_archive-Leading, text_lt_total}

abbrev one_if : Bool → ℕ
one_if true = 1
one_if false = 0

-- How often a text stands in a list.
abbrev pub times : Text → List Text → ℕ
times e [] = 0
times e (x ∷ xs) = one_if (text_eq x e) + times e xs

-- The order of a dictionary.
abbrev pub Before : Text → Text → Type 0
Before _ [] = ⊥
Before [] (d ∷ t) = Unit
Before (c ∷ s) (d ∷ t) = (c < d) ⊎ ((c ≡ d) × Before s t)

text_lt-Before : (s t : Text) → text_lt s t ≡ true → Before s t
unfolding text_lt
text_lt-Before [] [] h = cc h
text_lt-Before [] (d ∷ t) h = tt
text_lt-Before (c ∷ s) [] h = cc h
text_lt-Before (c ∷ s) (d ∷ t) h = elim (Bool-cases (ltb c d)) [
  | inl l ↦ inl (ground arith)
  | inr n ↦ inr (ground (arith, h, n), text_lt-Before s t (ground (arith, h, n)))
]

differ_sym : (s t : Text) → text_eq s t ≡ false → text_eq t s ≡ false
differ_sym s t h = elim (Bool-cases (text_eq t s)) [
  | inl e ↦ cc (h, text_eq_refl s, text_eq-eq t s e)
  | inr n ↦ n
]

-- The counts of the entries with an extension.
abbrev count_at : Text → List Count → ℕ
count_at e [] = 0
count_at e (c ∷ cs) = (if text_eq c.ext e then c.count else 0) + count_at e cs

count_at-count_one :
    (e x : Text) (cs : List Count)
    → count_at e (count_one x cs) ≡ one_if (text_eq x e) + count_at e cs
unfolding count_one
count_at-count_one e x [] = ground arith
count_at-count_one e x (c ∷ cs) = elim (Bool-cases (text_eq c.ext x)) [
  | inl same ↦
      (let alike : text_eq c.ext e ≡ text_eq x e =
          ap (λ t. text_eq t e) (text_eq-eq c.ext x same) in
        rw same (ground (arith, alike)))
  | inr n ↦ (let ih = count_at-count_one e x cs in rw n (ground (arith, ih)))
]

empty_differs : (x e : Text) → is_empty x ≡ true → is_empty e ≡ false → text_eq x e ≡ false
unfolding text_eq
empty_differs [] [] h h' = cc h'
empty_differs [] (d ∷ e) h h' = refl
empty_differs (c ∷ x) e h h' = cc h

count_at-count_all :
    (e : Text) (es : List Text) (cs : List Count)
    → is_empty e ≡ false
    → count_at e (count_all es cs) ≡ times e es + count_at e cs
unfolding count_all
count_at-count_all e [] cs h = omega arith
count_at-count_all e (x ∷ es) cs h = elim (Bool-cases (is_empty x)) [
  | inl y ↦
      (let ih = count_at-count_all e es cs h in
        let other = empty_differs x e y h in ground (arith, ih, other, y))
  | inr n ↦
      (let ih = count_at-count_all e es (count_one x cs) h in
        let one = count_at-count_one e x cs in ground (arith, ih, one, n))
]

-- No two entries have one extension, and each counts something under one.
abbrev Absent : Text → List Count → Type 0
Absent e cs = All (λ c. text_eq c.ext e ≡ false) cs

abbrev Counts : List Count → Type 0
Counts [] = Unit
Counts (c ∷ cs) = (1 ≤ c.count) × (is_empty c.ext ≡ false) × Absent c.ext cs × Counts cs

count_one-Absent :
    (e x : Text) (cs : List Count) → text_eq x e ≡ false → Absent e cs → Absent e (count_one x cs)
unfolding count_one
count_one-Absent e x [] n h = (n, tt)
count_one-Absent e x (c ∷ cs) n (h, hs) = elim (Bool-cases (text_eq c.ext x)) [
  | inl same ↦ rw same (h, hs)
  | inr other ↦ rw other (h, count_one-Absent e x cs n hs)
]

count_one-Counts :
    (x : Text) (cs : List Count) → is_empty x ≡ false → Counts cs → Counts (count_one x cs)
unfolding count_one
count_one-Counts x [] n h = (omega arith, n, tt, tt)
count_one-Counts x (c ∷ cs) n (p, e, a, h) = elim (Bool-cases (text_eq c.ext x)) [
  | inl same ↦ rw same (omega (arith, p), e, a, h)
  | inr other ↦
      rw other
        (p, e, count_one-Absent c.ext x cs (differ_sym c.ext x other) a, count_one-Counts x cs n h)
]

count_all-Counts : (es : List Text) (cs : List Count) → Counts cs → Counts (count_all es cs)
unfolding count_all
count_all-Counts [] cs h = h
count_all-Counts (x ∷ es) cs h = elim (Bool-cases (is_empty x)) [
  | inl y ↦ rw y (count_all-Counts es cs h)
  | inr n ↦ rw n (count_all-Counts es (count_one x cs) (count_one-Counts x cs n h))
]

none_counted : (e : Text) (cs : List Count) → Absent e cs → count_at e cs ≡ 0
none_counted e [] h = refl
none_counted e (c ∷ cs) (h, hs) = let ih = none_counted e cs hs in ground (arith, h, ih)

-- What an entry holds is what the list holds under its extension.
abbrev Exact : List Count → Count → Type 0
Exact cs c = (1 ≤ c.count) × (is_empty c.ext ≡ false) × (c.count ≡ count_at c.ext cs)

Counts-Exact : (cs : List Count) → Counts cs → All (Exact cs) cs
Counts-Exact [] h = tt
Counts-Exact (c ∷ cs) (p, e, a, h) = ((p, e, head_), behind cs a (Counts-Exact cs h))
  where
    head_ : c.count ≡ count_at c.ext (c ∷ cs)
    head_ =
        let self = text_eq_refl c.ext in
        let none_ = none_counted c.ext cs a in ground (arith, self, none_)

    behind : (qs : List Count) → Absent c.ext qs → All (Exact cs) qs → All (Exact (c ∷ cs)) qs
    behind [] a h = tt
    behind (q ∷ qs) (n, a) ((p, e, x), h) =
        let n' = differ_sym q.ext c.ext n in ((p, e, ground (arith, n', x)), behind qs a h)

-- An entry under the extension, or nothing counted under it.
find_entry :
    (P : Count → Type 0) (e : Text) (cs : List Count)
    → All P cs
    → (count_at e cs ≡ 0) ⊎ ((c : Count) × (c.ext ≡ e) × P c)
find_entry P e [] h = inl refl
find_entry P e (c ∷ cs) (h, hs) = elim (Bool-cases (text_eq c.ext e)) [
  | inl same ↦ inr (c, text_eq-eq c.ext e same, h)
  | inr n ↦ elim (find_entry P e cs hs) [
    | inl z ↦ inl (ground (arith, n, z))
    | inr found ↦ inr found
  ]
]

All-both {ℓ κ μ} :
    {A : Type ℓ} (P : A → Type κ) (Q : A → Type μ) (xs : List A)
    → All P xs
    → All Q xs
    → All (λ x. P x × Q x) xs
All-both P Q [] h h' = tt
All-both P Q (x ∷ xs) (h, hs) (h', hs') = ((h, h'), All-both P Q xs hs hs')

not_leading :
    (c b : Count)
    → leads c b ≡ false
    → (c.count < b.count) ⊎ ((c.count ≡ b.count) × ((c.ext ≡ b.ext) ⊎ Before b.ext c.ext))
not_leading c b h = elim (Bool-cases (ltb c.count b.count)) [
  | inl l ↦ inl (ground arith)
  | inr n ↦ inr (
    ground (arith, h, n),
    elim (Bool-cases (text_lt b.ext c.ext)) [
      | inl t ↦ inr (text_lt-Before b.ext c.ext t)
      | inr f ↦ inl (text_lt_total c.ext b.ext (ground (arith, h, n)) f)
    ],
  )
]

-- The extension that DeduceFromArchive gives, in whichever order the map gives its entries, is that of
-- some name, and for every other extension fewer names have it, or as many and it comes behind in the
-- order of a dictionary.
pub deduce_from_archive_lem :
    (lower : ℕ → ℕ) (known : List Language) (order : List Count → List Count)
    → SameEntries order
    → (names : List Text) (ext e : Text) → deduce_from_archive lower known order names ≡ some ext
    → is_empty e ≡ false
    → (1 ≤ times ext (map (counted_as lower known) names))
      × ((times e (map (counted_as lower known) names)
            < times ext (map (counted_as lower known) names))
          ⊎ ((times e (map (counted_as lower known) names)
                ≡ times ext (map (counted_as lower known) names))
              × ((e ≡ ext) ⊎ Before ext e)))
deduce_from_archive_lem lower known order same names ext e found n =
    let es = map (counted_as lower known) names in
    let cs = count_all es [] in
    let (b, named, top, each) =
      deduce_from_archive-Leading lower known order same names ext found in
    let exact = Counts-Exact cs (count_all-Counts es [] tt) in
    let (p, full, x) = each (Exact cs) exact in
    let counted_b : b.count ≡ times b.ext es =
      ground (arith, x, count_at-count_all b.ext es [] full) in
    rw (← named) (at_e es b n p counted_b (find_entry _ e cs (All-both _ _ cs top exact)))
  where
    at_e :
        (es : List Text) (b : Count)
        → is_empty e ≡ false
        → 1 ≤ b.count
        → b.count ≡ times b.ext es
        → (count_at e (count_all es []) ≡ 0)
          ⊎ ((c : Count) × (c.ext ≡ e) × ((leads c b ≡ false) × Exact (count_all es []) c))
        → (1 ≤ times b.ext es)
          × ((times e es < times b.ext es)
              ⊎ ((times e es ≡ times b.ext es) × ((e ≡ b.ext) ⊎ Before b.ext e)))
    at_e es b n p same (inl z) =
        let all_ = count_at-count_all e es [] n in
        (omega (arith, p, same), inl (omega (arith, p, same, z, all_)))
    at_e es b n p same (inr (c, named, (l, (_, _, x)))) =
        let all_ = count_at-count_all e es [] n in
        let here : c.count ≡ times e es =
          x ∙ ap (λ t. count_at t (count_all es [])) named ∙ all_ ∙ omega arith in
        (
          omega (arith, p, same),
          elim (not_leading c b l) [
            | inl less ↦ inl (omega (arith, less, here, same))
            | inr (eq, order_) ↦ inr (omega (arith, eq, here, same), rw (← named) order_)
          ],
        )
