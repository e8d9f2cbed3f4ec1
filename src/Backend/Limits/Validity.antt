-- ===== src/Backend/Limits/Validity.antt =====
-- validateLanguageLimits against a declarative reading.
use runcodes.Prelude.{
  ℕ, ◌≡◌, ◌≢◌, ◌<◌, refl, ◌↔◌, Bool, true, false, ◌&&◌, Option, none, some, List, [], ◌∷◌, All,
  arith, ℤ, pos, negsuc,
}
use runcodes.Backend.Limits.{
  Entry, Overrides, positive_or_nil, natural_or_nil, usable, listed, valid_entries,
  validate_language_limits,
}

-- A value that is absent or above 0, and one that is absent or at least 0.
abbrev pub PositiveIfSet : Option ℤ → Type 0
PositiveIfSet none = Unit
PositiveIfSet (some (pos n)) = 0 < n
PositiveIfSet (some (negsuc n)) = true ≡ false

abbrev pub NaturalIfSet : Option ℤ → Type 0
NaturalIfSet none = Unit
NaturalIfSet (some (pos n)) = Unit
NaturalIfSet (some (negsuc n)) = true ≡ false

abbrev pub UsableValues : Overrides → Type 0
UsableValues o =
    PositiveIfSet o.cpu_time
    × NaturalIfSet o.mem_usage
    × NaturalIfSet o.stack
    × NaturalIfSet o.file_size

positive_or_nil_iff : (v : Option ℤ) → (positive_or_nil v ≡ true) ↔ PositiveIfSet v
positive_or_nil_iff none = (λ _. tt, λ _. refl)
positive_or_nil_iff (some (pos n)) = ground arith
positive_or_nil_iff (some (negsuc n)) = (λ h. cc, λ h. cc)

natural_or_nil_iff : (v : Option ℤ) → (natural_or_nil v ≡ true) ↔ NaturalIfSet v
natural_or_nil_iff none = (λ _. tt, λ _. refl)
natural_or_nil_iff (some (pos n)) = (λ _. tt, λ _. refl)
natural_or_nil_iff (some (negsuc n)) = (λ h. cc, λ h. cc)

pub usable_iff : (o : Overrides) → (usable o ≡ true) ↔ UsableValues o
unfolding usable
usable_iff o =
    let cpu = positive_or_nil_iff o.cpu_time in
    let mem = natural_or_nil_iff o.mem_usage in
    let stack = natural_or_nil_iff o.stack in
    let file = natural_or_nil_iff o.file_size in
    (
      λ h. (
        cpu.0 (ground (arith, h)),
        mem.0 (ground (arith, h)),
        stack.0 (ground (arith, h)),
        file.0 (ground (arith, h)),
      ),
      λ (c, m, s, f). all_true (cpu.1 c) (mem.1 m) (stack.1 s) (file.1 f),
    )
  where
    all_true :
        {a b c d : Bool} → a ≡ true → b ≡ true → c ≡ true → d ≡ true → (a && b && c && d) ≡ true
    all_true x y z w = rw (x, y, z, w) refl

-- An entry of an allowed language with usable values.
abbrev pub Acceptable : List ℕ → Entry → Type 0
Acceptable allowed e = (listed e.language allowed ≡ true) × UsableValues e.overrides

-- No language twice.
abbrev pub Distinct : List Entry → Type 0
Distinct [] = Unit {0}
Distinct (e ∷ es) = All (λ f. f.language ≢ e.language) es × Distinct es

abbrev Unseen : List ℕ → List Entry → Type 0
Unseen seen es = All (λ f. listed f.language seen ≡ false) es

Unseen-split :
    (id : ℕ) (seen : List ℕ) (es : List Entry)
    → Unseen (id ∷ seen) es ↔ (Unseen seen es × All (λ f. f.language ≢ id) es)
Unseen-split id seen [] = (λ h. (tt, tt), λ h. tt)
Unseen-split id seen (e ∷ es) =
    let ih = Unseen-split id seen es in
    (
      λ h. ((ground arith, (ih.0 h.1).0), (λ q. ground arith, (ih.0 h.1).1)),
      λ h. (ground (arith, h.0.0, h.1.0), ih.1 (h.0.1, h.1.1)),
    )

valid_entries_sound :
    (allowed seen : List ℕ) (es : List Entry)
    → valid_entries allowed seen es ≡ true
    → All (Acceptable allowed) es × Unseen seen es × Distinct es
unfolding valid_entries
valid_entries_sound allowed seen [] h = (tt, tt, tt)
valid_entries_sound allowed seen (e ∷ es) h =
    let (ok, unseen, distinct) =
      valid_entries_sound allowed (e.language ∷ seen) es (ground arith) in
    let (old, new) = (Unseen-split e.language seen es).0 unseen in
    (
      ((ground arith, (usable_iff e.overrides).0 (ground arith)), ok),
      (ground arith, old),
      (new, distinct),
    )

valid_entries_complete :
    (allowed seen : List ℕ) (es : List Entry)
    → All (Acceptable allowed) es
    → Unseen seen es
    → Distinct es
    → valid_entries allowed seen es ≡ true
unfolding valid_entries
valid_entries_complete allowed seen [] a u d = refl
valid_entries_complete allowed seen (e ∷ es) a u d =
    let rest =
      valid_entries_complete allowed (e.language ∷ seen) es a.1
        ((Unseen-split e.language seen es).1 (u.1, d.0)) d.1 in
    ground (arith, rest, a.0.0, (usable_iff e.overrides).1 a.0.1, u.0)

Unseen-nil : (es : List Entry) → Unseen [] es
Unseen-nil [] = tt
Unseen-nil (e ∷ es) = (refl, Unseen-nil es)

-- A payload of limits is accepted exactly when every entry names an allowed language with usable
-- values (a positive CPU time, byte limits that are not negative) and no language comes twice.
pub validate_language_limits_iff :
    (allowed : List ℕ) (es : List Entry)
    → (validate_language_limits allowed es ≡ true) ↔ (All (Acceptable allowed) es × Distinct es)
unfolding validate_language_limits
validate_language_limits_iff allowed es = (
  λ h. (let (a, u, d) = valid_entries_sound allowed [] es h in (a, d)),
  λ h. valid_entries_complete allowed [] es h.0 (Unseen-nil es) h.1,
)
