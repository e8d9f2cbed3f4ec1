-- ===== src/Backend/Throttle/Table.antt =====
-- Looking up, deleting and evicting in a table of times.
use runcodes.Prelude.{
  ℕ, suc, ◌+◌, ◌≤◌, ◌<◌, ◌≡◌, refl, ap, ◌∙◌, inl, inr, Bool, false, not, some, List, [], ◌∷◌,
  length, ltb, leb, keep, length-keep-le, arith, Text, text_eq, text_eq-eq, text_eq_refl,
  Bool-cases, All, if_elim,
}
use runcodes.Backend.Throttle.{Sent, find_time, delete_key, set_time, evict_expired, make_room}

pub find-delete_other :
    (k j : Text) (es : List Sent)
    → text_eq j k ≡ false
    → find_time k (delete_key j es) ≡ find_time k es
unfolding find_time delete_key
find-delete_other k j [] h = refl
find-delete_other k j (e ∷ es) h = elim (Bool-cases (text_eq e.key j)) [
  | inl same ↦
      rw (same, ap (λ x. text_eq x k) (text_eq-eq e.key j same) ∙ h) (find-delete_other k j es h)
  | inr other ↦ rw (other, find-delete_other k j es h) refl
]

pub length-set_time-le :
    (k : Text) (now : ℕ) (es : List Sent) → length (set_time k now es) ≤ suc (length es)
unfolding set_time delete_key
length-set_time-le k now es = omega (arith, length-keep-le (λ e. not (text_eq e.key k)) es)

pub length-make_room-le :
    (cooldown max now : ℕ) (es : List Sent) → length (make_room cooldown max now es) ≤ length es
unfolding make_room evict_expired
length-make_room-le cooldown max now es =
    ground (arith, length-keep-le (λ e. ltb now (e.time + cooldown)) es)

-- Evicting leaves the time of a key whose first entry has not expired.
pub find-evict_live :
    (k : Text) (cooldown now s : ℕ) (es : List Sent)
    → find_time k es ≡ some s
    → now < s + cooldown
    → find_time k (evict_expired cooldown now es) ≡ some s
unfolding find_time evict_expired
find-evict_live k cooldown now s [] h live = cc
find-evict_live k cooldown now s (e ∷ es) h live =
    ground (arith, find-evict_live k cooldown now s es)

pub find-make_room_live :
    (k : Text) (cooldown max now s : ℕ) (es : List Sent)
    → find_time k es ≡ some s
    → now < s + cooldown
    → find_time k (make_room cooldown max now es) ≡ some s
unfolding make_room
find-make_room_live k cooldown max now s es h live =
    ground (arith, find-evict_live k cooldown now s es h live)

pub find-set_same :
    (k : Text) (now : ℕ) (es : List Sent) → find_time k (set_time k now es) ≡ some now
unfolding find_time set_time
find-set_same k now es = rw (text_eq_refl k) refl

pub find-set_other :
    (k j : Text) (now : ℕ) (es : List Sent)
    → text_eq j k ≡ false
    → find_time k (set_time j now es) ≡ find_time k es
unfolding find_time set_time
find-set_other k j now es h = rw (h, find-delete_other k j es h) refl

-- A table that is a map: no key stands twice.
abbrev pub DistinctKeys : List Sent → Type 0
DistinctKeys [] = Unit
DistinctKeys (e ∷ es) = All (λ x. text_eq x.key e.key ≡ false) es × DistinctKeys es

All-keep {ℓ κ} :
    {A : Type ℓ} (P : A → Type κ) (p : A → Bool) (xs : List A) → All P xs → All P (keep p xs)
All-keep P p [] h = tt
All-keep P p (x ∷ xs) (h, hs) =
    if_elim (All P) (p x) _ _ (λ _. (h, All-keep P p xs hs)) (λ _. All-keep P p xs hs)

DistinctKeys-keep : (p : Sent → Bool) (es : List Sent) → DistinctKeys es → DistinctKeys (keep p es)
DistinctKeys-keep p [] h = tt
DistinctKeys-keep p (e ∷ es) (h, hs) =
    if_elim DistinctKeys (p e) _ _
      (λ _. (All-keep (λ x. text_eq x.key e.key ≡ false) p es h, DistinctKeys-keep p es hs))
      (λ _. DistinctKeys-keep p es hs)

delete_key-absent :
    (k : Text) (es : List Sent) → All (λ x. text_eq x.key k ≡ false) (delete_key k es)
unfolding delete_key
delete_key-absent k [] = tt
delete_key-absent k (e ∷ es) = elim (Bool-cases (text_eq e.key k)) [
  | inl same ↦ rw same (delete_key-absent k es)
  | inr other ↦ rw other (other, delete_key-absent k es)
]

pub DistinctKeys-delete :
    (k : Text) (es : List Sent) → DistinctKeys es → DistinctKeys (delete_key k es)
unfolding delete_key
DistinctKeys-delete k es h = DistinctKeys-keep _ es h

pub DistinctKeys-set_time :
    (k : Text) (now : ℕ) (es : List Sent) → DistinctKeys es → DistinctKeys (set_time k now es)
unfolding set_time
DistinctKeys-set_time k now es h = (delete_key-absent k es, DistinctKeys-delete k es h)

pub DistinctKeys-make_room :
    (cooldown max now : ℕ) (es : List Sent)
    → DistinctKeys es
    → DistinctKeys (make_room cooldown max now es)
unfolding make_room evict_expired
DistinctKeys-make_room cooldown max now es h =
    if_elim DistinctKeys (leb max (length es)) _ _ (λ _. DistinctKeys-keep _ es h) (λ _. h)

pub length-delete_key-le : (k : Text) (es : List Sent) → length (delete_key k es) ≤ length es
unfolding delete_key
length-delete_key-le k es = length-keep-le (λ e. not (text_eq e.key k)) es
