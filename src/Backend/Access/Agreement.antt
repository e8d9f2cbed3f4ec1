-- ===== src/Backend/Access/Agreement.antt =====
-- The rights of a caller, and the agreement of the two places that decide who may author.
use runcodes.Prelude.{
  ℕ, ◌≡◌, refl, ◌↔◌, ◌⊎◌, Bool, true, false, not, ◌&&◌, ◌||◌, Option, none, some, [], ◌∷◌, is_empty,
  arith, Text, codes, text_eq,
}
use runcodes.Backend.Submissions.{Query, no_rows, row}
use runcodes.Backend.Access.{
  Enrollment, OfferingRelation, is_member, can_view, can_author, can_post, ExerciseRow,
  is_privileged_role, owned_by, joined_role, joined_banned,
}

professor_given : (r : Text) → text_eq r (codes "professor") ≡ true → is_empty r ≡ false
unfolding codes text_eq
professor_given [] h = cc h
professor_given (c ∷ r) h = refl

-- The rights grow: whoever may author may post, and whoever may post may view; whoever may author is
-- the owner, the admin panel, or a professor of the class who is not banned, and nobody else.
can_author_iff :
    (rel : OfferingRelation)
    → ((can_author rel ≡ true) ↔ (
        (rel.owner ≡ true)
        ⊎ (rel.admin_override ≡ true)
        ⊎ ((text_eq rel.role (codes "professor") ≡ true) × (rel.banned ≡ false))))
      × (can_author rel ≡ true → can_post rel ≡ true)
      × (can_post rel ≡ true → can_view rel ≡ true)
unfolding can_author can_post can_view is_member
can_author_iff rel =
    ((by_role rel.owner rel.admin_override rel.role rel.banned), ground arith, ground arith)
  where
    by_role :
        (o a : Bool) (r : Text) (b : Bool)
        → ((o || a || ((not (is_empty r) && not b) && text_eq r (codes "professor"))) ≡ true)
          ↔ ((o ≡ true) ⊎ (a ≡ true) ⊎ ((text_eq r (codes "professor") ≡ true) × (b ≡ false)))
    by_role o a r b = ground (arith, professor_given r)

abbrev pub enrollment_query : Option Enrollment → Query Enrollment
enrollment_query none = no_rows
enrollment_query (some e) = row e

-- Who may author: the owner of the class whose own role is professor or admin, and whoever is enrolled
-- in it as a professor and not banned.
abbrev pub MayAuthor : ExerciseRow → ℕ → Text → Type 0
MayAuthor r user role =
    (((role ≡ codes "professor") ⊎ (role ≡ codes "admin")) × (r.owner_id ≡ some user))
    ⊎ ((e : Enrollment) × (r.enrollment ≡ some e)
        × (e.role ≡ codes "professor")
        × (e.banned ≡ false))

-- The two ways in, as loadExerciseAccess computes them.
abbrev owner_author : ExerciseRow → ℕ → Text → Bool
owner_author r user role = is_privileged_role role && owned_by r.owner_id user

abbrev enrolled_author : Option Enrollment → Bool
enrolled_author e =
    (not (is_empty (joined_role e)) && not (joined_banned e))
    && text_eq (joined_role e) (codes "professor")
