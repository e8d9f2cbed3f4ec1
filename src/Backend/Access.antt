-- ===== src/Backend/Access.antt =====
-- Who may touch a class and its exercises: offeringRelation and loadOfferingRelation of
-- backend/services/offerings-service.go, and loadExerciseAccess, exerciseVisible and
-- requireExerciseAuthor of backend/services/exercise-access-service.go. Rows of the database are
-- arguments; an owner id is `none` where the column is NULL.
pub mod Agreement
mod Tests
use runcodes.Prelude.{
  ℕ, Bool, true, false, not, ◌&&◌, ◌||◌, Option, none, some, List, [], leb, ◌==◌, if◌then◌else◌,
  is_empty, Text, codes, text_eq,
}
use runcodes.Backend.Submissions.{Query, failed, no_rows, row}

unfoldable pub is_privileged_role : Text → Bool
is_privileged_role role = text_eq role (codes "professor") || text_eq role (codes "admin")

pub record Enrollment : Type 0 where
  pub role : Text
  pub banned : Bool

pub record OfferingRelation : Type 0 where
  pub owner : Bool
  pub admin_override : Bool
  pub role : Text
  pub banned : Bool

unfoldable pub is_member : OfferingRelation → Bool
is_member rel = not (is_empty rel.role) && not rel.banned

unfoldable pub can_view : OfferingRelation → Bool
unfolding is_member
can_view rel = rel.owner || rel.admin_override || is_member rel

unfoldable pub can_author : OfferingRelation → Bool
unfolding is_member
can_author rel =
    rel.owner || rel.admin_override || (is_member rel && text_eq rel.role (codes "professor"))

unfoldable pub can_post : OfferingRelation → Bool
unfolding is_member
can_post rel =
    if rel.owner || rel.admin_override
    then true
    else is_member rel
      && (text_eq rel.role (codes "professor") || text_eq rel.role (codes "monitor"))

pub data AccessError : Type 0 where
  server : AccessError
  offering_not_found : AccessError
  exercise_not_found : AccessError
  not_owner : AccessError

pub data Loaded {ℓ} (A : Type ℓ) : Type ℓ where
  loaded : A → Loaded A
  denied : AccessError → Loaded A

abbrev pub owned_by : Option ℕ → ℕ → Bool
owned_by none user = false
owned_by (some owner) user = owner == user

abbrev relation : Bool → Text → Bool → OfferingRelation
relation owner role banned = record {
  owner = owner;
  admin_override = false;
  role = role;
  banned = banned;
}

abbrev with_enrollment : Query Enrollment → Loaded OfferingRelation
with_enrollment failed = denied server
with_enrollment no_rows = loaded (relation false [] false)
with_enrollment (row e) = loaded (relation false e.role e.banned)

-- loadOfferingRelation; an owner's enrollment is not looked at.
unfoldable pub load_offering_relation :
    Query (Option ℕ) → Query Enrollment → ℕ → Text → Loaded OfferingRelation
unfolding is_privileged_role
load_offering_relation failed enrollment user role = denied server
load_offering_relation no_rows enrollment user role = denied offering_not_found
load_offering_relation (row owner) enrollment user role =
    if is_privileged_role role && owned_by owner user
    then loaded (relation true [] false)
    else with_enrollment enrollment

-- The row of loadExerciseAccess's query, as far as the access depends on it: the LEFT JOIN gives
-- `none` without an enrollment.
pub record ExerciseRow : Type 0 where
  pub owner_id : Option ℕ
  pub enrollment : Option Enrollment

pub record ExerciseAccess : Type 0 where
  pub can_author : Bool
  pub is_enrolled : Bool
  pub enrollment_role : Text
  pub banned : Bool

abbrev pub joined_role : Option Enrollment → Text
joined_role none = []
joined_role (some e) = e.role

abbrev pub joined_banned : Option Enrollment → Bool
joined_banned none = false
joined_banned (some e) = e.banned

unfoldable pub load_exercise_access : Query ExerciseRow → ℕ → Text → Loaded ExerciseAccess
unfolding is_privileged_role
load_exercise_access failed user role = denied server
load_exercise_access no_rows user role = denied exercise_not_found
load_exercise_access (row r) user role =
    let enrolled = not (is_empty (joined_role r.enrollment)) && not (joined_banned r.enrollment) in
    loaded (record {
      can_author =
          (is_privileged_role role && owned_by r.owner_id user)
          || (enrolled && text_eq (joined_role r.enrollment) (codes "professor"));
      is_enrolled = enrolled;
      enrollment_role = joined_role r.enrollment;
      banned = joined_banned r.enrollment;
    })

abbrev pub author_only : Loaded ExerciseAccess → Loaded ExerciseAccess
author_only (denied e) = denied e
author_only (loaded a) = if a.can_author then loaded a else denied not_owner

unfoldable pub require_exercise_author : Query ExerciseRow → ℕ → Text → Loaded ExerciseAccess
unfolding load_exercise_access
require_exercise_author q user role = author_only (load_exercise_access q user role)
