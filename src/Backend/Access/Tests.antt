-- ===== src/Backend/Access/Tests.antt =====
-- The rights of a caller at concrete inputs.
use runcodes.Prelude.{true, false, some, codes}
use runcodes.Backend.Access.{OfferingRelation, can_author, ExerciseRow, ExerciseAccess}

abbrev teacher : OfferingRelation
teacher = record { owner = false; admin_override = false; role = codes "professor"; banned = false }

abbrev taught : ExerciseRow
taught = record {
  owner_id = some 1;
  enrollment = some (record { role = codes "professor"; banned = false });
}

abbrev teaching : ExerciseAccess
teaching = record {
  can_author = true;
  is_enrolled = true;
  enrollment_role = codes "professor";
  banned = false;
}
