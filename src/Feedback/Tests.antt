-- ===== src/Feedback/Tests.antt =====
-- Runs of the validators of a submission, and the theorems on feedback there.
use zaraamad_portal_be.Base.{true, ◌||◌, Option, none, some, [], ◌∷◌, ◌≡◌, refl, ◌⊎◌, is_some}
use zaraamad_portal_be.Text.{Text, codes, strip}
use zaraamad_portal_be.Http.{
  ok, raised, http_exception, local_user_context_required, data_integrity_error,
}
use zaraamad_portal_be.Database.{Feedback, Database, empty_database, UserRole}
use zaraamad_portal_be.Session.{begin}
use zaraamad_portal_be.Identity.{CurrentUser}
use zaraamad_portal_be.Feedback.{FeedbackCreate, validate, create}
use zaraamad_portal_be.Feedback.Options.{Normalizes}
use zaraamad_portal_be.Feedback.Outcome.{
  has_any, validate-Normalizes, IsSubmitted, with_row, create_feedback_outcome,
}

abbrev accepts : Database → Option Text
accepts d = none

abbrev guest : CurrentUser
guest = record {
  user_id = codes "7";
  sub = none;
  roles = [];
  security_stamp = none;
  id = some 7;
  full_name = none;
  mobile = none;
  role = some UserRole.public;
  customer_id = none;
  is_active = some true;
}

abbrev given : FeedbackCreate
given = record {
  message = some (codes "  ");
  selected_options = codes " fast" ∷ codes "training" ∷ codes "" ∷ codes "fast " ∷ [];
}

abbrev kept : FeedbackCreate
kept = record { message = none; selected_options = codes "fast" ∷ codes "training" ∷ [] }

validated_given : validate given ≡ some kept
unfolding validate strip
validated_given = refl

validate-Normalizes_example :
    Normalizes [] given.selected_options kept.selected_options
    × ((is_some kept.message || has_any kept.selected_options) ≡ true)
validate-Normalizes_example = validate-Normalizes given kept validated_given

create_feedback_outcome_example :
    ((guest.id ≡ none)
      × ((create accepts 1 kept guest (begin empty_database)).0
          ≡ raised (http_exception 403 local_user_context_required))
      × ((create accepts 1 kept guest (begin empty_database)).1.committed ≡ empty_database))
    ⊎ ((row : Feedback) × IsSubmitted given guest 1 row
        × (((accepts (with_row empty_database row) ≡ none)
              × ((create accepts 1 kept guest (begin empty_database)).0 ≡ ok row)
              × ((create accepts 1 kept guest (begin empty_database)).1.committed
                  ≡ with_row empty_database row))
            ⊎ ((text : Text) × (accepts (with_row empty_database row) ≡ some text)
                × ((create accepts 1 kept guest (begin empty_database)).0
                    ≡ raised (http_exception 409 data_integrity_error))
                × ((create accepts 1 kept guest (begin empty_database)).1.committed
                    ≡ empty_database))))
create_feedback_outcome_example =
    create_feedback_outcome accepts 1 given kept guest empty_database validated_given
