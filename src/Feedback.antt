-- ===== src/Feedback.antt =====
-- app/modules/feedback: the validators of a submission (dtos.py) and its creation (service.py).
pub mod Options
pub mod Outcome
mod Tests
use zaraamad_portal_be.Base.{
  ℕ, Bool, true, false, not, ◌&&◌, ◌||◌, Option, none, some, List, [], ◌∷◌, ◌++◌, length, leb,
  if◌then◌else◌,
}
use zaraamad_portal_be.Text.{Text, text_eq, is_empty, strip}
use zaraamad_portal_be.Http.{
  Exception, http_exception, data_integrity_error, local_user_context_required,
}
use zaraamad_portal_be.Database.{Feedback, Database}
use zaraamad_portal_be.Session.{Action, pure, or_fail, modify, commit_or_rollback, ◌>>=◌, ◌>>◌}
use zaraamad_portal_be.Identity.{CurrentUser}

pub record FeedbackCreate : Type 0 where
  pub message : Option Text
  pub selected_options : List Text

-- `normalized or None`
pub normalize_message : Option Text → Option Text
normalize_message none = none
normalize_message (some value) = if is_empty (strip value) then none else some (strip value)

-- `item in seen_items`
abbrev pub member : Text → List Text → Bool
member x [] = false
member x (y ∷ ys) = text_eq x y || member x ys

abbrev pub with_item : Bool → Text → Option (List Text) → Option (List Text)
with_item keep item none = none
with_item keep item (some items) = some (if keep then item ∷ items else items)

-- The loop of `normalize_selected_options`; `none` is its `ValueError`. An item that is empty or seen
-- is passed over.
unfoldable pub normalize_items : List Text → List Text → Option (List Text)
normalize_items seen [] = some []
normalize_items seen (raw ∷ rest) =
    let item = strip raw in
    let fresh = not (is_empty item) && not (member item seen) in
    let items = normalize_items (if fresh then item ∷ seen else seen) rest in
    if is_empty item || leb (length item) 255 then with_item fresh item items else none

-- The validators of `FeedbackCreate` together, on what a request holds; that a message has at most
-- 5000 characters is checked before them.
unfoldable pub validate : FeedbackCreate → Option FeedbackCreate
unfolding normalize_items normalize_message
validate dto = elim (normalize_items [] dto.selected_options) [
  | none ↦ none
  | some [] ↦ elim (normalize_message dto.message) [
    | none ↦ none
    | some text ↦ some (record { message = some text; selected_options = [] })
  ]
  | some (item ∷ items) ↦
      some (record { message = normalize_message dto.message; selected_options = item ∷ items })
]

pub new_feedback : ℕ → ℕ → FeedbackCreate → Feedback
new_feedback new_id user_id dto = record {
  id = new_id;
  user_id = user_id;
  message = dto.message;
  selected_options = dto.selected_options;
}

abbrev conflict : Text → Exception
conflict text = http_exception 409 data_integrity_error

module _ (violation : Database → Option Text) where
  -- `FeedbackService.create`
  pub create : ℕ → FeedbackCreate → CurrentUser → Action Feedback
  unfolding commit_or_rollback ◌>>=◌
  create new_id dto user = do
    user_id ← or_fail user.id 403 local_user_context_required
    modify (λ d. record d { feedback = d.feedback ++ new_feedback new_id user_id dto ∷ [] })
    commit_or_rollback violation conflict
    pure (new_feedback new_id user_id dto)
