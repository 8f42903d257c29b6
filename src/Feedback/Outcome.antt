-- ===== src/Feedback/Outcome.antt =====
-- What a submission is after its validation, and what its creation does.
use zaraamad_portal_be.Base.{
  ℕ, Bool, true, false, ◌||◌, Option, some, List, [], ◌∷◌, ◌++◌, ◌≡◌, ◌≢◌, refl, sym, subst, ◌⊎◌,
  inl, inr, arith, is_some, Option-cases, Bool-cases, none,
}
use zaraamad_portal_be.Text.{Text, strip, is_empty}
use zaraamad_portal_be.Http.{
  raised, ok, http_exception, local_user_context_required, data_integrity_error,
}
use zaraamad_portal_be.Database.{Feedback, Database}
use zaraamad_portal_be.Session.{begin}
use zaraamad_portal_be.Identity.{CurrentUser}
use zaraamad_portal_be.Feedback.{
  FeedbackCreate, normalize_items, normalize_message, validate, new_feedback, create,
}
use zaraamad_portal_be.Feedback.Options.{Normalizes, normalize_items-Normalizes}

abbrev pub has_any : List Text → Bool
has_any [] = false
has_any (x ∷ xs) = true

validated :
    (dto out : FeedbackCreate)
    → validate dto ≡ some out
    → (normalize_items [] dto.selected_options ≡ some out.selected_options)
      × (out.message ≡ normalize_message dto.message)
      × ((is_some out.message || has_any out.selected_options) ≡ true)
unfolding validate
validated dto out h = elim (Option-cases (normalize_items [] dto.selected_options)) [
  | inl bad ↦ absurd (ground arith)
  | inr ([], e) ↦ elim (Option-cases (normalize_message dto.message)) [
    | inl nothing ↦ absurd (ground arith)
    | inr (text, m) ↦ (ground arith, ground arith, ground arith)
  ]
  | inr (item ∷ items, e) ↦ (ground arith, ground arith, ground arith)
]

-- A submission that is accepted has a message or an option, and its options are the normal form of
-- those that the request gave: filled, short, none twice, none but white space lost, none that was
-- not given.
pub validate-Normalizes :
    (dto out : FeedbackCreate)
    → validate dto ≡ some out
    → Normalizes [] dto.selected_options out.selected_options
      × ((is_some out.message || has_any out.selected_options) ≡ true)
validate-Normalizes dto out h =
    let (items, _, filled) = validated dto out h in
    (normalize_items-Normalizes [] dto.selected_options out.selected_options items, filled)

is_empty→nil : (s : Text) → is_empty s ≡ true → s ≡ []
is_empty→nil [] h = refl
is_empty→nil (c ∷ s) h = cc

-- The message that is kept of the one that the request has: none, or it stripped where that leaves
-- something.
abbrev pub KeepsMessage : Option Text → Option Text → Type 0
KeepsMessage none kept = kept ≡ none
KeepsMessage (some text) kept =
    ((strip text ≡ []) × (kept ≡ none)) ⊎ ((strip text ≢ []) × (kept ≡ some (strip text)))

normalize_message-KeepsMessage :
    (message : Option Text) → KeepsMessage message (normalize_message message)
unfolding normalize_message
normalize_message-KeepsMessage none = refl
normalize_message-KeepsMessage (some text) = elim (Bool-cases (is_empty (strip text))) [
  | inl empty ↦ inl (is_empty→nil (strip text) empty, rw empty refl)
  | inr filled ↦ inr ((λ e. ground (arith, e)), rw filled refl)
]

-- The row of a submission: under the new key, in the name of the caller, with what is kept of the
-- request.
pub record IsSubmitted (raw : FeedbackCreate) (user : CurrentUser) (new_id : ℕ) (row : Feedback)
    : Type 0 where
  pub new_key : row.id ≡ new_id
  pub in_name_of : user.id ≡ some row.user_id
  pub message : KeepsMessage raw.message row.message
  pub options : Normalizes [] raw.selected_options row.selected_options
  pub filled : (is_some row.message || has_any row.selected_options) ≡ true

new_feedback-IsSubmitted :
    (raw out : FeedbackCreate) (user : CurrentUser) (new_id user_id : ℕ)
    → validate raw ≡ some out
    → user.id ≡ some user_id
    → IsSubmitted raw user new_id (new_feedback new_id user_id out)
unfolding new_feedback
new_feedback-IsSubmitted raw out user new_id user_id h key =
    let (items, message, filled) = validated raw out h in
    record {
      new_key = refl;
      in_name_of = key;
      message =
          subst (KeepsMessage raw.message) (sym message)
            (normalize_message-KeepsMessage raw.message);
      options = normalize_items-Normalizes [] raw.selected_options out.selected_options items;
      filled = filled;
    }

abbrev pub with_row : Database → Feedback → Database
with_row d row = record d { feedback = d.feedback ++ row ∷ [] }

module _ (violation : Database → Option Text) where
  -- A submission that passes its validators is refused with 403 if the caller has no key. Else there
  -- is a row under the new key in the caller's name, with the stripped message, if that leaves
  -- something, and with the normal form of the options, not both empty; the row is stored behind
  -- the others and returned, or, if the database refuses that, the call raises 409 and nothing is
  -- stored.
  pub create_feedback_outcome :
      (new_id : ℕ) (raw out : FeedbackCreate) (user : CurrentUser) (d : Database)
      → validate raw ≡ some out
      → let (r, s) = create violation new_id out user (begin d) in
        ((user.id ≡ none)
          × (r ≡ raised (http_exception 403 local_user_context_required))
          × (s.committed ≡ d))
        ⊎ ((row : Feedback) × IsSubmitted raw user new_id row
            × (((violation (with_row d row) ≡ none) × (r ≡ ok row) × (s.committed ≡ with_row d row))
                ⊎ ((text : Text) × (violation (with_row d row) ≡ some text)
                    × (r ≡ raised (http_exception 409 data_integrity_error))
                    × (s.committed ≡ d))))
  unfolding create
  create_feedback_outcome new_id raw out user d h = elim (Option-cases user.id) [
    | inl no_key ↦ inl (no_key, rw (create, no_key) refl, rw (create, no_key) refl)
    | inr (user_id, key) ↦
        let row = new_feedback new_id user_id out in
        inr (
          row,
          new_feedback-IsSubmitted raw out user new_id user_id h key,
          elim (Option-cases (violation (with_row d row))) [
            | inl accepted ↦ inl (accepted, ground arith, ground arith)
            | inr (text, refused) ↦ inr (text, refused, ground arith, ground arith)
          ],
        )
  ]
