-- ===== src/Forms/Parents.antt =====
-- `FormLookupService`, `FormFieldTreeSynchronizer.validate_parent_assignment` and the part of
-- `FormFieldService.update` in app/modules/forms/service.py that moves a field below a parent.
use zaraamad_portal_be.Base.{
  ℕ, zero, suc, Bool, not, Option, none, some, List, ◌==◌, if◌then◌else◌, length, find_row,
  update_row, set_or_keep,
}
use zaraamad_portal_be.Http.{
  raised, no_return, form_not_found, form_field_not_found, form_field_parent_invalid,
}
use zaraamad_portal_be.Database.{FormSchema, FormField, Database}
use zaraamad_portal_be.Session.{Action, pure, reads, fail_if, or_fail, modify, ◌>>=◌, ◌>>◌}

abbrev pub form_id_of : FormSchema → ℕ
form_id_of x = x.id

abbrev pub field_id_of : FormField → ℕ
field_id_of x = x.id

unfoldable pub get_field_or_404 : ℕ → Action FormField
get_field_or_404 field_id = do
  found ← reads (λ d. find_row field_id_of field_id d.form_fields)
  or_fail found 404 form_field_not_found

-- `field.parent_field`
abbrev pub parent_field : List FormField → FormField → Option FormField
parent_field fields x = elim x.parent_field_id [
  | none ↦ none
  | some p ↦ find_row field_id_of p fields
]

-- How the loop over the parents ends: at the field itself, at the top, or not within the rounds.
pub data Climb : Type 0 where
  at_field at_top endless : Climb

-- The loop, for a number of rounds.
unfoldable pub climb : List FormField → ℕ → ℕ → Option FormField → Climb
climb fields current_field_id n none = at_top
climb fields current_field_id zero (some x) = endless
climb fields current_field_id (suc n) (some x) =
    let rest = climb fields current_field_id n (parent_field fields x) in
    if x.id == current_field_id then at_field else rest

abbrev never_returns : {A : Type 0} → Action A
never_returns s = (raised no_return, s)

abbrev pub after_climb : FormField → Climb → Action (Option FormField)
after_climb parent at_field = do fail_if Bool.true 422 form_field_parent_invalid; pure none
after_climb parent at_top = pure (some parent)
after_climb parent endless = never_returns

-- The loop for as many rounds as there are fields.
abbrev pub check_ancestors : Option ℕ → FormField → Action (Option FormField)
check_ancestors none parent = pure (some parent)
check_ancestors (some current_field_id) parent = do
  end ← reads (λ d. climb d.form_fields current_field_id (length d.form_fields) (some parent))
  after_climb parent end

unfoldable pub validate_parent_assignment : ℕ → Option ℕ → Option ℕ → Action (Option FormField)
unfolding get_field_or_404 climb
validate_parent_assignment form_id none current_field_id = pure none
validate_parent_assignment form_id (some parent_field_id) current_field_id = do
  parent ← get_field_or_404 parent_field_id
  fail_if (not (parent.form_id == form_id)) 422 form_field_parent_invalid
  check_ancestors current_field_id parent

abbrev pub id_or_none : Option FormField → Option ℕ
id_or_none none = none
id_or_none (some x) = some x.id

abbrev pub place_below : ℕ → Option FormField → FormField → FormField
place_below form_id parent x = record x { form_id = form_id; parent_field_id = id_or_none parent }

-- A request may set the form to null; there is no form with that key.
abbrev pub find_form : Option ℕ → Database → Option FormSchema
find_form none d = none
find_form (some form_id) d = find_row form_id_of form_id d.form_schemas

-- `update` up to the assignment of the form and the parent: the form and the parent that the
-- request names, or else the ones that the field has.
unfoldable pub place_field : ℕ → Option (Option ℕ) → Option (Option ℕ) → Action (Unit {0})
unfolding validate_parent_assignment
place_field field_id wanted_form_id wanted_parent_id = do
  field ← get_field_or_404 field_id
  found ← reads (find_form (set_or_keep wanted_form_id (some field.form_id)))
  form ← or_fail found 404 form_not_found
  parent ←
      validate_parent_assignment form.id (set_or_keep wanted_parent_id field.parent_field_id)
        (some field.id)
  modify (λ d. record d {
    form_fields = update_row field_id_of field.id (place_below form.id parent) d.form_fields;
  })
