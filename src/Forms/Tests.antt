-- ===== src/Forms/Tests.antt =====
-- Runs of the calls of app/modules/forms/service.py.
use zaraamad_portal_be.Forms.Schemas.{resolve_form}
use zaraamad_portal_be.Forms.Resolve.{
  Resolves, global_forms, municipality_forms, resolve_form_outcome,
}
use zaraamad_portal_be.Base.{
  true, ℕ, false, none, some, List, [], ◌∷◌, ◌≡◌, ◌≢◌, refl, arith, Option, length,
}
use zaraamad_portal_be.Text.{Text, codes}
use zaraamad_portal_be.Json.{Json}
use zaraamad_portal_be.Http.{
  form_not_found, ok, raised, http_exception, no_return, form_field_not_found,
  form_field_parent_invalid,
}
use zaraamad_portal_be.Database.{FormScopeType, FormSchema, FormField, Database, empty_database}
use zaraamad_portal_be.Session.{begin, ◌>>=◌}
use zaraamad_portal_be.Session.Ends.{Ends}
use zaraamad_portal_be.Forms.Parents.{climb, place_field, validate_parent_assignment}
use zaraamad_portal_be.Forms.Acyclic.{IsAcyclic, is_endless, climb_ends}
use zaraamad_portal_be.Forms.Outcome.{IsPlaced, IsRefused, validate_parent_assignment_outcome}
use zaraamad_portal_be.Forms.Trees.{place_field-IsAcyclic}

abbrev field : ℕ → Option ℕ → FormField
field new_id parent = record {
  id = new_id;
  form_id = 8;
  parent_field_id = parent;
  key = some (codes "k");
  label = none;
  type = none;
  required = none;
  order_index = none;
  placeholder = none;
  default_value = Json.null;
  validation = Json.null;
  source = Json.null;
  options = Json.null;
  binding = none;
}

abbrev form : FormSchema
form = record {
  id = 8;
  key = some (codes "form");
  title = none;
  version = some 1;
  description = none;
  is_active = none;
  scope_type = none;
  scope_value = none;
}

-- A field, one below it, and one below that.
abbrev nested : List FormField
nested = field 1 none ∷ field 2 (some 1) ∷ field 3 (some 2) ∷ []

nested-IsAcyclic : IsAcyclic nested
nested-IsAcyclic = record { rank = λ k. k; climbs = λ k x y found link. ground arith }

abbrev office : Database
office = record empty_database { form_schemas = form ∷ []; form_fields = nested }

climb_ends_example : is_endless (climb nested 9 (length nested) (some (field 3 (some 2)))) ≡ false
climb_ends_example = climb_ends nested nested-IsAcyclic 9 3 (field 3 (some 2)) refl

validate_parent_assignment_outcome_example :
    Ends
      (validate_parent_assignment 8 (some 3) (some 1) (begin office))
      (λ r t. (t ≡ begin office) × IsPlaced office 8 (some 3) (some 1) r)
      (λ e t. (t ≡ begin office) × IsRefused office 8 (some 3) (some 1) e)
validate_parent_assignment_outcome_example =
    validate_parent_assignment_outcome 8 (some 3) (some 1) (begin office) nested-IsAcyclic

place_field-IsAcyclic_example :
    Ends
      (place_field 3 none (some (some 1)) (begin office))
      (λ _ t. IsAcyclic t.current.form_fields)
      (λ e t. (t ≡ begin office) × (e ≢ no_return))
place_field-IsAcyclic_example =
    place_field-IsAcyclic 3 none (some (some 1)) (begin office) nested-IsAcyclic

own_child_is_refused :
    (validate_parent_assignment 8 (some 3) (some 1) (begin office)).0
    ≡ raised (http_exception 422 form_field_parent_invalid)
unfolding validate_parent_assignment ◌>>=◌
own_child_is_refused = refl

unknown_parent_is_refused :
    (validate_parent_assignment 8 (some 4) (some 1) (begin office)).0
    ≡ raised (http_exception 404 form_field_not_found)
unfolding validate_parent_assignment ◌>>=◌
unknown_parent_is_refused = refl

third_moves_up :
    (place_field 3 none (some (some 1)) (begin office)).1.current.form_fields
    ≡ field 1 none ∷ field 2 (some 1) ∷ field 3 (some 1) ∷ []
unfolding place_field ◌>>=◌
third_moves_up = refl

-- Two global versions and one form of a municipality.
abbrev scoped : ℕ → ℕ → FormScopeType → Option Text → FormSchema
scoped new_id version scope_type scope_value = record form {
  id = new_id;
  version = some version;
  is_active = some true;
  scope_type = some scope_type;
  scope_value = scope_value;
}

abbrev archive : Database
archive = record empty_database {
  form_schemas =
      scoped 1 1 FormScopeType.global none
      ∷ scoped 2 3 FormScopeType.global none
      ∷ scoped 3 2 FormScopeType.global none
      ∷ scoped 4 1 FormScopeType.municipality (some (codes "sirjan"))
      ∷ [];
}

resolve_form_outcome_example :
    Ends
      (resolve_form (codes "form") (some (codes "sirjan")) (begin archive))
      (λ x t. (t ≡ begin archive) × Resolves (codes "form") (some (codes "sirjan")) archive x)
      (λ e t.
        (t ≡ begin archive)
        × (e ≡ http_exception 404 form_not_found)
        × (municipality_forms (codes "form") (some (codes "sirjan")) archive ≡ [])
        × (global_forms (codes "form") archive ≡ []))
resolve_form_outcome_example =
    resolve_form_outcome (codes "form") (some (codes "sirjan")) (begin archive)

own_form_first :
    (resolve_form (codes "form") (some (codes "sirjan")) (begin archive)).0
    ≡ ok (scoped 4 1 FormScopeType.municipality (some (codes "sirjan")))
unfolding resolve_form ◌>>=◌
own_form_first = refl

newest_global_form :
    (resolve_form (codes "form") (some (codes "kerman")) (begin archive)).0
    ≡ ok (scoped 2 3 FormScopeType.global none)
unfolding resolve_form ◌>>=◌
newest_global_form = refl
