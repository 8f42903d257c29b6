-- ===== src/Forms/Trees.antt =====
-- The part of `FormFieldService.update` in app/modules/forms/service.py that moves a field keeps the
-- fields trees, and returns.
use zaraamad_portal_be.Base.{
  ℕ, Option, none, some, ◌≡◌, ◌≢◌, refl, sym, subst, set_or_keep, find_row, key-find_row,
  update_row,
}
use zaraamad_portal_be.Http.{Exception, no_return, form_not_found, form_field_not_found}
use zaraamad_portal_be.Database.{FormField, Database}
use zaraamad_portal_be.Session.{Session}
use zaraamad_portal_be.Session.Ends.{Ends, Ends-ok, Ends-bind, Ends-kept, Ends-reads, Ends-or_fail}
use zaraamad_portal_be.Forms.Parents.{
  field_id_of, find_form, get_field_or_404, place_below, place_field, validate_parent_assignment,
}
use zaraamad_portal_be.Forms.Acyclic.{IsAcyclic}
use zaraamad_portal_be.Forms.Outcome.{IsPlaced, IsRefused, validate_parent_assignment_outcome}
use zaraamad_portal_be.Forms.Placing.{top_IsAcyclic, below_IsAcyclic}

placed_lem :
    (d : Database) (form_id f : ℕ) (wanted : Option ℕ) (parent : Option FormField)
    → IsAcyclic d.form_fields
    → IsPlaced d form_id wanted (some f) parent
    → IsAcyclic (update_row field_id_of f (place_below form_id parent) d.form_fields)
placed_lem d form_id f none parent acyclic is =
    subst (λ r. IsAcyclic (update_row field_id_of f (place_below form_id r) d.form_fields)) (sym is)
      (top_IsAcyclic d.form_fields f form_id acyclic)
placed_lem d form_id f (some p) parent acyclic (x, is, row, free) =
    let key = key-find_row field_id_of p d.form_fields row.found in
    let found = subst (λ j. find_row field_id_of j d.form_fields ≡ some x) (sym key) row.found in
    subst (λ r. IsAcyclic (update_row field_id_of f (place_below form_id r) d.form_fields)) (sym is)
      (below_IsAcyclic d.form_fields f form_id x acyclic found free)

refusal_lem :
    (d : Database) (form_id : ℕ) (parent current : Option ℕ) (e : Exception)
    → IsRefused d form_id parent current e
    → e ≢ no_return
refusal_lem d form_id parent current e (IsRefused.no_parent i h) is = cc
refusal_lem d form_id parent current e (IsRefused.other_form i h k) is = cc
refusal_lem d form_id parent current e (IsRefused.own_ancestor i h k l) is = cc

field_lem :
    (k : ℕ) (s : Session)
    → Ends
        (get_field_or_404 k s)
        (λ x t. (t ≡ s) × (find_row field_id_of k s.current.form_fields ≡ some x))
        (λ e t. (t ≡ s) × (e ≢ no_return))
unfolding get_field_or_404
field_lem k s =
    Ends-reads (λ d. find_row field_id_of k d.form_fields) _ s
      (Ends-or_fail (find_row field_id_of k s.current.form_fields) 404 form_field_not_found s
        (λ x found. (refl, found)) (refl, (λ e. cc)))

-- Whatever form and parent a request names for a field: where the fields are trees, the move
-- returns or is refused, it does not loop; if it is refused nothing has changed; and if it returns,
-- the fields are trees again.
pub place_field-IsAcyclic :
    (k : ℕ) (wanted_form : Option (Option ℕ)) (wanted_parent : Option (Option ℕ)) (s : Session)
    → IsAcyclic s.current.form_fields
    → Ends
        (place_field k wanted_form wanted_parent s)
        (λ _ t. IsAcyclic t.current.form_fields)
        (λ e t. (t ≡ s) × (e ≢ no_return))
unfolding place_field
place_field-IsAcyclic k wanted_form wanted_parent s acyclic =
    Ends-kept (get_field_or_404 k) _ s (field_lem k s)
      (λ field found. Ends-reads (find_form (set_or_keep wanted_form (some field.form_id))) _ s (
        Ends-bind _ _ s (
          Ends-or_fail _ 404 form_not_found s
            (λ form there.
              let parent_id = set_or_keep wanted_parent field.parent_field_id in
              Ends-kept (validate_parent_assignment form.id parent_id (some field.id)) _ s
                (validate_parent_assignment_outcome form.id parent_id (some field.id) s acyclic)
                (λ parent placed.
                  Ends-ok (placed_lem s.current form.id field.id parent_id parent acyclic placed))
                (λ e why. (refl, refusal_lem s.current form.id parent_id (some field.id) e why)))
            (refl, (λ e. cc)))))
      (λ e why. (refl, why))
