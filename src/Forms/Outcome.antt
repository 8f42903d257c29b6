-- ===== src/Forms/Outcome.antt =====
-- `validate_parent_assignment` of app/modules/forms/service.py, branch by branch.
use zaraamad_portal_be.Base.{
  ℕ, false, not, Option, none, some, ◌≡◌, ◌≢◌, refl, ◌==◌, arith, length, find_row,
}
use zaraamad_portal_be.Http.{
  Exception, http_exception, form_field_not_found, form_field_parent_invalid,
}
use zaraamad_portal_be.Database.{FormField, Database}
use zaraamad_portal_be.Session.{Session, ◌>>=◌}
use zaraamad_portal_be.Session.Ends.{
  Ends, Ends-ok, Ends-raised, Ends-bind, Ends-reads, Ends-found, Ends-guard,
}
use zaraamad_portal_be.Forms.Parents.{
  field_id_of, Climb, at_field, at_top, endless, after_climb, check_ancestors, get_field_or_404,
  validate_parent_assignment,
}
use zaraamad_portal_be.Forms.Acyclic.{IsAcyclic, IsAbove, is_endless, Says, climb-Says, climb_ends}

-- The row of the parent is there and belongs to the form.
pub record IsParent (d : Database) (form_id : ℕ) (p : ℕ) (x : FormField) : Type 0 where
  pub found : find_row field_id_of p d.form_fields ≡ some x
  pub in_form : x.form_id ≡ form_id

-- What the call returns: no parent where none is asked for, or the parent in the form, of which
-- the field that moves is no ancestor.
abbrev pub IsPlaced : Database → ℕ → Option ℕ → Option ℕ → Option FormField → Type 0
IsPlaced d form_id none current r = r ≡ none
IsPlaced d form_id (some p) none r = (x : FormField) × (r ≡ some x) × IsParent d form_id p x
IsPlaced d form_id (some p) (some k) r =
    (x : FormField) × (r ≡ some x) × IsParent d form_id p x × (¬ IsAbove d.form_fields k x)

-- Why the call raises, and what.
pub data IsRefused (d : Database) (form_id : ℕ) (parent current : Option ℕ)
    : Exception → Type 0 where
  no_parent :
      {p : ℕ}
      → parent ≡ some p
      → find_row field_id_of p d.form_fields ≡ none
      → IsRefused d form_id parent current (http_exception 404 form_field_not_found)
  other_form :
      {p : ℕ} {x : FormField}
      → parent ≡ some p
      → find_row field_id_of p d.form_fields ≡ some x
      → x.form_id ≢ form_id
      → IsRefused d form_id parent current (http_exception 422 form_field_parent_invalid)
  own_ancestor :
      {p k : ℕ} {x : FormField}
      → parent ≡ some p
      → current ≡ some k
      → IsParent d form_id p x
      → IsAbove d.form_fields k x
      → IsRefused d form_id parent current (http_exception 422 form_field_parent_invalid)

module _ (form_id p k : ℕ) (x : FormField) (s : Session)
    (parent : IsParent s.current form_id p x) where
  after_climb_lem :
      (r : Climb)
      → Says s.current.form_fields k (some x) r
      → is_endless r ≡ false
      → Ends
          (after_climb x r s)
          (λ r t. (t ≡ s) × IsPlaced s.current form_id (some p) (some k) r)
          (λ e t. (t ≡ s) × IsRefused s.current form_id (some p) (some k) e)
  unfolding ◌>>=◌
  after_climb_lem at_field says ends =
      Ends-raised (refl, IsRefused.own_ancestor refl refl parent says)
  after_climb_lem at_top says ends = Ends-ok (refl, (x, refl, parent, says))
  after_climb_lem endless says ends = cc

check_ancestors_lem :
    (form_id p : ℕ) (current : Option ℕ) (x : FormField) (s : Session)
    → IsParent s.current form_id p x
    → IsAcyclic s.current.form_fields
    → Ends
        (check_ancestors current x s)
        (λ r t. (t ≡ s) × IsPlaced s.current form_id (some p) current r)
        (λ e t. (t ≡ s) × IsRefused s.current form_id (some p) current e)
check_ancestors_lem form_id p none x s parent acyclic = Ends-ok (refl, (x, refl, parent))
check_ancestors_lem form_id p (some k) x s parent acyclic = Ends-reads _ _ s (
    after_climb_lem form_id p k x s parent _
      (climb-Says s.current.form_fields k (length s.current.form_fields) (some x))
      (climb_ends s.current.form_fields acyclic k p x parent.found))

-- On a table of trees the call ends, and its end is exactly what the three conditions say: a parent
-- that is not there is 404; one of another form is 422, and so is one of which the field is an
-- ancestor, or the field itself; else the parent is returned. The session is left alone.
pub validate_parent_assignment_outcome :
    (form_id : ℕ) (parent current : Option ℕ) (s : Session)
    → IsAcyclic s.current.form_fields
    → Ends
        (validate_parent_assignment form_id parent current s)
        (λ r t. (t ≡ s) × IsPlaced s.current form_id parent current r)
        (λ e t. (t ≡ s) × IsRefused s.current form_id parent current e)
unfolding validate_parent_assignment get_field_or_404
validate_parent_assignment_outcome form_id none current s acyclic = Ends-ok (refl, refl)
validate_parent_assignment_outcome form_id (some p) current s acyclic =
    Ends-bind (get_field_or_404 p) _ s (
      Ends-reads (λ d. find_row field_id_of p d.form_fields) _ s
        (Ends-found (find_row field_id_of p s.current.form_fields) 404 form_field_not_found s
          (λ x found. Ends-bind _ _ s (
            Ends-guard (not (x.form_id == form_id)) 422 form_field_parent_invalid s
              (λ in_form.
                check_ancestors_lem form_id p current x s
                  (record { found = found; in_form = ground (arith, in_form) }) acyclic)
              (λ other. (refl, IsRefused.other_form refl found (λ e. ground (arith, other))))))
          (λ missing. (refl, IsRefused.no_parent refl missing))))
