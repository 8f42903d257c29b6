-- ===== src/Forms/Acyclic.antt =====
-- The fields of a form are trees: the loop of `validate_parent_assignment` in
-- app/modules/forms/service.py ends on them, and says whether the field is among the ancestors.
use zaraamad_portal_be.Base.{
  ℕ, zero, suc, Bool, true, false, Option, none, some, List, ◌≡◌, refl, sym, subst, ◌≤◌, ◌<◌, ◌==◌,
  leb, inl, inr, arith, length, keep, find_row, length-keep_lt, length-keep_all, Bool-cases,
  Option-cases,
}
use zaraamad_portal_be.Database.{FormField}
use zaraamad_portal_be.Forms.Parents.{
  field_id_of, parent_field, Climb, at_field, at_top, endless, climb,
}

-- No field is among its own ancestors: the parent of a field has a smaller rank.
pub record IsAcyclic (fields : List FormField) : Type 0 where
  pub rank : ℕ → ℕ
  pub climbs :
      (k : ℕ) (x y : FormField)
      → find_row field_id_of k fields ≡ some x
      → parent_field fields x ≡ some y
      → rank y.id < rank x.id

-- The field with the key is the field itself or one of its ancestors.
pub data IsAbove (fields : List FormField) (k : ℕ) : FormField → Type 0 where
  here : {x : FormField} → x.id ≡ k → IsAbove fields k x
  up : {x y : FormField} → parent_field fields x ≡ some y → IsAbove fields k y → IsAbove fields k x

abbrev pub is_endless : Climb → Bool
is_endless at_field = false
is_endless at_top = false
is_endless endless = true

found_at :
    (fields : List FormField) (o : Option ℕ) {y : FormField}
    → elim o [ none ↦ none | some p ↦ find_row field_id_of p fields ] ≡ some y
    → (p : ℕ) × (o ≡ some p) × (find_row field_id_of p fields ≡ some y)
found_at fields none e = cc
found_at fields (some p) e = (p, refl, e)

pub parent_field_found :
    (fields : List FormField) (x : FormField) {y : FormField}
    → parent_field fields x ≡ some y
    → (p : ℕ) × (x.parent_field_id ≡ some p) × (find_row field_id_of p fields ≡ some y)
parent_field_found fields x e = found_at fields x.parent_field_id e

-- The rows at or below a rank.
abbrev below : (ℕ → ℕ) → ℕ → FormField → Bool
below rank n z = leb (rank z.id) n

module _ (fields : List FormField) (acyclic : IsAcyclic fields) where
  rounds_lem :
      (k n j : ℕ) (x : FormField)
      → find_row field_id_of j fields ≡ some x
      → length (keep (below acyclic.rank (acyclic.rank x.id)) fields) ≤ n
      → is_endless (climb fields k n (some x)) ≡ false
  unfolding climb
  rounds_lem k zero j x found enough =
      let some_below =
        length-keep_lt field_id_of j (λ z. false) (below acyclic.rank (acyclic.rank x.id)) fields
          found refl (ground arith) (λ z e. cc) in
      absurd (omega (arith, some_below, enough))
  rounds_lem k (suc n) j x found enough = elim (Option-cases (parent_field fields x)) [
    | inl top ↦ rw top (ground arith)
    | inr (y, parent) ↦
        let (p, named, found_y) = parent_field_found fields x parent in
        let less = acyclic.climbs j x y found parent in
        let fewer =
          length-keep_lt field_id_of j (below acyclic.rank (acyclic.rank y.id))
            (below acyclic.rank (acyclic.rank x.id)) fields found (ground (arith, less))
            (ground arith) (λ z e. ground (arith, less)) in
        let rest = rounds_lem k n p y found_y (omega (arith, fewer, enough)) in
        rw parent (ground (arith, rest))
  ]

  -- On a table of trees, the loop over the parents of a field ends, within as many rounds as there
  -- are fields.
  pub climb_ends :
      (k j : ℕ) (x : FormField)
      → find_row field_id_of j fields ≡ some x
      → is_endless (climb fields k (length fields) (some x)) ≡ false
  climb_ends k j x found =
      rounds_lem k (length fields) j x found
        (length-keep_all (below acyclic.rank (acyclic.rank x.id)) fields)

-- What the end of the loop says.
abbrev pub Says : List FormField → ℕ → Option FormField → Climb → Type 0
Says fields k none end = Unit
Says fields k (some x) at_field = IsAbove fields k x
Says fields k (some x) at_top = ¬ IsAbove fields k x
Says fields k (some x) endless = Unit

module _ (fields : List FormField) (k : ℕ) where
  pub not-IsAbove :
      (x : FormField)
      → (x.id == k) ≡ false
      → ((y : FormField) → parent_field fields x ≡ some y → ¬ IsAbove fields k y)
      → ¬ IsAbove fields k x
  not-IsAbove x other h (IsAbove.here e) = ground arith
  not-IsAbove x other h (IsAbove.up {y = y} e above) = h y e above

  Says-up :
      (r : Climb) (x y : FormField)
      → (x.id == k) ≡ false
      → parent_field fields x ≡ some y
      → Says fields k (some y) r
      → Says fields k (some x) r
  Says-up at_field x y other parent says = IsAbove.up parent says
  Says-up at_top x y other parent says =
      not-IsAbove x other
        (λ z e above. let same : y ≡ z = cc in says (subst (IsAbove fields k) (sym same) above))
  Says-up endless x y other parent says = tt

  -- The loop ends at the field if and only if that is the parent or an ancestor of it.
  pub climb-Says : (n : ℕ) (o : Option FormField) → Says fields k o (climb fields k n o)
  unfolding climb
  climb-Says n none = tt
  climb-Says zero (some x) = tt
  climb-Says (suc n) (some x) = elim (Bool-cases (x.id == k)) [
    | inl hit ↦ rw hit (IsAbove.here (ground arith))
    | inr miss ↦ elim (Option-cases (parent_field fields x)) [
      | inl top ↦ rw (miss, top) (not-IsAbove x miss (λ y e above. cc))
      | inr (y, parent) ↦ rw miss (
          Says-up (climb fields k n (parent_field fields x)) x y miss parent
            (rw parent (climb-Says n (some y))))
    ]
  ]
