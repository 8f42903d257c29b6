-- ===== src/Forms/Placing.antt =====
-- The assignment of a parent in `FormFieldService.update` of app/modules/forms/service.py keeps the
-- fields trees.
use zaraamad_portal_be.Base.{
  ℕ, suc, ◌+◌, Bool, true, false, Option, none, some, List, ◌≡◌, ◌≢◌, refl, sym, subst, ap, ◌∙◌,
  ◌⊎◌, ◌<◌, ◌==◌, if◌then◌else◌, inl, inr, arith, length, find_row, key-find_row,
  find_row-update_row, find_row-update_row_ne, find_row_before, update_row, Bool-cases,
}
use zaraamad_portal_be.Database.{FormField}
use zaraamad_portal_be.Forms.Parents.{
  field_id_of, parent_field, Climb, at_field, at_top, endless, climb, id_or_none, place_below,
}
use zaraamad_portal_be.Forms.Acyclic.{
  IsAcyclic, IsAbove, is_endless, Says, climb-Says, climb_ends, parent_field_found,
}

-- The field with the key, as the loop finds it, is at or above the row.
abbrev is_at_field : Climb → Bool
is_at_field at_field = true
is_at_field at_top = false
is_at_field endless = false

Says-IsAbove :
    (fields : List FormField) (k : ℕ) (x : FormField) (r : Climb)
    → is_endless r ≡ false
    → Says fields k (some x) r
    → ((is_at_field r ≡ true) × IsAbove fields k x)
      ⊎ ((is_at_field r ≡ false) × (¬ IsAbove fields k x))
Says-IsAbove fields k x at_field ends says = inl (refl, says)
Says-IsAbove fields k x at_top ends says = inr (refl, says)
Says-IsAbove fields k x endless ends says = cc

module _ (fields : List FormField) (acyclic : IsAcyclic fields) (f : ℕ) where
  is_under : FormField → Bool
  is_under x = is_at_field (climb fields f (length fields) (some x))

  under_cases :
      (j : ℕ) (x : FormField)
      → find_row field_id_of j fields ≡ some x
      → ((is_under x ≡ true) × IsAbove fields f x) ⊎ ((is_under x ≡ false) × (¬ IsAbove fields f x))
  unfolding is_under
  under_cases j x found =
      Says-IsAbove fields f x (climb fields f (length fields) (some x))
        (climb_ends fields acyclic f j x found) (climb-Says fields f (length fields) (some x))

  -- The rank of a field that is below the one that moves is raised above those of the new parent.
  raised_rank : ℕ → ℕ → Option FormField → ℕ
  raised_rank k r none = acyclic.rank k
  raised_rank k r (some x) = if is_under x then acyclic.rank k + suc r else acyclic.rank k

  IsAbove-other :
      (x y : FormField)
      → x.id ≢ f
      → parent_field fields x ≡ some y
      → IsAbove fields f x
      → IsAbove fields f y
  IsAbove-other x y ne parent (IsAbove.here e) = absurd (ne e)
  IsAbove-other x y ne parent (IsAbove.up {y = z} e above) =
      let same : z ≡ y = cc in subst (IsAbove fields f) same above

  -- A field other than the one that moves is below it if its parent is.
  under-parent :
      (j i : ℕ) (x y : FormField)
      → find_row field_id_of j fields ≡ some x
      → find_row field_id_of i fields ≡ some y
      → x.id ≢ f
      → parent_field fields x ≡ some y
      → is_under x ≡ is_under y
  under-parent j i x y found_x found_y ne parent = elim (under_cases j x found_x) [
    | inl (yes_x, above_x) ↦ elim (under_cases i y found_y) [
      | inl (yes_y, above_y) ↦ yes_x ∙ sym yes_y
      | inr (no_y, free_y) ↦ absurd (free_y (IsAbove-other x y ne parent above_x))
    ]
    | inr (no_x, free_x) ↦ elim (under_cases i y found_y) [
      | inl (yes_y, above_y) ↦ absurd (free_x (IsAbove.up parent above_y))
      | inr (no_y, free_y) ↦ no_x ∙ sym no_y
    ]
  ]

-- A link of the table of fields, to the row with the key of the other.
record IsLink (fields : List FormField) (k : ℕ) (x y z : FormField) : Type 0 where
  found : find_row field_id_of k fields ≡ some x
  link : parent_field fields x ≡ some z
  key : z.id ≡ y.id
  found_parent : find_row field_id_of z.id fields ≡ some z

module _ (fields : List FormField) (f : ℕ) (form_id : ℕ) (parent : Option FormField) where
  abbrev moved : List FormField
  moved = update_row field_id_of f (place_below form_id parent) fields

  -- A link of the new table is the new link of the field, or a link of the old table.
  IsLink-cases :
      (k : ℕ) (x y : FormField)
      → find_row field_id_of k moved ≡ some x
      → parent_field moved x ≡ some y
      → ((k ≡ f) × (id_or_none parent ≡ some y.id))
        ⊎ ((k ≢ f) × (z : FormField) × IsLink fields k x y z)
  IsLink-cases k x y found link =
      let (q, named, found_y) = parent_field_found moved x link in
      let key_y : y.id ≡ q = key-find_row field_id_of q moved found_y in
      elim (Bool-cases (k == f)) [
        | inl hit ↦
            let same : k ≡ f = ground arith in
            let (z, old, is) =
              find_row-update_row field_id_of f (place_below form_id parent) fields (λ z. refl)
                (subst (λ j. find_row field_id_of j moved ≡ some x) same found) in
            let new : x.parent_field_id ≡ id_or_none parent =
              ap (λ (w : FormField). w.parent_field_id) is in
            inl (same, sym new ∙ named ∙ ap some (sym key_y))
        | inr miss ↦
            let ne : k ≢ f = λ e. ground arith in
            let stays =
              find_row-update_row_ne field_id_of k f (place_below form_id parent) fields (λ z. refl)
                ne in
            let (z, found_z) =
              find_row_before field_id_of q f (place_below form_id parent) fields (λ z. refl)
                found_y in
            let key_z : z.id ≡ q = key-find_row field_id_of q fields found_z in
            inr (
              ne,
              z,
              record {
                found = sym stays ∙ found;
                link = rw (parent_field, named) found_z;
                key = key_z ∙ sym key_y;
                found_parent =
                    subst (λ j. find_row field_id_of j fields ≡ some z) (sym key_z) found_z;
              },
            )
      ]

-- A field without a parent.
pub top_IsAcyclic :
    (fields : List FormField) (f form_id : ℕ)
    → IsAcyclic fields
    → IsAcyclic (update_row field_id_of f (place_below form_id none) fields)
top_IsAcyclic fields f form_id acyclic = record {
  rank = acyclic.rank;
  climbs = λ k x y found link. elim (IsLink-cases fields f form_id none k x y found link) [
    | inl (same, is) ↦ cc
    | inr (ne, z, old) ↦
        subst (λ i. acyclic.rank i < acyclic.rank x.id) old.key
          (acyclic.climbs k x z old.found old.link)
  ];
}

module _ (fields : List FormField) (f form_id : ℕ) (p : FormField) (acyclic : IsAcyclic fields)
    (found_p : find_row field_id_of p.id fields ≡ some p) (free : ¬ IsAbove fields f p) where
  new_rank : ℕ → ℕ
  new_rank k = raised_rank fields acyclic f k (acyclic.rank p.id) (find_row field_id_of k fields)

  new_rank_lem :
      (k : ℕ) (x : FormField)
      → find_row field_id_of k fields ≡ some x
      → new_rank k ≡ (
          if is_under fields acyclic f x
          then acyclic.rank k + suc (acyclic.rank p.id)
          else acyclic.rank k)
  unfolding new_rank raised_rank
  new_rank_lem k x found = rw found refl

  -- The new parent keeps its rank.
  new_rank_parent : new_rank p.id ≡ acyclic.rank p.id
  new_rank_parent = elim (under_cases fields acyclic f p.id p found_p) [
    | inl (hit, above) ↦ absurd (free above)
    | inr (miss, _) ↦ new_rank_lem p.id p found_p ∙ rw miss refl
  ]

  -- The field that moves gets a higher one.
  new_rank_field :
      (x : FormField) → find_row field_id_of f fields ≡ some x → acyclic.rank p.id < new_rank f
  new_rank_field x found = elim (under_cases fields acyclic f f x found) [
    | inl (hit, above) ↦
        let raised : new_rank f ≡ acyclic.rank f + suc (acyclic.rank p.id) =
          new_rank_lem f x found ∙ rw hit refl in
        omega (arith, raised)
    | inr (miss, not_above) ↦
        absurd (not_above (IsAbove.here (key-find_row field_id_of f fields found)))
  ]

  -- Along the other links it still falls.
  new_rank_link :
      (k : ℕ) (x y z : FormField) → k ≢ f → IsLink fields k x y z → new_rank y.id < new_rank x.id
  new_rank_link k x y z ne old =
      let key : x.id ≡ k = key-find_row field_id_of k fields old.found in
      let found_x : find_row field_id_of x.id fields ≡ some x =
        subst (λ j. find_row field_id_of j fields ≡ some x) (sym key) old.found in
      let less = acyclic.climbs k x z old.found old.link in
      let same =
        under-parent fields acyclic f k z.id x z old.found old.found_parent (λ e. ne (sym key ∙ e))
          old.link in
      let rank_x = new_rank_lem x.id x found_x in
      let rank_z = new_rank_lem z.id z old.found_parent in
      subst (λ i. new_rank i < new_rank x.id) old.key (ground (arith, same, rank_x, rank_z, less))

  -- A field below a parent of which it is no ancestor.
  pub below_IsAcyclic : IsAcyclic (update_row field_id_of f (place_below form_id (some p)) fields)
  below_IsAcyclic = record {
    rank = new_rank;
    climbs = λ k x y found link. elim (IsLink-cases fields f form_id (some p) k x y found link) [
      | inl (same, is) ↦
          let key_x : x.id ≡ k =
            key-find_row field_id_of k
              (update_row field_id_of f (place_below form_id (some p)) fields) found in
          let at_y : y.id ≡ p.id = cc in
          let (w, found_w) =
            find_row_before field_id_of k f (place_below form_id (some p)) fields (λ z. refl)
              found in
          let less =
            new_rank_field w (subst (λ j. find_row field_id_of j fields ≡ some w) same found_w) in
          rw (key_x, same, at_y, new_rank_parent) less
      | inr (ne, z, old) ↦ new_rank_link k x y z ne old
    ];
  }
