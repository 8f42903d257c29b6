-- ===== src/Forms/Resolve.antt =====
-- Which form `resolve_form` of app/modules/forms/service.py finds.
use mathlib.Core.List.{Memᴰ}
use zaraamad_portal_be.Base.{
  Bool, true, ◌||◌, ◌&&◌, ◌==◌, Option, none, some, List, [], ◌∷◌, ◌≡◌, ◌⊎◌, refl, sym, subst, ◌∙◌,
  inl, inr, arith, All, keep, ltb, leb, if◌then◌else◌, Bool-cases, Option-cases,
}
use zaraamad_portal_be.Text.{Text, is_empty}
use zaraamad_portal_be.Http.{http_exception, form_not_found}
use zaraamad_portal_be.Database.{FormSchema, Database}
use zaraamad_portal_be.Session.{Session}
use zaraamad_portal_be.Session.Ends.{Ends, Ends-ok, Ends-reads, Ends-found}
use zaraamad_portal_be.Forms.Schemas.{
  version_of, newer, newest, is_global_form, is_municipality_form, municipality_form, resolve_form,
}

-- The row does not come before the other one: its version is lower, or it is the same and the key
-- is not higher.
abbrev not_newer : FormSchema → FormSchema → Bool
not_newer y x = ltb (version_of y) (version_of x) || (version_of y == version_of x && leb y.id x.id)

-- A row of the list that no other one comes before.
pub record IsNewest (rows : List FormSchema) (x : FormSchema) : Type 0 where
  pub among : Memᴰ x rows
  pub first : All (λ y. not_newer y x ≡ true) rows

not_newer_trans :
    (x y z : FormSchema) → not_newer x y ≡ true → not_newer y z ≡ true → not_newer x z ≡ true
not_newer_trans x y z h k = ground arith

All-not_newer :
    (x z : FormSchema) (rows : List FormSchema)
    → not_newer x z ≡ true
    → All (λ y. not_newer y x ≡ true) rows
    → All (λ y. not_newer y z ≡ true) rows
All-not_newer x z [] h all = tt
All-not_newer x z (y ∷ rows) h all = (not_newer_trans y x z all.0 h, All-not_newer x z rows h all.1)

newer_cases :
    (x y : FormSchema)
    → ((newer x y ≡ y) × (not_newer x y ≡ true)) ⊎ ((newer x y ≡ x) × (not_newer y x ≡ true))
newer_cases x y =
    elim (Bool-cases
      (ltb (version_of x) (version_of y) || (version_of x == version_of y && ltb x.id y.id))) [
        | inl hit ↦ inl (rw hit refl, ground arith)
        | inr miss ↦ inr (rw miss refl, ground arith)
      ]

not_newer_self : (x : FormSchema) → not_newer x x ≡ true
not_newer_self x = ground arith

newest-none : (rows : List FormSchema) → newest rows ≡ none → rows ≡ []
unfolding newest
newest-none [] e = refl
newest-none (x ∷ rows) e = cc

newest-IsNewest : (rows : List FormSchema) {x : FormSchema} → newest rows ≡ some x → IsNewest rows x
unfolding newest
newest-IsNewest [] e = cc
newest-IsNewest (z ∷ rows) {x} e = elim (Option-cases (newest rows)) [
  | inl nothing ↦
      let same : z ≡ x = (let is = rw nothing at e in cc) in
      let empty = newest-none rows nothing in
      rw (sym same, empty) (record { among = Memᴰ.head refl; first = (not_newer_self z, tt) })
  | inr (y, found) ↦
      let rest = newest-IsNewest rows found in
      let same : newer z y ≡ x = (let is = rw found at e in cc) in
      elim (newer_cases z y) [
        | inl (is, older) ↦
            subst (IsNewest (z ∷ rows)) (sym is ∙ same)
              (record { among = Memᴰ.tail rest.among; first = (older, rest.first) })
        | inr (is, older) ↦ subst (IsNewest (z ∷ rows)) (sym is ∙ same) (record {
          among = Memᴰ.head refl;
          first = (not_newer_self z, All-not_newer y z rows older rest.first);
        })
      ]
]

abbrev pub global_forms : Text → Database → List FormSchema
global_forms key d = keep (is_global_form key) d.form_schemas

abbrev pub municipality_forms : Text → Option Text → Database → List FormSchema
municipality_forms key none d = []
municipality_forms key (some code) d =
    if is_empty code then [] else keep (is_municipality_form key code) d.form_schemas

municipality_form_lem :
    (key : Text) (code : Option Text) (d : Database)
    → municipality_form key code d ≡ newest (municipality_forms key code d)
unfolding newest
municipality_form_lem key none d = refl
municipality_form_lem key (some code) d = elim (Bool-cases (is_empty code)) [
  | inl hit ↦ rw hit refl
  | inr miss ↦ rw miss refl
]

-- What is found.
abbrev pub Resolves : Text → Option Text → Database → FormSchema → Type 0
Resolves key code d x =
    IsNewest (municipality_forms key code d) x
    ⊎ ((municipality_forms key code d ≡ []) × IsNewest (global_forms key d) x)

-- The newest active form of the municipality with the key is found, or, if there is none, the
-- newest active global form with the key; if there is none either, the call raises 404, and only
-- then. The session is left alone.
pub resolve_form_outcome :
    (key : Text) (code : Option Text) (s : Session)
    → Ends
        (resolve_form key code s)
        (λ x t. (t ≡ s) × Resolves key code s.current x)
        (λ e t.
          (t ≡ s)
          × (e ≡ http_exception 404 form_not_found)
          × (municipality_forms key code s.current ≡ [])
          × (global_forms key s.current ≡ []))
unfolding resolve_form
resolve_form_outcome key code s =
    Ends-reads (municipality_form key code) _ s
      (elim (Option-cases (municipality_form key code s.current)) [
        | inr (x, found) ↦
            let own =
              newest-IsNewest (municipality_forms key code s.current)
                (sym (municipality_form_lem key code s.current) ∙ found) in
            rw found (Ends-ok (refl, inl own))
        | inl missing ↦
            let no_own =
              newest-none (municipality_forms key code s.current)
                (sym (municipality_form_lem key code s.current) ∙ missing) in
            rw missing (
              Ends-reads (λ d. newest (keep (is_global_form key) d.form_schemas)) _ s
                (Ends-found (newest (global_forms key s.current)) 404 form_not_found s
                  (λ x found.
                    (refl, inr (no_own, newest-IsNewest (global_forms key s.current) found)))
                  (λ missing.
                    (refl, refl, no_own, newest-none (global_forms key s.current) missing))))
      ])
