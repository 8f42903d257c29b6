-- ===== src/Security/Caller.antt =====
-- Who the caller of a request is: an active row of the users, or nobody local; and that the tokens of
-- the program lead back to the user that they were issued for.
use zaraamad_portal_be.Base.{
  ℕ, true, false, Option, none, some, [], ◌∷◌, ◌≡◌, refl, sym, ap, ◌∙◌, ◌⊎◌, inl, inr, arith,
  find_row, key-find_row, Option-cases, Bool-cases,
}
use mathlib.Core.Path.{subst}
use zaraamad_portal_be.Text.{Text, strip, is_empty}
use zaraamad_portal_be.Http.{Result, raised, ok, is_ok}
use zaraamad_portal_be.Database.{User, UserRole, Database, truthy}
use zaraamad_portal_be.Session.{Session, Action, pure, ◌>>=◌}
use zaraamad_portal_be.Identity.{CurrentUser}
use zaraamad_portal_be.Security.{
  Claims, Decoded, decoded, refused, not_mapping, access_claims, user_id_of, is_access, caller_of,
  resolve_role, resolve, get_current_user, as_string, non_empty, claim_or, is_true, hydrate,
  normalize_roles, role_texts, scalar_as_string, role_claim_for, text_claim,
}

-- The caller stands for the row.
abbrev pub IsLocal : Database → User → CurrentUser → Type 0
IsLocal d u user =
    (find_row user_id_of u.id d.users ≡ some u)
    × (truthy u.is_active ≡ true)
    × (user.id ≡ some u.id)
    × (user.customer_id ≡ u.customer_id)
    × ((r : UserRole) → u.role ≡ some r → user.role ≡ some r)

caller_of-IsLocal :
    (subject : Text) (c : Claims) (u : User) (d : Database)
    → find_row user_id_of u.id d.users ≡ some u
    → truthy u.is_active ≡ true
    → IsLocal d u (caller_of subject c (some u))
unfolding caller_of resolve_role
caller_of-IsLocal subject c u d found active = (found, active, refl, refl, λ r h. rw h refl)

caller_of-none : (subject : Text) (c : Claims) → (caller_of subject c none).id ≡ none
unfolding caller_of
caller_of-none subject c = refl

bind_ok :
    (m : Action (Option User)) (f : Option User → Action CurrentUser) (u : Option User)
    (s : Session)
    → m s ≡ (ok u, s)
    → (m >>= f) s ≡ f u s
unfolding ◌>>=◌
bind_ok m f u s e =
    ap
      (λ x. elim x.0 as (λ _. Result CurrentUser × Session) [
        | ok a ↦ f a x.1
        | raised bad ↦ (raised bad, x.1)
      ])
      e

Decoded-cases :
    (x : Decoded) → ((x ≡ refused) ⊎ (x ≡ not_mapping)) ⊎ ((c : Claims) × (x ≡ decoded c))
Decoded-cases refused = inl (inl refl)
Decoded-cases not_mapping = inl (inr refl)
Decoded-cases (decoded c) = inr (c, refl)

module _ (parse_int : Text → Option ℕ) where
  -- The lookup finds nobody, or an active row.
  hydrate_lem :
      (subject : Text) (s : Session)
      → (hydrate parse_int subject s ≡ (ok none, s))
        ⊎ ((u : User) × (hydrate parse_int subject s ≡ (ok (some u), s))
            × (find_row user_id_of u.id s.current.users ≡ some u)
            × (truthy u.is_active ≡ true))
  unfolding hydrate
  hydrate_lem subject s = elim (Option-cases (parse_int subject)) [
    | inl bad ↦ inl (rw (hydrate, bad) refl)
    | inr (k, e) ↦ elim (Option-cases (find_row user_id_of k s.current.users)) [
      | inl missing ↦ inl (rw (hydrate, e, missing) refl)
      | inr (u, found) ↦
          let key : u.id ≡ k = key-find_row user_id_of k s.current.users found in
          elim (Bool-cases (truthy u.is_active)) [
            | inl on ↦ inr (
              u,
              rw (hydrate, e, found, on) refl,
              subst (λ z. find_row user_id_of z s.current.users ≡ some u) (sym key) found,
              on,
            )
            | inr off ↦ inl (rw (hydrate, e, found, off) refl)
          ]
    ]
  ]

  module _ (decode : Text → Decoded) where
    -- The claims that are accepted, and the text that names the subject.
    abbrev pub Accepted : Text → Claims → Text → Type 0
    Accepted token c subject =
        (decode token ≡ decoded c)
        × (as_string (claim_or c.sub c.user_id) ≡ some subject)
        × (is_access (claim_or c.token_type c.legacy_type) ≡ true)

    resolve-cases :
        (token : Text) (s : Session)
        → (is_ok (resolve decode parse_int token s).0 ≡ false)
          ⊎ ((c : Claims) × (subject : Text) × Accepted token c subject)
    unfolding resolve
    resolve-cases token s = elim (Decoded-cases (decode token)) [
      | inl bad ↦ inl (ground (arith, bad))
      | inr (c, e) ↦ elim (Option-cases (as_string (claim_or c.sub c.user_id))) [
        | inl nobody ↦ inl (ground arith)
        | inr (subject, named) ↦
            elim (Bool-cases (is_access (claim_or c.token_type c.legacy_type))) [
              | inl typed ↦ inr (c, subject, (e, named, typed))
              | inr other ↦ inl (rw (is_ok, resolve, e, other) refl)
            ]
      ]
    ]

    resolve_lem :
        (token : Text) (c : Claims) (subject : Text) (local_user : Option User) (s : Session)
        → Accepted token c subject
        → hydrate parse_int subject s ≡ (ok local_user, s)
        → resolve decode parse_int token s ≡ (ok (caller_of subject c local_user), s)
    unfolding resolve
    resolve_lem token c subject local_user s (accepted, named, typed) found =
        rw (resolve, accepted, typed, named)
          (bind_ok (hydrate parse_int subject) (λ u. pure (caller_of subject c u)) local_user s
            found)

    Accepted-IsLocal :
        (token : Text) (c : Claims) (subject : Text) (user : CurrentUser) (s : Session)
        → Accepted token c subject
        → (resolve decode parse_int token s).0 ≡ ok user
        → (user.id ≡ none) ⊎ ((u : User) × IsLocal s.current u user)
    Accepted-IsLocal token c subject user s accepted h = elim (hydrate_lem subject s) [
      | inl nobody ↦
          let same : caller_of subject c none ≡ user =
            cc (h, ap (λ x. x.0) (resolve_lem token c subject none s accepted nobody)) in
          inl (sym (ap (λ x. x.id) same) ∙ caller_of-none subject c)
      | inr (u, found, row, active) ↦
          let same : caller_of subject c (some u) ≡ user =
            cc (h, ap (λ x. x.0) (resolve_lem token c subject (some u) s accepted found)) in
          inr (
            u,
            subst (IsLocal s.current u) same (caller_of-IsLocal subject c u s.current row active),
          )
    ]

    resolve-IsLocal :
        (token : Text) (user : CurrentUser) (s : Session)
        → (resolve decode parse_int token s).0 ≡ ok user
        → (user.id ≡ none) ⊎ ((u : User) × IsLocal s.current u user)
    resolve-IsLocal token user s h = elim (resolve-cases token s) [
      | inl raises ↦ absurd (ground arith)
      | inr (c, subject, accepted) ↦ Accepted-IsLocal token c subject user s accepted h
    ]

    -- A caller that is resolved has no local user, or stands for an active row of the users: its key,
    -- its customer and its role, whatever the token says.
    pub get_current_user-IsLocal :
        (credentials : Option Text) (user : CurrentUser) (s : Session)
        → (get_current_user decode parse_int credentials s).0 ≡ ok user
        → (user.id ≡ none) ⊎ ((u : User) × IsLocal s.current u user)
    unfolding get_current_user
    get_current_user-IsLocal none user s h = cc
    get_current_user-IsLocal (some token) user s h = resolve-IsLocal token user s h

    as_string_of_text :
        (t : Text)
        → strip t ≡ t
        → is_empty t ≡ false
        → as_string (claim_or (text_claim t) (text_claim t)) ≡ some t
    unfolding as_string scalar_as_string non_empty claim_or is_true
    as_string_of_text t clean filled = rw (filled, clean, filled) refl

    roles_of_access :
        (str : ℕ → Text) (k : ℕ) (mobile : Text) (role : UserRole) (u : User)
        → (caller_of (str k) (access_claims str k mobile role) (some u)).roles
          ≡ role_claim_for role ∷ []
    unfolding caller_of access_claims normalize_roles role_texts scalar_as_string non_empty strip
        role_claim_for
    roles_of_access str k mobile UserRole.admin u = refl
    roles_of_access str k mobile UserRole.customer u = refl
    roles_of_access str k mobile UserRole.public u = refl

    accepts_access :
        (str : ℕ → Text) (k : ℕ) (mobile : Text) (role : UserRole) (token : Text)
        → strip (str k) ≡ str k
        → is_empty (str k) ≡ false
        → decode token ≡ decoded (access_claims str k mobile role)
        → Accepted token (access_claims str k mobile role) (str k)
    unfolding access_claims claim_or is_true
    accepts_access str k mobile role token clean filled e =
        (e, as_string_of_text (str k) clean filled, refl)

    -- Where `str` of a key is a stripped text that `int` reads back and the token decodes to the claims
    -- that `create_access_token` puts into it: for the key of an active user the caller is resolved,
    -- is that row, and has the role that the token was issued with among its claimed roles.
    pub get_current_user-access_claims :
        (str : ℕ → Text) (k : ℕ) (mobile : Text) (role : UserRole) (token : Text) (u : User)
        (s : Session)
        → strip (str k) ≡ str k
        → is_empty (str k) ≡ false
        → parse_int (str k) ≡ some k
        → decode token ≡ decoded (access_claims str k mobile role)
        → find_row user_id_of k s.current.users ≡ some u
        → truthy u.is_active ≡ true
        → (user : CurrentUser) × (get_current_user decode parse_int (some token) s ≡ (ok user, s))
          × (user.id ≡ some u.id)
          × (user.customer_id ≡ u.customer_id)
          × (user.roles ≡ role_claim_for role ∷ [])
    unfolding get_current_user hydrate caller_of
    get_current_user-access_claims str k mobile role token u s clean filled number e found active =
        (
          caller_of (str k) (access_claims str k mobile role) (some u),
          resolve_lem token (access_claims str k mobile role) (str k) (some u) s
              (accepts_access str k mobile role token clean filled e)
              (rw (hydrate, number, found, active) refl),
          refl,
          refl,
          roles_of_access str k mobile role u,
        )
