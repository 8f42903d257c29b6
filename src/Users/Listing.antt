-- ===== src/Users/Listing.antt =====
-- What `UserService.list` of app/modules/users/service.py shows on all its pages together.
use mathlib.Core.List.{Memᴰ, Permᴰ}
use mathlib.Core.List.Permᴰ
use zaraamad_portal_be.Base.{
  ℕ, zero, suc, ◌<◌, Bool, true, false, Option, none, some, List, [], ◌∷◌, ◌++◌, ◌≡◌, refl, sym,
  ◌∙◌, ap, subst, ◌↔◌, ◌⊎◌, inl, inr, arith, where_some, eq_some, keep, length, Memᴰ-keep,
  Bool-cases,
}
use zaraamad_portal_be.Text.{Text}
use zaraamad_portal_be.Http.{Result, ok, raised}
use zaraamad_portal_be.Database.{User, UserRole, SortOrder, is_role}
use zaraamad_portal_be.Session.{Session}
use zaraamad_portal_be.Pagination.{PaginationMeta, total_pages}
use zaraamad_portal_be.Pagination.Cover.{first_pages, pages_cover}
use zaraamad_portal_be.Users.Query.{
  SortColumn, Filters, activity, matches_search, build_list_query, list,
}

abbrev RoleFits : Option UserRole → Option UserRole → Type 0
RoleFits none role = Unit
RoleFits (some r) role = role ≡ some r

abbrev CustomerFits : Option ℕ → Option ℕ → Type 0
CustomerFits none customer_id = Unit
CustomerFits (some c) customer_id = customer_id ≡ some c

-- The activity that a filter asks for: by default the users are active.
abbrev wanted_activity : Option Bool → Bool
wanted_activity none = true
wanted_activity (some b) = b

module _ (ilike : Text → Option Text → Bool) where
  abbrev SearchFits : Option Text → User → Type 0
  SearchFits none u = Unit
  SearchFits (some text) u =
      (text ≡ [])
      ⊎ (ilike text u.full_name ≡ true)
      ⊎ (ilike text u.mobile ≡ true)
      ⊎ (ilike text u.organization_name ≡ true)
      ⊎ (ilike text u.organization_type ≡ true)

  -- The user is one that the filters ask for.
  pub record IsWanted (f : Filters) (u : User) : Type 0 where
    pub role : RoleFits f.role u.role
    pub customer : CustomerFits f.customer_id u.customer_id
    pub active : u.is_active ≡ some (wanted_activity f.is_active)
    pub found : SearchFits f.search u

role_iff :
    (wanted role : Option UserRole)
    → (where_some wanted (λ r. is_role role r) ≡ true) ↔ RoleFits wanted role
role_iff none role = (λ _. tt, λ _. refl)
role_iff (some r) role = (ground arith, ground arith)

customer_iff :
    (wanted customer_id : Option ℕ)
    → (where_some wanted (λ c. eq_some customer_id c) ≡ true) ↔ CustomerFits wanted customer_id
customer_iff none customer_id = (λ _. tt, λ _. refl)
customer_iff (some c) customer_id = (ground arith, ground arith)

activity_iff :
    (wanted : Option Bool) (u : User)
    → (activity wanted u ≡ true) ↔ (u.is_active ≡ some (wanted_activity wanted))
activity_iff none u = (ground arith, ground arith)
activity_iff (some true) u = (ground arith, ground arith)
activity_iff (some false) u = (ground arith, ground arith)

-- The rows of one list in another order are the same rows.
Memᴰ-Permᴰ : {A : Type 0} {x : A} {xs ys : List A} → Permᴰ xs ys → Memᴰ x xs → Memᴰ x ys
Memᴰ-Permᴰ Permᴰ.nil m = m
Memᴰ-Permᴰ (Permᴰ.cons e p) (Memᴰ.head h) = Memᴰ.head (h ∙ e)
Memᴰ-Permᴰ (Permᴰ.cons e p) (Memᴰ.tail m) = Memᴰ.tail (Memᴰ-Permᴰ p m)
Memᴰ-Permᴰ (Permᴰ.swap e g) (Memᴰ.head h) = Memᴰ.tail (Memᴰ.head (h ∙ e))
Memᴰ-Permᴰ (Permᴰ.swap e g) (Memᴰ.tail (Memᴰ.head h)) = Memᴰ.head (h ∙ g)
Memᴰ-Permᴰ (Permᴰ.swap e g) (Memᴰ.tail (Memᴰ.tail m)) = Memᴰ.tail (Memᴰ.tail m)
Memᴰ-Permᴰ (Permᴰ.trans p q) m = Memᴰ-Permᴰ q (Memᴰ-Permᴰ p m)

kept-Memᴰ :
    {A : Type 0} (p : A → Bool) (x : A) (xs : List A) → Memᴰ x xs → p x ≡ true → Memᴰ x (keep p xs)
kept-Memᴰ p x [] m h = elim m [ ]
kept-Memᴰ p x (y ∷ ys) (Memᴰ.head e) h = rw (sym (ap p e) ∙ h) (Memᴰ.head e)
kept-Memᴰ p x (y ∷ ys) (Memᴰ.tail m) h = elim (Bool-cases (p y)) [
  | inl here ↦ rw here (Memᴰ.tail (kept-Memᴰ p x ys m h))
  | inr gone ↦ rw gone (kept-Memᴰ p x ys m h)
]

length-Permᴰ : {A : Type 0} {xs ys : List A} → Permᴰ xs ys → length xs ≡ length ys
length-Permᴰ Permᴰ.nil = refl
length-Permᴰ (Permᴰ.cons e p) = ap suc (length-Permᴰ p)
length-Permᴰ (Permᴰ.swap e g) = refl
length-Permᴰ (Permᴰ.trans p q) = length-Permᴰ p ∙ length-Permᴰ q

module _ (ilike : Text → Option Text → Bool) where
  search_iff :
      (wanted : Option Text) (u : User)
      → (matches_search ilike wanted u ≡ true) ↔ SearchFits ilike wanted u
  search_iff none u = (λ _. tt, λ _. refl)
  search_iff (some []) u = (λ _. inl refl, λ _. refl)
  search_iff (some (c ∷ text)) u = (
    (λ h. inr (ground (arith, h))),
    (λ h. elim h [ inl e ↦ cc | inr rest ↦ ground (arith, rest) ]),
  )

  query_iff : (f : Filters) (u : User) → (build_list_query ilike f u ≡ true) ↔ IsWanted ilike f u
  unfolding build_list_query
  query_iff f u = (
    (λ h. record {
      role = (role_iff f.role u.role).0 (ground (arith, h));
      customer = (customer_iff f.customer_id u.customer_id).0 (ground (arith, h));
      active = (activity_iff f.is_active u).0 (ground (arith, h));
      found = (search_iff f.search u).0 (ground (arith, h));
    }),
    (λ w.
        rw
          (
            (role_iff f.role u.role).1 w.role,
            (customer_iff f.customer_id u.customer_id).1 w.customer,
            (activity_iff f.is_active u).1 w.active,
            (search_iff f.search u).1 w.found,
          )
          refl),
  )

  module _ (order_by : SortColumn → SortOrder → List User → List User) (f : Filters)
      (c : SortColumn) (o : SortOrder) (size : ℕ) (s : Session) where
    -- What a call answers.
    abbrev answer_of : Result (List User × PaginationMeta) → List User × PaginationMeta
    answer_of (ok answer) = answer
    answer_of (raised e) = ([], record { total_count = 0; page = 0; page_size = 0 })

    abbrev page_answer : ℕ → List User × PaginationMeta
    page_answer n =
        answer_of (list ilike order_by f c o (record { page = n; page_size = size }) s).0

    -- The users on pages 1 to `n`, one page after the other.
    abbrev pub shown : ℕ → List User
    shown zero = []
    shown (suc n) = shown n ++ (page_answer (suc n)).0

    abbrev pub first_meta : PaginationMeta
    first_meta = (page_answer 1).1

    abbrev wanted_rows : List User
    wanted_rows = keep (build_list_query ilike f) s.current.users

    shown_lem : (n : ℕ) → shown n ≡ first_pages size n (order_by c o wanted_rows)
    unfolding list
    shown_lem zero = refl
    shown_lem (suc n) = rw (shown_lem n) refl

    module _ (reorders : (rows : List User) → Permᴰ (order_by c o rows) rows)
        (positive : 0 < size) where
      all_shown : shown (total_pages first_meta) ≡ order_by c o wanted_rows
      unfolding list
      all_shown =
          shown_lem (total_pages first_meta)
          ∙ rw⁻¹ (length-Permᴰ (reorders wanted_rows))
              (pages_cover size 1 (order_by c o wanted_rows) positive)

      -- Whatever the order, for a positive page size: the pages up to the last one that the first
      -- page announces show together as many users as it announces, and a user is among them
      -- exactly if they are in the table, have the role and the customer that the filters ask for,
      -- are active, or as active as the filter asks for, and are found by the search, where there
      -- is one, in one of the four columns.
      pub shown-IsWanted :
          (length (shown (total_pages first_meta)) ≡ first_meta.total_count)
          × ((u : User)
              → Memᴰ u (shown (total_pages first_meta))
                ↔ (Memᴰ u s.current.users × IsWanted ilike f u))
      unfolding list
      shown-IsWanted = (
        rw all_shown (length-Permᴰ (reorders wanted_rows)),
        (λ u. (
          (λ m.
              let (there, passes) =
                Memᴰ-keep (build_list_query ilike f) u s.current.users
                  (Memᴰ-Permᴰ (reorders wanted_rows) (subst (Memᴰ u) all_shown m)) in
              (there, (query_iff f u).0 passes)),
          (λ (there, w). subst (Memᴰ u) (sym all_shown) (
              Memᴰ-Permᴰ (Permᴰ.symm (reorders wanted_rows)) (
                kept-Memᴰ (build_list_query ilike f) u s.current.users there
                  ((query_iff f u).1 w)))),
        )),
      )
