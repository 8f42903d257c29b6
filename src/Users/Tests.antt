-- ===== src/Users/Tests.antt =====
-- Runs of the user service on a small database, and its theorems there.
use mathlib.Core.List.{Memᴰ}
use mathlib.Core.List.Permᴰ
use zaraamad_portal_be.Base.{
  ◌↔◌, arith, List, length, Bool, false, ℕ, true, Option, none, some, [], ◌∷◌, ◌≡◌, refl, ◌⊎◌,
  find_row, update_row, All,
}
use zaraamad_portal_be.Base.Int.{pos}
use zaraamad_portal_be.Text.{Text, codes}
use zaraamad_portal_be.Http.{ok, raised, http_exception, customer_id_required}
use zaraamad_portal_be.Database.{User, UserRole, SortOrder, Database, empty_database}
use zaraamad_portal_be.Session.{begin}
use zaraamad_portal_be.Password.{digest_hex, Hashing}
use zaraamad_portal_be.Users.{
  Profile, user_id_of, resolve_profile, hash_given, UserCreate, UserUpdate, update,
}
use zaraamad_portal_be.Users.Roles.{fits_role, HasProfile, put_users, Refuses}
use zaraamad_portal_be.Users.Outcome.{IsUpdated, update_user_outcome, target_profile}
use zaraamad_portal_be.Pagination.{total_pages}
use zaraamad_portal_be.Users.Listing.{IsWanted, shown, first_meta, shown-IsWanted}
use zaraamad_portal_be.Users.Query.{SortColumn, Filters, build_list_query, list}
use zaraamad_portal_be.Users.Invariant.{update_user, write_users, write_users-HasProfile}

abbrev accepts : Database → Option Text
accepts d = none

abbrev no_token : ℕ → Option Text → Option UserRole → Text
no_token id mobile role = codes "token"

abbrev echo : Hashing
echo = record {
  derive_digest_hex = λ password salt n. digest_hex password;
  parse_int = λ s. some 200000;
}

abbrev sara : User
sara = record {
  id = 3;
  full_name = some (codes "Sara");
  mobile = some (codes "09125556677");
  password = none;
  organization_name = some (codes "union");
  organization_type = some (codes "private");
  role = some UserRole.public;
  is_active = some true;
  customer_id = none;
}

abbrev office : Database
office = record empty_database {
  customers =
      record {
        id = 5;
        name = some (codes "mine");
        manager_name = none;
        grade = some (pos 1);
        is_active = some true;
      }
      ∷ [];
  users = sara ∷ [];
}

abbrev hired : UserCreate
hired = record {
  full_name = codes "Ali";
  mobile = codes "09121234567";
  role = UserRole.customer;
  customer_id = some 5;
  organization_name = none;
  organization_type = none;
  password = some (codes "secret");
}

abbrev moved : Option ℕ → UserUpdate
moved customer = record {
  full_name = none;
  mobile = none;
  password = none;
  role = some (some UserRole.customer);
  customer_id = some customer;
  organization_name = none;
  organization_type = none;
  is_active = none;
}

no_customer :
    (update accepts echo (codes "5a") 3 (moved none) (begin office)).0
    ≡ raised (http_exception 422 customer_id_required)
unfolding update resolve_profile hash_given
no_customer = refl

abbrev renewed : UserUpdate
renewed = record (moved (some 5)) { password = some (some (codes "new")) }

update_user_outcome_example :
    Refuses office (update accepts echo (codes "5a") 3 renewed (begin office))
    ⊎ ((u : User) × (p : Profile) × (v : User) × (find_row user_id_of 3 office.users ≡ some u)
        × ((target_profile accepts echo renewed u (begin office)).0 ≡ ok p)
        × IsUpdated echo (codes "5a") renewed p u v
        × ((update accepts echo (codes "5a") 3 renewed (begin office)).0 ≡ ok v)
        × ((update accepts echo (codes "5a") 3 renewed (begin office)).1.committed
            ≡ put_users office (update_row user_id_of 3 (λ _. v) office.users)))
update_user_outcome_example = update_user_outcome accepts echo (codes "5a") 3 renewed office

sara_fits : HasProfile sara
unfolding fits_role
sara_fits = refl

write_users-HasProfile_example :
    All HasProfile
      (write_users accepts no_token echo (update_user (codes "5a") 3 (moved (some 5))) office).users
write_users-HasProfile_example =
    write_users-HasProfile accepts no_token echo (update_user (codes "5a") 3 (moved (some 5)))
      office (sara_fits, tt)

abbrev contains_nothing : Text → Option Text → Bool
contains_nothing pattern t = false

abbrev as_stored : SortColumn → SortOrder → List User → List User
as_stored c o rows = rows

abbrev publics : Filters
publics = record {
  role = some UserRole.public;
  customer_id = none;
  is_active = none;
  search = none;
}

shown-IsWanted_example :
    (length (
        shown contains_nothing as_stored publics SortColumn.id SortOrder.asc 20 (begin office) (
          total_pages (
            first_meta contains_nothing as_stored publics SortColumn.id SortOrder.asc 20
              (begin office))))
      ≡ (first_meta contains_nothing as_stored publics SortColumn.id SortOrder.asc 20
          (begin office)).total_count)
    × ((u : User)
        → Memᴰ u (
            shown contains_nothing as_stored publics SortColumn.id SortOrder.asc 20 (begin office) (
              total_pages (
                first_meta contains_nothing as_stored publics SortColumn.id SortOrder.asc 20
                  (begin office))))
          ↔ (Memᴰ u office.users × IsWanted contains_nothing publics u))
shown-IsWanted_example =
    shown-IsWanted contains_nothing as_stored publics SortColumn.id SortOrder.asc 20 (begin office)
      (λ rows. Permᴰ.refl rows) (omega arith)

first_page_shows_sara :
    (first_meta contains_nothing as_stored publics SortColumn.id SortOrder.asc 20
      (begin office)).total_count
    ≡ 1
unfolding list build_list_query
first_page_shows_sara = refl
