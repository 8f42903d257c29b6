-- ===== src/Forms/Schemas.antt =====
-- `FormQueryBuilder` and `FormSchemaService` of app/modules/forms/service.py. How the database orders
-- the rows of a list is a parameter, `order_by`.
use zaraamad_portal_be.Base.{
  ℕ, Bool, true, false, not, ◌&&◌, ◌||◌, ◌==◌, Option, none, some, List, [], ◌∷◌, ◌++◌, keep,
  find_row, update_row, set_or_keep, ltb, if◌then◌else◌, where_some,
}
use zaraamad_portal_be.Text.{Text, text_eq, is_empty}
use zaraamad_portal_be.Http.{Exception, http_exception, form_not_found, data_integrity_error}
use zaraamad_portal_be.Database.{FormScopeType, FormSchema, FormField, Database, truthy}
use zaraamad_portal_be.Session.{
  Action, pure, reads, or_fail, modify, commit, commit_or_rollback, ◌>>=◌, ◌>>◌,
}
use zaraamad_portal_be.Forms.Parents.{form_id_of}

pub record FormSchemaCreate : Type 0 where
  pub key : Text
  pub title : Text
  pub version : ℕ
  pub description : Option Text
  pub is_active : Bool
  pub scope_type : FormScopeType
  pub scope_value : Option Text

pub record FormSchemaUpdate : Type 0 where
  pub key : Option (Option Text)
  pub title : Option (Option Text)
  pub version : Option (Option ℕ)
  pub description : Option (Option Text)
  pub is_active : Option (Option Bool)
  pub scope_type : Option (Option FormScopeType)
  pub scope_value : Option (Option Text)

abbrev scope_eq : FormScopeType → FormScopeType → Bool
scope_eq FormScopeType.global FormScopeType.global = true
scope_eq FormScopeType.municipality FormScopeType.municipality = true
scope_eq a b = false

-- SQL equality of a column with a value: null is equal to nothing.
abbrev column_is : {A : Type 0} → (A → A → Bool) → A → Option A → Bool
column_is eq wanted none = false
column_is eq wanted (some value) = eq value wanted

abbrev given : Option Text → Bool
given none = false
given (some text) = not (is_empty text)

abbrev default_scope_type : Bool → Option FormScopeType → Option FormScopeType
default_scope_type wanted none = if wanted then some FormScopeType.municipality else none
default_scope_type wanted (some scope_type) = some scope_type

abbrev default_scope_value : Option Text → Option Text → Option Text
default_scope_value municipality_code none =
    if given municipality_code then municipality_code else none
default_scope_value municipality_code (some scope_value) = some scope_value

unfoldable pub normalize_scope_filters :
    Option FormScopeType → Option Text → Option Text → Option FormScopeType × Option Text
normalize_scope_filters scope_type scope_value municipality_code = (
  default_scope_type (given municipality_code) scope_type,
  default_scope_value municipality_code scope_value,
)

-- `if key: query = query.where(FormSchema.key == key)`
abbrev key_fits : Option Text → FormSchema → Bool
key_fits none x = true
key_fits (some key) x = is_empty key || column_is text_eq key x.key

-- The `where` clauses of `build_list_query`.
unfoldable pub list_query :
    Option Text → Option FormScopeType → Option Text → Option Text → Bool → FormSchema → Bool
unfolding normalize_scope_filters
list_query key scope_type scope_value municipality_code include_inactive x =
    let (wanted_type, wanted_value) =
      normalize_scope_filters scope_type scope_value municipality_code in
    key_fits key x
    && where_some wanted_type (λ scope. column_is scope_eq scope x.scope_type)
    && where_some wanted_value (λ value. column_is text_eq value x.scope_value)
    && (include_inactive || truthy x.is_active)

module _ (order_by : List FormSchema → List FormSchema) where
  unfoldable pub list_forms :
      Option Text
      → Option FormScopeType
      → Option Text
      → Option Text
      → Bool
      → Action (List FormSchema)
  unfolding list_query
  list_forms key scope_type scope_value municipality_code include_inactive = reads (λ d. order_by (
      keep (list_query key scope_type scope_value municipality_code include_inactive)
        d.form_schemas))

  pub list_by_key :
      Text → Option FormScopeType → Option Text → Option Text → Action (List FormSchema)
  unfolding list_forms
  list_by_key key scope_type scope_value municipality_code =
      list_forms (some key) scope_type scope_value municipality_code false

-- The column is not null, which the database checks.
abbrev pub version_of : FormSchema → ℕ
version_of x = elim x.version [ none ↦ 0 | some n ↦ n ]

-- The first of two rows in the order by version and key, both descending.
abbrev pub newer : FormSchema → FormSchema → FormSchema
newer x y =
    if ltb (version_of x) (version_of y) || (version_of x == version_of y && ltb x.id y.id)
    then y
    else x

abbrev pub newer_or : FormSchema → Option FormSchema → FormSchema
newer_or x none = x
newer_or x (some y) = newer x y

-- `order_by(version.desc(), id.desc()).limit(1)`
unfoldable pub newest : List FormSchema → Option FormSchema
newest [] = none
newest (x ∷ xs) = some (newer_or x (newest xs))

abbrev pub is_global_form : Text → FormSchema → Bool
is_global_form key x =
    column_is text_eq key x.key
    && column_is scope_eq FormScopeType.global x.scope_type
    && truthy x.is_active

abbrev pub is_municipality_form : Text → Text → FormSchema → Bool
is_municipality_form key municipality_code x =
    column_is text_eq key x.key
    && column_is scope_eq FormScopeType.municipality x.scope_type
    && column_is text_eq municipality_code x.scope_value
    && truthy x.is_active

abbrev pub municipality_form : Text → Option Text → Database → Option FormSchema
municipality_form key none d = none
municipality_form key (some code) d =
    if is_empty code then none else newest (keep (is_municipality_form key code) d.form_schemas)

abbrev pub or_global : Text → Option FormSchema → Action FormSchema
or_global key (some form) = pure form
or_global key none = do
  found ← reads (λ d. newest (keep (is_global_form key) d.form_schemas))
  or_fail found 404 form_not_found

unfoldable pub resolve_form : Text → Option Text → Action FormSchema
unfolding newest
resolve_form key municipality_code = do
  found ← reads (municipality_form key municipality_code)
  or_global key found

unfoldable pub get_form_or_404 : ℕ → Action FormSchema
get_form_or_404 form_id = do
  found ← reads (λ d. find_row form_id_of form_id d.form_schemas)
  or_fail found 404 form_not_found

abbrev new_form : ℕ → FormSchemaCreate → FormSchema
new_form new_id dto = record {
  id = new_id;
  key = some dto.key;
  title = some dto.title;
  version = some dto.version;
  description = dto.description;
  is_active = some dto.is_active;
  scope_type = some dto.scope_type;
  scope_value = dto.scope_value;
}

abbrev with_form_update : FormSchemaUpdate → FormSchema → FormSchema
with_form_update dto x = record x {
  key = set_or_keep dto.key x.key;
  title = set_or_keep dto.title x.title;
  version = set_or_keep dto.version x.version;
  description = set_or_keep dto.description x.description;
  is_active = set_or_keep dto.is_active x.is_active;
  scope_type = set_or_keep dto.scope_type x.scope_type;
  scope_value = set_or_keep dto.scope_value x.scope_value;
}

-- The fields of a form go with it.
abbrev without_form : ℕ → Database → Database
without_form form_id d = record d {
  form_schemas = keep (λ (x : FormSchema). not (x.id == form_id)) d.form_schemas;
  form_fields = keep (λ (x : FormField). not (x.form_id == form_id)) d.form_fields;
}

abbrev refused : Text → Exception
refused error_text = http_exception 409 data_integrity_error

module _ (violation : Database → Option Text) where
  unfoldable pub create_form : ℕ → FormSchemaCreate → Action FormSchema
  unfolding get_form_or_404 commit_or_rollback
  create_form new_id dto = do
    modify (λ d. record d { form_schemas = d.form_schemas ++ new_form new_id dto ∷ [] })
    commit_or_rollback violation refused
    get_form_or_404 new_id

  unfoldable pub update_form : ℕ → FormSchemaUpdate → Action FormSchema
  unfolding get_form_or_404 commit_or_rollback
  update_form form_id dto = do
    form ← get_form_or_404 form_id
    modify (λ d. record d {
      form_schemas = update_row form_id_of form_id (with_form_update dto) d.form_schemas;
    })
    commit_or_rollback violation refused
    get_form_or_404 form_id

  unfoldable pub delete_form : ℕ → Action (Unit {0})
  unfolding get_form_or_404 commit
  delete_form form_id = do
    form ← get_form_or_404 form_id
    modify (without_form form_id)
    commit violation
