-- ===== src/Catalog/Configs.antt =====
-- `CustomerServiceConfigPolicy` and `CustomerServiceConfigService` of
-- app/modules/service_catalog/service.py: the prices at which a customer is offered the services.
-- `fresh` gives the keys of the new rows, and `order_by` is the order of the joined rows.
use zaraamad_portal_be.Base.{
  ℕ, suc, Bool, not, ◌&&◌, ◌||◌, ◌==◌, Option, none, some, List, [], ◌∷◌, ◌++◌, map, if◌then◌else◌,
  keep, filter_map, find_row, update_row, find_where, update_where, all_distinct, set_or_keep,
}
use zaraamad_portal_be.Text.{Text, codes, lower, contains}
use zaraamad_portal_be.Http.{
  Exception, http_exception, duplicate_service_id_in_payload, service_id_invalid,
  inactive_service_cannot_be_assigned, customer_service_config_not_found,
  support_price_cannot_be_null, customer_service_config_in_use,
  duplicate_customer_service_configuration, data_integrity_error,
}
use zaraamad_portal_be.Database.{Service, CustomerServiceConfig, Database, truthy}
use zaraamad_portal_be.Session.{
  Action, pure, fail, reads, fail_if, or_fail, modify, commit_or_rollback, ◌>>=◌, ◌>>◌,
}
use zaraamad_portal_be.Catalog.Lookup.{
  Joined, join_config, service_id_of, config_id_of, get_customer_or_404,
}

-- The requests of app/modules/service_catalog/dtos.py.
pub record CustomerServiceConfigCreate : Type 0 where
  pub service_id : ℕ
  pub is_enabled : Bool
  pub sale_price : Option ℕ
  pub support_price : ℕ
  pub notes : Option Text

pub record CustomerServiceConfigUpdate : Type 0 where
  pub is_enabled : Option (Option Bool)
  pub sale_price : Option (Option ℕ)
  pub support_price : Option (Option ℕ)
  pub notes : Option (Option Text)

abbrev pub item_service_id : CustomerServiceConfigCreate → ℕ
item_service_id item = item.service_id

-- The row of a customer and a service, of which the table has at most one.
abbrev pub is_config : ℕ → ℕ → CustomerServiceConfig → Bool
is_config customer_id service_id c = c.customer_id == customer_id && c.service_id == service_id

unfoldable pub new_config : ℕ → ℕ → CustomerServiceConfigCreate → CustomerServiceConfig
new_config new_id customer_id item = record {
  id = new_id;
  customer_id = customer_id;
  service_id = item.service_id;
  is_enabled = some item.is_enabled;
  sale_price = item.sale_price;
  support_price = item.support_price;
  notes = item.notes;
}

-- The assignments to an existing row.
unfoldable pub with_item :
    CustomerServiceConfigCreate → CustomerServiceConfig → CustomerServiceConfig
with_item item c = record c {
  is_enabled = some item.is_enabled;
  sale_price = item.sale_price;
  support_price = item.support_price;
  notes = item.notes;
}

-- `validate_service_for_create`
unfoldable pub validate_service_for_create : Option Service → Action (Unit {0})
validate_service_for_create none = fail 422 service_id_invalid
validate_service_for_create (some service) =
    fail_if (not (truthy service.is_active)) 422 inactive_service_cannot_be_assigned

abbrev pub put_configs :
    (List CustomerServiceConfig → List CustomerServiceConfig) → Database → Database
put_configs f d = record d { service_configs = f d.service_configs }

-- One item of the loop of `bulk_upsert`: `existing` and `service` are what the maps that were read
-- before the loop have for it.
unfoldable pub upsert_item :
    ℕ
    → ℕ
    → Option CustomerServiceConfig
    → Option Service
    → CustomerServiceConfigCreate
    → Action (Unit {0})
upsert_item new_id customer_id none service item = do
  validate_service_for_create service
  modify (put_configs (λ rows. rows ++ new_config new_id customer_id item ∷ []))
upsert_item new_id customer_id (some existing) service item =
    modify (put_configs (update_where (is_config customer_id item.service_id) (with_item item)))

unfoldable pub upsert_items :
    (ℕ → ℕ) → ℕ → ℕ → Database → List CustomerServiceConfigCreate → Action (Unit {0})
unfolding upsert_item
upsert_items fresh n customer_id before [] = pure tt
upsert_items fresh n customer_id before (item ∷ items) = do
  upsert_item (fresh n) customer_id
      (find_where (is_config customer_id item.service_id) before.service_configs)
      (find_row service_id_of item.service_id before.services) item
  upsert_items fresh (suc n) customer_id before items

-- `_commit_with_integrity_guard`
pub config_integrity_exception : Text → Exception
config_integrity_exception error_text =
    if contains (codes "customer_service_configs") (lower error_text)
      || contains (codes "service_id") (lower error_text)
    then http_exception 409 duplicate_customer_service_configuration
    else http_exception 409 data_integrity_error

abbrev config_in_use : Text → Exception
config_in_use error_text = http_exception 409 customer_service_config_in_use

-- `"support_price" in update_data and update_data["support_price"] is None`
abbrev sets_null : Option (Option ℕ) → Bool
sets_null none = Bool.false
sets_null (some none) = Bool.true
sets_null (some (some _)) = Bool.false

-- A support price that is not null.
abbrev price_or : Option (Option ℕ) → ℕ → ℕ
price_or none old = old
price_or (some none) old = old
price_or (some (some new)) old = new

unfoldable pub with_config_update :
    CustomerServiceConfigUpdate → CustomerServiceConfig → CustomerServiceConfig
with_config_update dto c = record c {
  is_enabled = set_or_keep dto.is_enabled c.is_enabled;
  sale_price = set_or_keep dto.sale_price c.sale_price;
  support_price = price_or dto.support_price c.support_price;
  notes = set_or_keep dto.notes c.notes;
}

-- `_get_joined_config_or_404`
unfoldable pub get_joined_config_or_404 : ℕ → Action Joined
get_joined_config_or_404 config_id = do
  config ← reads (λ d. find_row config_id_of config_id d.service_configs)
  found ← or_fail config 404 customer_service_config_not_found
  row ← reads (λ d. join_config d found)
  or_fail row 404 customer_service_config_not_found

-- `_list_joined_configs`
abbrev pub list_joined_configs : (List Joined → List Joined) → ℕ → Action (List Joined)
list_joined_configs order_by customer_id = reads (λ d. order_by (
    filter_map (join_config d)
      (keep (λ (c : CustomerServiceConfig). c.customer_id == customer_id) d.service_configs)))

module _ (violation : Database → Option Text) (fresh : ℕ → ℕ)
    (order_by : List Joined → List Joined) where
  unfoldable pub bulk_upsert : ℕ → List CustomerServiceConfigCreate → Action (List Joined)
  unfolding upsert_items commit_or_rollback
  bulk_upsert customer_id items = do
    get_customer_or_404 customer_id
    fail_if (not (all_distinct (map item_service_id items))) 422 duplicate_service_id_in_payload
    before ← reads (λ d. d)
    upsert_items fresh 0 customer_id before items
    commit_or_rollback violation config_integrity_exception
    list_joined_configs order_by customer_id

module _ (violation : Database → Option Text) where
  unfoldable pub update_single : ℕ → CustomerServiceConfigUpdate → Action Joined
  unfolding get_joined_config_or_404 commit_or_rollback
  update_single config_id dto = do
    found ← reads (λ d. find_row config_id_of config_id d.service_configs)
    config ← or_fail found 404 customer_service_config_not_found
    fail_if (sets_null dto.support_price) 422 support_price_cannot_be_null
    modify (put_configs (update_row config_id_of config_id (with_config_update dto)))
    commit_or_rollback violation config_integrity_exception
    get_joined_config_or_404 config_id

  unfoldable pub delete_single : ℕ → Action Joined
  unfolding get_joined_config_or_404 commit_or_rollback
  delete_single config_id = do
    row ← get_joined_config_or_404 config_id
    modify (put_configs (keep (λ (c : CustomerServiceConfig). not (c.id == config_id))))
    commit_or_rollback violation config_in_use
    pure row
