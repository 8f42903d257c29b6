-- ===== src/Catalog/Purchases.antt =====
-- `CustomerServicePurchaseService` of app/modules/service_catalog/service.py. A purchase keeps the
-- totals of its items beside them.
use zaraamad_portal_be.Base.{
  ℕ, ◌+◌, suc, Bool, true, false, not, ◌&&◌, ◌||◌, ◌==◌, Option, none, some, List, [], ◌∷◌, ◌++◌,
  if◌then◌else◌, length, keep, find_row, update_row, sort_by, provided, set_or_keep,
}
use zaraamad_portal_be.Text.{Text, codes, lower, contains}
use zaraamad_portal_be.Http.{
  Exception, http_exception, local_user_context_required, customer_service_purchase_not_found,
  duplicate_customer_service_purchase_selection, data_integrity_error,
}
use zaraamad_portal_be.Database.{CustomerServicePurchase, CustomerServicePurchaseItem, Database}
use zaraamad_portal_be.Session.{
  Action, pure, reads, or_fail, modify, flush, commit_or_rollback, ◌>>=◌, ◌>>◌,
}
use zaraamad_portal_be.Identity.{CurrentUser}
use zaraamad_portal_be.Access.{validate_customer_access}
use zaraamad_portal_be.Catalog.Lookup.{Joined, get_active_customer_or_404}
use zaraamad_portal_be.Catalog.Selection.{CustomerServicePurchaseItemCreate, resolve_items}

-- The requests of app/modules/service_catalog/dtos.py. A field of the update is `none` where the
-- request leaves it unset, and `some none` where it sets it to null.
pub record CustomerServicePurchaseCreate : Type 0 where
  pub notes : Option Text
  pub items : List CustomerServicePurchaseItemCreate

pub record CustomerServicePurchaseUpdate : Type 0 where
  pub notes : Option (Option Text)
  pub items : Option (Option (List CustomerServicePurchaseItemCreate))

pub record CustomerServicePurchaseDetails : Type 0 where
  pub purchase : CustomerServicePurchase
  pub items : List CustomerServicePurchaseItem

pub record CustomerServicePurchaseTotals : Type 0 where
  pub sale_total : ℕ
  pub support_total : ℕ
  pub grand_total : ℕ

abbrev pub purchase_id_of : CustomerServicePurchase → ℕ
purchase_id_of p = p.id

-- `x or 0`
abbrev pub or_zero : Option ℕ → ℕ
or_zero none = 0
or_zero (some n) = n

-- The loop of `_calculate_totals`, from the totals so far.
unfoldable pub add_totals : ℕ → ℕ → List Joined → CustomerServicePurchaseTotals
add_totals sale_total support_total [] = record {
  sale_total = sale_total;
  support_total = support_total;
  grand_total = sale_total + support_total;
}
add_totals sale_total support_total (selection ∷ selections) =
    add_totals (sale_total + or_zero selection.config.sale_price)
      (support_total + selection.config.support_price) selections

unfoldable pub calculate_totals : List Joined → CustomerServicePurchaseTotals
unfolding add_totals
calculate_totals selections = add_totals 0 0 selections

-- The purchase of `create`, with no items yet.
unfoldable pub new_purchase : ℕ → ℕ → ℕ → Option Text → CustomerServicePurchase
new_purchase new_id customer_id created_by_user_id notes = record {
  id = new_id;
  customer_id = customer_id;
  created_by_user_id = created_by_user_id;
  notes = notes;
  sale_total = 0;
  support_total = 0;
  grand_total = 0;
  selected_count = 0;
  is_active = true;
}

-- The row that a selection becomes. `fresh` gives the keys of the new rows.
unfoldable pub item_of : ℕ → ℕ → Joined → CustomerServicePurchaseItem
item_of new_id purchase_id selection = record {
  id = new_id;
  customer_service_purchase_id = purchase_id;
  customer_service_config_id = selection.config.id;
  service_id = selection.service.id;
  project_id = selection.project.id;
  project_name = selection.project.name;
  group_id = selection.group.id;
  group_name = selection.group.name;
  service_name = selection.service.name;
  sale_price = selection.config.sale_price;
  support_price = selection.config.support_price;
}

unfoldable pub new_items : (ℕ → ℕ) → ℕ → ℕ → List Joined → List CustomerServicePurchaseItem
new_items fresh n purchase_id [] = []
new_items fresh n purchase_id (selection ∷ selections) =
    item_of (fresh n) purchase_id selection ∷ new_items fresh (suc n) purchase_id selections

unfoldable pub with_totals : List Joined → CustomerServicePurchase → CustomerServicePurchase
unfolding calculate_totals
with_totals selections p =
    let totals = calculate_totals selections in
    record p {
      selected_count = length selections;
      sale_total = totals.sale_total;
      support_total = totals.support_total;
      grand_total = totals.grand_total;
    }

abbrev pub is_item_of : ℕ → CustomerServicePurchaseItem → Bool
is_item_of purchase_id item = item.customer_service_purchase_id == purchase_id

abbrev pub put_purchase :
    ℕ → (CustomerServicePurchase → CustomerServicePurchase) → Database → Database
put_purchase purchase_id f d = record d {
  purchases = update_row purchase_id_of purchase_id f d.purchases;
}

-- `delete(CustomerServicePurchaseItem).where(…)` and the additions behind it.
abbrev pub put_items : (ℕ → ℕ) → ℕ → List Joined → Database → Database
put_items fresh purchase_id selections d = record d {
  purchase_items =
      keep (λ item. not (is_item_of purchase_id item)) d.purchase_items
      ++ new_items fresh 0 purchase_id selections;
}

unfoldable pub replace_purchase_items :
    (ℕ → ℕ) → CustomerServicePurchase → List CustomerServicePurchaseItemCreate → Action (Unit {0})
replace_purchase_items fresh purchase item_payloads = do
  selections ← resolve_items purchase.customer_id item_payloads
  modify (put_purchase purchase.id (with_totals selections))
  modify (put_items fresh purchase.id selections)

-- `_get_items_for_purchase`
abbrev pub get_items_for_purchase : ℕ → Action (List CustomerServicePurchaseItem)
get_items_for_purchase purchase_id = reads (λ d.
    sort_by (λ (item : CustomerServicePurchaseItem). item.id)
      (keep (is_item_of purchase_id) d.purchase_items))

unfoldable pub get_purchase_or_404 : Bool → ℕ → Action CustomerServicePurchase
get_purchase_or_404 include_inactive purchase_id = do
  found ← reads (λ d. find_row purchase_id_of purchase_id d.purchases)
  or_fail (provided (λ (p : CustomerServicePurchase). include_inactive || p.is_active) found) 404
      customer_service_purchase_not_found

-- The checks that each call on a purchase makes: it is there, its customer is active, and the user
-- may act for the customer.
unfoldable pub get_accessible : Bool → CurrentUser → ℕ → Action CustomerServicePurchase
unfolding get_purchase_or_404
get_accessible include_inactive user purchase_id = do
  purchase ← get_purchase_or_404 include_inactive purchase_id
  get_active_customer_or_404 purchase.customer_id
  validate_customer_access user purchase.customer_id
  pure purchase

unfoldable pub get_by_id : Bool → CurrentUser → ℕ → Action CustomerServicePurchaseDetails
unfolding get_accessible
get_by_id include_inactive user purchase_id = do
  purchase ← get_accessible include_inactive user purchase_id
  items ← get_items_for_purchase purchase.id
  pure (record { purchase = purchase; items = items })

-- `_commit_with_integrity_guard`
pub integrity_exception : Text → Exception
integrity_exception error_text =
    if contains (codes "customer_service_purchase_items") (lower error_text)
      && contains (codes "customer_service_config_id") (lower error_text)
    then http_exception 409 duplicate_customer_service_purchase_selection
    else http_exception 409 data_integrity_error

-- `"items" in dto.model_fields_set and dto.items is not None`
abbrev pub given_items :
    Option (Option (List CustomerServicePurchaseItemCreate))
    → Option (List CustomerServicePurchaseItemCreate)
given_items none = none
given_items (some items) = items

-- The replacement of `update`, where the request has items.
unfoldable pub replace_given_items :
    (ℕ → ℕ)
    → CustomerServicePurchase
    → Option (List CustomerServicePurchaseItemCreate)
    → Action (Unit {0})
replace_given_items fresh purchase none = pure tt
replace_given_items fresh purchase (some items) = replace_purchase_items fresh purchase items

unfoldable pub with_notes : Option (Option Text) → CustomerServicePurchase → CustomerServicePurchase
with_notes notes p = record p { notes = set_or_keep notes p.notes }

unfoldable pub deactivated : CustomerServicePurchase → CustomerServicePurchase
deactivated p = record p { is_active = false }

module _ (violation : Database → Option Text) (fresh : ℕ → ℕ) where
  unfoldable pub create :
      ℕ → ℕ → CustomerServicePurchaseCreate → CurrentUser → Action CustomerServicePurchaseDetails
  unfolding replace_purchase_items flush commit_or_rollback get_by_id
  create new_id customer_id dto user = do
    actor ← or_fail user.id 403 local_user_context_required
    get_active_customer_or_404 customer_id
    validate_customer_access user customer_id
    modify (λ d. record d {
      purchases = d.purchases ++ new_purchase new_id customer_id actor dto.notes ∷ [];
    })
    flush violation
    replace_purchase_items fresh (new_purchase new_id customer_id actor dto.notes) dto.items
    commit_or_rollback violation integrity_exception
    get_by_id true user new_id

  unfoldable pub update :
      ℕ → CustomerServicePurchaseUpdate → CurrentUser → Action CustomerServicePurchaseDetails
  unfolding get_accessible replace_given_items commit_or_rollback get_by_id
  update purchase_id dto user = do
    purchase ← get_accessible false user purchase_id
    modify (put_purchase purchase.id (with_notes dto.notes))
    replace_given_items fresh (with_notes dto.notes purchase) (given_items dto.items)
    commit_or_rollback violation integrity_exception
    get_by_id true user purchase.id

  unfoldable pub deactivate : ℕ → CurrentUser → Action CustomerServicePurchaseDetails
  unfolding get_accessible commit_or_rollback get_by_id
  deactivate purchase_id user = do
    purchase ← get_accessible false user purchase_id
    modify (put_purchase purchase.id deactivated)
    commit_or_rollback violation integrity_exception
    get_by_id true user purchase.id
