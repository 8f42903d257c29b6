-- ===== src/Catalog/Tests.antt =====
-- Runs of the service catalog, and its theorems there.
use mathlib.Core.List.{Permᴰ}
use mathlib.Core.List.Permᴰ
use zaraamad_portal_be.Base.{
  ℕ, Bool, true, false, ◌==◌, Option, none, some, List, [], ◌∷◌, ◌++◌, map, ◌≡◌, refl, ◌⊎◌, ◌+◌,
  if◌then◌else◌, All, all_distinct,
}
use zaraamad_portal_be.Base.Int.{pos}
use zaraamad_portal_be.Text.{Text, codes}
use zaraamad_portal_be.Http.{
  Result, ok, raised, http_exception, customer_service_config_not_purchasable,
}
use zaraamad_portal_be.Database.{
  Customer, User, UserRole, ServiceProject, ServiceGroup, Service, CustomerServiceConfig,
  CustomerServicePurchase, Database, empty_database, is_role,
}
use zaraamad_portal_be.Session.{begin, ◌>>=◌}
use zaraamad_portal_be.Session.Ends.{Ends}
use zaraamad_portal_be.Identity.{CurrentUser}
use zaraamad_portal_be.Access.{has_access}
use zaraamad_portal_be.Catalog.Lookup.{Joined, get_active_customer_or_404}
use zaraamad_portal_be.Catalog.Selection.{resolve_items, is_purchasable}
use zaraamad_portal_be.Catalog.Outcome.{HasActive, IsAccessible}
use zaraamad_portal_be.Catalog.Purchases.{
  CustomerServicePurchaseCreate, CustomerServicePurchaseUpdate, new_purchase, with_notes,
  put_purchase, given_items, create, update, with_totals, replace_purchase_items,
}
use zaraamad_portal_be.Catalog.Writes.{
  EditedTo, with_new, Wrote, create_purchase_outcome, update_purchase_outcome,
}
use zaraamad_portal_be.Catalog.Totals.{IsTotalled}
use zaraamad_portal_be.Catalog.Requests.{create_purchase, serve, serve-IsTotalled}
use zaraamad_portal_be.Catalog.Tree.{Tree, new_totals, customer_rows, get_tree}
use zaraamad_portal_be.Catalog.Summary.{Summary, get_summary}
use zaraamad_portal_be.Catalog.Prices.{
  EntryAddsUp, TreeAddsUp, get_tree-AddsUp, get_tree-get_summary,
}
use zaraamad_portal_be.Catalog.Configs.{CustomerServiceConfigCreate, item_service_id, bulk_upsert}
use zaraamad_portal_be.Catalog.Offers.{offer_at, offered, bulk_upsert-offered}
use zaraamad_portal_be.Catalog.Snapshots.{
  CustomerServiceSelectionSnapshotCreate, new_snapshot, create_snapshot,
}
use zaraamad_portal_be.Catalog.Selecting.{MaySelect, create_snapshot_outcome}

abbrev accepts : Database → Option Text
accepts d = none

abbrev fresh : ℕ → ℕ
fresh n = 100 + n

abbrev clerk : CurrentUser
clerk = record {
  user_id = codes "7";
  sub = none;
  roles = [];
  security_stamp = none;
  id = some 7;
  full_name = none;
  mobile = none;
  role = some UserRole.customer;
  customer_id = some 5;
  is_active = some true;
}

abbrev mine : Customer
mine = record {
  id = 5;
  name = some (codes "mine");
  manager_name = none;
  grade = some (pos 1);
  is_active = some true;
}

abbrev clerk_row : User
clerk_row = record {
  id = 7;
  full_name = some (codes "Ali");
  mobile = some (codes "09121234567");
  password = none;
  organization_name = none;
  organization_type = none;
  role = some UserRole.customer;
  is_active = some true;
  customer_id = some 5;
}

abbrev city : ServiceProject
city = record {
  id = 1;
  name = some (codes "city");
  description = none;
  sort_order = none;
  is_active = some true;
}

abbrev safety : ServiceGroup
safety = record {
  id = 2;
  name = some (codes "safety");
  description = none;
  sort_order = none;
  is_active = some true;
}

abbrev service : ℕ → Service
service k = record {
  id = k;
  project_id = 1;
  group_id = 2;
  name = some (codes "cameras");
  description = none;
  is_active = some true;
  sort_order = none;
}

abbrev config : ℕ → ℕ → Option ℕ → Bool → CustomerServiceConfig
config k service_id sale enabled = record {
  id = k;
  customer_id = 5;
  service_id = service_id;
  is_enabled = some enabled;
  sale_price = sale;
  support_price = 10;
  notes = none;
}

abbrev shop : Database
shop = record empty_database {
  customers = mine ∷ [];
  users = clerk_row ∷ [];
  service_projects = city ∷ [];
  service_groups = safety ∷ [];
  services = service 3 ∷ service 4 ∷ service 8 ∷ [];
  service_configs =
      config 10 3 (some 100) true ∷ config 11 4 none true ∷ config 12 8 (some 7) false ∷ [];
}

abbrev order : CustomerServicePurchaseCreate
order = record {
  notes = none;
  items =
      record { customer_service_config_id = 11 } ∷ record { customer_service_config_id = 10 } ∷ [];
}

abbrev disabled_order : CustomerServicePurchaseCreate
disabled_order = record { notes = none; items = record { customer_service_config_id = 12 } ∷ [] }

-- A configuration that is not enabled cannot be bought.
disabled_is_refused :
    (create accepts fresh 1 5 disabled_order clerk (begin shop)).0
    ≡ raised (http_exception 422 customer_service_config_not_purchasable)
unfolding create ◌>>=◌ get_active_customer_or_404 resolve_items new_purchase is_purchasable
disabled_is_refused = refl

-- A selection of 100 and 0 with support of 10 each.
abbrev stored_totals : Database → List (ℕ × ℕ × ℕ × ℕ)
stored_totals d =
    map
      (λ (p : CustomerServicePurchase).
        (p.selected_count, p.sale_total, p.support_total, p.grand_total))
      d.purchases

order_totals :
    stored_totals (create accepts fresh 1 5 order clerk (begin shop)).1.committed
    ≡ (2, 100, 20, 120) ∷ []
unfolding create ◌>>=◌ get_active_customer_or_404 with_totals resolve_items new_purchase
    is_purchasable
order_totals = refl

shop-IsTotalled : IsTotalled shop
shop-IsTotalled = record { agrees = λ k p e. cc }

serve-IsTotalled_example :
    IsTotalled (serve accepts fresh (create_purchase 1 5 order) clerk (begin shop)).1.committed
serve-IsTotalled_example =
    serve-IsTotalled accepts fresh (create_purchase 1 5 order) clerk shop refl shop-IsTotalled

create_purchase_outcome_example :
    Ends
      (create accepts fresh 1 5 order clerk (begin shop))
      (λ details t.
        (actor : ℕ) × (some 7 ≡ some actor)
        × HasActive shop 5
        × (has_access clerk 5 ≡ true)
        × (q : CustomerServicePurchase) × (e : Database) × EditedTo fresh
            (with_new (new_purchase 1 5 actor none) shop)
            (new_purchase 1 5 actor none)
            (some order.items)
            e
            q
        × Wrote q e details t)
      (λ e t. t.committed ≡ shop)
create_purchase_outcome_example = create_purchase_outcome accepts fresh 1 5 order clerk shop refl

abbrev bought : Database
bought = record shop { purchases = new_purchase 1 5 7 none ∷ [] }

abbrev change : CustomerServicePurchaseUpdate
change = record { notes = some (some (codes "more")); items = some (some order.items) }

update_purchase_outcome_example :
    Ends
      (update accepts fresh 1 change clerk (begin bought))
      (λ details t.
        (p : CustomerServicePurchase) × IsAccessible bought false clerk 1 p
        × (q : CustomerServicePurchase) × (e : Database) × EditedTo fresh
            (put_purchase p.id (with_notes change.notes) bought)
            (with_notes change.notes p)
            (given_items change.items)
            e
            q
        × Wrote q e details t)
      (λ e t. t.committed ≡ bought)
update_purchase_outcome_example = update_purchase_outcome accepts fresh 1 change clerk bought

updated_totals :
    stored_totals (update accepts fresh 1 change clerk (begin bought)).1.committed
    ≡ (2, 100, 20, 120) ∷ []
unfolding update ◌>>=◌ get_active_customer_or_404 with_totals new_purchase replace_purchase_items
    resolve_items with_notes is_purchasable
updated_totals = refl

abbrev as_stored : List Joined → List Joined
as_stored rows = rows

as_stored-Permᴰ : (rows : List Joined) → Permᴰ (as_stored rows) rows
as_stored-Permᴰ rows = Permᴰ.refl rows

get_tree-AddsUp_example :
    Ends
      (get_tree as_stored 5 clerk (begin shop))
      (λ tree t.
        (t ≡ begin shop) × (has_access clerk 5 ≡ true) × TreeAddsUp (customer_rows 5 shop) tree)
      (λ e t. t ≡ begin shop)
get_tree-AddsUp_example = get_tree-AddsUp as_stored as_stored-Permᴰ 5 clerk (begin shop)

abbrev result_or : {A : Type 0} → A → Result A → A
result_or a (ok b) = b
result_or a (raised e) = a

abbrev no_tree : Tree
no_tree = record { customer = mine; projects = []; totals = new_totals }

abbrev no_summary : Summary
no_summary = record {
  customer = record { id = 0; name = []; grade = pos 0 };
  groups = [];
  totals = record { sale_total = 0; support_total = 0; grand_total = 0 };
}

abbrev shop_tree : Tree
shop_tree = result_or no_tree (get_tree as_stored 5 clerk (begin shop)).0

abbrev shop_summary : Summary
shop_summary = result_or no_summary (get_summary as_stored 5 (begin shop)).0

shop_tree_lem : (get_tree as_stored 5 clerk (begin shop)).0 ≡ ok shop_tree
unfolding get_tree ◌>>=◌
shop_tree_lem = refl

shop_summary_lem : (get_summary as_stored 5 (begin shop)).0 ≡ ok shop_summary
unfolding get_summary ◌>>=◌ get_active_customer_or_404
shop_summary_lem = refl

get_tree-get_summary_example :
    (shop_tree.totals.sale_total ≡ shop_summary.totals.sale_total)
    × (shop_tree.totals.support_total ≡ shop_summary.totals.support_total)
    × (shop_tree.totals.grand_total ≡ shop_summary.totals.grand_total)
    × All EntryAddsUp shop_summary.groups
    × (shop_summary.totals.grand_total
        ≡ shop_summary.totals.sale_total + shop_summary.totals.support_total)
get_tree-get_summary_example =
    get_tree-get_summary as_stored as_stored as_stored-Permᴰ as_stored-Permᴰ 5 clerk (begin shop)
      shop_tree_lem shop_summary_lem

abbrev offers : List CustomerServiceConfigCreate
offers =
    record {
      service_id = 4;
      is_enabled = false;
      sale_price = some 9;
      support_price = 1;
      notes = none;
    }
    ∷ record {
      service_id = 3;
      is_enabled = true;
      sale_price = none;
      support_price = 2;
      notes = none;
    }
    ∷ []

bulk_upsert-offered_example :
    Ends
      (bulk_upsert accepts fresh as_stored 5 offers (begin shop))
      (λ rows t.
        (all_distinct (map item_service_id offers) ≡ true)
        × ((c k : ℕ)
            → offer_at t.committed c k
              ≡ (if c == 5 then offered offers k (offer_at shop c k) else offer_at shop c k)))
      (λ e t. t.committed ≡ shop)
bulk_upsert-offered_example = bulk_upsert-offered accepts fresh as_stored 5 offers shop

abbrev shot : CustomerServiceSelectionSnapshotCreate
shot = record { customer_id = 5; user_id = 7; payload = codes "{}" }

create_snapshot_outcome_example :
    Ends
      (create_snapshot accepts 1000 1 5 shot clerk (begin shop))
      (λ x t.
        (x ≡ new_snapshot 1000 1 7 shot)
        × (shot.customer_id ≡ 5)
        × HasActive shop 5
        × (has_access clerk 5 ≡ true)
        × ((u : User) × MaySelect shop 7 5 u)
        × ((is_role clerk.role UserRole.admin ≡ true) ⊎ (clerk.id ≡ some 7))
        × (t.committed ≡ record shop { snapshots = shop.snapshots ++ x ∷ [] }))
      (λ e t. t.committed ≡ shop)
create_snapshot_outcome_example = create_snapshot_outcome accepts 1000 1 5 shot clerk shop
