-- ===== src/Catalog/Tree.antt =====
-- `CustomerServiceTreeService` of app/modules/service_catalog/service.py: the services of a customer
-- below their groups and projects, with totals on every level. `order_by` stands for the order that
-- the database returns the rows in.
use zaraamad_portal_be.Base.{
  ℕ, ◌+◌, Bool, ◌&&◌, ◌==◌, List, [], ◌∷◌, ◌++◌, if◌then◌else◌, keep, filter_map, find_row,
  provided, upsert,
}
use zaraamad_portal_be.Http.{customer_not_found}
use zaraamad_portal_be.Database.{
  Customer, ServiceProject, ServiceGroup, Service, CustomerServiceConfig, Database, truthy,
}
use zaraamad_portal_be.Session.{Action, pure, reads, or_fail, ◌>>=◌, ◌>>◌}
use zaraamad_portal_be.Identity.{CurrentUser}
use zaraamad_portal_be.Access.{validate_customer_access}
use zaraamad_portal_be.Users.{customer_id_of}
use zaraamad_portal_be.Catalog.Lookup.{Joined, join_config, customer_is_active}
use zaraamad_portal_be.Catalog.Purchases.{or_zero}

-- CustomerServiceTreeTotalsOut
pub record TreeTotals : Type 0 where
  pub configured_service_count : ℕ
  pub enabled_service_count : ℕ
  pub sale_total : ℕ
  pub support_total : ℕ
  pub grand_total : ℕ

-- CustomerServiceTreeServiceOut: the columns of the configuration and the service, and the line.
pub record TreeService : Type 0 where
  pub config : CustomerServiceConfig
  pub service : Service
  pub line_sale_total : ℕ
  pub line_support_total : ℕ
  pub line_grand_total : ℕ

-- CustomerServiceTreeGroupOut, CustomerServiceTreeProjectOut and CustomerServiceTreeOut
pub record TreeGroup : Type 0 where
  pub group : ServiceGroup
  pub totals : TreeTotals
  pub services : List TreeService

pub record TreeProject : Type 0 where
  pub project : ServiceProject
  pub totals : TreeTotals
  pub groups : List TreeGroup

pub record Tree : Type 0 where
  pub customer : Customer
  pub projects : List TreeProject
  pub totals : TreeTotals

-- `_new_totals`
abbrev pub new_totals : TreeTotals
new_totals = record {
  configured_service_count = 0;
  enabled_service_count = 0;
  sale_total = 0;
  support_total = 0;
  grand_total = 0;
}

abbrev pub config_is_enabled : CustomerServiceConfig → Bool
config_is_enabled c = truthy c.is_enabled

-- `x if config.is_enabled else 0`
unfoldable pub line_sale_total : CustomerServiceConfig → ℕ
line_sale_total c = if config_is_enabled c then or_zero c.sale_price else 0

unfoldable pub line_support_total : CustomerServiceConfig → ℕ
line_support_total c = if config_is_enabled c then c.support_price else 0

unfoldable pub line_of : Joined → TreeService
line_of row = record {
  config = row.config;
  service = row.service;
  line_sale_total = line_sale_total row.config;
  line_support_total = line_support_total row.config;
  line_grand_total = line_sale_total row.config + line_support_total row.config;
}

-- `_accumulate_totals`
unfoldable pub accumulate_totals : TreeService → TreeTotals → TreeTotals
accumulate_totals line t = record {
  configured_service_count = t.configured_service_count + 1;
  enabled_service_count =
      t.enabled_service_count + (if config_is_enabled line.config then 1 else 0);
  sale_total = t.sale_total + line.line_sale_total;
  support_total = t.support_total + line.line_support_total;
  grand_total = t.grand_total + line.line_grand_total;
}

-- One row of the loop of `get_tree`: its group node, its project node and the overall totals. The
-- keys of `project_bucket` and `group_bucket` recognise the nodes.
abbrev pub is_group : Joined → TreeGroup → Bool
is_group row node = node.group.id == row.group.id

abbrev pub is_project : Joined → TreeProject → Bool
is_project row node = node.project.id == row.project.id

abbrev pub new_group_node : Joined → TreeGroup
new_group_node row = record { group = row.group; totals = new_totals; services = [] }

abbrev pub new_project_node : Joined → TreeProject
new_project_node row = record { project = row.project; totals = new_totals; groups = [] }

unfoldable pub add_to_group : Joined → TreeGroup → TreeGroup
add_to_group row node = record node {
  services = node.services ++ line_of row ∷ [];
  totals = accumulate_totals (line_of row) node.totals;
}

unfoldable pub add_to_project : Joined → TreeProject → TreeProject
unfolding add_to_group
add_to_project row node = record node {
  groups = upsert (is_group row) (new_group_node row) (add_to_group row) node.groups;
  totals = accumulate_totals (line_of row) node.totals;
}

unfoldable pub add_rows :
    List Joined → List TreeProject → TreeTotals → List TreeProject × TreeTotals
unfolding add_to_project
add_rows [] projects totals = (projects, totals)
add_rows (row ∷ rows) projects totals =
    add_rows rows (upsert (is_project row) (new_project_node row) (add_to_project row) projects)
      (accumulate_totals (line_of row) totals)

-- The rows of the query: the configurations of the customer of which the service, the group and the
-- project are active.
abbrev pub row_is_active : Joined → Bool
row_is_active row =
    truthy row.service.is_active && (truthy row.group.is_active && truthy row.project.is_active)

abbrev pub customer_rows : ℕ → Database → List Joined
customer_rows customer_id d = keep row_is_active (
    filter_map (join_config d)
      (keep (λ (c : CustomerServiceConfig). c.customer_id == customer_id) d.service_configs))

-- `_get_active_customer_or_404`
unfoldable pub get_active_tree_customer : ℕ → Action Customer
get_active_tree_customer customer_id = do
  found ← reads (λ d. find_row customer_id_of customer_id d.customers)
  or_fail (provided customer_is_active found) 404 customer_not_found

module _ (order_by : List Joined → List Joined) where
  unfoldable pub get_tree : ℕ → CurrentUser → Action Tree
  unfolding get_active_tree_customer add_rows
  get_tree customer_id user = do
    customer ← get_active_tree_customer customer_id
    validate_customer_access user customer_id
    rows ← reads (customer_rows customer_id)
    let nodes = add_rows (order_by rows) [] new_totals
    pure (record { customer = customer; projects = nodes.0; totals = nodes.1 })
