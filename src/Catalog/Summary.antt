-- ===== src/Catalog/Summary.antt =====
-- `CustomerPricingSummaryService` of app/modules/service_catalog/service.py: the prices of the
-- services of a customer, by project and group. `order_by` stands for the order that the database
-- returns the rows in.
use zaraamad_portal_be.Base.{
  ℕ, ◌+◌, Bool, ◌&&◌, ◌==◌, Option, none, some, List, [], ◌∷◌, ◌++◌, if◌then◌else◌, upsert,
}
use zaraamad_portal_be.Base.Int.{ℤ}
use zaraamad_portal_be.Text.{Text, codes}
use zaraamad_portal_be.Session.{Action, pure, reads, or_raise, ◌>>=◌}
use zaraamad_portal_be.Catalog.Lookup.{Joined, get_active_customer_or_404}
use zaraamad_portal_be.Catalog.Tree.{TreeService, config_is_enabled, line_of, customer_rows}

-- CustomerPricingSummaryCustomer
pub record SummaryCustomer : Type 0 where
  pub id : ℕ
  pub name : Text
  pub grade : ℤ

-- CustomerPricingSummaryGroupTotals and CustomerPricingSummaryTotals
pub record PriceTotals : Type 0 where
  pub sale_total : ℕ
  pub support_total : ℕ
  pub grand_total : ℕ

-- CustomerPricingSummaryGroup, of which an item has the columns of a line of the tree.
pub record SummaryGroup : Type 0 where
  pub project_id : ℕ
  pub project_name : Option Text
  pub group_id : ℕ
  pub group_name : Option Text
  pub items : List TreeService
  pub totals : PriceTotals

-- CustomerPricingSummaryResult
pub record Summary : Type 0 where
  pub customer : SummaryCustomer
  pub groups : List SummaryGroup
  pub totals : PriceTotals

-- `str(customer["name"])`
abbrev str_of : Option Text → Text
str_of none = codes "None"
str_of (some name) = name

abbrev pub is_entry : Joined → SummaryGroup → Bool
is_entry row entry = entry.project_id == row.project.id && entry.group_id == row.group.id

abbrev pub new_entry : Joined → SummaryGroup
new_entry row = record {
  project_id = row.project.id;
  project_name = row.project.name;
  group_id = row.group.id;
  group_name = row.group.name;
  items = [];
  totals = record { sale_total = 0; support_total = 0; grand_total = 0 };
}

-- `if config.is_enabled:` the line is added to the totals of the group.
unfoldable pub add_line : TreeService → PriceTotals → PriceTotals
add_line line t =
    if config_is_enabled line.config
    then record {
      sale_total = t.sale_total + line.line_sale_total;
      support_total = t.support_total + line.line_support_total;
      grand_total = t.grand_total + line.line_grand_total;
    }
    else t

unfoldable pub add_to_entry : Joined → SummaryGroup → SummaryGroup
add_to_entry row entry = record entry {
  items = entry.items ++ line_of row ∷ [];
  totals = add_line (line_of row) entry.totals;
}

-- `total_sale` and `total_support`
unfoldable pub add_enabled : TreeService → ℕ × ℕ → ℕ × ℕ
add_enabled line (total_sale, total_support) =
    if config_is_enabled line.config
    then (total_sale + line.line_sale_total, total_support + line.line_support_total)
    else (total_sale, total_support)

unfoldable pub summarize : List Joined → List SummaryGroup → ℕ × ℕ → List SummaryGroup × (ℕ × ℕ)
unfolding add_to_entry
summarize [] entries totals = (entries, totals)
summarize (row ∷ rows) entries totals =
    summarize rows (upsert (is_entry row) (new_entry row) (add_to_entry row) entries)
      (add_enabled (line_of row) totals)

module _ (order_by : List Joined → List Joined) where
  unfoldable pub get_summary : ℕ → Action Summary
  unfolding summarize
  get_summary customer_id = do
    customer ← get_active_customer_or_404 customer_id
    rows ← reads (customer_rows customer_id)
    let result = summarize (order_by rows) [] (0, 0)
    grade ← or_raise customer.grade
    pure (record {
      customer = record { id = customer.id; name = str_of customer.name; grade = grade };
      groups = result.0;
      totals = record {
        sale_total = result.1.0;
        support_total = result.1.1;
        grand_total = result.1.0 + result.1.1;
      };
    })
