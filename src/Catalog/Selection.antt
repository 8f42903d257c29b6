-- ===== src/Catalog/Selection.antt =====
-- `CustomerServicePurchaseSelectionPolicy` of app/modules/service_catalog/service.py: the
-- configurations that a purchase selects, joined with their services.
use zaraamad_portal_be.Base.{
  ℕ, Bool, not, ◌&&◌, ◌==◌, List, [], ◌∷◌, map, keep, find_row, filter_map, member, all_distinct,
}
use zaraamad_portal_be.Http.{
  duplicate_customer_service_purchase_selection, customer_service_config_selection_invalid,
  customer_service_config_not_purchasable,
}
use zaraamad_portal_be.Database.{CustomerServiceConfig, Database, truthy}
use zaraamad_portal_be.Session.{Action, pure, reads, fail_if, or_fail, ◌>>=◌, ◌>>◌}
use zaraamad_portal_be.Catalog.Lookup.{Joined, join_config}

pub record CustomerServicePurchaseItemCreate : Type 0 where
  pub customer_service_config_id : ℕ

abbrev pub selected_id : CustomerServicePurchaseItemCreate → ℕ
selected_id item = item.customer_service_config_id

abbrev pub joined_config_id : Joined → ℕ
joined_config_id row = row.config.id

-- The rows of the query of `resolve_items`.
abbrev pub selection_rows : ℕ → List ℕ → Database → List Joined
selection_rows customer_id config_ids d = filter_map (join_config d) (
    keep (λ (c : CustomerServiceConfig). c.customer_id == customer_id && member c.id config_ids)
      d.service_configs)

unfoldable pub is_purchasable : Joined → Bool
is_purchasable selection =
    truthy selection.config.is_enabled
    && (truthy selection.service.is_active
        && (truthy selection.group.is_active && truthy selection.project.is_active))

-- `validate_payload`
abbrev pub validate_payload : List CustomerServicePurchaseItemCreate → Action (Unit {0})
validate_payload items =
    fail_if (not (all_distinct (map selected_id items))) 422
      duplicate_customer_service_purchase_selection

-- One item of the loop of `resolve_items`; `selection_map` finds a row by its primary key.
abbrev pub select_item : List Joined → ℕ → Action Joined
select_item rows config_id = do
  selection ←
      or_fail (find_row joined_config_id config_id rows) 422
        customer_service_config_selection_invalid
  fail_if (not (is_purchasable selection)) 422 customer_service_config_not_purchasable
  pure selection

unfoldable pub select_items : List Joined → List ℕ → Action (List Joined)
select_items rows [] = pure []
select_items rows (config_id ∷ config_ids) = do
  selection ← select_item rows config_id
  selections ← select_items rows config_ids
  pure (selection ∷ selections)

unfoldable pub resolve_items : ℕ → List CustomerServicePurchaseItemCreate → Action (List Joined)
unfolding select_items
resolve_items customer_id items = do
  validate_payload items
  rows ← reads (selection_rows customer_id (map selected_id items))
  select_items rows (map selected_id items)
