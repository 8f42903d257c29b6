-- ===== src/Catalog/Selects.antt =====
-- What `resolve_items` of app/modules/service_catalog/service.py resolves a selection to.
use mathlib.Core.List.{Memᴰ}
use zaraamad_portal_be.Base.{
  ℕ, true, not, ◌&&◌, ◌==◌, some, List, [], ◌∷◌, map, ◌≡◌, refl, arith, ◌∙◌, keep, All,
  All-find_row, find_row, key-find_row, All-filter_map, Memᴰ-keep, member, all_distinct,
}
use zaraamad_portal_be.Database.{CustomerServiceConfig, Database}
use zaraamad_portal_be.Session.{Session, reads, fail_if, or_fail}
use zaraamad_portal_be.Session.Ends.{
  Ends, Ends-ok, Ends-bind, Ends-mono, Ends-or_fail, Ends-fail_if,
}
use zaraamad_portal_be.Catalog.Lookup.{Joined, join_config}
use zaraamad_portal_be.Catalog.Selection.{
  CustomerServicePurchaseItemCreate, selected_id, joined_config_id, selection_rows, is_purchasable,
  validate_payload, select_item, select_items, resolve_items,
}

-- A row that the query finds: it joins a configuration that the customer has.
abbrev pub IsRowOf : Database → ℕ → Joined → Type 0
IsRowOf d customer_id row =
    (c : CustomerServiceConfig) × Memᴰ c d.service_configs
    × (c.customer_id ≡ customer_id)
    × (join_config d c ≡ some row)

-- The configuration is enabled, and its service, its group and its project are active.
abbrev pub IsPurchasable : Joined → Type 0
IsPurchasable row =
    (row.config.is_enabled ≡ some true)
    × (row.service.is_active ≡ some true)
    × (row.group.is_active ≡ some true)
    × (row.project.is_active ≡ some true)

is_purchasable_lem : (row : Joined) → is_purchasable row ≡ true → IsPurchasable row
unfolding is_purchasable
is_purchasable_lem row h = (ground arith, ground arith, ground arith, ground arith)

-- The rows of a resolved selection: in the order of the request, each of a configuration that the
-- customer has, and purchasable.
pub record Selects (d : Database) (customer_id : ℕ) (config_ids : List ℕ) (rows : List Joined)
    : Type 0 where
  pub in_order : map joined_config_id rows ≡ config_ids
  pub found : All (IsRowOf d customer_id) rows
  pub purchasable : All IsPurchasable rows

selection_rows-IsRowOf :
    (customer_id : ℕ) (config_ids : List ℕ) (d : Database)
    → All (IsRowOf d customer_id) (selection_rows customer_id config_ids d)
selection_rows-IsRowOf customer_id config_ids d =
    All-filter_map (IsRowOf d customer_id) (join_config d)
      (keep (λ (c : CustomerServiceConfig). c.customer_id == customer_id && member c.id config_ids)
        d.service_configs)
      (λ c m row e.
        let (n, h) =
          Memᴰ-keep
            (λ (c : CustomerServiceConfig). c.customer_id == customer_id && member c.id config_ids)
            c d.service_configs m in
        (c, n, ground arith, e))

module _ (d : Database) (customer_id : ℕ) (rows : List Joined)
    (known : All (IsRowOf d customer_id) rows) where
  select_item_lem :
      (config_id : ℕ) (s : Session)
      → Ends
          (select_item rows config_id s)
          (λ row t.
            (t ≡ s)
            × (joined_config_id row ≡ config_id)
            × IsRowOf d customer_id row
            × (is_purchasable row ≡ true))
          (λ e t. t ≡ s)
  select_item_lem config_id s =
      Ends-bind (or_fail (find_row joined_config_id config_id rows) 422 _) _ s (
        Ends-or_fail (find_row joined_config_id config_id rows) 422 _ s
          (λ row found. Ends-bind (fail_if (not (is_purchasable row)) 422 _) _ s (
            Ends-fail_if (not (is_purchasable row)) 422 _ s
              (λ fits. Ends-ok (
                refl,
                key-find_row joined_config_id config_id rows found,
                All-find_row joined_config_id (IsRowOf d customer_id) config_id rows known found,
                ground arith,
              ))
              refl))
          refl)

  select_items_lem :
      (config_ids : List ℕ) (s : Session)
      → Ends
          (select_items rows config_ids s)
          (λ selections t. (t ≡ s) × Selects d customer_id config_ids selections)
          (λ e t. t ≡ s)
  unfolding select_items
  select_items_lem [] s = Ends-ok (refl, record { in_order = refl; found = tt; purchasable = tt })
  select_items_lem (config_id ∷ config_ids) s = Ends-bind (select_item rows config_id) _ s (
      Ends-mono (select_item rows config_id s)
        (λ row t (same, is, from, fits). Ends-bind (select_items rows config_ids) _ t (
          Ends-mono (select_items rows config_ids t)
            (λ selections u (same', ih). Ends-ok (
              same' ∙ same,
              record {
                in_order = rw (is, ih.in_order) refl;
                found = (from, ih.found);
                purchasable = (is_purchasable_lem row fits, ih.purchasable);
              },
            ))
            (λ e u same'. same' ∙ same) (select_items_lem config_ids t)))
        (λ e t same. same) (select_item_lem config_id s))

-- A selection is refused, or its items are distinct and all of them purchasable configurations of
-- the customer; neither changes the session.
pub resolve_items_lem :
    (customer_id : ℕ) (items : List CustomerServicePurchaseItemCreate) (s : Session)
    → Ends
        (resolve_items customer_id items s)
        (λ rows t.
          (t ≡ s)
          × (all_distinct (map selected_id items) ≡ true)
          × Selects s.current customer_id (map selected_id items) rows)
        (λ e t. t ≡ s)
unfolding resolve_items
resolve_items_lem customer_id items s = Ends-bind (validate_payload items) _ s (
    Ends-fail_if (not (all_distinct (map selected_id items))) 422 _ s
      (λ distinct. Ends-bind (reads (selection_rows customer_id (map selected_id items))) _ s (
        Ends-ok (
          Ends-mono
            (select_items (selection_rows customer_id (map selected_id items) s.current)
              (map selected_id items) s)
            (λ rows t (same, selects). (same, ground arith, selects)) (λ e t same. same)
            (select_items_lem s.current customer_id
              (selection_rows customer_id (map selected_id items) s.current)
              (selection_rows-IsRowOf customer_id (map selected_id items) s.current)
              (map selected_id items) s))))
      refl)
