-- ===== src/Catalog/Totals.antt =====
-- Every purchase carries the totals of its items, whatever the purchase service of
-- app/modules/service_catalog/service.py is asked to do.
use zaraamad_portal_be.Base.{
  ℕ, ◌+◌, suc, true, false, not, ◌==◌, Option, none, some, List, [], ◌∷◌, ◌≡◌, ◌≢◌, refl, sym,
  subst, ◌∙◌, inl, inr, arith, length, keep, All, find_row, update_row, sum_of, keep_inserted,
  keep_untouched, find_row-update_row, find_row-update_row_ne, find_row_last, Bool-cases, ==_iff,
}
use zaraamad_portal_be.Database.{CustomerServicePurchase, CustomerServicePurchaseItem, Database}
use zaraamad_portal_be.Catalog.Lookup.{Joined}
use zaraamad_portal_be.Catalog.Purchases.{
  purchase_id_of, or_zero, add_totals, calculate_totals, item_of, new_items, with_totals,
  is_item_of, put_purchase, put_items,
}
use zaraamad_portal_be.Catalog.Selection.{CustomerServicePurchaseItemCreate}
use zaraamad_portal_be.Catalog.Outcome.{replaced}
use zaraamad_portal_be.Catalog.Writes.{Edits, with_new}

abbrev pub sale_of : CustomerServicePurchaseItem → ℕ
sale_of item = or_zero item.sale_price

abbrev pub support_of : CustomerServicePurchaseItem → ℕ
support_of item = item.support_price

-- The stored totals are those of the items.
pub record HasTotals (items : List CustomerServicePurchaseItem) (p : CustomerServicePurchase)
    : Type 0 where
  pub selected : p.selected_count ≡ length items
  pub sale : p.sale_total ≡ sum_of sale_of items
  pub support : p.support_total ≡ sum_of support_of items
  pub grand : p.grand_total ≡ sum_of sale_of items + sum_of support_of items

-- The purchase with the key has the totals of the items that point to it.
abbrev pub AgreesAt : Database → ℕ → Type 0
AgreesAt d k =
    (p : CustomerServicePurchase)
    → find_row purchase_id_of k d.purchases ≡ some p
    → HasTotals (keep (is_item_of k) d.purchase_items) p

pub record IsTotalled (d : Database) : Type 0 where
  pub agrees : (k : ℕ) → AgreesAt d k

abbrev joined_sale : Joined → ℕ
joined_sale row = or_zero row.config.sale_price

abbrev joined_support : Joined → ℕ
joined_support row = row.config.support_price

add_totals_lem :
    (a b : ℕ) (rows : List Joined)
    → ((add_totals a b rows).sale_total ≡ a + sum_of joined_sale rows)
      × ((add_totals a b rows).support_total ≡ b + sum_of joined_support rows)
      × ((add_totals a b rows).grand_total
          ≡ a + sum_of joined_sale rows + (b + sum_of joined_support rows))
unfolding add_totals
add_totals_lem a b [] = (omega arith, omega arith, omega arith)
add_totals_lem a b (row ∷ rows) =
    let (s, t, g) = add_totals_lem (a + joined_sale row) (b + joined_support row) rows in
    (omega (arith, s), omega (arith, t), omega (arith, g))

module _ (fresh : ℕ → ℕ) (k : ℕ) where
  new_items-is_item_of :
      (n : ℕ) (rows : List Joined)
      → All (λ item. is_item_of k item ≡ true) (new_items fresh n k rows)
  unfolding new_items item_of
  new_items-is_item_of n [] = tt
  new_items-is_item_of n (row ∷ rows) = (ground arith, new_items-is_item_of (suc n) rows)

  new_items_ne :
      (j : ℕ)
      → j ≢ k
      → (n : ℕ) (rows : List Joined)
      → All (λ item. is_item_of j item ≡ false) (new_items fresh n k rows)
  unfolding new_items item_of
  new_items_ne j ne n [] = tt
  new_items_ne j ne n (row ∷ rows) = (ground arith, new_items_ne j ne (suc n) rows)

  new_items-sums :
      (n : ℕ) (rows : List Joined)
      → (length (new_items fresh n k rows) ≡ length rows)
        × (sum_of sale_of (new_items fresh n k rows) ≡ sum_of joined_sale rows)
        × (sum_of support_of (new_items fresh n k rows) ≡ sum_of joined_support rows)
  unfolding new_items item_of
  new_items-sums n [] = (refl, refl, refl)
  new_items-sums n (row ∷ rows) =
      let (l, s, t) = new_items-sums (suc n) rows in
      (omega (arith, l), omega (arith, s), omega (arith, t))

  -- A replacement leaves the purchase exactly the new items …
  items_replaced :
      (rows : List Joined) (d : Database)
      → keep (is_item_of k) (put_items fresh k rows d).purchase_items ≡ new_items fresh 0 k rows
  items_replaced rows d =
      keep_inserted (is_item_of k) (λ item. not (is_item_of k item)) d.purchase_items
        (new_items fresh 0 k rows) (λ item h. ground arith) (new_items-is_item_of 0 rows)

  -- … and the other purchases theirs.
  items_kept :
      (j : ℕ) (rows : List Joined) (d : Database)
      → j ≢ k
      → keep (is_item_of j) (put_items fresh k rows d).purchase_items
        ≡ keep (is_item_of j) d.purchase_items
  items_kept j rows d ne =
      keep_untouched (is_item_of j) (λ item. not (is_item_of k item)) d.purchase_items
        (new_items fresh 0 k rows) (λ item h. ground arith) (new_items_ne j ne 0 rows)

  HasTotals-with_totals :
      (rows : List Joined) (p : CustomerServicePurchase)
      → HasTotals (new_items fresh 0 k rows) (with_totals rows p)
  unfolding with_totals calculate_totals
  HasTotals-with_totals rows p =
      let (l, s, t) = new_items-sums 0 rows in
      let (a, b, g) = add_totals_lem 0 0 rows in
      record {
        selected = sym l;
        sale = omega (arith, s, a);
        support = omega (arith, t, b);
        grand = omega (arith, s, t, g);
      }

  module _ (rows : List Joined) (d : Database) where
    AgreesAt-self : AgreesAt (replaced fresh k rows d) k
    unfolding with_totals
    AgreesAt-self p e =
        let (q, found, is) =
          find_row-update_row purchase_id_of k (with_totals rows) d.purchases (λ x. refl) e in
        subst (λ x. HasTotals (keep (is_item_of k) (replaced fresh k rows d).purchase_items) x)
          (sym is)
          (subst (λ items. HasTotals items (with_totals rows q)) (sym (items_replaced rows d))
            (HasTotals-with_totals rows q))

    AgreesAt-other : (j : ℕ) → j ≢ k → AgreesAt d j → AgreesAt (replaced fresh k rows d) j
    unfolding with_totals
    AgreesAt-other j ne h p e =
        subst (λ items. HasTotals items p) (sym (items_kept j rows d ne))
          (h p (
            sym (
              find_row-update_row_ne purchase_id_of j k (with_totals rows) d.purchases (λ x. refl)
                ne)
            ∙ e))

    -- `_replace_purchase_items` gives its purchase the totals of the new items, and if every other
    -- purchase had its own before, every one has them.
    pub IsTotalled-replaced :
        ((j : ℕ) → j ≢ k → AgreesAt d j) → IsTotalled (replaced fresh k rows d)
    IsTotalled-replaced h = record {
      agrees = λ j. elim (Bool-cases (j == k)) [
        | inl same ↦
            subst (AgreesAt (replaced fresh k rows d)) (sym ((==_iff j k).0 same)) AgreesAt-self
        | inr other ↦ let ne : j ≢ k = ground arith in AgreesAt-other j ne (h j ne)
      ];
    }

-- An assignment that leaves the totals alone.
pub record KeepsTotals (f : CustomerServicePurchase → CustomerServicePurchase) : Type 0 where
  pub keeps : (p : CustomerServicePurchase) → (f p).id ≡ p.id
  pub totals :
      (items : List CustomerServicePurchaseItem) (p : CustomerServicePurchase)
      → HasTotals items p
      → HasTotals items (f p)

pub IsTotalled-put_purchase :
    (k : ℕ) (f : CustomerServicePurchase → CustomerServicePurchase) (d : Database)
    → KeepsTotals f
    → IsTotalled d
    → IsTotalled (put_purchase k f d)
IsTotalled-put_purchase k f d fits h = record {
  agrees = λ j p e. elim (Bool-cases (j == k)) [
    | inl same ↦
        let jk : j ≡ k = (==_iff j k).0 same in
        let (q, found, is) = find_row-update_row purchase_id_of k f d.purchases fits.keeps (
          subst
            (λ i. find_row purchase_id_of i (update_row purchase_id_of k f d.purchases) ≡ some p) jk
            e) in
        subst (λ x. HasTotals (keep (is_item_of j) d.purchase_items) x) (sym is)
          (fits.totals (keep (is_item_of j) d.purchase_items) q (
            h.agrees j q
              (subst (λ i. find_row purchase_id_of i d.purchases ≡ some q) (sym jk) found)))
    | inr other ↦ h.agrees j p (
        sym (find_row-update_row_ne purchase_id_of j k f d.purchases fits.keeps (ground arith)) ∙ e)
  ];
}

-- A new purchase with no items yet.
pub AgreesAt-with_new :
    (p : CustomerServicePurchase) (d : Database)
    → IsTotalled d
    → (j : ℕ) → j ≢ p.id
    → AgreesAt (with_new p d) j
AgreesAt-with_new p d h j ne q e = h.agrees j q (find_row_last purchase_id_of j p d.purchases e ne)

pub Edits-IsTotalled :
    (fresh : ℕ → ℕ) (d : Database) (p q : CustomerServicePurchase)
    (items : Option (List CustomerServicePurchaseItemCreate)) {e : Database}
    → IsTotalled d
    → Edits fresh d p items e q
    → IsTotalled e
Edits-IsTotalled fresh d p q none h edits = subst IsTotalled (sym edits.0) h
Edits-IsTotalled fresh d p q (some items) h (rows, resolves, same, is) =
    subst IsTotalled (sym same) (IsTotalled-replaced fresh p.id rows d (λ j ne. h.agrees j))
