-- ===== src/Catalog/Requests.antt =====
-- Whatever the purchase service of app/modules/service_catalog/service.py is asked to do, every
-- purchase carries the totals of its items.
use zaraamad_portal_be.Base.{
  ℕ, Bool, true, not, Option, ◌≡◌, refl, sym, subst, ◌∙◌, arith, find_row, is_some,
}
use zaraamad_portal_be.Text.{Text}
use zaraamad_portal_be.Identity.{CurrentUser}
use zaraamad_portal_be.Database.{Database}
use zaraamad_portal_be.Session.{Action, begin}
use zaraamad_portal_be.Session.Ends.{Ends-mono, Ends-committed}
use zaraamad_portal_be.Catalog.Purchases.{
  purchase_id_of, new_purchase, with_notes, deactivated, given_items, CustomerServicePurchaseCreate,
  CustomerServicePurchaseUpdate, CustomerServicePurchaseDetails, create, update, deactivate,
}
use zaraamad_portal_be.Catalog.Writes.{
  create_purchase_outcome, update_purchase_outcome, deactivate_purchase_outcome,
}
use zaraamad_portal_be.Catalog.Totals.{
  IsTotalled, IsTotalled-replaced, IsTotalled-put_purchase, AgreesAt-with_new, Edits-IsTotalled,
}

-- A request to the purchase service.
pub data PurchaseRequest : Type 0 where
  create_purchase : ℕ → ℕ → CustomerServicePurchaseCreate → PurchaseRequest
  update_purchase : ℕ → CustomerServicePurchaseUpdate → PurchaseRequest
  deactivate_purchase : ℕ → PurchaseRequest

-- The key of a new purchase is new.
abbrev pub has_new_key : PurchaseRequest → Database → Bool
has_new_key (create_purchase new_id customer_id dto) d =
    not (is_some (find_row purchase_id_of new_id d.purchases))
has_new_key (update_purchase k dto) d = true
has_new_key (deactivate_purchase k) d = true

module _ (violation : Database → Option Text) (fresh : ℕ → ℕ) where
  abbrev pub serve : PurchaseRequest → CurrentUser → Action CustomerServicePurchaseDetails
  serve (create_purchase new_id customer_id dto) user =
      create violation fresh new_id customer_id dto user
  serve (update_purchase k dto) user = update violation fresh k dto user
  serve (deactivate_purchase k) user = deactivate violation fresh k user

  -- If every purchase has the totals of its items, then so it has after any request to the purchase
  -- service, whether the request is refused or not, where the key of a new purchase is new.
  pub serve-IsTotalled :
      (r : PurchaseRequest) (user : CurrentUser) (d : Database)
      → has_new_key r d ≡ true
      → IsTotalled d
      → IsTotalled (serve r user (begin d)).1.committed
  unfolding with_notes deactivated new_purchase
  serve-IsTotalled (create_purchase new_id customer_id dto) user d new_key h =
      Ends-committed IsTotalled (create violation fresh new_id customer_id dto user (begin d)) (
        Ends-mono _
          (λ details t (actor, who, active, allowed, q, e, edits, wrote).
            let (rows, resolves, same, is) = edits.0 in
            subst IsTotalled (sym (wrote.committed ∙ same)) (
              IsTotalled-replaced fresh new_id rows _
                (AgreesAt-with_new (new_purchase new_id customer_id actor dto.notes) d h)))
          (λ e t same. subst IsTotalled (sym same) h)
          (create_purchase_outcome violation fresh new_id customer_id dto user d (ground arith)))
  serve-IsTotalled (update_purchase k dto) user d new_key h =
      Ends-committed IsTotalled (update violation fresh k dto user (begin d)) (
        Ends-mono _
          (λ details t (p, accessible, q, e, edits, wrote). subst IsTotalled (sym wrote.committed) (
            Edits-IsTotalled fresh _ (with_notes dto.notes p) q (given_items dto.items)
              (IsTotalled-put_purchase p.id (with_notes dto.notes) d
                (record {
                  keeps = λ x. refl;
                  totals = λ items x has. record {
                    selected = has.selected;
                    sale = has.sale;
                    support = has.support;
                    grand = has.grand;
                  };
                })
                h)
              edits.0))
          (λ e t same. subst IsTotalled (sym same) h)
          (update_purchase_outcome violation fresh k dto user d))
  serve-IsTotalled (deactivate_purchase k) user d new_key h =
      Ends-committed IsTotalled (deactivate violation fresh k user (begin d)) (
        Ends-mono _
          (λ details t (p, accessible, wrote). subst IsTotalled (sym wrote.committed) (
            IsTotalled-put_purchase p.id deactivated d
              (record {
                keeps = λ x. refl;
                totals = λ items x has. record {
                  selected = has.selected;
                  sale = has.sale;
                  support = has.support;
                  grand = has.grand;
                };
              })
              h))
          (λ e t same. subst IsTotalled (sym same) h)
          (deactivate_purchase_outcome violation fresh k user d))
