-- ===== src/Catalog/Prices.antt =====
-- The service tree and the pricing summary of app/modules/service_catalog/service.py agree on the
-- totals, and both add up.
use mathlib.Core.List.{Permᴰ}
use zaraamad_portal_be.Base.{
  ℕ, ◌+◌, true, some, List, [], ◌∷◌, ◌≡◌, refl, sym, ◌∙◌, arith, All, sum_of, sum_of-append,
  All-upsert, sum_of-Permᴰ, upsert, find_row, provided-some,
}
use zaraamad_portal_be.Http.{ok}
use zaraamad_portal_be.Session.{Session, or_raise}
use zaraamad_portal_be.Session.Ends.{
  Ends, Ends-ok, Ends-reads, Ends-or_fail, Ends-or_raise, Ends-bind, Checks, Ends-checks,
  Ends-returned,
}
use zaraamad_portal_be.Identity.{CurrentUser}
use zaraamad_portal_be.Access.{has_access, validate_customer_access}
use zaraamad_portal_be.Users.{customer_id_of}
use zaraamad_portal_be.Catalog.Lookup.{Joined, customer_is_active, get_active_customer_or_404}
use zaraamad_portal_be.Catalog.Outcome.{active_customer_lem, access_lem}
use zaraamad_portal_be.Catalog.Tree.{
  Tree, line_sale_total, line_support_total, line_of, new_totals, customer_rows,
  get_active_tree_customer, get_tree,
}
use zaraamad_portal_be.Catalog.AddsUp.{
  Column, sale, support, grand, column, line_column, ProjectAddsUp, project_column, add_rows-AddsUp,
  add_rows-column, column-new_totals,
}
use zaraamad_portal_be.Catalog.Summary.{
  Summary, SummaryGroup, PriceTotals, add_line, add_to_entry, add_enabled, is_entry, new_entry,
  summarize, get_summary,
}

abbrev sale_line : Joined → ℕ
sale_line row = line_column sale (line_of row)

abbrev support_line : Joined → ℕ
support_line row = line_column support (line_of row)

-- A line that is not enabled costs nothing.
add_enabled_lem :
    (row : Joined) (t : ℕ × ℕ)
    → ((add_enabled (line_of row) t).0 ≡ t.0 + sale_line row)
      × ((add_enabled (line_of row) t).1 ≡ t.1 + support_line row)
unfolding add_enabled line_of line_sale_total line_support_total
add_enabled_lem row (a, b) = (ground arith, ground arith)

-- The totals of a group of the summary are those of its items.
pub record EntryAddsUp (entry : SummaryGroup) : Type 0 where
  pub sales : entry.totals.sale_total ≡ sum_of (line_column sale) entry.items
  pub supports : entry.totals.support_total ≡ sum_of (line_column support) entry.items
  pub grands : entry.totals.grand_total ≡ sum_of (line_column grand) entry.items

add_line_lem :
    (row : Joined) (t : PriceTotals)
    → ((add_line (line_of row) t).sale_total ≡ t.sale_total + sale_line row)
      × ((add_line (line_of row) t).support_total ≡ t.support_total + support_line row)
      × ((add_line (line_of row) t).grand_total ≡ t.grand_total + line_column grand (line_of row))
unfolding add_line line_of line_sale_total line_support_total
add_line_lem row t = (ground arith, ground arith, ground arith)

add_to_entry-AddsUp :
    (row : Joined) (entry : SummaryGroup) → EntryAddsUp entry → EntryAddsUp (add_to_entry row entry)
unfolding add_to_entry
add_to_entry-AddsUp row entry h =
    let (s, t, g) = add_line_lem row entry.totals in
    record {
      sales =
          omega
            (arith, s, h.sales, sum_of-append (line_column sale) entry.items (line_of row ∷ []));
      supports = omega (
        arith,
        t,
        h.supports,
        sum_of-append (line_column support) entry.items (line_of row ∷ []),
      );
      grands =
          omega
            (arith, g, h.grands, sum_of-append (line_column grand) entry.items (line_of row ∷ []));
    }

summarize_lem :
    (rows : List Joined) (entries : List SummaryGroup) (t : ℕ × ℕ)
    → All EntryAddsUp entries
    → let (groups, totals) = summarize rows entries t in
      All EntryAddsUp groups
      × (totals.0 ≡ t.0 + sum_of sale_line rows)
      × (totals.1 ≡ t.1 + sum_of support_line rows)
unfolding summarize
summarize_lem [] entries t all = (all, omega arith, omega arith)
summarize_lem (row ∷ rows) entries t all =
    let (groups, a, b) =
      summarize_lem rows (upsert (is_entry row) (new_entry row) (add_to_entry row) entries)
        (add_enabled (line_of row) t)
        (All-upsert (is_entry row) (new_entry row) (add_to_entry row) EntryAddsUp entries
          (add_to_entry-AddsUp row) (record { sales = refl; supports = refl; grands = refl })
          all) in
    let (c, e) = add_enabled_lem row t in (groups, omega (arith, a, c), omega (arith, b, e))

tree_customer_lem :
    (k : ℕ) (s : Session)
    → Checks
        (get_active_tree_customer k)
        s
        (λ c. find_row customer_id_of k s.current.customers ≡ some c)
unfolding get_active_tree_customer
tree_customer_lem k s = record {
  checks =
      Ends-reads (λ d. find_row customer_id_of k d.customers) _ s
        (Ends-or_fail _ 404 _ s
          (λ c e. (
            refl,
            (provided-some customer_is_active (find_row customer_id_of k s.current.customers) e).0,
          ))
          refl);
}

-- What the tree holds: it adds up on every level, and every row of the query is counted once.
pub record TreeAddsUp (rows : List Joined) (tree : Tree) : Type 0 where
  pub projects : All ProjectAddsUp tree.projects
  pub overall : (c : Column) → column c tree.totals ≡ sum_of (project_column c) tree.projects
  pub counted :
      (c : Column) → column c tree.totals ≡ sum_of (λ row. line_column c (line_of row)) rows

-- What the summary holds.
pub record SummaryAddsUp (rows : List Joined) (summary : Summary) : Type 0 where
  pub groups : All EntryAddsUp summary.groups
  pub sales : summary.totals.sale_total ≡ sum_of sale_line rows
  pub supports : summary.totals.support_total ≡ sum_of support_line rows
  pub grands : summary.totals.grand_total ≡ summary.totals.sale_total + summary.totals.support_total

module _ (order_by : List Joined → List Joined)
    (reorders : (rows : List Joined) → Permᴰ (order_by rows) rows) where
  -- A tree is refused to a user who may not act for the customer, and otherwise adds up: the totals
  -- of a group are those of its lines, of a project those of its groups, and of the tree those of
  -- its projects, and they count every row of the query once. The session is left alone.
  pub get_tree-AddsUp :
      (k : ℕ) (user : CurrentUser) (s : Session)
      → Ends
          (get_tree order_by k user s)
          (λ tree t.
            (t ≡ s) × (has_access user k ≡ true) × TreeAddsUp (customer_rows k s.current) tree)
          (λ e t. t ≡ s)
  unfolding get_tree
  get_tree-AddsUp k user s =
      Ends-checks (get_active_tree_customer k) _ s (tree_customer_lem k s)
        (λ customer found.
          Ends-checks (validate_customer_access user k) _ s (access_lem user k s)
            (λ _ allowed. Ends-reads (customer_rows k) _ s (
              let rows = order_by (customer_rows k s.current) in
              let (projects, overall) = add_rows-AddsUp rows [] new_totals tt column-new_totals in
              Ends-ok (
                refl,
                allowed,
                record {
                  projects = projects;
                  overall = overall;
                  counted = λ c.
                      add_rows-column c rows [] new_totals
                      ∙ omega (
                        arith,
                        column-new_totals c,
                        sum_of-Permᴰ (λ row. line_column c (line_of row))
                            (reorders (customer_rows k s.current)),
                      );
                },
              )))
            (λ e. refl))
        (λ e. refl)

  get_summary-AddsUp :
      (k : ℕ) (s : Session)
      → Ends
          (get_summary order_by k s)
          (λ summary t. (t ≡ s) × SummaryAddsUp (customer_rows k s.current) summary)
          (λ e t. t ≡ s)
  unfolding get_summary
  get_summary-AddsUp k s =
      Ends-checks (get_active_customer_or_404 k) _ s (active_customer_lem k s)
        (λ customer active. Ends-reads (customer_rows k) _ s (
          let rows = order_by (customer_rows k s.current) in
          let (groups, a, b) = summarize_lem rows [] (0, 0) tt in
          Ends-bind (or_raise customer.grade) _ s (
            Ends-or_raise customer.grade s
              (λ grade e. Ends-ok (
                refl,
                record {
                  groups = groups;
                  sales =
                      omega
                        (arith, a, sum_of-Permᴰ sale_line (reorders (customer_rows k s.current)));
                  supports =
                      omega (
                        arith,
                        b,
                        sum_of-Permᴰ support_line (reorders (customer_rows k s.current)),
                      );
                  grands = refl;
                },
              ))
              refl)))
        (λ e. refl)

sum_of-grand :
    (rows : List Joined)
    → sum_of (λ row. line_column grand (line_of row)) rows
      ≡ sum_of sale_line rows + sum_of support_line rows
unfolding line_of
sum_of-grand [] = refl
sum_of-grand (row ∷ rows) = omega (arith, sum_of-grand rows)

module _ (tree_order summary_order : List Joined → List Joined)
    (tree_reorders : (rows : List Joined) → Permᴰ (tree_order rows) rows)
    (summary_reorders : (rows : List Joined) → Permᴰ (summary_order rows) rows) where
  -- However their queries order the rows, the tree and the pricing summary that the same customer
  -- gets have the same sale, support and grand totals, the totals of a group of the summary are
  -- those of its items, and the grand total is the sum of the other two.
  pub get_tree-get_summary :
      (k : ℕ) (user : CurrentUser) (s : Session) {tree : Tree} {summary : Summary}
      → (get_tree tree_order k user s).0 ≡ ok tree
      → (get_summary summary_order k s).0 ≡ ok summary
      → (tree.totals.sale_total ≡ summary.totals.sale_total)
        × (tree.totals.support_total ≡ summary.totals.support_total)
        × (tree.totals.grand_total ≡ summary.totals.grand_total)
        × All EntryAddsUp summary.groups
        × (summary.totals.grand_total ≡ summary.totals.sale_total + summary.totals.support_total)
  get_tree-get_summary k user s {tree} {summary} got summed =
      let (_, _, adds) =
        Ends-returned (get_tree tree_order k user s)
          (get_tree-AddsUp tree_order tree_reorders k user s) got in
      let (_, sums) =
        Ends-returned (get_summary summary_order k s)
          (get_summary-AddsUp summary_order summary_reorders k s) summed in
      (
        adds.counted sale ∙ sym sums.sales,
        adds.counted support ∙ sym sums.supports,
        omega (
          arith,
          adds.counted grand,
          sum_of-grand (customer_rows k s.current),
          sums.sales,
          sums.supports,
          sums.grands,
        ),
        sums.groups,
        sums.grands,
      )
