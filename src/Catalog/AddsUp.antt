-- ===== src/Catalog/AddsUp.antt =====
-- The totals of the service tree of app/modules/service_catalog/service.py add up on every level.
use zaraamad_portal_be.Base.{
  ℕ, ◌+◌, List, [], ◌∷◌, ◌≡◌, refl, arith, if◌then◌else◌, All, sum_of, sum_of-append, sum_of-upsert,
  All-upsert, upsert,
}
use zaraamad_portal_be.Catalog.Lookup.{Joined}
use zaraamad_portal_be.Catalog.Tree.{
  TreeTotals, TreeService, TreeGroup, TreeProject, new_totals, config_is_enabled, line_of,
  accumulate_totals, is_group, is_project, new_group_node, new_project_node, add_to_group,
  add_to_project, add_rows,
}

-- The columns of the totals, and what a line adds to each.
pub data Column : Type 0 where
  configured enabled sale support grand : Column

abbrev pub column : Column → TreeTotals → ℕ
column configured t = t.configured_service_count
column enabled t = t.enabled_service_count
column sale t = t.sale_total
column support t = t.support_total
column grand t = t.grand_total

abbrev pub line_column : Column → TreeService → ℕ
line_column configured line = 1
line_column enabled line = if config_is_enabled line.config then 1 else 0
line_column sale line = line.line_sale_total
line_column support line = line.line_support_total
line_column grand line = line.line_grand_total

abbrev pub group_column : Column → TreeGroup → ℕ
group_column c node = column c node.totals

abbrev pub project_column : Column → TreeProject → ℕ
project_column c node = column c node.totals

-- The totals of a group are those of its lines, and the totals of a project those of its groups.
abbrev pub GroupAddsUp : TreeGroup → Type 0
GroupAddsUp node = (c : Column) → group_column c node ≡ sum_of (line_column c) node.services

abbrev pub ProjectAddsUp : TreeProject → Type 0
ProjectAddsUp node =
    ((c : Column) → project_column c node ≡ sum_of (group_column c) node.groups)
    × All GroupAddsUp node.groups

column-accumulate_totals :
    (c : Column) (line : TreeService) (t : TreeTotals)
    → column c (accumulate_totals line t) ≡ column c t + line_column c line
unfolding accumulate_totals
column-accumulate_totals configured line t = refl
column-accumulate_totals enabled line t = refl
column-accumulate_totals sale line t = refl
column-accumulate_totals support line t = refl
column-accumulate_totals grand line t = refl

pub column-new_totals : (c : Column) → column c new_totals ≡ 0
column-new_totals configured = refl
column-new_totals enabled = refl
column-new_totals sale = refl
column-new_totals support = refl
column-new_totals grand = refl

module _ (row : Joined) where
  add_to_group-column :
      (c : Column) (node : TreeGroup)
      → group_column c (add_to_group row node) ≡ group_column c node + line_column c (line_of row)
  unfolding add_to_group
  add_to_group-column c node = column-accumulate_totals c (line_of row) node.totals

  add_to_group-AddsUp : (node : TreeGroup) → GroupAddsUp node → GroupAddsUp (add_to_group row node)
  unfolding add_to_group
  add_to_group-AddsUp node h c = omega (
    arith,
    h c,
    column-accumulate_totals c (line_of row) node.totals,
    sum_of-append (line_column c) node.services (line_of row ∷ []),
  )

  add_to_project-column :
      (c : Column) (node : TreeProject)
      → project_column c (add_to_project row node)
        ≡ project_column c node + line_column c (line_of row)
  unfolding add_to_project
  add_to_project-column c node = column-accumulate_totals c (line_of row) node.totals

  add_to_project-AddsUp :
      (node : TreeProject) → ProjectAddsUp node → ProjectAddsUp (add_to_project row node)
  unfolding add_to_project
  add_to_project-AddsUp node (total, groups) = (
    λ c. omega (
      arith,
      total c,
      column-accumulate_totals c (line_of row) node.totals,
      sum_of-upsert (is_group row) (new_group_node row) (add_to_group row) (group_column c)
          (line_column c (line_of row)) node.groups (add_to_group-column c) (column-new_totals c),
    ),
    All-upsert (is_group row) (new_group_node row) (add_to_group row) GroupAddsUp node.groups
        add_to_group-AddsUp (λ c. column-new_totals c) groups,
  )

-- The nodes after the loop: every project adds up, and the overall totals are those of the projects.
pub add_rows-AddsUp :
    (rows : List Joined) (projects : List TreeProject) (totals : TreeTotals)
    → All ProjectAddsUp projects
    → ((c : Column) → column c totals ≡ sum_of (project_column c) projects)
    → let (nodes, overall) = add_rows rows projects totals in
      All ProjectAddsUp nodes × ((c : Column) → column c overall ≡ sum_of (project_column c) nodes)
unfolding add_rows
add_rows-AddsUp [] projects totals all sums = (all, sums)
add_rows-AddsUp (row ∷ rows) projects totals all sums =
    add_rows-AddsUp rows
      (upsert (is_project row) (new_project_node row) (add_to_project row) projects)
      (accumulate_totals (line_of row) totals)
      (All-upsert (is_project row) (new_project_node row) (add_to_project row) ProjectAddsUp
        projects (add_to_project-AddsUp row) (λ c. column-new_totals c, tt) all)
      (λ c. omega (
        arith,
        sums c,
        column-accumulate_totals c (line_of row) totals,
        sum_of-upsert (is_project row) (new_project_node row) (add_to_project row)
            (project_column c) (line_column c (line_of row)) projects (add_to_project-column row c)
            (column-new_totals c),
      ))

-- The overall totals are those of the lines of all rows: no row is lost or counted twice.
pub add_rows-column :
    (c : Column) (rows : List Joined) (projects : List TreeProject) (totals : TreeTotals)
    → column c (add_rows rows projects totals).1
      ≡ column c totals + sum_of (λ row. line_column c (line_of row)) rows
unfolding add_rows
add_rows-column c [] projects totals = omega arith
add_rows-column c (row ∷ rows) projects totals = omega (
  arith,
  add_rows-column c rows
      (upsert (is_project row) (new_project_node row) (add_to_project row) projects)
      (accumulate_totals (line_of row) totals),
  column-accumulate_totals c (line_of row) totals,
)
