-- ===== src/Vulnerabilities/Listing.antt =====
-- The pages of `list_vulnerabilities`, app/modules/vulnerabilities/service.py.
use soc360_pymes.Prelude.{ℕ, ◌≤◌, ◌≡◌, ◌∙◌, Bool, Option, ◌&&◌, length}
use soc360_pymes.Sql.{select, count_where}
use soc360_pymes.Paging.{
  newest_first, NewestFirst, newest_first-NewestFirst, count_where-newest_first,
  length-newest_first, length-select, count_where-select, take-length,
}
use soc360_pymes.Database.{Vulnerability, World, vulnerabilities_of}
use soc360_pymes.Vulnerabilities.Service.{shown_to, from_scan, list_vulnerabilities}

module _ (tenant : Option ℕ) (scan : Option ℕ) (w : World) where
  abbrev listed : Vulnerability → Bool
  listed v = shown_to tenant v && from_scan scan v

  -- The page from the start that is long enough for the total holds the rows that the caller may see,
  -- newest first: it is ordered, has as many rows as the total says, and every test holds of as many
  -- of its rows as of the visible rows of the table.
  list_vulnerabilities-whole :
      (limit : ℕ)
      → (list_vulnerabilities tenant limit 0 scan w).1 ≤ limit
      → NewestFirst (λ v. v.created_at) (λ v. v.id) (list_vulnerabilities tenant limit 0 scan w).0
        × (length (list_vulnerabilities tenant limit 0 scan w).0
            ≡ (list_vulnerabilities tenant limit 0 scan w).1)
        × ((q : Vulnerability → Bool)
            → count_where q (list_vulnerabilities tenant limit 0 scan w).0
              ≡ count_where (λ v. listed v && q v) (vulnerabilities_of w))
  unfolding list_vulnerabilities
  list_vulnerabilities-whole limit h =
      let shown = select listed (vulnerabilities_of w) in
      let rows = newest_first (λ (v : Vulnerability). v.created_at) (λ v. v.id) shown in
      let size : length rows ≡ count_where listed (vulnerabilities_of w) =
        length-newest_first (λ v. v.created_at) (λ v. v.id) shown
        ∙ length-select listed (vulnerabilities_of w) in
      rw (take-length limit rows (rw size h)) (
        newest_first-NewestFirst (λ v. v.created_at) (λ v. v.id) shown,
        size,
        λ q.
            count_where-newest_first (λ v. v.created_at) (λ v. v.id) q shown
            ∙ count_where-select q listed (vulnerabilities_of w),
      )
