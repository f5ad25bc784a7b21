-- ===== src/Client/Endpoints/Admin.antt =====
-- web/src/lib/api.ts: the calls `api.admin`.
use tbd_dev.Prelude.{ℕ, String, Option, none, List, [], ◌⧺◌, or_else}
use tbd_dev.Types.Reports.{ActivityResponse, AdminProjectListResponse, AdminStats, TrendResponse}
use tbd_dev.Client.Calls.{Call, set_number, set_text}

pub record AdminProjectsParams : Type 0 where
  pub skip : Option ℕ
  pub limit : Option ℕ
  pub search : Option String
  pub status : Option String
  pub tag : Option String
  pub sort : Option String
  pub order : Option String

abbrev no_params : AdminProjectsParams
no_params = record {
  skip = none;
  limit = none;
  search = none;
  status = none;
  tag = none;
  sort = none;
  order = none;
}

-- The entries of the query string.
unfoldable pub projects_query : (ℕ → String) → Option AdminProjectsParams → List (String × String)
unfolding set_number set_text
projects_query print given =
    let p = or_else given no_params in
    let with_skip = set_number print "skip" p.skip [] in
    let with_limit = set_number print "limit" p.limit with_skip in
    let with_search = set_text "search" p.search with_limit in
    let with_status = set_text "status" p.status with_search in
    let with_tag = set_text "tag" p.tag with_status in
    let with_sort = set_text "sort" p.sort with_tag in set_text "order" p.order with_sort

unfoldable pub stats : Call (Unit {0}) AdminStats
stats = record { method = none; path = "/admin/stats"; body = none }

unfoldable pub trends : (ℕ → String) → ℕ → Call (Unit {0}) TrendResponse
trends print days = record {
  method = none;
  path = "/admin/stats/trends?days=" ⧺ print days;
  body = none;
}

unfoldable pub activity : (ℕ → String) → ℕ → Call (Unit {0}) ActivityResponse
activity print limit = record {
  method = none;
  path = "/admin/activity?limit=" ⧺ print limit;
  body = none;
}

unfoldable pub projects :
    (ℕ → String)
    → (List (String × String) → String)
    → Option AdminProjectsParams
    → Call (Unit {0}) AdminProjectListResponse
unfolding projects_query
projects print to_query given = record {
  method = none;
  path = "/admin/projects?" ⧺ to_query (projects_query print given);
  body = none;
}
