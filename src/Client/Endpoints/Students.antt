-- ===== src/Client/Endpoints/Students.antt =====
-- web/src/lib/api.ts: the calls `api.admin.students`.
use tbd_dev.Prelude.{ℕ, String, Option, none, List, [], ◌⧺◌, or_else}
use tbd_dev.Types.Reports.{StudentDetail, StudentListResponse}
use tbd_dev.Client.Calls.{Call, set_number, set_text}

pub record StudentsParams : Type 0 where
  pub skip : Option ℕ
  pub limit : Option ℕ
  pub search : Option String
  pub sort : Option String
  pub order : Option String

abbrev no_params : StudentsParams
no_params = record { skip = none; limit = none; search = none; sort = none; order = none }

-- The entries of the query string.
unfoldable pub list_query : (ℕ → String) → Option StudentsParams → List (String × String)
unfolding set_number set_text
list_query print given =
    let p = or_else given no_params in
    let with_skip = set_number print "skip" p.skip [] in
    let with_limit = set_number print "limit" p.limit with_skip in
    let with_search = set_text "search" p.search with_limit in
    let with_sort = set_text "sort" p.sort with_search in set_text "order" p.order with_sort

unfoldable pub list :
    (ℕ → String)
    → (List (String × String) → String)
    → Option StudentsParams
    → Call (Unit {0}) StudentListResponse
unfolding list_query
list print to_query given = record {
  method = none;
  path = "/admin/students?" ⧺ to_query (list_query print given);
  body = none;
}

unfoldable pub get : (Number : Type 0) → String → Call (Unit {0}) (StudentDetail Number)
get Number user_id = record { method = none; path = "/admin/students/" ⧺ user_id; body = none }
