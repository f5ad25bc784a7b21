-- ===== src/Client/Endpoints/Quotas.antt =====
-- web/src/lib/api.ts: the calls `api.admin.quotas`.
use tbd_dev.Prelude.{ℕ, String, Option, none, some, List, [], ◌⧺◌, or_else}
use tbd_dev.Types.Platform.{Quota, QuotaListResponse, QuotaUpdate}
use tbd_dev.Client.Calls.{Call, set_number, set_text}

pub record QuotasParams : Type 0 where
  pub skip : Option ℕ
  pub limit : Option ℕ
  pub search : Option String

abbrev no_params : QuotasParams
no_params = record { skip = none; limit = none; search = none }

-- The entries of the query string.
unfoldable pub list_query : (ℕ → String) → Option QuotasParams → List (String × String)
unfolding set_number set_text
list_query print given =
    let p = or_else given no_params in
    let with_skip = set_number print "skip" p.skip [] in
    let with_limit = set_number print "limit" p.limit with_skip in
    set_text "search" p.search with_limit

unfoldable pub list :
    (ℕ → String)
    → (List (String × String) → String)
    → Option QuotasParams
    → Call (Unit {0}) QuotaListResponse
unfolding list_query
list print to_query given = record {
  method = none;
  path = "/admin/quotas?" ⧺ to_query (list_query print given);
  body = none;
}

unfoldable pub get : String → Call (Unit {0}) Quota
get project_id = record { method = none; path = "/admin/quotas/" ⧺ project_id; body = none }

unfoldable pub update : String → QuotaUpdate → Call QuotaUpdate Quota
update project_id body = record {
  method = some "PATCH";
  path = "/admin/quotas/" ⧺ project_id;
  body = some body;
}
