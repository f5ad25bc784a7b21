-- ===== src/Client/Endpoints/AdminUsers.antt =====
-- web/src/lib/api.ts: the calls `api.admin.users`.
use tbd_dev.Prelude.{ℕ, String, Option, none, some, List, [], ◌⧺◌, or_else}
use tbd_dev.Types.Accounts.{AdminUser, AdminUserListResponse}
use tbd_dev.Client.Calls.{Call, set_number, set_text}

pub record AdminUsersParams : Type 0 where
  pub skip : Option ℕ
  pub limit : Option ℕ
  pub search : Option String
  pub role : Option String

abbrev no_params : AdminUsersParams
no_params = record { skip = none; limit = none; search = none; role = none }

-- The entries of the query string.
unfoldable pub list_query : (ℕ → String) → Option AdminUsersParams → List (String × String)
unfolding set_number set_text
list_query print given =
    let p = or_else given no_params in
    let with_skip = set_number print "skip" p.skip [] in
    let with_limit = set_number print "limit" p.limit with_skip in
    let with_search = set_text "search" p.search with_limit in set_text "role" p.role with_search

pub record RoleChange : Type 0 where
  pub role : String

unfoldable pub list :
    (ℕ → String)
    → (List (String × String) → String)
    → Option AdminUsersParams
    → Call (Unit {0}) AdminUserListResponse
unfolding list_query
list print to_query given = record {
  method = none;
  path = "/admin/users?" ⧺ to_query (list_query print given);
  body = none;
}

unfoldable pub get : String → Call (Unit {0}) AdminUser
get user_id = record { method = none; path = "/admin/users/" ⧺ user_id; body = none }

unfoldable pub update_role : String → String → Call RoleChange AdminUser
update_role user_id role = record {
  method = some "PATCH";
  path = "/admin/users/" ⧺ user_id ⧺ "/role";
  body = some (record { role = role });
}
