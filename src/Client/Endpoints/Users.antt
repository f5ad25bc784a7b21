-- ===== src/Client/Endpoints/Users.antt =====
-- web/src/lib/api.ts: the calls `api.users`.
use tbd_dev.Prelude.{ℕ, String, none, ◌⧺◌}
use tbd_dev.Types.Accounts.{UserSearchResponse}
use tbd_dev.Client.Calls.{Call}

unfoldable pub search_users :
    (String → String) → (ℕ → String) → String → ℕ → Call (Unit {0}) UserSearchResponse
search_users encode print q limit = record {
  method = none;
  path = "/users/search?q=" ⧺ encode q ⧺ "&limit=" ⧺ print limit;
  body = none;
}
