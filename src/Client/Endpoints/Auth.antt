-- ===== src/Client/Endpoints/Auth.antt =====
-- web/src/lib/api.ts: the calls `api.auth`.
use tbd_dev.Prelude.{String, none, some}
use tbd_dev.Types.Accounts.{LoginRequest, TokenResponse, UserInfo}
use tbd_dev.Client.Calls.{Call}

pub record AuthorizeUrl : Type 0 where
  pub authorize_url : String

unfoldable pub logout : Call (Unit {0}) (Unit {0})
logout = record { method = some "POST"; path = "/auth/logout"; body = none }

unfoldable pub login : LoginRequest → Call LoginRequest TokenResponse
login body = record { method = some "POST"; path = "/auth/login"; body = some body }

unfoldable pub me : Call (Unit {0}) UserInfo
me = record { method = none; path = "/auth/me"; body = none }

unfoldable pub github_authorize_url : Call (Unit {0}) AuthorizeUrl
github_authorize_url = record { method = none; path = "/auth/github"; body = none }

unfoldable pub github_unlink : Call (Unit {0}) (Unit {0})
github_unlink = record { method = some "DELETE"; path = "/auth/github/link"; body = none }
