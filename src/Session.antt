-- ===== src/Session.antt =====
-- web/src/contexts/auth.tsx: the session of one browser tab. The state is the provider's three
-- `useState` values and the item `tbd_token` of the local storage. A handler is its run from the
-- call to its end, over the answers of its requests.
pub mod Consistent
pub mod Outcomes
use tbd_dev.Prelude.{
  ℕ, String, Bool, true, false, Option, none, some, List, [], ◌∷◌, eqb, if◌then◌else◌, truthy, ◌==◌,
  ◌&&◌, not,
}
use tbd_dev.Types.Accounts.{TokenResponse, UserInfo}
use tbd_dev.Client.{Reply, ok, api_error, failed, set_token, clear_token}

pub record Session : Type 0 where
  pub user : Option UserInfo
  pub loading : Bool
  pub logout_error : Option String
  pub token : Option String

-- The state before the first effect, with what an earlier visit left in the storage.
abbrev pub initial : Option String → Session
initial stored = record { user = none; loading = true; logout_error = none; token = stored }

-- The effect on mount: a stored token is tried on `/auth/me`, and dropped if that fails.
unfoldable pub mount : Reply UserInfo → Session → Session
unfolding clear_token
mount me s =
    if truthy s.token
    then elim me [
      | ok u ↦ record s { user = some u; loading = false }
      | _ ↦ record s { token = clear_token s.token; loading = false }
    ]
    else record s { loading = false }

-- Whether an async callback returned, or threw to its caller.
pub data Outcome : Type 0 where
  returned thrown : Outcome

-- `login`: the second request is sent only if the first succeeds, and nothing is caught.
unfoldable pub login : Reply TokenResponse → Reply UserInfo → Session → Session × Outcome
unfolding set_token
login (ok res) (ok me) s =
    (record s { token = set_token res.access_token s.token; user = some me }, returned)
login (ok res) _ s = (record s { token = set_token res.access_token s.token }, thrown)
login _ _ s = (s, thrown)

abbrev pub not_confirmed : String
not_confirmed = "Sign-out was not confirmed. Please retry."

unfoldable pub logout : Reply (Unit {0}) → Session → Session
unfolding clear_token
logout (ok _) s = record s { logout_error = none; token = clear_token s.token; user = none }
logout _ s = record s { logout_error = some not_confirmed }

abbrev is_token_key : Option String → Bool
is_token_key none = false
is_token_key (some k) = k == "tbd_token"

-- A `storage` event from another tab: the key that changed (null when the whole storage was
-- cleared) and its new value.
unfoldable pub sync : Option String → Option String → Session → Session
sync key new_value s =
    if is_token_key key && not (truthy new_value) then record s { user = none } else s

unfoldable pub refresh_user : Reply UserInfo → Session → Session
unfolding clear_token
refresh_user (ok me) s = record s { user = some me }
refresh_user (api_error status detail) s =
    if eqb status 401 then record s { token = clear_token s.token; user = none } else s
refresh_user failed s = s

-- `applySession`: the result says whether the token was adopted.
unfoldable pub apply_session : String → Reply UserInfo → Session → Session × Bool
unfolding set_token clear_token
apply_session token (ok me) s = (record s { token = set_token token s.token; user = some me }, true)
apply_session token _ s = (record s { token = clear_token (set_token token s.token) }, false)
