-- ===== src/Sso/Bridge.antt =====
-- web/src/app/auth/sso-bridge/page.tsx: the page that adopts the session; and the effect of
-- web/src/app/login/page.tsx that shows why a sign-in through the auth service failed.
use tbd_dev.Prelude.{
  String, Bool, Option, none, some, ◌⧺◌, ◌&&◌, if◌then◌else◌, truthy, or_else, starts_with,
}
use tbd_dev.Types.Accounts.{UserInfo}
use tbd_dev.Client.{Reply}
use tbd_dev.Session.{Session, apply_session}
use tbd_dev.Sso.{Query, default_redirect}

-- What the page does: it goes to another page, or shows an error.
pub data Step : Type 0 where
  replace : String → Step
  show_error : String → Step

abbrev login_page : (String → String) → Option String → String
login_page encode error =
    if truthy error then "/login?sso_error=" ⧺ encode (or_else error "") else "/login"

-- `redirectParam && redirectParam.startsWith("/") ? redirectParam : "/dashboard"`
abbrev bridge_redirect : Option String → String
bridge_redirect none = default_redirect
bridge_redirect (some redirect) =
    if truthy (some redirect) && starts_with redirect "/" then redirect else default_redirect

-- `applySession(token).then(...)`
abbrev after_session : String → Session × Bool → Session × Step
after_session redirect (s, adopted) =
    if adopted
    then (s, replace redirect)
    else (s, show_error "SSO session could not be established. Please try signing in again.")

-- The effect, with the parameters of the fragment and the answer of `/auth/me`.
unfoldable pub bridge : (String → String) → Query → Reply UserInfo → Session → Session × Step
unfolding starts_with apply_session
bridge encode hash me s =
    if truthy (hash "token")
    then after_session (bridge_redirect (hash "redirect"))
        (apply_session (or_else (hash "token") "") me s)
    else (s, replace (login_page encode (hash "error")))
