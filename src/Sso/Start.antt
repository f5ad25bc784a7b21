-- ===== src/Sso/Start.antt =====
-- web/src/app/api/auth/oidc/login/route.ts, with `createPkcePair`, `b64url` and `authorizeEndpoint` of
-- web/src/lib/sso.ts: the start of the flow.
use Prim.Native.Char.{code}
use Prim.Native.String.{[] as ε, ◌∷◌ as ◌▸◌}
use tbd_dev.Prelude.{
  String, Bool, true, Option, none, some, List, [], ◌∷◌, ◌⧺◌, eqb, if◌then◌else◌, or_default,
  strip_end, starts_with,
}
use tbd_dev.Sso.{
  Settings, issuer, client_id, sso_configured, SetCookie, local, away, Redirect, Query,
  default_redirect,
}

-- `.replace(/\+/g, "-").replace(/\//g, "_")`
unfoldable pub url_characters : String → String
url_characters ε = ε
url_characters (c ▸ s) =
    let rest = url_characters s in
    if eqb (code c) b'+' then "-" ▸ rest else if eqb (code c) b'/' then "_" ▸ rest else c ▸ rest

-- `b64url`, from the text that `btoa` gives.
unfoldable pub b64url : String → String
unfolding url_characters strip_end
b64url text = strip_end b'=' (url_characters text)

pub record PkcePair : Type 0 where
  pub verifier : String
  pub challenge : String

-- `createPkcePair`, from the base64 text of the random bytes and the base64 text of a digest.
unfoldable pub create_pkce_pair : (String → String) → String → PkcePair
unfolding b64url
create_pkce_pair digest randoms =
    let verifier = b64url randoms in
    record { verifier = verifier; challenge = b64url (digest verifier) }

-- The answer of the discovery request: `ok`, and the field `authorization_endpoint` of its document
-- where that can be read.
pub record Discovery : Type 0 where
  pub ok : Bool
  pub authorization_endpoint : Option String

-- `authorizeEndpoint`; none is a request that failed.
unfoldable pub authorize_endpoint : Settings → Option Discovery → String
unfolding issuer
authorize_endpoint s none = issuer s ⧺ "/auth"
authorize_endpoint s (some answer) =
    if answer.ok
    then or_default answer.authorization_endpoint (issuer s ⧺ "/auth")
    else issuer s ⧺ "/auth"

-- A target that starts with a slash, or the dashboard.
unfoldable pub safe_redirect : Option String → String
unfolding starts_with
safe_redirect none = default_redirect
safe_redirect (some redirect) = if starts_with redirect "/" then redirect else default_redirect

abbrev flow_cookie : Settings → String → String → SetCookie
flow_cookie s name value = record {
  name = name;
  value = value;
  max_age = 600;
  http_only = true;
  secure = s.production;
}

abbrev pub callback_address : String → String
callback_address origin = origin ⧺ "/api/auth/oidc/callback"

-- The parameters of the authorization request.
unfoldable pub authorize_params :
    Settings → String → String → String → String → List (String × String)
unfolding client_id
authorize_params s origin state nonce challenge =
    ("response_type", "code")
    ∷ ("client_id", client_id s)
    ∷ ("redirect_uri", callback_address origin)
    ∷ ("scope", "openid email profile amr groups")
    ∷ ("state", state)
    ∷ ("nonce", nonce)
    ∷ ("code_challenge", challenge)
    ∷ ("code_challenge_method", "S256")
    ∷ []

-- `GET` of the login route, with `URLSearchParams.toString`, the discovery answer, the two random
-- identifiers and the PKCE pair.
unfoldable pub start :
    (List (String × String) → String)
    → Settings
    → Option Discovery
    → String
    → Query
    → String
    → String
    → PkcePair
    → Redirect
unfolding sso_configured authorize_endpoint authorize_params safe_redirect
start to_query s discovery origin query state nonce pair =
    if sso_configured s
    then record {
      to = away (
          authorize_endpoint s discovery
          ⧺ "?"
          ⧺ to_query (authorize_params s origin state nonce pair.challenge));
      set_cookies =
          flow_cookie s "oidc_state" state
          ∷ flow_cookie s "oidc_verifier" pair.verifier
          ∷ flow_cookie s "oidc_nonce" nonce
          ∷ flow_cookie s "oidc_redirect" (safe_redirect (query "redirect"))
          ∷ [];
    }
    else record { to = local origin "/login?sso_error=not_configured" ""; set_cookies = [] }
