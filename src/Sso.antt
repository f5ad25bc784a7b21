-- ===== src/Sso.antt =====
-- web/src/lib/sso.ts and web/src/app/api/auth/oidc: the sign-in through the auth service, as the
-- Next.js server runs it. What `fetch`, the URL and base64 encoders, the random source and the SHA-256
-- digest give is an argument of the operations. `requestOrigin` is not modelled: a request comes with
-- its origin and its query.
pub mod Start
pub mod Callback
pub mod Bridge
pub mod Messages
pub mod Checked
pub mod Reasons
pub mod Granted
pub mod RoundTrip
use tbd_dev.Prelude.{
  ℕ, String, Bool, true, false, Option, none, some, List, [], ◌∷◌, ◌⧺◌, ◌==◌, ◌&&◌, ◌||◌, eqb,
  if◌then◌else◌, truthy_text, or_else, strip_end, starts_with,
}

-- The environment of the server process.
pub record Settings : Type 0 where
  pub auth_issuer : Option String
  pub oidc_client_id : Option String
  pub oidc_client_secret : Option String
  pub api_internal_url : Option String
  pub next_public_api_url : Option String
  pub production : Bool

-- `ISSUER`, `CLIENT_ID`, `CLIENT_SECRET`
unfoldable pub issuer : Settings → String
unfolding strip_end
issuer s = strip_end b'/' (or_else s.auth_issuer "")

unfoldable pub client_id : Settings → String
client_id s = or_else s.oidc_client_id ""

unfoldable pub client_secret : Settings → String
client_secret s = or_else s.oidc_client_secret ""

abbrev api_base_public : String → String
api_base_public public =
    if starts_with public "http://" || starts_with public "https://"
    then strip_end b'/' public
    else "http://localhost:8000"

-- `internalApiBase`
unfoldable pub internal_api_base : Settings → String
unfolding strip_end starts_with
internal_api_base s = elim s.api_internal_url [
  | none ↦ api_base_public (or_else s.next_public_api_url "")
  | some direct ↦
      if truthy_text direct
      then strip_end b'/' direct
      else api_base_public (or_else s.next_public_api_url "")
]

-- `ssoConfigured`
unfoldable pub sso_configured : Settings → Bool
unfolding issuer client_id client_secret
sso_configured s =
    truthy_text (issuer s) && truthy_text (client_id s) && truthy_text (client_secret s)

-- The cookies a browser sends, and a cookie that a response sets.
abbrev pub Jar : Type 0
Jar = List (String × String)

pub record SetCookie : Type 0 where
  pub name : String
  pub value : String
  pub max_age : ℕ
  pub http_only : Bool
  pub secure : Bool

-- `jar.get(name)?.value`
unfoldable pub cookie : Jar → String → Option String
cookie [] name = none
cookie ((n, v) ∷ jar) name = if n == name then some v else cookie jar name

-- Where a response redirects: a page of this origin, with its fragment, or the address of the auth
-- service.
pub data Location : Type 0 where
  local : String → String → String → Location
  away : String → Location

pub record Redirect : Type 0 where
  pub to : Location
  pub set_cookies : List SetCookie

-- `searchParams.get`
abbrev pub Query : Type 0
Query = String → Option String

pub record OidcTokens : Type 0 where
  pub id_token : Option String
  pub access_token : Option String

abbrev pub default_redirect : String
default_redirect = "/dashboard"
