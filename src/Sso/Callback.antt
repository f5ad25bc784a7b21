-- ===== src/Sso/Callback.antt =====
-- web/src/app/api/auth/oidc/callback/route.ts, with `exchangeCode` and `decodeIdTokenClaims` of
-- web/src/lib/sso.ts: the end of the flow.
use tbd_dev.Prelude.{
  ℕ, String, Bool, true, false, Option, none, some, List, [], ◌∷◌, ◌⧺◌, ◌==◌, ◌&&◌, ◌||◌, not, eqb,
  if◌then◌else◌, truthy_text, truthy, or_else, or_default, second_part,
}
use tbd_dev.Client.{Json, null, bool, num, str, obj, Fields, end, field}
use tbd_dev.Sso.{
  Settings, issuer, client_id, client_secret, sso_configured, SetCookie, Jar, cookie, local,
  Redirect, Query, OidcTokens, default_redirect,
}
use tbd_dev.Sso.Start.{callback_address}

-- The request to the token endpoint, and its answer: `ok`, and the tokens where the body can be read.
pub record TokenRequest : Type 0 where
  pub url : String
  pub authorization : String
  pub form : List (String × String)

pub record TokenAnswer : Type 0 where
  pub ok : Bool
  pub tokens : Option OidcTokens

-- The answer of `/auth/oidc/exchange`: not sent or not readable, refused, or the session token, which
-- may be missing.
pub data Exchange : Type 0 where
  unreachable : Exchange
  refused : ℕ → Exchange
  replied : Option String → Exchange

-- What the callback uses from outside: base64, the token endpoint, `JSON.parse` of a base64url text
-- (none where it throws) and the platform's API.
pub record Services : Type 0 where
  pub base64 : String → String
  pub send_token : TokenRequest → Option TokenAnswer
  pub parse_payload : String → Option Json
  pub exchange : String → Option String → Exchange

-- `exchangeCode`; none is an exception.
unfoldable pub exchange_code : Services → Settings → String → String → String → Option OidcTokens
unfolding issuer client_id client_secret
exchange_code services s code redirect_uri verifier =
    elim (services.send_token (record {
      url = issuer s ⧺ "/token";
      authorization = "Basic " ⧺ services.base64 (client_id s ⧺ ":" ⧺ client_secret s);
      form =
          ("grant_type", "authorization_code")
          ∷ ("code", code)
          ∷ ("redirect_uri", redirect_uri)
          ∷ ("code_verifier", verifier)
          ∷ [];
    })) [ none ↦ none | some answer ↦ if answer.ok then answer.tokens else none ]

-- `decodeIdTokenClaims`; none is null.
unfoldable pub decode_id_token_claims : Services → String → Option Json
unfolding second_part
decode_id_token_claims services id_token = elim (second_part b'.' id_token) [
  | none ↦ none
  | some payload ↦ if truthy_text payload then services.parse_payload payload else none
]

-- Whether a parsed value counts as true.
unfoldable pub truthy_json : Json → Bool
truthy_json null = false
truthy_json (bool b) = b
truthy_json (num n) = not (eqb n 0)
truthy_json (str s) = truthy_text s
truthy_json _ = true

-- The last `nonce` of an object.
unfoldable pub nonce_field : Fields → Option Json
nonce_field end = none
nonce_field (field k v rest) =
    let later = nonce_field rest in
    elim later [ some w ↦ some w | none ↦ if k == "nonce" then some v else none ]

abbrev is_text : Option Json → String → Bool
is_text (some (str n)) nonce = n == nonce
is_text _ nonce = false

-- `claims.nonce === nonce`
unfoldable pub nonce_matches : Json → String → Bool
unfolding nonce_field
nonce_matches (obj fields) nonce = is_text (nonce_field fields) nonce
nonce_matches _ nonce = false

-- The argument of `fail`, or the session token and the page to go on to.
pub data Verdict : Type 0 where
  rejected : String → Verdict
  accepted : String → String → Verdict

-- The swap of the ID token for a session.
unfoldable pub open_session : Exchange → String → Verdict
open_session unreachable redirect = rejected "exchange_failed"
open_session (refused status) redirect = rejected "exchange_rejected"
open_session (replied token) redirect =
    if truthy token then accepted (or_else token "") redirect else rejected "no_session_token"

-- From the ID token on.
unfoldable pub check_token : Services → String → String → Option String → String → Verdict
unfolding decode_id_token_claims truthy_json nonce_matches open_session
check_token services nonce id_token access_token redirect =
    elim (decode_id_token_claims services id_token) [
      | none ↦ rejected "bad_id_token"
      | some claims ↦
          if not (truthy_json claims)
          then rejected "bad_id_token"
          else if truthy_text nonce && not (nonce_matches claims nonce)
          then rejected "nonce_mismatch"
          else open_session (services.exchange id_token access_token) redirect
    ]

-- From the tokens on.
unfoldable pub check_tokens : Services → String → Option OidcTokens → String → Verdict
unfolding check_token
check_tokens services nonce none redirect = rejected "token_exchange_failed"
check_tokens services nonce (some tokens) redirect =
    if truthy tokens.id_token
    then check_token services nonce (or_else tokens.id_token "") tokens.access_token redirect
    else rejected "missing_id_token"

-- From the flow's cookies on, with the code and the state of the query.
unfoldable pub check_flow : Services → Settings → String → Jar → String → String → Verdict
unfolding check_tokens exchange_code cookie
check_flow services s origin jar code state =
    let expected_state = or_else (cookie jar "oidc_state") "" in
    let verifier = or_else (cookie jar "oidc_verifier") "" in
    let nonce = or_else (cookie jar "oidc_nonce") "" in
    let redirect = or_default (cookie jar "oidc_redirect") default_redirect in
    if not (truthy_text expected_state)
    then rejected "missing_flow_cookie"
    else if not (state == expected_state)
    then rejected "state_mismatch"
    else if not (truthy_text verifier) || not (truthy_text nonce)
    then rejected "missing_flow_cookie"
    else check_tokens services nonce
        (exchange_code services s code (callback_address origin) verifier) redirect

-- The callback's guards, in their order.
unfoldable pub check : Services → Settings → String → Query → Jar → Verdict
unfolding sso_configured check_flow
check services s origin query jar =
    let error = query "error" in
    let code = query "code" in
    let state = query "state" in
    if not (sso_configured s)
    then rejected "not_configured"
    else if truthy error
    then rejected (or_else error "")
    else if not (truthy code) || not (truthy state)
    then rejected "invalid_callback"
    else check_flow services s origin jar (or_else code "") (or_else state "")

-- `res.cookies.set(name, "", { path: "/", maxAge: 0 })` for the flow's cookies.
abbrev cleared : String → SetCookie
cleared name = record { name = name; value = ""; max_age = 0; http_only = false; secure = false }

abbrev pub clear_flow : List SetCookie
clear_flow =
    cleared "oidc_state"
    ∷ cleared "oidc_verifier"
    ∷ cleared "oidc_nonce"
    ∷ cleared "oidc_redirect"
    ∷ []

-- The fragment of the bridge's address.
abbrev pub fragment : (String → String) → String → String → String
fragment encode token redirect = "token=" ⧺ encode token ⧺ "&redirect=" ⧺ encode redirect

-- The response to a verdict, with `encodeURIComponent`.
unfoldable pub respond : (String → String) → String → Verdict → Redirect
respond encode origin (rejected reason) = record {
  to = local origin ("/login?sso_error=" ⧺ encode reason) "";
  set_cookies = clear_flow;
}
respond encode origin (accepted token redirect) = record {
  to = local origin "/auth/sso-bridge" (fragment encode token redirect);
  set_cookies = clear_flow;
}

-- `GET` of the callback route.
unfoldable pub callback : (String → String) → Services → Settings → String → Query → Jar → Redirect
unfolding check respond
callback encode services s origin query jar =
    respond encode origin (check services s origin query jar)
