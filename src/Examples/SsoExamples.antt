-- ===== src/Examples/SsoExamples.antt =====
-- The theorems about the sign-in through the auth service, applied.
use tbd_dev.Prelude.{
  String, true, none, some, [], ◌∷◌, ◌==◌, ◌≡◌, ◌⊎◌, if◌then◌else◌, is_some, refl, before_mark,
  after_mark,
}
use tbd_dev.Client.{str, obj, Fields, end, field, ok}
use tbd_dev.Session.{initial}
use tbd_dev.Sso.{Settings, sso_configured, Jar, Query, OidcTokens}
use tbd_dev.Sso.Start.{start, safe_redirect, create_pkce_pair, b64url, authorize_params}
use tbd_dev.Sso.Callback.{Services, replied, check, callback, decode_id_token_claims, nonce_field}
use tbd_dev.Sso.Bridge.{bridge, replace}
use tbd_dev.Sso.Messages.{message_in, sso_error_messages}
use tbd_dev.Sso.Checked.{Proven, check-eq-accepted}
use tbd_dev.Sso.Reasons.{check-eq-rejected}
use tbd_dev.Sso.Granted.{Granted, param}
use tbd_dev.Sso.RoundTrip.{sent, fragment_of, sign_in}
use tbd_dev.Examples.Data.{ada}

abbrev settings : Settings
settings = record {
  auth_issuer = some "https://auth.example.edu/";
  oidc_client_id = some "tbd";
  oidc_client_secret = some "secret";
  api_internal_url = none;
  next_public_api_url = none;
  production = true;
}

abbrev nonce_claims : Fields
nonce_claims = field "nonce" (str "n1") end

abbrev some_tokens : OidcTokens
some_tokens = record { id_token = some "h.p.s"; access_token = none }

abbrev services : Services
services = record {
  base64 = λ s. s;
  send_token = λ r. some (record { ok = true; tokens = some some_tokens });
  parse_payload = λ s. some (obj nonce_claims);
  exchange = λ id_token access_token. replied (some "jwt");
}

abbrev answered : Query
answered key = if key == "code" then some "c1" else if key == "state" then some "s1" else none

abbrev jar : Jar
jar =
    ("oidc_state", "s1")
    ∷ ("oidc_verifier", "v1")
    ∷ ("oidc_nonce", "n1")
    ∷ ("oidc_redirect", "/settings")
    ∷ []

check-eq-accepted_example :
    Proven services settings "https://tbd.example.edu" answered jar "jwt" "/settings"
unfolding check
check-eq-accepted_example =
    check-eq-accepted services settings "https://tbd.example.edu" answered jar "jwt" "/settings"
      refl

check-eq-rejected_example :
    (answered "error" ≡ some "missing_flow_cookie")
    ⊎ (is_some (message_in sso_error_messages "missing_flow_cookie") ≡ true)
unfolding check
check-eq-rejected_example =
    check-eq-rejected services settings "https://tbd.example.edu" answered [] "missing_flow_cookie"
      refl

abbrev asked : Query
asked key = some "/projects"

-- The two parameters of a fragment.
abbrev parse : String → Query
parse hash key = elim (after_mark b'=' hash) [
  | none ↦ none
  | some rest ↦ if key == "token" then some (before_mark b'&' rest) else after_mark b'=' rest
]

-- The auth service reads the parameters of the one request that it gets.
abbrev read_address : String → Query
unfolding authorize_params
read_address address k =
    param k (authorize_params settings "https://tbd.example.edu" "s1" "n1" "x1")

abbrev digest : String → String
digest verifier = "x1"

granted : Granted services settings digest (read_address "") answered "n1" "jwt"
unfolding decode_id_token_claims nonce_field authorize_params
granted = record {
  no_error = refl;
  code = "c1";
  some_code = refl;
  coded = refl;
  stated = λ valid. refl;
  tokens = some_tokens;
  gives = λ r at signed kind code page verified. refl;
  id_token = "h.p.s";
  some_token = refl;
  given_id = refl;
  claims = nonce_claims;
  read = refl;
  asked_nonce = refl;
  bound = refl;
  opened = refl;
}

abbrev cookies : Jar
cookies =
    sent
      (start (λ qs. "") settings none "https://tbd.example.edu" asked "s1" "n1"
        (create_pkce_pair digest "v1")).set_cookies

sign_in_example :
    bridge
      (λ s. s)
      (parse (
        fragment_of
          (callback (λ s. s) services settings "https://tbd.example.edu" answered cookies).to))
      (ok ada)
      (initial none)
    ≡ (record (initial none) { token = some "jwt"; user = some ada }, replace "/projects")
unfolding safe_redirect sso_configured create_pkce_pair b64url authorize_params read_address
sign_in_example =
    sign_in (λ s. s) parse (λ qs. "") read_address digest "v1" services settings none
      "https://tbd.example.edu" asked answered "s1" "n1" "n1" "jwt" ada (initial none)
      (unfold after_mark before_mark in refl) (unfold after_mark before_mark in refl) (λ k. refl)
      refl refl refl refl refl granted
