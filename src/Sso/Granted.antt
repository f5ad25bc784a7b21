-- ===== src/Sso/Granted.antt =====
-- What the auth service and the platform do for a flow, and the callback's verdict on it.
use Prim.Native.String.{[] as ε, ◌∷◌ as ◌▸◌}
use tbd_dev.Prelude.{
  String, true, Option, none, some, List, [], ◌∷◌, ◌≡◌, refl, ap, sym, ◌∙◌, eq_refl, truthy_text,
  or_default, ◌==◌, ◌⧺◌, if◌then◌else◌,
}
use tbd_dev.Client.{obj, str, Fields}
use tbd_dev.Sso.{
  Settings, issuer, client_id, client_secret, sso_configured, Jar, cookie, Location, local, away,
  Query, OidcTokens, default_redirect,
}
use tbd_dev.Sso.Start.{callback_address, b64url, authorize_params}
use tbd_dev.Sso.Callback.{
  Services, TokenRequest, replied, exchange_code, decode_id_token_claims, truthy_json, nonce_field,
  nonce_matches, accepted, open_session, check_token, check_tokens, check_flow, check,
}

truthy-default : (s d : String) → truthy_text s ≡ true → or_default (some s) d ≡ s
truthy-default ε d h = cc
truthy-default (c ▸ s) d h = refl

-- The value of a parameter.
abbrev pub param : String → List (String × String) → Option String
param k [] = none
param k ((j, v) ∷ ps) = if j == k then some v else param k ps

-- The address that a response redirects to outside the site.
abbrev pub address_of : Location → String
address_of (local origin page hash) = ""
address_of (away address) = address

-- A request for a code from this client, with a SHA-256 challenge.
pub record IsRequest (s : Settings) (request : Query) : Type 0 where
  pub asks_code : request "response_type" ≡ some "code"
  pub knows_client : request "client_id" ≡ some (client_id s)
  pub digested : request "code_challenge_method" ≡ some "S256"

-- The auth service and the platform, for an authorization request whose parameters are `request`. The
-- service sends the browser back with a code and, if the request is one for a code, its state. Its token endpoint takes the
-- client's password, the code, the address of the request and the verifier that the request's challenge is
-- the digest of, and gives an ID token with the nonce of the request. The platform opens `session` for it.
pub record Granted (services : Services) (s : Settings) (digest : String → String)
    (request answered : Query) (token_nonce session : String) : Type 0 where
  pub no_error : answered "error" ≡ none
  pub code : String
  pub some_code : truthy_text code ≡ true
  pub coded : answered "code" ≡ some code
  pub stated : IsRequest s request → answered "state" ≡ request "state"
  pub tokens : OidcTokens
  pub gives :
      (r : TokenRequest)
      → r.url ≡ issuer s ⧺ "/token"
      → r.authorization ≡ "Basic " ⧺ services.base64 (client_id s ⧺ ":" ⧺ client_secret s)
      → param "grant_type" r.form ≡ some "authorization_code"
      → param "code" r.form ≡ some code
      → param "redirect_uri" r.form ≡ request "redirect_uri"
      → ((verifier : String) × (param "code_verifier" r.form ≡ some verifier)
          × (request "code_challenge" ≡ some (b64url (digest verifier))))
      → services.send_token r ≡ some (record { ok = true; tokens = some tokens })
  pub id_token : String
  pub some_token : truthy_text id_token ≡ true
  pub given_id : tokens.id_token ≡ some id_token
  pub claims : Fields
  pub read : decode_id_token_claims services id_token ≡ some (obj claims)
  pub asked_nonce : request "nonce" ≡ some token_nonce
  pub bound : nonce_field claims ≡ some (str token_nonce)
  pub opened : services.exchange id_token tokens.access_token ≡ replied (some session)

check_token-Granted :
    (services : Services) (nonce id_token : String) (access_token : Option String) (claims : Fields)
    (session redirect : String)
    → truthy_text nonce ≡ true
    → truthy_text session ≡ true
    → decode_id_token_claims services id_token ≡ some (obj claims)
    → nonce_field claims ≡ some (str nonce)
    → services.exchange id_token access_token ≡ replied (some session)
    → check_token services nonce id_token access_token redirect ≡ accepted session redirect
unfolding check_token
check_token-Granted services nonce id_token access_token claims session redirect told some_session
      read bound opened =
    rw
      (
        read,
        check_token,
        truthy_json,
        told,
        nonce_matches,
        bound,
        eq_refl nonce,
        opened,
        open_session,
        some_session,
      )
      refl

-- The flow's cookies, as the login route leaves them.
abbrev pub flow_jar : String → String → String → String → Jar
flow_jar state verifier nonce redirect =
    ("oidc_state", state)
    ∷ ("oidc_verifier", verifier)
    ∷ ("oidc_nonce", nonce)
    ∷ ("oidc_redirect", redirect)
    ∷ []

module _ (services : Services) (s : Settings) (digest : String → String) (origin : String)
    (request answered : Query) (state nonce verifier session redirect : String)
    (read_request : (k : String)
      → request k
        ≡ param k (authorize_params s origin state nonce (b64url (digest verifier)))) where
  exchange_code-Granted :
      (token_nonce : String) (g : Granted services s digest request answered token_nonce session)
      → exchange_code services s g.code (callback_address origin) verifier ≡ some g.tokens
  unfolding exchange_code authorize_params
  exchange_code-Granted token_nonce g =
      rw
        (
          g.gives
              (record {
                url = issuer s ⧺ "/token";
                authorization = "Basic " ⧺ services.base64 (client_id s ⧺ ":" ⧺ client_secret s);
                form =
                    ("grant_type", "authorization_code")
                    ∷ ("code", g.code)
                    ∷ ("redirect_uri", callback_address origin)
                    ∷ ("code_verifier", verifier)
                    ∷ [];
              })
              refl refl refl refl (sym (read_request "redirect_uri"))
              (verifier, refl, read_request "code_challenge"),
          exchange_code,
        )
        refl

  same_nonce :
      (token_nonce : String)
      → Granted services s digest request answered token_nonce session
      → nonce ≡ token_nonce
  unfolding authorize_params
  same_nonce token_nonce g = let e = read_request "nonce" in let h = g.asked_nonce in cc

  same_state :
      (token_nonce : String)
      → Granted services s digest request answered token_nonce session
      → answered "state" ≡ some state
  unfolding authorize_params
  same_state token_nonce g =
      g.stated (record {
        asks_code = read_request "response_type";
        knows_client = read_request "client_id";
        digested = read_request "code_challenge_method";
      })
      ∙ read_request "state"

  pub check-Granted :
      (token_nonce : String)
      → sso_configured s ≡ true
      → truthy_text state ≡ true
      → truthy_text nonce ≡ true
      → truthy_text verifier ≡ true
      → truthy_text session ≡ true
      → truthy_text redirect ≡ true
      → Granted services s digest request answered token_nonce session
      → check services s origin answered (flow_jar state verifier nonce redirect)
        ≡ accepted session redirect
  unfolding check check_flow check_tokens cookie
  check-Granted token_nonce configured some_state some_nonce some_verifier some_session
        some_redirect g =
      rw
        (
          configured,
          g.no_error,
          g.coded,
          g.some_code,
          same_state token_nonce g,
          some_state,
          eq_refl state,
          some_verifier,
          some_nonce,
          exchange_code-Granted token_nonce g,
          g.given_id,
          g.some_token,
          truthy-default redirect default_redirect some_redirect,
        )
        (check_token-Granted services nonce g.id_token g.tokens.access_token g.claims session
          redirect some_nonce some_session g.read
          (g.bound ∙ ap (λ n. some (str n)) (sym (same_nonce token_nonce g))) g.opened)
