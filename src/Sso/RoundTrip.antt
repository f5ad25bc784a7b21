-- ===== src/Sso/RoundTrip.antt =====
-- The whole flow: the login route, the callback route and the bridge page, one after another.
use Prim.Native.String.{[] as ε, ◌∷◌ as ◌▸◌}
use tbd_dev.Prelude.{
  String, true, Option, none, some, List, ◌≡◌, inl, inr, refl, ap, sym, subst, ◌∙◌, truthy_text,
  Bool-cases, starts_with, map, ◌⧺◌,
}
use tbd_dev.Types.Accounts.{UserInfo}
use tbd_dev.Client.{ok, set_token}
use tbd_dev.Session.{Session, apply_session}
use tbd_dev.Sso.{Settings, sso_configured, SetCookie, Jar, Location, local, away, Redirect, Query}
use tbd_dev.Sso.Start.{
  safe_redirect, start, PkcePair, Discovery, create_pkce_pair, authorize_params, authorize_endpoint,
}
use tbd_dev.Sso.Callback.{Services, fragment, callback, respond}
use tbd_dev.Sso.Granted.{Granted, param, address_of, flow_jar, check-Granted}
use tbd_dev.Sso.Bridge.{bridge, replace}

-- The cookies that a browser sends after a response has set them.
abbrev pub sent : List SetCookie → Jar
sent = map (λ (c : SetCookie). (c.name, c.value))

-- The fragment of the page that a response redirects to.
abbrev pub fragment_of : Location → String
fragment_of (local origin page hash) = hash
fragment_of (away address) = ""

pub starts_with-safe_redirect :
    (redirect : Option String) → starts_with (safe_redirect redirect) "/" ≡ true
unfolding safe_redirect starts_with
starts_with-safe_redirect none = refl
starts_with-safe_redirect (some r) = elim (Bool-cases (starts_with r "/")) [
  | inl within ↦ rw (within, safe_redirect) within
  | inr without ↦ rw (without, safe_redirect) refl
]

nonempty : (s : String) → starts_with s "/" ≡ true → truthy_text s ≡ true
unfolding starts_with
nonempty ε h = cc
nonempty (c ▸ s) h = refl

bridge-accepted :
    (encode : String → String) (hash : Query) (me : UserInfo) (tab : Session)
    (session redirect : String)
    → hash "token" ≡ some session
    → hash "redirect" ≡ some redirect
    → truthy_text session ≡ true
    → starts_with redirect "/" ≡ true
    → bridge encode hash (ok me) tab
      ≡ (record tab { token = some session; user = some me }, replace redirect)
unfolding bridge apply_session set_token
bridge-accepted encode hash me tab session redirect token to some_session within =
    rw (token, to, some_session, within, nonempty redirect within) refl

sent-start :
    (to_query : List (String × String) → String) (s : Settings) (discovery : Option Discovery)
    (origin : String) (asked : Query) (state nonce : String) (pair : PkcePair)
    → sso_configured s ≡ true
    → sent (start to_query s discovery origin asked state nonce pair).set_cookies
      ≡ flow_jar state pair.verifier nonce (safe_redirect (asked "redirect"))
unfolding start
sent-start to_query s discovery origin asked state nonce pair configured = rw configured refl

to-start :
    (to_query : List (String × String) → String) (s : Settings) (discovery : Option Discovery)
    (origin : String) (asked : Query) (state nonce : String) (pair : PkcePair)
    → sso_configured s ≡ true
    → (start to_query s discovery origin asked state nonce pair).to
      ≡ away (
          authorize_endpoint s discovery
          ⧺ "?"
          ⧺ to_query (authorize_params s origin state nonce pair.challenge))
unfolding start
to-start to_query s discovery origin asked state nonce pair configured = rw configured refl

abbrev pub params_of : Settings → String → String → String → PkcePair → List (String × String)
params_of s origin state nonce pair = authorize_params s origin state nonce pair.challenge

-- The flow signs in: the user's tab ends up with the session and its user, on the target that was asked
-- for if that starts with a slash, else on the dashboard. This is so if the sign-in is configured; the
-- random values and the session are not empty, and the verifier and its challenge are a pair that was
-- created; the auth service reads from the address what the login route wrote into it, and grants the flow
-- for that; the platform opens the session; and the bridge page reads from the fragment what the callback
-- wrote into it.
pub sign_in :
    (encode : String → String) (parse : String → Query) (to_query : List (String × String) → String)
    (read_address : String → Query) (digest : String → String) (randoms : String)
    (services : Services) (s : Settings) (discovery : Option Discovery) (origin : String)
    (asked answered : Query) (state nonce token_nonce session : String) (me : UserInfo)
    (tab : Session)
    → parse (fragment encode session (safe_redirect (asked "redirect"))) "token" ≡ some session
    → parse (fragment encode session (safe_redirect (asked "redirect"))) "redirect"
      ≡ some (safe_redirect (asked "redirect"))
    → ((k : String)
        → read_address
            (authorize_endpoint s discovery
              ⧺ "?"
              ⧺ to_query (params_of s origin state nonce (create_pkce_pair digest randoms)))
            k
          ≡ param k (params_of s origin state nonce (create_pkce_pair digest randoms)))
    → sso_configured s ≡ true
    → truthy_text state ≡ true
    → truthy_text nonce ≡ true
    → truthy_text (create_pkce_pair digest randoms).verifier ≡ true
    → truthy_text session ≡ true
    → Granted services s digest
        (read_address (
          address_of
            (start to_query s discovery origin asked state nonce
              (create_pkce_pair digest randoms)).to))
        answered
        token_nonce
        session
    → let started =
        start to_query s discovery origin asked state nonce (create_pkce_pair digest randoms) in
      let response = callback encode services s origin answered (sent started.set_cookies) in
      bridge encode (parse (fragment_of response.to)) (ok me) tab ≡ (
        record tab { token = some session; user = some me },
        replace (safe_redirect (asked "redirect")),
      )
unfolding create_pkce_pair callback respond
sign_in encode parse to_query read_address digest randoms services s discovery origin asked answered
      state nonce token_nonce session me tab token to reads configured some_state some_nonce
      some_verifier some_session granted =
    let pair = create_pkce_pair digest randoms in
    let started = start to_query s discovery origin asked state nonce pair in
    let redirect = safe_redirect (asked "redirect") in
    let within = starts_with-safe_redirect (asked "redirect") in
    let checked =
      check-Granted services s digest origin (read_address (address_of started.to)) answered state
        nonce pair.verifier session redirect
        (λ k.
          ap (λ l. read_address (address_of l) k)
            (to-start to_query s discovery origin asked state nonce pair configured)
          ∙ reads k)
        token_nonce configured some_state some_nonce some_verifier some_session
        (nonempty redirect within) granted in
    let response =
      ap (callback encode services s origin answered)
        (sent-start to_query s discovery origin asked state nonce pair configured)
      ∙ ap (respond encode origin) checked in
    subst
      (λ (r : Redirect).
        bridge encode (parse (fragment_of r.to)) (ok me) tab
        ≡ (record tab { token = some session; user = some me }, replace redirect))
      (sym response)
      (bridge-accepted encode (parse (fragment encode session redirect)) me tab session redirect
        token to some_session within)
