-- ===== src/Sso/Checked.antt =====
-- What the callback establishes before it hands over a session.
use tbd_dev.Prelude.{
  String, Bool, true, false, Option, none, some, ◌≡◌, inl, inr, refl, ap, sym, ◌∙◌, ◌==◌, eq_iff,
  ◌||◌, not, if◌then◌else◌, truthy_text, truthy, or_else, or_default, arith, Bool-cases,
  Option-cases,
}
use tbd_dev.Client.{Json}
use tbd_dev.Sso.{Settings, sso_configured, Jar, cookie, Query, OidcTokens, default_redirect}
use tbd_dev.Sso.Start.{callback_address}
use tbd_dev.Sso.Callback.{
  Services, Exchange, unreachable, refused, replied, exchange_code, decode_id_token_claims,
  truthy_json, nonce_matches, Verdict, rejected, accepted, open_session, check_token, check_tokens,
  check_flow, check,
}

-- A guard that was passed.
passed :
    (b : Bool) (reason session redirect : String) (v : Verdict)
    → (if b then rejected reason else v) ≡ accepted session redirect
    → (b ≡ false) × (v ≡ accepted session redirect)
passed true reason session redirect v h = cc
passed false reason session redirect v h = (refl, h)

pub truthy-eq-some : (o : Option String) → truthy o ≡ true → o ≡ some (or_else o "")
truthy-eq-some none h = cc
truthy-eq-some (some t) h = refl

given : (b : Bool) → not b ≡ false → b ≡ true
given true h = refl
given false h = cc

not_either : (a b : Bool) → (a || b) ≡ false → (a ≡ false) × (b ≡ false)
not_either false b h = (refl, h)
not_either true b h = cc

module _ (services : Services) (nonce : String) where
  -- The token binds the nonce and the platform opens a session for it.
  abbrev Opens : String → Option String → String → Type 0
  Opens id_token access_token session =
      (claims : Json) × (decode_id_token_claims services id_token ≡ some claims)
      × (nonce_matches claims nonce ≡ true)
      × (services.exchange id_token access_token ≡ replied (some session))
      × (truthy_text session ≡ true)

  abbrev tokens_verdict : Bool → Option String → String → Verdict
  tokens_verdict b t redirect =
      if b then accepted (or_else t "") redirect else rejected "no_session_token"

  replied-accepted :
      (t : Option String) (session r r' : String)
      → tokens_verdict (truthy t) t r ≡ accepted session r'
      → (t ≡ some session) × (r ≡ r') × (truthy_text session ≡ true)
  replied-accepted none session r r' h = cc
  replied-accepted (some t) session r r' h = elim (Bool-cases (truthy_text t)) [
    | inl told ↦
        let h' = rw told at h in let same : t ≡ session = cc in (ap some same, cc, rw (← same) told)
    | inr empty ↦ let h' = rw empty at h in cc
  ]

  open_session-eq-accepted :
      (e : Exchange) (session redirect redirect' : String)
      → open_session e redirect ≡ accepted session redirect'
      → (e ≡ replied (some session)) × (redirect ≡ redirect') × (truthy_text session ≡ true)
  unfolding open_session
  open_session-eq-accepted unreachable session r r' h = cc
  open_session-eq-accepted (refused n) session r r' h = cc
  open_session-eq-accepted (replied t) session r r' h =
      let (same, to, told) = replied-accepted t session r r' h in (ap replied same, to, told)

  check_token-eq-accepted :
      (id_token : String) (access_token : Option String) (session redirect redirect' : String)
      → truthy_text nonce ≡ true
      → check_token services nonce id_token access_token redirect ≡ accepted session redirect'
      → Opens id_token access_token session × (redirect ≡ redirect')
  unfolding check_token
  check_token-eq-accepted id_token access_token session r r' told h =
      elim (Option-cases (decode_id_token_claims services id_token)) [
        | inl unread ↦ absurd (let h' = rw (unread, check_token) at h in cc)
        | inr (claims, read) ↦
            let h' = rw (read, check_token) at h in
            let (_, h2) = passed (not (truthy_json claims)) "bad_id_token" session r' _ h' in
            let h3 = rw told at h2 in
            let (bound, h4) =
              passed (not (nonce_matches claims nonce)) "nonce_mismatch" session r' _ h3 in
            let (opened, to, some_token) =
              open_session-eq-accepted (services.exchange id_token access_token) session r r' h4 in
            ((claims, read, given (nonce_matches claims nonce) bound, opened, some_token), to)
      ]

  check_tokens-eq-accepted :
      (tokens : Option OidcTokens) (session redirect redirect' : String)
      → truthy_text nonce ≡ true
      → check_tokens services nonce tokens redirect ≡ accepted session redirect'
      → ((t : OidcTokens) × (id_token : String) × (tokens ≡ some t)
          × (t.id_token ≡ some id_token)
          × Opens id_token t.access_token session)
        × (redirect ≡ redirect')
  unfolding check_tokens
  check_tokens-eq-accepted none session r r' told h = cc
  check_tokens-eq-accepted (some t) session r r' told h = elim (Bool-cases (truthy t.id_token)) [
    | inl present ↦
        let (opens, to) =
          check_token-eq-accepted (or_else t.id_token "") t.access_token session r r' told
            (rw present at h) in
        ((t, or_else t.id_token "", refl, truthy-eq-some t.id_token present, opens), to)
    | inr missing ↦ absurd (let h' = rw missing at h in cc)
  ]

-- What is known of a callback that hands over a session.
pub record Proven (services : Services) (s : Settings) (origin : String) (query : Query) (jar : Jar)
    (session redirect : String) : Type 0 where
  pub configured : sso_configured s ≡ true
  pub no_error : truthy (query "error") ≡ false
  pub same_state :
      (state : String) × (truthy_text state ≡ true)
      × (query "state" ≡ some state)
      × (cookie jar "oidc_state" ≡ some state)
  pub opens :
      (code verifier nonce : String) × (t : OidcTokens) × (id_token : String) × (query "code"
        ≡ some code)
      × (cookie jar "oidc_verifier" ≡ some verifier)
      × (cookie jar "oidc_nonce" ≡ some nonce)
      × (exchange_code services s code (callback_address origin) verifier ≡ some t)
      × (t.id_token ≡ some id_token)
      × Opens services nonce id_token t.access_token session
  pub target : or_default (cookie jar "oidc_redirect") default_redirect ≡ redirect

text-truthy : (o : Option String) → truthy_text (or_else o "") ≡ true → truthy o ≡ true
text-truthy none h = cc
text-truthy (some t) h = h

held-eq-some :
    (o : Option String) → not (truthy_text (or_else o "")) ≡ false → o ≡ some (or_else o "")
held-eq-some o h = truthy-eq-some o (text-truthy o (given (truthy_text (or_else o "")) h))

-- A session is handed over only if the flow is configured, the query has no error, its state is the
-- one of the cookie, the tokens for its code and the verifier of the cookie carry an ID token with the
-- nonce of the cookie, and the platform opens that session for this ID token. The page to go on to is
-- the one of the cookie, or the dashboard.
pub check-eq-accepted :
    (services : Services) (s : Settings) (origin : String) (query : Query) (jar : Jar)
    (session redirect : String)
    → check services s origin query jar ≡ accepted session redirect
    → Proven services s origin query jar session redirect
unfolding check check_flow
check-eq-accepted services s origin query jar session redirect h =
    let (configured, h1) = passed (not (sso_configured s)) "not_configured" session redirect _ h in
    let (no_error, h2) =
      passed (truthy (query "error")) (or_else (query "error") "") session redirect _ h1 in
    let (complete, h3) =
      passed (not (truthy (query "code")) || not (truthy (query "state"))) "invalid_callback"
        session redirect _ h2 in
    let (coded, stated) =
      not_either (not (truthy (query "code"))) (not (truthy (query "state"))) complete in
    let state = or_else (query "state") "" in
    let expected = or_else (cookie jar "oidc_state") "" in
    let verifier = or_else (cookie jar "oidc_verifier") "" in
    let nonce = or_else (cookie jar "oidc_nonce") "" in
    let (held, h4) =
      passed (not (truthy_text expected)) "missing_flow_cookie" session redirect _ h3 in
    let (same, h5) = passed (not (state == expected)) "state_mismatch" session redirect _ h4 in
    let (kept, h6) =
      passed (not (truthy_text verifier) || not (truthy_text nonce)) "missing_flow_cookie" session
        redirect _ h5 in
    let (verified, bound) =
      not_either (not (truthy_text verifier)) (not (truthy_text nonce)) kept in
    let redirect' = or_default (cookie jar "oidc_redirect") default_redirect in
    let tokens =
      exchange_code services s (or_else (query "code") "") (callback_address origin) verifier in
    let ((t, id_token, given_tokens, given_id, opens), to) =
      check_tokens-eq-accepted services nonce tokens session redirect' redirect
        (given (truthy_text nonce) bound) h6 in
    let equal : state ≡ expected = ground (arith, eq_iff state expected) in
    record {
      configured = given (sso_configured s) configured;
      no_error = no_error;
      same_state = (
        state,
        rw equal (given (truthy_text expected) held),
        truthy-eq-some (query "state") (given (truthy (query "state")) stated),
        held-eq-some (cookie jar "oidc_state") held ∙ ap some (sym equal),
      );
      opens = (
        or_else (query "code") "",
        verifier,
        nonce,
        t,
        id_token,
        truthy-eq-some (query "code") (given (truthy (query "code")) coded),
        held-eq-some (cookie jar "oidc_verifier") verified,
        held-eq-some (cookie jar "oidc_nonce") bound,
        given_tokens,
        given_id,
        opens,
      );
      target = to;
    }
