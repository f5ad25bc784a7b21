-- ===== src/Sso/Reasons.antt =====
-- The reasons that the callback gives for a sign-in that failed.
use tbd_dev.Prelude.{
  String, Bool, true, false, Option, none, some, ◌≡◌, ◌⊎◌, inl, inr, refl, subst, ◌==◌, ◌&&◌, ◌||◌,
  not, if◌then◌else◌, truthy_text, truthy, or_else, or_default, is_some, Bool-cases,
}
use tbd_dev.Client.{Json}
use tbd_dev.Sso.{Settings, sso_configured, Jar, cookie, Query, OidcTokens, default_redirect}
use tbd_dev.Sso.Start.{callback_address}
use tbd_dev.Sso.Callback.{
  Services, Exchange, unreachable, refused, replied, exchange_code, decode_id_token_claims,
  truthy_json, nonce_matches, Verdict, rejected, accepted, open_session, check_token, check_tokens,
  check_flow, check,
}
use tbd_dev.Sso.Messages.{sso_error_messages, message_in}
use tbd_dev.Sso.Checked.{truthy-eq-some}

-- A reason that the login page has a message for, or that the auth service gave.
abbrev Told : Query → Verdict → Type 0
Told query (rejected reason) =
    (query "error" ≡ some reason) ⊎ (is_some (message_in sso_error_messages reason) ≡ true)
Told query (accepted session redirect) = Unit

guard-Told :
    (query : Query) (b : Bool) (v w : Verdict)
    → (b ≡ true → Told query v)
    → Told query w
    → Told query (if b then v else w)
guard-Told query true v w f k = f refl
guard-Told query false v w f k = k

module _ (query : Query) (services : Services) where
  open_session-Told : (e : Exchange) (redirect : String) → Told query (open_session e redirect)
  unfolding open_session message_in
  open_session-Told unreachable redirect = inr refl
  open_session-Told (refused n) redirect = inr refl
  open_session-Told (replied t) redirect = elim (Bool-cases (truthy t)) [
    | inl told ↦ rw told tt
    | inr empty ↦ rw empty (inr refl)
  ]

  check_token-Told :
      (nonce id_token : String) (access_token : Option String) (redirect : String)
      → Told query (check_token services nonce id_token access_token redirect)
  unfolding check_token message_in
  check_token-Told nonce id_token access_token redirect =
      claimed (decode_id_token_claims services id_token) refl
    where
      claimed :
          (o : Option Json)
          → decode_id_token_claims services id_token ≡ o
          → Told query (check_token services nonce id_token access_token redirect)
      claimed none h = rw (h, check_token) (inr refl)
      claimed (some claims) h =
          rw (h, check_token)
            (guard-Told query (not (truthy_json claims)) _ _ (λ _. inr refl)
              (guard-Told query (truthy_text nonce && not (nonce_matches claims nonce)) _ _
                (λ _. inr refl)
                (open_session-Told (services.exchange id_token access_token) redirect)))

  check_tokens-Told :
      (nonce : String) (tokens : Option OidcTokens) (redirect : String)
      → Told query (check_tokens services nonce tokens redirect)
  unfolding check_tokens message_in
  check_tokens-Told nonce none redirect = inr refl
  check_tokens-Told nonce (some t) redirect = elim (Bool-cases (truthy t.id_token)) [
    | inl present ↦
        rw present (check_token-Told nonce (or_else t.id_token "") t.access_token redirect)
    | inr missing ↦ rw missing (inr refl)
  ]

-- Every failure is explained: a reason that the callback gives is the error of the auth service in the
-- query, or one that the login page has a message for.
pub check-eq-rejected :
    (services : Services) (s : Settings) (origin : String) (query : Query) (jar : Jar)
    (reason : String)
    → check services s origin query jar ≡ rejected reason
    → (query "error" ≡ some reason) ⊎ (is_some (message_in sso_error_messages reason) ≡ true)
unfolding check check_flow message_in
check-eq-rejected services s origin query jar reason h = subst (Told query) h (
    guard-Told query (not (sso_configured s)) _ _ (λ _. inr refl)
      (guard-Told query (truthy (query "error")) _ _ (λ e. inl (truthy-eq-some (query "error") e))
        (guard-Told query (not (truthy (query "code")) || not (truthy (query "state"))) _ _
          (λ _. inr refl)
          (guard-Told query (not (truthy_text (or_else (cookie jar "oidc_state") ""))) _ _
            (λ _. inr refl)
            (guard-Told query
              (not (or_else (query "state") "" == or_else (cookie jar "oidc_state") "")) _ _
              (λ _. inr refl)
              (guard-Told query
                (not (truthy_text (or_else (cookie jar "oidc_verifier") ""))
                  || not (truthy_text (or_else (cookie jar "oidc_nonce") "")))
                _ _ (λ _. inr refl)
                (check_tokens-Told query services (or_else (cookie jar "oidc_nonce") "")
                  (exchange_code services s (or_else (query "code") "") (callback_address origin)
                    (or_else (cookie jar "oidc_verifier") ""))
                  (or_default (cookie jar "oidc_redirect") default_redirect))))))))
