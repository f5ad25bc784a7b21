-- ===== src/Sso/Messages.antt =====
-- web/src/app/login/page.tsx: the messages for the reasons of a failed sign-in.
use tbd_dev.Prelude.{
  String, Option, none, some, List, [], ◌∷◌, ◌⧺◌, ◌==◌, if◌then◌else◌, truthy, or_else,
}

abbrev pub sso_error_messages : List (String × String)
sso_error_messages =
    ("not_configured", "SSO is not configured for this environment.")
    ∷ ("invalid_callback", "The auth service returned an incomplete sign-in response.")
    ∷ (
      "missing_flow_cookie",
      "Your browser did not return the sign-in cookie. Please retry with cookies enabled.",
    )
    ∷ ("state_mismatch", "Sign-in session expired or invalid. Please try again.")
    ∷ ("nonce_mismatch", "Sign-in could not be verified. Please try again.")
    ∷ ("token_exchange_failed", "Could not complete sign-in with the auth service.")
    ∷ ("missing_id_token", "Auth service did not return a sign-in token.")
    ∷ ("bad_id_token", "Auth service returned an unreadable sign-in token.")
    ∷ ("exchange_rejected", "The platform rejected the SSO sign-in.")
    ∷ ("exchange_failed", "Could not reach the API to complete SSO sign-in.")
    ∷ ("no_session_token", "SSO sign-in did not produce a session token.")
    ∷ []

unfoldable pub message_in : List (String × String) → String → Option String
message_in [] reason = none
message_in ((k, m) ∷ table) reason = if k == reason then some m else message_in table reason

-- The error that the login page shows; a name of `Object.prototype` as the reason is not modelled.
unfoldable pub sso_error_text : Option String → Option String
unfolding message_in
sso_error_text reason =
    if truthy reason
    then some (
        or_else (message_in sso_error_messages (or_else reason ""))
          ("SSO sign-in failed (" ⧺ or_else reason "" ⧺ ")."))
    else none
