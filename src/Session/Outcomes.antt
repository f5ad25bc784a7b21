-- ===== src/Session/Outcomes.antt =====
-- What each handler of the session does, on every answer.
use tbd_dev.Prelude.{
  Bool, not, ◌&&◌, if◌then◌else◌, eqb, ap, ◌⊎◌, inl, inr, Bool-cases, String, true, false, Option,
  none, some, ◌≡◌, ◌≢◌, refl, ◌↔◌, arith, truthy,
}
use tbd_dev.Types.Accounts.{TokenResponse, UserInfo}
use tbd_dev.Client.{Reply, ok, api_error, failed, Json}
use tbd_dev.Session.{Session, initial, mount, returned, login, logout, not_confirmed, refresh_user}

-- The token that a sign-in leaves in the storage: the one that it was given, if any.
abbrev pub token_after : Reply TokenResponse → Option String → Option String
token_after (ok res) old = some res.access_token
token_after _ old = old

-- The user that a sign-in leaves: the one that `/auth/me` named, if both requests succeeded.
abbrev pub user_after : Reply TokenResponse → Reply UserInfo → Option UserInfo → Option UserInfo
user_after (ok res) (ok u) old = some u
user_after _ _ old = old

abbrev pub is_ok {ℓ} : {A : Type ℓ} → Reply A → Bool
is_ok (ok a) = true
is_ok _ = false

-- After a page load nobody waits any more, and a user is signed in exactly when the storage holds a
-- token that is not empty and `/auth/me` answered for it; a stored token whose check failed is gone,
-- and otherwise the storage is as it was.
pub mount-initial :
    (stored : Option String) (me : Reply UserInfo)
    → ((mount me (initial stored)).loading ≡ false)
      × ((u : UserInfo)
          → ((mount me (initial stored)).user ≡ some u) ↔ ((truthy stored ≡ true) × (me ≡ ok u)))
      × ((mount me (initial stored)).token
          ≡ (if truthy stored && not (is_ok me) then none else stored))
unfolding mount
mount-initial none me = ground arith
mount-initial (some stored) (ok u) = ground arith
mount-initial (some stored) _ = ground arith

-- A sign-in returns exactly when both of its requests succeed, and then the user is the one that
-- `/auth/me` named; otherwise the user is unchanged. A token that was issued is stored also when the
-- second request fails.
pub login_lem :
    (issued : Reply TokenResponse) (me : Reply UserInfo) (s : Session)
    → (((login issued me s).1 ≡ returned) ↔ ((is_ok issued ≡ true) × (is_ok me ≡ true)))
      × ((login issued me s).0.user ≡ user_after issued me s.user)
      × ((login issued me s).0.token ≡ token_after issued s.token)
unfolding login
login_lem (ok res) (ok u) s = (((λ h. (refl, refl)), λ h. refl), refl, refl)
login_lem (ok res) (api_error n d) s = (((λ h. cc), λ h. cc), refl, refl)
login_lem (ok res) failed s = (((λ h. cc), λ h. cc), refl, refl)
login_lem (api_error n d) me s = (((λ h. cc), λ h. cc), refl, refl)
login_lem failed me s = (((λ h. cc), λ h. cc), refl, refl)

-- A confirmed sign-out undoes a sign-in: nobody is signed in, no token is stored, and a page load
-- restores no user whatever the server answers. Any answer but a confirmation changes nothing but the
-- message.
pub logout_lem :
    (issued : Reply TokenResponse) (me again : Reply UserInfo) (s : Session) (confirmed : Unit {0})
    (r : Reply (Unit {0}))
    → let t = logout (ok confirmed) (login issued me s).0 in
      (t.user ≡ none)
      × (t.token ≡ none)
      × ((mount again (initial t.token)).user ≡ none)
      × ((is_ok r ≡ true) ⊎ (logout r s ≡ record s { logout_error = some not_confirmed }))
unfolding logout mount
logout_lem issued me again s confirmed (ok c) = (refl, refl, refl, inl refl)
logout_lem issued me again s confirmed (api_error n d) = (refl, refl, refl, inr refl)
logout_lem issued me again s confirmed failed = (refl, refl, refl, inr refl)

-- A refresh takes the user that the server names; it signs out on an `ApiError` with status 401; and on
-- every other failure the session is as it was.
pub refresh_user_lem :
    (r : Reply UserInfo) (s : Session)
    → ((v : UserInfo) × (r ≡ ok v) × (refresh_user r s ≡ record s { user = some v }))
      ⊎ (((d : Json) × (r ≡ api_error 401 d)
            × (refresh_user r s ≡ record s { user = none; token = none }))
          ⊎ (((d : Json) → r ≢ api_error 401 d) × (is_ok r ≡ false) × (refresh_user r s ≡ s)))
unfolding refresh_user
refresh_user_lem (ok v) s = inl (v, refl, refl)
refresh_user_lem failed s = inr (inr ((λ d h. cc), refl, refl))
refresh_user_lem (api_error status detail) s = elim (Bool-cases (eqb status 401)) [
  | inl expired ↦
      let same : status ≡ 401 = ground arith in
      inr (inl (detail, ap (λ n. api_error n detail) same, rw expired refl))
  | inr other ↦ inr (inr ((λ d h. ground arith), refl, rw other refl))
]
