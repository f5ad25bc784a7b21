-- ===== src/Session/Consistent.antt =====
-- When a signed-in user and the stored token belong together, over sequences of the handlers.
use tbd_dev.Prelude.{
  String, true, false, Option, none, some, List, [], ◌∷◌, ◌≡◌, ◌≢◌, refl, ◌↔◌, ◌⊎◌, inl, inr, arith,
  is_some, Bool,
}
use tbd_dev.Types.Accounts.{TokenResponse, UserInfo}
use tbd_dev.Client.{Reply, ok, failed}
use tbd_dev.Session.{Session, initial, mount, login, logout, sync, refresh_user, apply_session}

-- What `/auth/me` answers to a request with the stored token.
abbrev pub Server : Type 0
Server = Option String → Reply UserInfo

-- What can happen to a tab, one thing after another: a handler runs to its end before the next begins.
-- `loaded` is a page load, which starts from the initial state over what is stored. `other_tab` is a
-- change of the stored token by another tab, and `wiped` a clearing of the whole storage by another tab,
-- each followed by its event in this one.
pub data Op : Type 0 where
  loaded refreshed wiped : Op
  logged_in : Reply TokenResponse → Op
  logged_out : Reply (Unit {0}) → Op
  other_tab : Option String → Op
  adopted : String → Op

abbrev me_after : Server → Reply TokenResponse → Reply UserInfo
me_after server (ok res) = server (some res.access_token)
me_after server _ = failed

-- Nobody is signed in without a stored token.
abbrev pub IsConsistent : Session → Type 0
IsConsistent s = (s.user ≡ none) ⊎ (is_some s.token ≡ true)

abbrev pub is_answered : Reply UserInfo → Bool
is_answered (ok u) = true
is_answered _ = false

module _ (server : Server) where
  unfoldable pub step : Op → Session → Session
  step loaded s = mount (server s.token) (initial s.token)
  step refreshed s = refresh_user (server s.token) s
  step wiped s = sync none none (record s { token = none })
  step (logged_in issued) s = (login issued (me_after server issued) s).0
  step (logged_out r) s = logout r s
  step (other_tab new_value) s = sync (some "tbd_token") new_value (record s { token = new_value })
  step (adopted token) s = (apply_session token (server (some token)) s).0

  pub run : List Op → Session → Session
  run [] s = s
  run (op ∷ ops) s = run ops (step op s)

  -- Somebody is signed in while the storage is cleared, or while the adoption of a token fails.
  abbrev pub Disturbs : Op → Session → Type 0
  Disturbs wiped s = is_some s.user ≡ true
  Disturbs (adopted token) s = (is_some s.user ≡ true) × (is_answered (server (some token)) ≡ false)
  Disturbs _ s = ⊥

  abbrev pub Disturbed : List Op → Session → Type 0
  Disturbed [] s = ⊥
  Disturbed (op ∷ ops) s = Disturbs op s ⊎ Disturbed ops (step op s)

  module _
      (guarded : (token : Option String)
        → is_answered (server token) ≡ true
        → is_some token ≡ true) where
    refreshed-IsConsistent :
        (s : Session) (me : Reply UserInfo)
        → server s.token ≡ me
        → IsConsistent s
        → IsConsistent (refresh_user me s)
    unfolding refresh_user
    refreshed-IsConsistent s (ok me) e h = inr (guarded s.token (rw e refl))
    refreshed-IsConsistent s _ e h = ground arith

    mount-IsConsistent :
        (stored : Option String) (me : Reply UserInfo) → IsConsistent (mount me (initial stored))
    unfolding mount
    mount-IsConsistent stored (ok u) = ground arith
    mount-IsConsistent stored _ = ground arith

    login-IsConsistent :
        (issued : Reply TokenResponse) (me : Reply UserInfo) (s : Session)
        → IsConsistent s
        → IsConsistent (login issued me s).0
    unfolding login
    login-IsConsistent issued me s h = ground arith

    adopted_iff :
        (token : String) (me : Reply UserInfo) (s : Session)
        → IsConsistent (apply_session token me s).0
          ↔ ¬ ((is_some s.user ≡ true) × (is_answered me ≡ false))
    unfolding apply_session
    adopted_iff token (ok u) s = ground arith
    adopted_iff token _ s = ground arith

    -- Each step keeps the rule, or breaks it, as it is told.
    step_iff : (op : Op) (s : Session) → IsConsistent s → IsConsistent (step op s) ↔ ¬ Disturbs op s
    unfolding step logout sync
    step_iff loaded s h = (λ k e. e, λ k. mount-IsConsistent s.token (server s.token))
    step_iff refreshed s h = (λ k e. e, λ k. refreshed-IsConsistent s (server s.token) refl h)
    step_iff wiped s h = ground arith
    step_iff (logged_in issued) s h =
        (λ k e. e, λ k. login-IsConsistent issued (me_after server issued) s h)
    step_iff (logged_out r) s h = (λ k e. e, λ k. ground arith)
    step_iff (other_tab none) s h = (λ k e. e, λ k. ground arith)
    step_iff (other_tab (some t)) s h = (λ k e. e, λ k. ground arith)
    step_iff (adopted token) s h = adopted_iff token (server (some token)) s

    -- Handlers run one at a time, and the server names a user only to a request with a token. Over any page
    -- loads, refreshes, sign-ins, sign-outs, adoptions and changes of the storage by other tabs, with any
    -- answers, nobody is signed in without a stored token, if that holds at first and if, while somebody is
    -- signed in, no other tab clears the whole storage and no adoption fails. Then the next of them breaks
    -- the rule exactly if it is one of those two while somebody is signed in.
    pub run-IsConsistent :
        (ops : List Op) (op : Op) (s : Session)
        → IsConsistent s
        → ¬ Disturbed ops s
        → IsConsistent (run ops s)
          × (IsConsistent (step op (run ops s)) ↔ ¬ Disturbs op (run ops s))
    unfolding run
    run-IsConsistent [] op s h quiet = (h, step_iff op s h)
    run-IsConsistent (first ∷ ops) op s h quiet =
        run-IsConsistent ops op (step first s) ((step_iff first s h).1 (λ d. quiet (inl d)))
          (λ d. quiet (inr d))

-- A refresh whose reply comes when the token is gone, after a sign-out here or in another tab, breaks the
-- rule.
late_reply :
    (me : UserInfo) (s : Session) → s.token ≡ none → ¬ IsConsistent (refresh_user (ok me) s)
unfolding refresh_user
late_reply me s gone = ground arith

-- An adoption that fails keeps the user and removes the stored token, so it breaks that rule
-- exactly when somebody is signed in.
pub apply_session_failed :
    (token : String) (me : Reply UserInfo) (s : Session)
    → ((u : UserInfo) → me ≢ ok u)
    → ((apply_session token me s).1 ≡ false)
      × ((apply_session token me s).0 ≡ record s { token = none })
      × (IsConsistent (apply_session token me s).0 ↔ (s.user ≡ none))
unfolding apply_session
apply_session_failed token (ok u) s h = absurd (h u refl)
apply_session_failed token _ s h = (refl, refl, ground arith)
