-- ===== src/Examples/SessionExamples.antt =====
-- The theorems about the session, applied.
use tbd_dev.Prelude.{
  arith, true, String, Option, is_some, false, none, some, List, [], ◌∷◌, ◌≡◌, ◌↔◌, inl, refl,
}
use tbd_dev.Client.{ok, failed}
use tbd_dev.Session.{Session, initial, login, returned, mount, sync, refresh_user, logout}
use tbd_dev.Session.Outcomes.{login_lem}
use tbd_dev.Session.Consistent.{
  Server, is_answered, loaded, logged_in, logged_out, refreshed, other_tab, wiped, adopted, Op, run,
  step, IsConsistent, Disturbs, Disturbed, run-IsConsistent,
}
use tbd_dev.Examples.Data.{ada, issued_token}

abbrev signed_in : Session
signed_in = record { user = some ada; loading = false; logout_error = none; token = some "jwt" }

login_lem_example :
    (((login (ok issued_token) failed (initial none)).1 ≡ returned)
      ↔ ((true ≡ true) × (false ≡ true)))
    × ((login (ok issued_token) failed (initial none)).0.user ≡ none)
    × ((login (ok issued_token) failed (initial none)).0.token ≡ some "jwt")
login_lem_example = login_lem (ok issued_token) failed (initial none)

abbrev server : Server
server none = failed
server (some token) = ok ada

guarded : (token : Option String) → is_answered (server token) ≡ true → is_some token ≡ true
guarded none h = cc
guarded (some token) h = refl

abbrev visit : List Op
visit =
    loaded
    ∷ logged_in (ok issued_token)
    ∷ other_tab (some "jwt2")
    ∷ refreshed
    ∷ logged_out (ok tt)
    ∷ wiped
    ∷ []

calm : ¬ Disturbed server visit (initial none)
unfolding step mount login sync refresh_user logout
calm h = ground arith

run-IsConsistent_example :
    IsConsistent (run server visit (initial none))
    × (IsConsistent (step server (adopted "jwt3") (run server visit (initial none)))
        ↔ ¬ Disturbs server (adopted "jwt3") (run server visit (initial none)))
run-IsConsistent_example =
    run-IsConsistent server guarded visit (adopted "jwt3") (initial none) (inl refl) calm
